-- ===== src/Timer/Valid.antt =====
-- src/ns_timer.c: the manager's invariant, and the two changes of the tree.
use nanosig.Base.{
  IsFresh, ℕ, ◌^◌, ◌<◌, ◌≡◌, refl, sym, ◌∙◌, ap, inl, inr, true, false, ◌==◌, arith, Bool-cases,
  ==→eq, ==→ne, subst, ==_refl,
}
use nanosig.Timer.{Timer, Manager, less, link, unlink, set_timer}
use nanosig.Timer.Order.{Tree, IsCut, insert, remove, is_head}
use nanosig.Timer.Queue.{IsTimed, IsQueue, due, due-set, IsQueue-set, IsQueue-IsCut, set_other}
use nanosig.Timer.Insert.{
  due-insert, IsQueue-insert, IsQueue-remove, IsFresh-insert, IsFresh-remove, IsFresh-removed,
}

abbrev pub relinked : Timer → ℕ → Timer
relinked t expire = record t { expire_us = expire; linked = true }

module _ {T : Type 0} (ops : Tree T) where
  -- The clock has not reached 2 ^ 63 microseconds; the tree holds timers in the order of their due
  -- times, none twice; and a timer whose node is empty is not in it.
  pub record IsValid (m : Manager T) : Type 0 where
    pub clock : m.now < 2 ^ 63
    pub queue : IsQueue m.timers m.now (ops.elements m.tree)
    pub idle : (x : ℕ) → (m.timers x).linked ≡ false → IsFresh x (ops.elements m.tree)

  pub unlink-IsValid :
      {m : Manager T} (x : ℕ)
      → IsValid m
      → IsValid (unlink ops m x).0
        × IsFresh x (ops.elements (unlink ops m x).0.tree)
        × (ops.elements (unlink ops m x).0.tree ≡ remove x (ops.elements m.tree))
        × (due (unlink ops m x).0.timers m.now (ops.elements (unlink ops m x).0.tree)
            ≡ due m.timers m.now (remove x (ops.elements m.tree)))
  unfolding unlink
  unlink-IsValid {m} x v = (
    record {
      clock = v.clock;
      queue =
          rw same
            (IsQueue-set m.timers m.now x _ _ gone (IsQueue-remove m.timers m.now x _ v.queue));
      idle = λ y e. elim (Bool-cases (y == x)) [
        | inl is ↦ rw (same, ==→eq _ _ is) gone
        | inr other ↦ rw same (
            IsFresh-remove y x _ (
              v.idle y (
                sym (ap (λ t. t.linked) (set_other m.timers x y _ (λ k. ==→ne _ _ other (sym k))))
                ∙ e)))
      ];
    },
    rw same gone,
    same,
    rw same (due-set m.timers m.now x _ _ gone),
  )
    where
      same : ops.elements (ops.del x m.tree).0 ≡ remove x (ops.elements m.tree)
      same = ops.del_elements x m.tree

      gone : IsFresh x (remove x (ops.elements m.tree))
      gone = IsFresh-removed m.timers m.now x _ v.queue

  pub link-IsValid :
      {m : Manager T} (x expire : ℕ)
      → IsValid m
      → IsFresh x (ops.elements m.tree)
      → IsTimed m.now (relinked (m.timers x) expire)
      → IsValid (link ops m x expire).0
        × (ops.elements (link ops m x expire).0.tree
            ≡ insert (less (link ops m x expire).0.timers m.now) x (ops.elements m.tree))
        × ((link ops m x expire).1 ≡ is_head x (ops.elements (link ops m x expire).0.tree))
        × (m.now < expire
            → due (link ops m x expire).0.timers m.now (ops.elements (link ops m x expire).0.tree)
              ≡ due m.timers m.now (ops.elements m.tree))
  unfolding link
  link-IsValid {m} x expire v f timed = (
    record {
      clock = v.clock;
      queue = rw same (IsQueue-insert tm m.now x _ v.clock here f queue);
      idle = λ y e. elim (Bool-cases (y == x)) [
        | inl is ↦ absurd (
            ground (
              arith,
              sym (ap (λ t. t.linked) (set_this m.timers y x (relinked (m.timers x) expire) is))
                  ∙ e,
            ))
        | inr other ↦ rw same (
            IsFresh-insert (less tm m.now) y x _ (==→ne _ _ other) (
              v.idle y (
                sym (ap (λ t. t.linked) (set_other m.timers x y _ (λ k. ==→ne _ _ other (sym k))))
                ∙ e)))
      ];
    },
    same,
    ops.add_first (less tm m.now) x m.tree f ordered ∙ ap (is_head x) (sym same),
    λ later.
        ap (due tm m.now) same
        ∙ due-insert tm m.now x (ops.elements m.tree) v.clock here
            (subst (λ t. m.now < t.expire_us) (sym this) later) queue
        ∙ due-set m.timers m.now x _ _ f,
  )
    where
      tm : ℕ → Timer
      tm = set_timer m.timers x (relinked (m.timers x) expire)

      set_this : (tms : ℕ → Timer) (y z : ℕ) (t : Timer) → (y == z) ≡ true → set_timer tms z t y ≡ t
      set_this tms y z t e = rw e refl

      this : tm x ≡ relinked (m.timers x) expire
      this = set_this m.timers x x (relinked (m.timers x) expire) (==_refl x)

      here : IsTimed m.now (tm x)
      here = subst (IsTimed m.now) (sym this) timed

      queue : IsQueue tm m.now (ops.elements m.tree)
      queue = IsQueue-set m.timers m.now x _ _ f v.queue

      ordered : IsCut (less tm m.now) x (ops.elements m.tree)
      ordered = IsQueue-IsCut tm m.now x _ v.clock here queue

      same :
          ops.elements (ops.add (less tm m.now) x m.tree).0
          ≡ insert (less tm m.now) x (ops.elements m.tree)
      same = ops.add_elements (less tm m.now) x m.tree f ordered
