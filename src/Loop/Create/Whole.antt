-- ===== src/Loop/Create/Whole.antt =====
-- src/nanosig.c: `ns_loop_create` makes a loop that can run, or leaves nothing behind.
use nanosig.Base.{
  ◌==◌, ℕ, ◌+◌, ◌≤◌, ◌<◌, ◌^◌, Bool, true, false, not, ◌≡◌, ◌≢◌, refl, sym, ◌∙◌, ap, subst, inl,
  inr, Option, some, none, [], if◌then◌else◌, if_either, not-true, not-false, ==→eq, ==→ne,
  Bool-cases, arith, length, Bytes, update, update_same, update_other, Status, is_ok,
}
use nanosig.Mpsc.Ring.{Ring, init, capacity_is_valid, storage_is_aligned}
use nanosig.Mpsc.Ring.Bounds.{capacity_is_valid_iff}
use nanosig.Mpsc.Ring.Init.{init-Holds, init_refuses}
use nanosig.Loop.{Config, Loop, ring_or}
use nanosig.Loop.Dispatch.{Waits}
use nanosig.Loop.Create.{Host, Store, config_validate, config_or, create}

-- What an allocation of this size promises: NULL, or memory that no loop has, with the bytes
-- behind the structure where a ring can stand.
pub record Allocates (host : Host) (capacity : ℕ) (st : Store) : Type 0 where
  pub unused : st (host.alloc (host.struct_size + capacity)) ≡ none
  pub aligned :
      storage_is_aligned (host.alloc (host.struct_size + capacity) + host.struct_size) ≡ true
  pub backed : capacity ≤ length host.bytes
  pub reachable : host.alloc (host.struct_size + capacity) + host.struct_size + capacity < 2 ^ 64

-- A loop that can run: with this configuration, an empty queue, and no marks.
pub record IsFreshLoop (l : Loop) (config : Config) : Type 0 where
  pub configured : l.config ≡ config
  pub empty : Waits l.queue []
  pub stays : l.quit_requested ≡ false
  pub idle : l.running ≡ false
  pub no_thread : l.async_started ≡ false

-- The ways that a creation ends: with nothing left behind, or with a fresh loop.
pub data Created (host : Host) (given : Bool) (config : Config) (st : Store)
    (out : Status × ℕ × Store) : Type 0 where
  failed :
      is_ok out.0 ≡ false
      → out.1 ≡ 0
      → ((a : ℕ) → out.2 a ≡ st a)
      → Created host given config st out
  made :
      (loop : ℕ) (l : Loop)
      → loop ≡ host.alloc (host.struct_size + config.queue_byte_capacity)
      → loop ≢ 0
      → out.0 ≡ Status.ns_ok
      → out.1 ≡ (if given then loop else 0)
      → out.2 loop ≡ some l
      → IsFreshLoop l config
      → ((a : ℕ) → a ≢ loop → out.2 a ≡ st a)
      → Created host given config st out

-- What was put where nothing was and taken out again is gone.
put_and_freed :
    (st : Store) (a : ℕ) (l : Option Loop)
    → st a ≡ none
    → (b : ℕ) → update (update st a l) a none b ≡ st b
put_and_freed st a l e b = elim (Bool-cases (b == a)) [
  | inl same ↦ rw same (sym (ap st (==→eq b a same) ∙ e))
  | inr other ↦ rw other refl
]

-- A ring that was set up, in the words of its calls.
ring_made :
    (old : Ring) (storage : ℕ) (bytes : Bytes) (c : ℕ)
    → storage ≢ 0
    → storage_is_aligned storage ≡ true
    → c ≤ length bytes
    → storage + c < 2 ^ 64
    → is_ok (init (some old) storage bytes c).0 ≡ true
    → Waits (ring_or old (init (some old) storage bytes c).1) []
ring_made old storage bytes c named ready backed reach good =
    elim (Bool-cases (capacity_is_valid c)) [
      | inl fits ↦
          let (rg, e, h, _) =
            init-Holds old storage bytes c named ready ((capacity_is_valid_iff c).0 fits) backed
              reach in
          subst (λ o. Waits (ring_or old o.1) []) (sym e)
            (record {
              queues = record {
                position = 0;
                entries = [];
                holds = h;
                settled = tt;
                records = refl;
              };
              calls = tt;
            })
      | inr bad ↦
          let refuses : init (some old) storage bytes c ≡ (Status.inval, some old) =
            init_refuses old storage bytes c
              (inr (inr (λ v. absurd (true_or_false ((capacity_is_valid_iff c).1 v) bad)))) in
          absurd (true_or_false good (ap (λ o. is_ok o.0) refuses))
    ]
  where
    true_or_false : {b : Bool} → b ≡ true → b ≡ false → ⊥
    true_or_false e f = absurd (omega (arith, ap {B = ℕ} (λ b. if b then 1 else 0) (sym e ∙ f)))

module _ {host : Host} {st : Store} (config : Option Config)
    (a : Allocates host (config_or config).queue_byte_capacity st) (given : Bool) where
  -- `ns_loop_create`, of a library that is initialised or not: either it fails, `*out_loop` is NULL
  -- and no memory stays allocated, or it gives the address of a loop with the configuration (the
  -- default one for NULL), an empty queue, and no marks. The other loops stay as they are.
  pub create_lem :
      (initialized : Bool)
      → Created host given (config_or config) st (create host initialized given config st)
  unfolding create
  create_lem initialized =
      if_either Q (not initialized) _ _ (λ _. failed refl refl (λ b. refl))
        (λ _.
          if_either Q (not (is_ok (config_validate host (some (config_or config))))) _ _
            (λ bad. failed (not-true _ bad) refl (λ b. refl))
            (λ _.
              if_either Q (loop == 0) _ _ (λ _. failed refl refl (λ b. refl))
                (λ named.
                  if_either Q
                    (not (
                      is_ok
                        (init (some host.memory.queue) (loop + host.struct_size) host.bytes
                          (config_or config).queue_byte_capacity).0))
                    _ _ (λ bad. failed (not-true _ bad) refl (put_and_freed st loop _ a.unused))
                    (λ good.
                      if_either Q (not (is_ok host.wakeup_init)) _ _
                        (λ bad. failed (not-true _ bad) refl (put_and_freed st loop _ a.unused))
                        (λ _.
                          made loop _ refl (==→ne loop 0 named) refl refl (update_same st loop _)
                            (record {
                              configured = refl;
                              empty =
                                  ring_made host.memory.queue (loop + host.struct_size) host.bytes
                                    (config_or config).queue_byte_capacity
                                    (omega (arith, ==→ne loop 0 named)) a.aligned a.backed
                                    a.reachable (not-false _ good);
                              stays = refl;
                              idle = refl;
                              no_thread = refl;
                            })
                            (λ b other. update_other st loop _ b other))))))
    where
      loop : ℕ
      loop = host.alloc (host.struct_size + (config_or config).queue_byte_capacity)

      Q : Status × ℕ × Store → Type 0
      Q out = Created host given (config_or config) st out
