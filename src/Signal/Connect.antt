-- ===== src/Signal/Connect.antt =====
-- `ns_signal_init_raw`, `ns_signal_connect`, `ns_signal_disconnect` and `ns_signal_disconnect_all`.
use nanosig.Base.{
  ℕ, zero, suc, ◌<◌, ◌≡◌, ◌≢◌, refl, sym, ◌∙◌, subst, some, true, List, [], ◌∷◌, ◌++◌, ne→==, arith,
  length, Status, update, update_same, IsFresh, IsFresh-split,
}
use nanosig.Links.{Heap, list_init, push_back, remove_init}
use nanosig.Links.Chain.{flip}
use nanosig.Links.Ring.{IsRing, push_back_lem}
use nanosig.Links.Remove.{remove_init_lem, list_empty_lem, pop_front_lem}
use nanosig.Links.Apart.{
  IsApart, IsApart-one, list_init_lem, pop_front_other, list_init_other, push_back_other,
  remove_init_alone,
}
use nanosig.Signal.{World, Platform, connect, disconnect, disconnect_all, empty_list}
use nanosig.Signal.Emit.{locks_live, unlocks_live}

-- A signal that is initialised, with these connections in order.
pub record Connects (w : World) (signal : ℕ) (xs : List ℕ) : Type 0 where
  pub named : signal ≢ 0
  pub live : (w.signals signal).mutex_initialized ≡ true
  pub ring : IsRing w.heap signal xs

-- Each of these nodes is in no list.
abbrev pub AllAlone : Heap → List ℕ → Type 0
AllAlone h [] = Unit {0}
AllAlone h (x ∷ xs) = IsRing h x [] × AllAlone h xs

module _ (pf : Platform) (locks : pf.mutex_lock ≡ Status.ns_ok) where
  abbrev noted : World → ℕ → ℕ → ℕ → ℕ → ℕ → World
  noted w signal fn target user_data connection = record w {
    connections =
        update w.connections connection
          (record { signal = signal; slot_fn = fn; user_data = user_data; target_loop = target });
    heap = list_init w.heap connection;
  }

  abbrev joined : World → ℕ → ℕ → ℕ → ℕ → ℕ → World
  joined w signal fn target user_data connection =
      record (noted w signal fn target user_data connection) {
        heap = push_back (list_init w.heap connection) signal connection;
      }

  connect_joins :
      (w : World) (signal fn target user_data connection : ℕ)
      → signal ≢ 0
      → (w.signals signal).mutex_initialized ≡ true
      → fn ≢ 0
      → target ≢ 0
      → connection ≢ 0
      → connect pf w signal fn target user_data connection
        ≡ (pf.mutex_unlock, joined w signal fn target user_data connection)
  unfolding connect
  connect_joins w signal fn target user_data connection s live f t c =
      rw
        (
          ne→== signal 0 s,
          ne→== fn 0 f,
          ne→== target 0 t,
          ne→== connection 0 c,
          locks_live pf (noted w signal fn target user_data connection) signal s live ∙ locks,
          unlocks_live pf (noted w signal fn target user_data connection) signal s live,
        )
        refl

  -- `ns_signal_connect` of a connection that the signal does not have, with a function and a loop,
  -- and with a mutex that locks: the connection comes behind the others with its data, the result
  -- is that of the unlocking.
  pub connect_lem :
      {w : World} (signal fn target user_data connection : ℕ) {xs : List ℕ}
      → Connects w signal xs
      → fn ≢ 0
      → target ≢ 0
      → connection ≢ 0
      → IsFresh connection (signal ∷ xs)
      → (w' : World) × (connect pf w signal fn target user_data connection ≡ (pf.mutex_unlock, w'))
        × Connects w' signal (xs ++ connection ∷ [])
        × (w'.connections connection
            ≡ record { signal = signal; slot_fn = fn; user_data = user_data; target_loop = target })
  connect_lem {w} signal fn target user_data connection {xs} v f t c fresh = (
    joined w signal fn target user_data connection,
    connect_joins w signal fn target user_data connection v.named v.live f t c,
    record {
      named = v.named;
      live = v.live;
      ring = push_back_lem connection (list_init_other connection fresh v.ring) c fresh;
    },
    update_same w.connections connection
        (record { signal = signal; slot_fn = fn; user_data = user_data; target_loop = target }),
  )

  -- A signal that shares no node with the two keeps its connections.
  pub connect_other :
      {w : World} (signal fn target user_data connection : ℕ) {xs : List ℕ} {o : ℕ} {ws : List ℕ}
      → Connects w signal xs
      → fn ≢ 0
      → target ≢ 0
      → connection ≢ 0
      → IsFresh connection (signal ∷ xs)
      → IsApart (signal ∷ xs ++ []) (o ∷ ws)
      → IsFresh connection (o ∷ ws)
      → Connects w o ws
      → Connects (connect pf w signal fn target user_data connection).1 o ws
  connect_other {w} signal fn target user_data connection {o = o} {ws = ws} v f t c fresh apart
        alone k =
      subst (λ z. Connects z.1 o ws)
        (sym (connect_joins w signal fn target user_data connection v.named v.live f t c))
        (record {
          named = k.named;
          live = k.live;
          ring =
              push_back_other connection (list_init_other connection fresh v.ring) fresh apart alone
                (list_init_other connection alone k.ring);
        })

  -- `ns_signal_disconnect` of a connection of its signal, with a mutex that locks: the connection
  -- goes out, the others keep their order, and the connection is in no list then.
  pub disconnect_lem :
      {w : World} (signal connection : ℕ) (ys zs : List ℕ)
      → Connects w signal (ys ++ connection ∷ zs)
      → (w.connections connection).signal ≡ signal
      → (w' : World) × (disconnect pf w connection ≡ (pf.mutex_unlock, w'))
        × Connects w' signal (ys ++ zs)
        × IsRing w'.heap connection []
  unfolding disconnect
  disconnect_lem {w} signal connection ys zs v its = (
    parted,
    rw
        (
          ne→== connection 0 (out_of_null ys v.ring),
          its,
          locks_live pf w signal v.named v.live ∙ locks,
          unlocks_live pf w signal v.named v.live,
        )
        refl,
    record { named = v.named; live = v.live; ring = (remove_init_lem connection ys zs v.ring).0 },
    (remove_init_lem connection ys zs v.ring).1,
  )
    where
      parted : World
      parted = record w { heap = remove_init w.heap connection }

      out_of_null : (us : List ℕ) → IsRing w.heap signal (us ++ connection ∷ zs) → connection ≢ 0
      out_of_null us r e = (IsFresh-split 0 us (connection ∷ zs) r.no_null.1).1.0 (sym e)

  -- Disconnecting a connection that is in no list does nothing to any signal.
  pub disconnect_again :
      {w : World} (signal connection : ℕ) {o : ℕ} {ws : List ℕ}
      → IsRing w.heap connection []
      → (w.connections connection).signal ≡ signal
      → (w.signals signal).mutex_initialized ≡ true
      → signal ≢ 0
      → IsFresh connection (o ∷ ws)
      → Connects w o ws
      → (w' : World) × (disconnect pf w connection ≡ (pf.mutex_unlock, w')) × Connects w' o ws
  unfolding disconnect
  disconnect_again {w} signal connection alone its live named f k = (
    record w { heap = remove_init w.heap connection },
    rw
        (
          ne→== connection 0 (λ e. alone.no_null.0 (sym e)),
          its,
          locks_live pf w signal named live ∙ locks,
          unlocks_live pf w signal named live,
        )
        refl,
    record { named = k.named; live = k.live; ring = remove_init_alone connection alone f k.ring },
  )

  empty_list_lem :
      (xs : List ℕ) (fuel : ℕ) {h : Heap} {head : ℕ}
      → IsRing h head xs
      → length xs < fuel
      → (h' : Heap) × (empty_list fuel h head ≡ some h')
        × IsRing h' head []
        × AllAlone h' xs
        × ((o : ℕ) → IsFresh o (head ∷ xs) → IsRing h o [] → IsRing h' o [])
  unfolding empty_list
  empty_list_lem xs zero r enough = absurd (omega arith)
  empty_list_lem [] (suc fuel) {h} r enough =
      (h, rw (list_empty_lem [] r) refl, r, tt, λ o f alone. alone)
  empty_list_lem (x ∷ xs) (suc fuel) {h} {head} r enough =
      let (k, popped, rest) = pop_front_lem (x ∷ xs) r in
      let apart : IsFresh x (head ∷ xs) = (flip r.distinct.0.0, r.distinct.1.0) in
      let (h', run, done, alone, keeps) =
        empty_list_lem xs fuel (list_init_other x apart rest) (omega arith) in
      (
        h',
        rw (list_empty_lem (x ∷ xs) r, popped) run,
        done,
        (keeps x apart (list_init_lem k x (flip r.no_null.1.0)), alone),
        λ o f other.
            keeps o (f.0, f.1.1)
              (list_init_other x (flip f.1.0, tt)
                (pop_front_other r (IsApart-one o (head ∷ x ∷ xs) f) other popped)),
      )

  -- `ns_signal_disconnect_all` with a mutex that locks: it ends, in one round more than there are
  -- connections, and leaves the signal without any; each connection that it had is in no list then.
  pub disconnect_all_lem :
      (fuel : ℕ) {w : World} {signal : ℕ} (xs : List ℕ)
      → Connects w signal xs
      → length xs < fuel
      → (w' : World) × (disconnect_all fuel pf w signal ≡ some (pf.mutex_unlock, w'))
        × Connects w' signal []
        × AllAlone w'.heap xs
  unfolding disconnect_all
  disconnect_all_lem fuel {w} {signal} xs v enough =
      let (h, run, done, alone, _) = empty_list_lem xs fuel v.ring enough in
      (
        record w { heap = h },
        rw
            (
              ne→== signal 0 v.named,
              locks_live pf w signal v.named v.live ∙ locks,
              run,
              unlocks_live pf w signal v.named v.live,
            )
            refl,
        record { named = v.named; live = v.live; ring = done },
        alone,
      )
