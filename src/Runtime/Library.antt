-- ===== src/Runtime/Library.antt =====
-- src/nanosig.c, src/ns_debug.c and src/ns_broker.c: the library with its debug output and its broker,
-- over the platform.
use nanosig.Base.{Bool, true, false, ◌≡◌, refl, sym, ap, if_either, if◌then◌else◌, Status, is_ok}
use nanosig.Runtime.{Parts, Runtime}
use nanosig.Runtime.Whole.{Up, up, IsParts, IsWhole, Op, answer, Says, answer-IsWhole}
use nanosig.Broker.Start.{
  Standing, StartHost, EndHost, global_init, global_shutdown, global_init-g_broker,
  global_shutdown-g_broker,
}

-- What the platform's `ns_platform_init` and `ns_platform_shutdown` do.
pub record Port (P : Type 0) : Type 0 where
  pub init : P → Status × P
  pub shutdown : P → Status × P

-- It is up after a start just where that succeeds, and down after its end.
pub record IsPort {P : Type 0} (port : Port P) (is_up : P → Bool) : Type 0 where
  pub starts : (s : P) → is_up s ≡ false → is_up (port.init s).1 ≡ is_ok (port.init s).0
  pub ends : (s : P) → is_up s ≡ true → is_up (port.shutdown s).1 ≡ false

-- `ns_dbg_mutex_ready` goes into `ns_debug_init`, with what `ns_platform_mutex_init` returns.
pub debug_init : Status → Bool → Status × Bool
debug_init mutex_init ready =
    if ready
    then (Status.exists, ready)
    else if is_ok mutex_init
    then (mutex_init, true)
    else (mutex_init, ready)

pub debug_shutdown : Bool → Bool
debug_shutdown ready = if ready then false else ready

-- The platform, `ns_dbg_mutex_ready`, and what stands of the broker.
pub record Library (P : Type 0) : Type 0 where
  pub platform : P
  pub ns_dbg_mutex_ready : Bool
  pub broker : Standing

-- The calls of `ns_init` and `ns_shutdown`.
pub library_parts :
    {P : Type 0} → Port P → Status → StartHost → EndHost → EndHost → Parts (Library P)
library_parts port mutex_init host unwinding ends = record {
  platform_init = λ s. let (rc, p) = port.init s.platform in (rc, record s { platform = p });
  platform_shutdown =
      λ s. let (rc, p) = port.shutdown s.platform in (rc, record s { platform = p });
  debug_init = λ s.
      let (rc, ready) = debug_init mutex_init s.ns_dbg_mutex_ready in
      (rc, record s { ns_dbg_mutex_ready = ready });
  debug_shutdown = λ s. record s { ns_dbg_mutex_ready = debug_shutdown s.ns_dbg_mutex_ready };
  broker_init =
      λ s. let (rc, b) = global_init host unwinding s.broker in (rc, record s { broker = b });
  broker_shutdown = λ s. record s { broker = global_shutdown ends s.broker };
}

debug_init-ready :
    (mutex_init : Status) (ready : Bool)
    → ready ≡ false
    → (debug_init mutex_init ready).1 ≡ is_ok (debug_init mutex_init ready).0
unfolding debug_init
debug_init-ready mutex_init ready off = rw off (
    if_either (λ (q : Status × Bool). q.1 ≡ is_ok q.0) (is_ok mutex_init) (mutex_init, true)
      (mutex_init, false) (λ good. sym good) (λ bad. sym bad))

debug_shutdown-ready : (ready : Bool) → debug_shutdown ready ≡ false
unfolding debug_shutdown
debug_shutdown-ready true = refl
debug_shutdown-ready false = refl

module _ {P : Type 0} (port : Port P) (is_up : P → Bool) where
  -- Which parts are up: the broker is, where `g_broker` points to it.
  abbrev pub parts_up : Library P → Up
  parts_up s = up (is_up s.platform) s.ns_dbg_mutex_ready s.broker.g_broker

  module _ (v : IsPort port is_up) (mutex_init : Status) (host : StartHost)
      (unwinding ends : EndHost) where
    library-IsParts : IsParts (library_parts port mutex_init host unwinding ends) parts_up
    unfolding library_parts
    library-IsParts = record {
      platform_starts = λ s e.
          joined (v.starts s.platform (ap (λ u. u.platform) e)) (ap (λ u. u.debug) e)
            (ap (λ u. u.broker) e);
      debug_starts = λ s e.
          joined (ap (λ u. u.platform) e)
            (debug_init-ready mutex_init s.ns_dbg_mutex_ready (ap (λ u. u.debug) e))
            (ap (λ u. u.broker) e);
      broker_starts = λ s e.
          joined (ap (λ u. u.platform) e) (ap (λ u. u.debug) e)
            (global_init-g_broker host unwinding s.broker (ap (λ u. u.broker) e));
      broker_ends = λ s e.
          joined (ap (λ u. u.platform) e) (ap (λ u. u.debug) e)
            (global_shutdown-g_broker ends s.broker (ap (λ u. u.broker) e));
      debug_ends = λ s e.
          joined (ap (λ u. u.platform) e) (debug_shutdown-ready s.ns_dbg_mutex_ready)
            (ap (λ u. u.broker) e);
      platform_ends = λ s e.
          joined (v.ends s.platform (ap (λ u. u.platform) e)) (ap (λ u. u.debug) e)
            (ap (λ u. u.broker) e);
    }
      where
        joined : {a b c a' b' c' : Bool} → a ≡ a' → b ≡ b' → c ≡ c' → up a b c ≡ up a' b' c'
        joined x y z = λ i. up (x i) (y i) (z i)

    -- `ns_init` and `ns_shutdown` of the library with its debug output and its broker, whose parts are
    -- all up or all down as its mark says, on a platform that is up after its start just where that
    -- succeeds and down after its end; the debug output is up where its mutex is marked as ready, and
    -- the broker where `g_broker` points to it. Each leaves the library so again, whatever the
    -- platform's other calls return. `ns_init` of a library that is initialised says NS_E_EXISTS and does
    -- nothing, otherwise the library is initialised just where it succeeds. After `ns_shutdown` it
    -- is not initialised, and one that was not is left alone with NS_OK.
    pub library_answer-IsWhole :
        (o : Op) (r : Runtime (Library P))
        → IsWhole parts_up r
        → let out = answer (library_parts port mutex_init host unwinding ends) o r in
          IsWhole parts_up out.1 × Says o r out
    library_answer-IsWhole o r whole = answer-IsWhole library-IsParts o r whole
