-- ===== src/Signal/Tests.antt =====
-- Signals at small inputs: two connections to one loop.
use nanosig.Base.{
  List, ap, ◌∙◌, length, ◌+◌, ◌≡◌, refl, Option, some, true, false, [], ◌∷◌, arith, Bytes, Status,
  is_ok, if◌then◌else◌,
}
use nanosig.Links.{Heap, push_back}
use nanosig.Links.Chain.{chain_first}
use nanosig.Links.Ring.{IsRing, push_back_lem}
use nanosig.Loop.Tests.{idle, idle-Waits}
use nanosig.Signal.{
  emit_loop, call_parts, delivered, World, Platform, disconnect, disconnect_all, emit_raw,
}
use nanosig.Mpsc.Ring.{Ring}
use nanosig.Mpsc.Push.{Part, try_pushv}
use nanosig.Mpsc.Push.Refine.{try_pushv_empty}
use nanosig.Loop.Tests.{leaves_alone, leaves_alone-Appends, fresh_queue, fresh_queue-Holds}
use nanosig.Loop.Record.{length-encode}
use nanosig.Signal.Message.{message, gathered-message, parts-Given}
use nanosig.Signal.Emit.{locks_live, unlocks_live}
use nanosig.Signal.Deliver.{emit_then_dispatch}
use nanosig.Loop.{Loop, dispatch_pending}
use nanosig.Loop.Dispatch.{Waits}
use nanosig.Signal.Got.{AllConnections, Emits}
use nanosig.Signal.Emit.{emit_raw_lem}
use nanosig.Signal.Connect.{Connects, AllAlone, disconnect_lem, disconnect_all_lem}

abbrev platform : Platform
platform = record {
  mutex_init = Status.ns_ok;
  mutex_deinit = Status.ns_ok;
  mutex_lock = Status.ns_ok;
  mutex_unlock = Status.ns_ok;
  rounds = λ c. true ∷ false ∷ [];
}

-- Signal 10 has the connections 20 and 30, both to loop 1.
abbrev world : World
world = record {
  heap = push_back (push_back (record { next = λ a. a; prev = λ a. a }) 10 20) 10 30;
  signals =
      λ s. record { payload_size = 2; slot_capacity = 0; debug_name = 0; mutex_initialized = true };
  connections = λ c. record { signal = 10; slot_fn = 4096 + c; user_data = c; target_loop = 1 };
  loops = λ l. idle;
}

-- The nodes of signal 10, with 20 and with 30.
abbrev first_heap : Heap
first_heap = push_back (record { next = λ a. a; prev = λ a. a }) 10 20

first_heap-IsRing : IsRing first_heap 10 (20 ∷ [])
first_heap-IsRing =
    push_back_lem {xs = []} 20
      (record { chain = (refl, refl); distinct = (tt, tt); no_null = (omega arith, tt) })
      (omega arith) (omega arith, tt)

world-Connects : Connects world 10 (20 ∷ 30 ∷ [])
world-Connects = record {
  named = omega arith;
  live = refl;
  ring = push_back_lem 30 first_heap-IsRing (omega arith) (omega arith, (omega arith, tt));
}

world-AllConnections : AllConnections platform world.connections (20 ∷ 30 ∷ [])
world-AllConnections = (
  record { fn_word = omega arith; user_data_word = omega arith; ends = tt },
  (record { fn_word = omega arith; user_data_word = omega arith; ends = tt }, tt),
)

abbrev two_bytes : Option Bytes
two_bytes = some (5 ∷ 6 ∷ [])

emit_raw_lem_example :
    (s : Status) × (w : World) × (emit_raw 3 platform world 10 two_bytes 2
      ≡ some (if is_ok s then Status.ns_ok else s, w))
    × Emits platform world (λ l. []) two_bytes 2 (20 ∷ 30 ∷ []) s w
emit_raw_lem_example =
    emit_raw_lem platform two_bytes 2 (omega arith, omega arith) 3 10 (20 ∷ 30 ∷ []) world (λ l. [])
      (omega arith) refl refl refl world-Connects.ring world-AllConnections (λ l. idle-Waits)
      (omega arith)

disconnect_lem_example :
    (w : World) × (disconnect platform world 30 ≡ (Status.ns_ok, w))
    × Connects w 10 (20 ∷ [])
    × IsRing w.heap 30 []
disconnect_lem_example = disconnect_lem platform refl 10 30 (20 ∷ []) [] world-Connects refl

disconnect_all_lem_example :
    (w : World) × (disconnect_all 3 platform world 10 ≡ some (Status.ns_ok, w))
    × Connects w 10 []
    × AllAlone w.heap (20 ∷ 30 ∷ [])
disconnect_all_lem_example =
    disconnect_all_lem platform refl 3 (20 ∷ 30 ∷ []) world-Connects (omega arith)

-- With 20 alone, whose record comes into an empty queue.
abbrev world_first : World
world_first = record world { heap = first_heap }

abbrev first_parts : List Part
first_parts = call_parts (world.connections 20) two_bytes 2

pushed_first :
    (rg : Ring) × (try_pushv (true ∷ false ∷ []) (some fresh_queue) (some first_parts)
      ≡ some (Status.ns_ok, some rg))
pushed_first =
    let e = gathered-message (world.connections 20) two_bytes 2 (omega arith, omega arith) in
    let short = length-encode (message (world.connections 20) two_bytes 2) in
    let (rg, run, held) =
      try_pushv_empty (true ∷ false ∷ []) first_parts fresh_queue-Holds
        (parts-Given (world.connections 20) two_bytes 2 (omega arith, omega arith)) tt
        (omega (arith, ap length e, short)) in
    (rg, run)

emitted :
    emit_raw 2 platform world_first 10 two_bytes 2
    ≡ some (Status.ns_ok, delivered world_first 1 (some pushed_first.0))
unfolding emit_raw emit_loop
emitted =
    rw
      (
        locks_live platform world_first 10 (omega arith) refl,
        first_heap-IsRing.chain.0,
        pushed_first.1,
        ap first_heap.next first_heap-IsRing.chain.0
            ∙ chain_first first_heap 20 10 [] first_heap-IsRing.chain.2,
        unlocks_live platform (delivered world_first 1 (some pushed_first.0)) 10 (omega arith) refl,
      )
      refl

emit_then_dispatch_example :
    (l : Loop) × (dispatch_pending 2 leaves_alone
        ((delivered world_first 1 (some pushed_first.0)).loops 1)
      ≡ some (l, record { fn = 4116; user_data = 20; payload = two_bytes } ∷ []))
    × Waits l.queue []
emit_then_dispatch_example =
    emit_then_dispatch platform two_bytes 2 2 10 (20 ∷ []) world_first
      (delivered world_first 1 (some pushed_first.0)) 1 2 (omega arith, omega arith)
      (record { named = omega arith; live = refl; ring = first_heap-IsRing }) refl refl
      (world-AllConnections.0, tt) (λ l. idle-Waits) (omega arith) emitted leaves_alone-Appends
      (omega arith)
