-- ===== src/Mpsc/Tests.antt =====
-- The record ring at small inputs.
use nanosig.Base.{
  ℕ, ◌+◌, ◌≤◌, ◌<◌, ◌≡◌, refl, ◌⊎◌, some, true, false, List, [], ◌∷◌, arith, replicate, Bytes,
  byte_at, word_at, IsPow2-pow, Status,
}
use nanosig.Mpsc.Meta.{meta_encode_valid}
use nanosig.Mpsc.Meta.Codec.{Reads, meta_encode_valid-Reads}
use nanosig.Mpsc.Ring.{Ring, init, storage_is_aligned}
use nanosig.Mpsc.Ring.Bounds.{IsCapacity}
use nanosig.Mpsc.Ring.Layout.{done}
use nanosig.Mpsc.Ring.Holds.{Holds, payloads}
use nanosig.Mpsc.Ring.Init.{init-Holds}
use nanosig.Mpsc.Push.{Part, try_pushv}
use nanosig.Mpsc.Push.Planning.{HasRoom}
use nanosig.Mpsc.Push.Steps.{after_push, pushed, pushed-Holds}
use nanosig.Mpsc.Push.Refine.{max_payload, try_pushv_lem, try_pushv_empty}
use nanosig.Mpsc.Client.{Op, push, pop, Reply, run, run-Queues, Queues, QueueRun}

-- 32 bytes at address 64.
abbrev fresh : Ring
fresh = record {
  storage = 64;
  mem = replicate 32 0;
  capacity = 32;
  reserve_pos = 0;
  write_pos = 0;
  read_pos = 0;
}

IsCapacity-32 : IsCapacity 32
IsCapacity-32 = record {
  pow2 = IsPow2-pow 5;
  at_least = omega arith;
  at_most = omega arith;
  sixteenths = refl;
}

fresh-Holds : Holds fresh 0 []
fresh-Holds = record {
  ring = record {
    placed = omega arith;
    reachable = omega arith;
    capacity = IsCapacity-32;
    backed = omega arith;
  };
  aligned = refl;
  read = refl;
  write = refl;
  quiet = refl;
  fits = omega arith;
  laid = tt;
}

-- The ring after a push of three bytes.
abbrev three : Bytes
three = 1 ∷ 2 ∷ 3 ∷ []

abbrev one : Ring
one = pushed fresh 0 three

one-Holds : Holds one 0 (done three ∷ [])
one-Holds = pushed-Holds three fresh-Holds (omega arith) (omega arith)

abbrev parts : List Part
parts =
    record { bytes = some (1 ∷ 2 ∷ []); size = 2 }
    ∷ record { bytes = some (3 ∷ 4 ∷ []); size = 1 }
    ∷ []

meta_encode_valid-Reads_example : Reads (meta_encode_valid 16 5) 16 5 0
meta_encode_valid-Reads_example = meta_encode_valid-Reads 16 5 (omega arith) (omega arith)

init-Holds_example :
    (rg : Ring) × (init (some one) 64 (replicate 32 7) 32 ≡ (Status.ns_ok, some rg))
    × Holds rg 0 []
    × ((p : ℕ) → p + 8 ≤ 32 → word_at (byte_at rg.mem) p ≡ 0)
unfolding storage_is_aligned
init-Holds_example =
    init-Holds one 64 (replicate 32 7) 32 (omega arith) refl IsCapacity-32 (omega arith)
      (omega arith)

try_pushv_empty_example :
    (rg : Ring) × (try_pushv (true ∷ false ∷ []) (some fresh) (some parts)
      ≡ some (Status.ns_ok, some rg))
    × Holds rg 0 (done three ∷ [])
try_pushv_empty_example =
    try_pushv_empty (true ∷ false ∷ []) parts fresh-Holds
      ((omega arith, omega arith), ((omega arith, omega arith), tt)) tt (omega arith)

one-Queues : Queues one (three ∷ [])
one-Queues = record {
  position = 0;
  entries = done three ∷ [];
  holds = one-Holds;
  settled = tt;
  records = refl;
}

abbrev script : List Op
script = push (false ∷ []) (5 ∷ 6 ∷ []) ∷ pop ∷ pop ∷ pop ∷ []

run-Queues_example :
    (replies : List Reply) × (rg : Ring) × (q : List Bytes) × (run one script ≡ some (replies, rg))
    × QueueRun (three ∷ []) script replies q
    × Queues rg q
run-Queues_example = run-Queues script one-Queues ((tt, omega arith), (tt, (tt, (tt, tt))))

try_pushv_lem_example :
    ((max_payload one < 3)
      × (try_pushv (false ∷ []) (some one) (some parts) ≡ some (Status.inval, some one)))
    ⊎ ((3 ≤ max_payload one)
        × (¬ HasRoom one 0 (done three ∷ []) 3)
        × (try_pushv (false ∷ []) (some one) (some parts) ≡ some (Status.queue_full, some one)))
    ⊎ ((3 ≤ max_payload one)
        × HasRoom one 0 (done three ∷ []) 3
        × ((rg : Ring) × (try_pushv (false ∷ []) (some one) (some parts)
              ≡ some (Status.ns_ok, some rg))
            × Holds rg 0 (after_push one 0 (done three ∷ []) three)
            × (payloads (after_push one 0 (done three ∷ []) three) ≡ three ∷ three ∷ [])))
try_pushv_lem_example =
    try_pushv_lem (false ∷ []) parts one-Holds
      ((omega arith, omega arith), ((omega arith, omega arith), tt)) tt
