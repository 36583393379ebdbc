-- ===== src/Ringbuf/Tests.antt =====
-- Runs of the byte ring on small inputs, and the theorems at concrete rings.
use nanosig.Base.{◌≡◌, refl, some, none, arith, List, [], ◌∷◌, pos}
use nanosig.Ringbuf.{Ringbuf}
use nanosig.Ringbuf.Inv.{IsValid, contents}
use nanosig.Ringbuf.Client.{
  Op, put, get, discard, look, ask, wipe, run, run_refines, queue_run, queue_call,
}

-- Three bytes of storage; 8 and 9 go round its end.
abbrev wrapped : Ringbuf
wrapped = record { buf = 9 ∷ 7 ∷ 8 ∷ []; size = 3; w = 4; r = 2 }

wrapped-IsValid : IsValid wrapped
wrapped-IsValid = omega arith

contents-wrapped : contents wrapped ≡ 8 ∷ 9 ∷ []
contents-wrapped = refl

abbrev script : List Op
script = put (1 ∷ 2 ∷ []) ∷ look 1 2 ∷ get 2 ∷ ask ∷ discard 5 ∷ wipe ∷ []

run_refines_example : run (some wrapped) script ≡ queue_run 3 (8 ∷ 9 ∷ []) script
run_refines_example = run_refines script wrapped-IsValid

queue_run-script :
    queue_run 3 (8 ∷ 9 ∷ []) script
    ≡ (pos 1, none)
      ∷ (pos 2, some (9 ∷ 1 ∷ []))
      ∷ (pos 2, some (8 ∷ 9 ∷ []))
      ∷ (pos 1, none)
      ∷ (pos 1, none)
      ∷ (pos 0, none)
      ∷ []
unfolding queue_run queue_call
queue_run-script = refl
