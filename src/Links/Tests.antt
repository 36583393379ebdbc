-- ===== src/Links/Tests.antt =====
-- The lists at small inputs.
use nanosig.Base.{refl, ◌≡◌, false, [], ◌∷◌, arith, if◌then◌else◌, ◌==◌}
use nanosig.Links.{Heap, push_back, remove_init}
use nanosig.Links.Single.{Slist, slist_push_back, IsSlist, slist_push_back_lem}
use nanosig.Links.Ring.{IsRing, push_back_lem}
use nanosig.Links.Remove.{remove_init_lem}

-- Every node is an empty list of its own.
abbrev apart : Heap
apart = record { next = λ a. a; prev = λ a. a }

apart-IsRing : IsRing apart 10 []
apart-IsRing = record { chain = (refl, refl); distinct = (tt, tt); no_null = (omega arith, tt) }

abbrev one : Heap
one = push_back apart 10 20

one-IsRing : IsRing one 10 (20 ∷ [])
one-IsRing = push_back_lem 20 apart-IsRing (omega arith) (omega arith, tt)

two-IsRing : IsRing (push_back one 10 30) 10 (20 ∷ 30 ∷ [])
two-IsRing = push_back_lem 30 one-IsRing (omega arith) (omega arith, (omega arith, tt))

remove_init_lem_example :
    IsRing (remove_init (push_back one 10 30) 20) 10 (30 ∷ [])
    × IsRing (remove_init (push_back one 10 30) 20) 20 []
remove_init_lem_example = remove_init_lem 20 [] (30 ∷ []) two-IsRing

-- The nodes 5 and 6 in a list.
abbrev two : Slist
two = record { next = λ a. if a == 5 then 6 else 0; first = 5; last = 6 }

two-IsSlist : IsSlist two (5 ∷ 6 ∷ [])
two-IsSlist = record {
  run = (refl, omega arith, (refl, omega arith, refl));
  end = refl;
  distinct = ((omega arith, tt), (tt, tt));
}

slist_push_back_lem_example :
    ((slist_push_back two 8).0 ≡ false) × IsSlist (slist_push_back two 8).1 (5 ∷ 6 ∷ 8 ∷ [])
slist_push_back_lem_example =
    slist_push_back_lem two 8 (5 ∷ 6 ∷ []) two-IsSlist (omega arith)
      (omega arith, (omega arith, tt))
