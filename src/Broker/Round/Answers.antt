-- ===== src/Broker/Round/Answers.antt =====
-- src/ns_broker.c: the requests that are queued are answered, once each and in order.
use nanosig.Base.{◌≡◌, true, Option, some, List, [], ◌∷◌, ◌++◌, map, is_ok}
use nanosig.Broker.{Request, Reply, Waitset, Broker, Completion}
use nanosig.Broker.Round.{Turn, Drained}

abbrev pub arrivals_of : List Turn → List Request
arrivals_of [] = []
arrivals_of (t ∷ turns) = t.arrivals ++ arrivals_of turns

abbrev pub AllLock : List Turn → Type 0
AllLock [] = Unit {0}
AllLock (t ∷ turns) = (is_ok t.lock ≡ true) × AllLock turns

module _ {S : Type 0} (ws : Waitset S) where
  -- A drained queue, with the requests that were answered.
  abbrev IsAnswered : List Request → List Turn → Option (Drained ws) → Type 0
  IsAnswered queue turns o =
      (b : Broker S) × (cs : List Completion) × (answers : List Reply) × (used : List Turn)
      × (rest : List Turn) × (o ≡ some (b, cs, answers))
      × (b.op_queue ≡ [])
      × (turns ≡ used ++ rest)
      × (map (λ (a : Reply). a.request) answers ≡ queue ++ arrivals_of used)
