-- ===== src/Loop/Run/Serves.antt =====
-- src/nanosig.c: a run that serves what comes in.
use nanosig.Base.{
  ℕ, ◌<◌, Bool, true, false, ◌||◌, ◌≡◌, Option, some, none, List, [], ◌∷◌, ◌++◌, length, Status,
}
use nanosig.Loop.{Loop, Call}
use nanosig.Loop.Dispatch.{Waits}
use nanosig.Loop.Run.{Wait, Ran, ran_behind}

-- What other threads do to a loop whose queue is empty: they bring these calls, fewer than `fuel`,
-- which depend on the loop, whose queue may refuse some; and they may ask it to quit.
pub record Brings (fuel : ℕ) (meanwhile : Loop → Loop) (brought : Loop → List Call) (quits : Bool)
    : Type 0 where
  pub queue : (l : Loop) → Waits l.queue [] → Waits (meanwhile l).queue (brought l)
  pub few : (l : Loop) → Waits l.queue [] → length (brought l) < fuel
  pub quit : (l : Loop) → (meanwhile l).quit_requested ≡ (quits || l.quit_requested)

-- Waits that return well, up to one in which quitting is asked for.
pub data Schedule (fuel : ℕ) : List Wait → Type 0 where
  last :
      {meanwhile : Loop → Loop} (brought : Loop → List Call) {ws : List Wait}
      → Brings fuel meanwhile brought true
      → Schedule fuel (record { status = Status.ns_ok; meanwhile = meanwhile } ∷ ws)
  more :
      {meanwhile : Loop → Loop} (brought : Loop → List Call) {ws : List Wait}
      → Brings fuel meanwhile brought false
      → Schedule fuel ws
      → Schedule fuel (record { status = Status.ns_ok; meanwhile = meanwhile } ∷ ws)

-- Slots that leave the marks of the loop.
abbrev pub KeepsQuit : (Call → Loop → Loop) → Type 0
KeepsQuit react = (c : Call) (l : Loop) → (react c l).quit_requested ≡ l.quit_requested

-- The marks after a dispatching.
abbrev Marked : Bool → Option (Loop × List Call) → Type 0
Marked b none = Unit {0}
Marked b (some (l, cs)) = l.quit_requested ≡ b

-- A run that ends with NS_OK after these calls, with an empty queue, and the loop free for another
-- run.
abbrev pub Ended : Option Ran → List Call → Type 0
Ended o cs =
    (k : Loop) × (o ≡ some (Status.ns_ok, some k, cs))
    × Waits k.queue []
    × (k.running ≡ false)
    × (k.quit_requested ≡ false)

-- A run in which the calls cs wait: it makes them, and then, from a wait at which its queue is empty,
-- those that the wait brings, and so on up to those of the wait in which quitting is asked for.
abbrev pub Served :
    {fuel : ℕ} {waits : List Wait} → Schedule fuel waits → List Call → Option Ran → Type 0
Served (last brought b) cs o = (l : Loop) × Waits l.queue [] × Ended o (cs ++ brought l)
Served (more brought b rest) cs o =
    (l : Loop) × Waits l.queue []
    × (out : Option Ran) × (o ≡ ran_behind cs out)
    × Served rest (brought l) out
