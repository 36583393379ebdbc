-- ===== src/Loop/Tests.antt =====
-- The event loop at small inputs.
use nanosig.Base.{
  ◌^◌, ◌<◌, inl, inr, Option, Bool-cases, length, is_ok, none, refl, sym, subst, some, true, false,
  [], ◌∷◌, append-nil, arith, replicate, IsPow2-pow, Status,
}
use nanosig.Mpsc.Ring.{storage_is_aligned, Ring}
use nanosig.Mpsc.Ring.Holds.{Holds}
use nanosig.Mpsc.Push.Steps.{pushed}
use nanosig.Loop.{Loop, Call}
use nanosig.Loop.Record.{encode, IsCall, length-encode}
use nanosig.Loop.Run.{Wait, run_impl}
use nanosig.Loop.Run.Ends.{EndsWell, run_impl_ends}
use nanosig.Loop.Run.Serves.{Brings, Schedule, more, last}
use nanosig.Loop.Create.{Host, config_or, create}
use nanosig.Loop.Create.Whole.{Created, create_lem}
use nanosig.Loop.Pushes.{push_out, push_to, taken, taken_of, push_to-Waits}
use nanosig.Loop.Dispatch.{Waits, Appends}

-- 128 bytes at address 64.
abbrev pub fresh_queue : Ring
fresh_queue = record {
  storage = 64;
  mem = replicate 128 0;
  capacity = 128;
  reserve_pos = 0;
  write_pos = 0;
  read_pos = 0;
}

pub fresh_queue-Holds : Holds fresh_queue 0 []
fresh_queue-Holds = record {
  ring = record {
    placed = omega arith;
    reachable = omega arith;
    capacity = record {
      pow2 = IsPow2-pow 7;
      at_least = omega arith;
      at_most = omega arith;
      sixteenths = refl;
    };
    backed = omega arith;
  };
  aligned = refl;
  read = refl;
  write = refl;
  quiet = refl;
  fits = omega arith;
  laid = tt;
}

abbrev pub idle : Loop
idle = record {
  wakeups = 0;
  config = record { queue_byte_capacity = 128; flags = 0; debug_name = 0; stack_size = 0 };
  queue = fresh_queue;
  quit_requested = false;
  running = false;
  async_started = false;
  async_rc = Status.ns_ok;
  created = true;
}

pub idle-Waits : Waits idle.queue []
idle-Waits = record {
  queues = record {
    position = 0;
    entries = [];
    holds = fresh_queue-Holds;
    settled = tt;
    records = refl;
  };
  calls = tt;
}

-- A call with two bytes, in the queue.
abbrev call : Call
call = record { fn = 4096; user_data = 7; payload = some (1 ∷ 2 ∷ []) }

abbrev busy_loop : Loop
busy_loop = record idle { queue = pushed fresh_queue 0 (encode call) }

-- Slots that leave the loop alone.
abbrev pub leaves_alone : Call → Loop → Loop
leaves_alone c l = l

pub leaves_alone-Appends : Appends leaves_alone (λ c l. [])
leaves_alone-Appends = record {
  calls = λ c l. tt;
  behind = λ c l {r} {es} h s.
      ([], subst (Holds l.queue r) (sym (append-nil es)) h, tt, refl, refl, refl);
}

-- A call without a payload, which the slot at 4096 pushes.
abbrev second : Call
second = record { fn = 8192; user_data = 9; payload = none }

second-IsCall : IsCall second
second-IsCall = record { fn_word = omega arith; user_data_word = omega arith; payload_fits = tt }

second-short : length (encode second) < 2 ^ 64
second-short = omega (arith, length-encode second)

-- A wait in which another thread asks the loop to quit, and one in which it pushes a call.
abbrev asks : Wait
asks = record { status = Status.ns_ok; meanwhile = λ l. record l { quit_requested = true } }

abbrev brings : Wait
brings = record { status = Status.ns_ok; meanwhile = push_to second }

asks-Brings : Brings 2 asks.meanwhile (λ l. []) true
asks-Brings = record { queue = λ l v. v; few = λ l v. omega arith; quit = λ l. refl }

length-taken : (l : Loop) → length (taken second l) < 2
length-taken l = cases (push_out second l)
  where
    cases : (o : Option (Status × Option Ring)) → length (taken_of second o) < 2
    cases none = omega arith
    cases (some (s, rg)) = elim (Bool-cases (is_ok s)) [
      | inl e ↦ rw e (omega arith)
      | inr e ↦ rw e (omega arith)
    ]

second-Brings : Brings 2 (push_to second) (taken second) false
second-Brings = record {
  queue = λ l v. push_to-Waits second second-IsCall second-short l [] v;
  few = λ l v. length-taken l;
  quit = λ l. refl;
}

abbrev schedule : Schedule 2 (brings ∷ asks ∷ [])
schedule = more (taken second) second-Brings (last (λ l. []) asks-Brings)

run_impl_ends_example :
    EndsWell true busy_loop (run_impl 2 leaves_alone (brings ∷ asks ∷ []) true (some busy_loop))
run_impl_ends_example = run_impl_ends 2 leaves_alone (brings ∷ asks ∷ []) true busy_loop

-- A platform that allocates at 4096.
abbrev host : Host
host = record {
  stack_range = Status.ns_ok;
  stack_min = 0;
  stack_max = 0;
  struct_size = 160;
  alloc = λ size. 4096;
  memory = idle;
  bytes = replicate 1024 0;
  wakeup_init = Status.ns_ok;
  wakeup_deinit = Status.ns_ok;
}

create_lem_example :
    Created host true (config_or none) (λ a. none) (create host true true none (λ a. none))
unfolding storage_is_aligned
create_lem_example =
    create_lem none
      (record { unused = refl; aligned = refl; backed = omega arith; reachable = omega arith }) true
      true
