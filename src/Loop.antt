-- ===== src/Loop.antt =====
-- src/nanosig.c: the event loop, its queue of slot calls, and the dispatching of the calls.
pub mod Record
pub mod Dispatch
pub mod Pushes
pub mod Run
pub mod Create
pub mod Tests
use nanosig.Base.{
  ℕ, zero, suc, ◌+◌, ◌-◌, Bool, true, false, not, ◌||◌, Option, some, none, List, [], ◌∷◌, ◌++◌,
  if◌then◌else◌, ltb, leb, ◌==◌, length, take, drop, Bytes, word_bytes, load_word, Status, is_ok,
}
use nanosig.Mpsc.Ring.{Ring}
use nanosig.Mpsc.Take.{try_acquire, release}

-- `ns_loop_config_t`; the name is an address.
pub record Config : Type 0 where
  pub queue_byte_capacity : ℕ
  pub flags : ℕ
  pub debug_name : ℕ
  pub stack_size : ℕ

-- `ns_loop_t`. `wakeups` counts what `ns_platform_wakeup_signal` was called for it.
pub record Loop : Type 0 where
  pub wakeups : ℕ
  pub config : Config
  pub queue : Ring
  pub quit_requested : Bool
  pub running : Bool
  pub async_started : Bool
  pub async_rc : Status
  pub created : Bool

-- A call of a slot, as the slot meets it: `none` is a payload pointer that is NULL.
pub record Call : Type 0 where
  pub fn : ℕ
  pub user_data : ℕ
  pub payload : Option Bytes

-- `sizeof(ns_slot_call_t)`, and its bytes.
abbrev pub slot_call_size : ℕ
slot_call_size = 24

pub slot_call_bytes : ℕ → ℕ → ℕ → Bytes
slot_call_bytes fn user_data payload_size =
    word_bytes 8 fn ++ (word_bytes 8 user_data ++ word_bytes 8 payload_size)

-- The call that a record at an offset of the storage stands for.
pub slot_call : Bytes → ℕ → Call
slot_call mem off =
    let payload_size = load_word mem (off + 16) in
    record {
      fn = load_word mem off;
      user_data = load_word mem (off + 8);
      payload =
          if payload_size == 0
          then none
          else some (take payload_size (drop (off + slot_call_size) mem));
    }

abbrev pub ring_or : Ring → Option Ring → Ring
ring_or rg none = rg
ring_or rg (some r) = r

abbrev pub called : Call → Option (Loop × List Call) → Option (Loop × List Call)
called c none = none
called c (some (l, cs)) = some (l, c ∷ cs)

-- `ns_loop_dispatch_pending`, with the calls that it makes in order. `react` is what a slot does to
-- the loop while it runs. `none` is a loop that has not ended.
pub dispatch_pending : ℕ → (Call → Loop → Loop) → Loop → Option (Loop × List Call)
dispatch_pending zero react l = none
dispatch_pending (suc fuel) react l = elim (try_acquire (some l.queue) true true) [
  | none ↦ none
  | some a ↦
      let l1 = record l { queue = ring_or l.queue a.ring } in
      let call = slot_call l1.queue.mem (a.out_record - l1.queue.storage) in
      let whole = leb slot_call_size a.out_size in
      let l2 = if whole then react call l1 else l1 in
      let l3 = record l2 { queue = ring_or l2.queue (release (some l2.queue) a.out_record).1 } in
      let rest = dispatch_pending fuel react l3 in
      if not (is_ok a.status) then some (l1, []) else if whole then called call rest else rest
]
