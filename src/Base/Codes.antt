-- ===== src/Base/Codes.antt =====
-- The status codes of include/nanosig/nanosig_status.h.
use mathlib.Core.Bool.{Bool, true, false}
use nanosig.Base.Words.{ℤ, pos, negsuc}

-- `ns_status_t`, in the order of the enum.
pub data Status : Type 0 where
  ns_ok queue_full nomem inval too_many_handles shutdown exists no_loop : Status
  empty corrupt no_timer busy range param timeout : Status

-- The `int` that a code stands for.
abbrev pub status_code : Status → ℤ
status_code ns_ok = pos 0
status_code queue_full = negsuc 0
status_code nomem = negsuc 1
status_code inval = negsuc 2
status_code too_many_handles = negsuc 3
status_code shutdown = negsuc 4
status_code exists = negsuc 5
status_code no_loop = negsuc 6
status_code empty = negsuc 7
status_code corrupt = negsuc 8
status_code no_timer = negsuc 9
status_code busy = negsuc 10
status_code range = negsuc 11
status_code param = negsuc 12
status_code timeout = negsuc 13

-- `rc == NS_OK`.
abbrev pub is_ok : Status → Bool
is_ok ns_ok = true
is_ok _ = false
