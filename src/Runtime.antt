-- ===== src/Runtime.antt =====
-- src/nanosig.c: the library's start and end, `ns_init` and `ns_shutdown`.
pub mod Whole
pub mod Library
mod Tests
use nanosig.Base.{Bool, true, false, not, if◌then◌else◌, Status, is_ok}

-- The calls that start and end the library's parts, on a state that they share.
pub record Parts (S : Type 0) : Type 0 where
  pub platform_init : S → Status × S
  pub platform_shutdown : S → Status × S
  pub debug_init : S → Status × S
  pub debug_shutdown : S → S
  pub broker_init : S → Status × S
  pub broker_shutdown : S → S

-- `g_ns_initialized` and the parts.
pub record Runtime (S : Type 0) : Type 0 where
  pub initialized : Bool
  pub parts : S

pub runtime_is_initialized : {S : Type 0} → Runtime S → Bool
runtime_is_initialized r = r.initialized

-- `ns_init`.
pub init_runtime : {S : Type 0} → Parts S → Runtime S → Status × Runtime S
init_runtime {S} p r =
    let (rc1, s1) = p.platform_init r.parts in
    let (rc2, s2) = p.debug_init s1 in
    let (rc3, s3) = p.broker_init s2 in
    let out_platform : S → S = λ s. (p.platform_shutdown s).1 in
    let out_debug : S → S = λ s. out_platform (p.debug_shutdown s) in
    if runtime_is_initialized r
    then (Status.exists, r)
    else if not (is_ok rc1)
    then (rc1, record r { parts = s1 })
    else if not (is_ok rc2)
    then (rc2, record r { parts = out_platform s2 })
    else if not (is_ok rc3)
    then (rc3, record r { parts = out_debug s3 })
    else (Status.ns_ok, record { initialized = true; parts = s3 })

-- `ns_shutdown`.
pub shutdown_runtime : {S : Type 0} → Parts S → Runtime S → Status × Runtime S
shutdown_runtime p r =
    let (rc, s) = p.platform_shutdown (p.debug_shutdown (p.broker_shutdown r.parts)) in
    if not (runtime_is_initialized r)
    then (Status.ns_ok, r)
    else (rc, record { initialized = false; parts = s })
