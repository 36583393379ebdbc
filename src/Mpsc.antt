-- ===== src/Mpsc.antt =====
-- src/ds/ns_mpsc_record_ring.c on a 64-bit target (SIZE_MAX > UINT32_MAX): a ring of records of any
-- size, for many producers and one consumer. Each function is one thread's run of it with no other
-- thread between its steps. The memory orders have no effect there. The log messages are left out.
pub mod Meta
pub mod Ring
pub mod Push
pub mod Take
pub mod Client
mod Tests
