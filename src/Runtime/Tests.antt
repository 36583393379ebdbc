-- ===== src/Runtime/Tests.antt =====
-- The library's start and end over a platform that notes whether it is up.
use nanosig.Base.{Bool, true, false, refl, Status}
use nanosig.Broker.Start.{StartHost, EndHost, all_stands}
use nanosig.Runtime.{Runtime}
use nanosig.Runtime.Whole.{IsWhole, shutdown_op, answer, Says}
use nanosig.Runtime.Library.{Port, IsPort, Library, library_parts, parts_up, library_answer-IsWhole}

abbrev port : Port Bool
port = record { init = λ s. (Status.ns_ok, true); shutdown = λ s. (Status.ns_ok, false) }

port-IsPort : IsPort port (λ s. s)
port-IsPort = record { starts = λ s e. refl; ends = λ s e. refl }

-- A broker that starts, and whose waitset cannot be taken down.
abbrev host : StartHost
host = record {
  alloc = true;
  waitset_init = Status.ns_ok;
  event_init = Status.ns_ok;
  waitset_add = Status.ns_ok;
  mutex_init = Status.ns_ok;
  timer_mgr_init = Status.ns_ok;
  thread_init = Status.ns_ok;
}

abbrev ends : EndHost
ends = record {
  thread_join = Status.ns_ok;
  waitset_remove = Status.ns_ok;
  waitset_deinit = Status.exists;
  event_deinit = Status.ns_ok;
  mutex_deinit = Status.ns_ok;
}

abbrev running : Runtime (Library Bool)
running = record {
  initialized = true;
  parts = record { platform = true; ns_dbg_mutex_ready = true; broker = all_stands };
}

library_answer-IsWhole_example :
    let out = answer (library_parts port Status.ns_ok host ends ends) shutdown_op running in
    IsWhole (parts_up port (λ s. s)) out.1 × Says shutdown_op running out
library_answer-IsWhole_example =
    library_answer-IsWhole port (λ s. s) port-IsPort Status.ns_ok host ends ends shutdown_op running
      refl
