-- ===== src/Tests/Services.antt =====
-- The theorems on starting and killing a service, applied to calls of which the poststart fails.
use rustysd.Prelude.{some, []}
use rustysd.Units.Status.{generic}
use rustysd.Units.Unit.{Service}
use rustysd.Units.Runtime.{Shared, ok, err}
use rustysd.Services.{ServiceCalls}
use rustysd.Tests.Samples.{conf, srvc}

abbrev calls : ServiceCalls
calls = record {
  prepare_service = λ conf id s sh. (ok tt, s, sh);
  run_prestart = λ conf id s sh. (ok tt, s, sh);
  start_service = λ conf id s sh. (ok tt, s, sh);
  wait_for_service = λ conf id s sh. (ok tt, s, sh);
  run_poststart = λ conf id s sh. (err (generic "poststart"), s, sh);
  run_stop_cmd = λ conf id s sh. (ok tt, s, sh);
  run_poststop = λ conf id s sh. (ok tt, s, sh);
}

abbrev shared : Shared
shared = record { pid_table = []; global = []; clock = 0; notified = 0 }

-- The process is gone, its group is left.
abbrev left_over : Service
left_over = record srvc { process_group = some 7 }
