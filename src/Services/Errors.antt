-- ===== src/Services/Errors.antt =====
-- What the results of a start and of a kill say.
use rustysd.Prelude.{◌↔◌, ℕ, ◌≡◌, ◌≢◌, refl, arith, Option, none, some}
use rustysd.Units.Id.{UnitId}
use rustysd.Units.Config.{ServiceConfig}
use rustysd.Units.Status.{
  RunCmdError, ServiceErrorReason, poststart_failed, stop_failed, stop_and_poststop_failed,
  poststop_failed, already_has_pgid, already_has_pid,
}
use rustysd.Units.Unit.{Service}
use rustysd.Units.Runtime.{Shared, Result, ok, err, panic}
use rustysd.Units.Lifecycle.{StartResult}
use rustysd.Services.{ServiceCalls, Outcome, after_call, with_poststop, service_kill}

-- Neither of the two errors.
abbrev pub IsOther : {A : Type 0} → Result ServiceErrorReason A → Type 0
IsOther r =
    ((e : RunCmdError) → r ≢ err (poststart_failed e)) × ((n : ℕ) → r ≢ err (already_has_pgid n))

-- A service that has a process, or else a process group, is not started, and nothing changes: the error is the
-- one for a process, with the number of either.
abbrev pub IsRefused : Option ℕ → Option ℕ → Service → Shared → Outcome StartResult → Type 0
IsRefused (some pid) group srvc shared outcome = outcome ≡ (err (already_has_pid pid), srvc, shared)
IsRefused none (some pgid) srvc shared outcome =
    outcome ≡ (err (already_has_pid pgid), srvc, shared)
IsRefused none none srvc shared outcome = Unit

with_poststop-ne :
    (one : RunCmdError → ServiceErrorReason) (two : RunCmdError → RunCmdError → ServiceErrorReason)
    (e : RunCmdError) (r : Result RunCmdError Unit × Service × Shared)
    → (with_poststop {A = Unit {0}} one two e r).0 ≢ ok tt
unfolding with_poststop
with_poststop-ne one two e (ok _, s, sh) = ground arith
with_poststop-ne one two e (err e', s, sh) = ground arith
with_poststop-ne one two e (panic, s, sh) = ground arith

last_call_ok :
    (r : Result RunCmdError Unit × Service × Shared)
    → ((after_call {A = Unit {0}}
          (λ e s sh. (err (poststop_failed e), s, sh))
          (λ s sh. (ok tt, s, sh))
          r).0
        ≡ ok tt)
      ↔ (r.0 ≡ ok tt)
unfolding after_call
last_call_ok (ok _, s, sh) = (λ h. refl, λ h. refl)
last_call_ok (err e, s, sh) = (λ h. absurd (cc), λ h. absurd (cc))
last_call_ok (panic, s, sh) = (λ h. absurd (cc), λ h. absurd (cc))

both_calls_ok :
    (poststop : Service → Shared → Result RunCmdError Unit × Service × Shared)
    (r : Result RunCmdError Unit × Service × Shared)
    → ((after_call {A = Unit {0}}
          (λ e s sh. with_poststop stop_failed stop_and_poststop_failed e (poststop s sh))
          (λ s sh.
            after_call
              (λ e s sh. (err (poststop_failed e), s, sh))
              (λ s sh. (ok tt, s, sh))
              (poststop s sh))
          r).0
        ≡ ok tt)
      ↔ ((r.0 ≡ ok tt) × ((poststop r.1 r.2).0 ≡ ok tt))
unfolding after_call
both_calls_ok poststop (ok _, s, sh) =
    let l = last_call_ok (poststop s sh) in (λ h. (refl, l.0 h), λ h. l.1 h.1)
both_calls_ok poststop (err e, s, sh) = (
  λ h. absurd (with_poststop-ne stop_failed stop_and_poststop_failed e (poststop s sh) h),
  λ h. let k = h.0 in absurd (cc),
)
both_calls_ok poststop (panic, s, sh) = (λ h. absurd (cc), λ h. let k = h.0 in absurd (cc))

-- A kill succeeds exactly when the stop commands and then the poststop commands do.
pub service_kill_ok :
    (calls : ServiceCalls) (conf : ServiceConfig) (id : UnitId) (srvc : Service) (shared : Shared)
    → ((service_kill calls conf id srvc shared).0 ≡ ok tt) ↔ (
        ((calls.run_stop_cmd conf id srvc shared).0 ≡ ok tt)
        × ((calls.run_poststop conf id
              (calls.run_stop_cmd conf id srvc shared).1
              (calls.run_stop_cmd conf id srvc shared).2).0
            ≡ ok tt))
unfolding service_kill
service_kill_ok calls conf id srvc shared =
    both_calls_ok (calls.run_poststop conf id) (calls.run_stop_cmd conf id srvc shared)
