-- ===== src/Workflow/Leases.antt =====
-- `heartbeat_live_runs` and `reap_stale_runs` of backend/app/services/workflow.py. Between the
-- select and the claim of each run other workers may renew their leases. The cutoff is not formed,
-- since it may lie before the origin of the clock: a beat is before it when the beat and
-- `stale_after` come to less than the time of the select.
pub mod Renewal
use lycosa.Prelude.{
  ℕ, zero, suc, ◌+◌, ◌-◌, ◌*◌, ◌/◌, ◌^◌, ◌≤◌, ◌<◌, min, max, Bool, true, false, not, ◌&&◌, ◌||◌,
  Option, none, some, List, [], ◌∷◌, ◌++◌, map, append-nil, append_assoc, Text, text, String,
  length, take, drop, get_elem?, length-append, length-map, length-take-le, All, All-append, any,
  keep_if, is_in, ltb, leb, nat_beq, if◌then◌else◌, ltb→lt, lt→ltb, leb→le, le→leb, nat_beq_iff,
  Bool-cases, Option-cases, Comparable, ◌==◌, nat_comparable, text_beq, text_beq_iff,
  text_comparable, beq_refl, beq_false, ◌≡◌, refl, sym, ap, ◌∙◌, subst, ◌≢◌, ◌↔◌, ◌⊎◌, inl, inr,
  starts_with, contains, join, arith,
}
use lycosa.Workflow.Execution.{
  RunStatus, running, paused, succeeded, failed, step_running, step_failed, StepRun, Run, Event,
  finished, alert, Audited, run_finished,
}

-- A row of workflow_runs, with its rows of workflow_step_runs.
pub record RunRow : Type 0 where
  pub run : Run
  pub started_at : ℕ
  pub step_runs : List StepRun

-- An entry of the audit log: `workflow.run.reaped` with its detail, or another.
pub data LeaseAudit : Type 0 where
  run_reaped :
      (run_id : ℕ) → (step : Option Text) → (last_heartbeat : ℕ) → (stale_after : ℕ) → LeaseAudit
  audited : ℕ → Audited → LeaseAudit

pub record LeaseTables : Type 0 where
  pub rows : List RunRow
  pub audits : List LeaseAudit
  pub events : List Event

abbrev pub is_running : RunStatus → Bool
is_running running = true
is_running _ = false

-- `coalesce(heartbeat_at, started_at)`
abbrev pub last_beat : RunRow → ℕ
last_beat row = elim row.run.heartbeat_at [ none ↦ row.started_at | some t ↦ t ]

unfoldable pub is_stale : ℕ → ℕ → RunRow → Bool
is_stale now stale_after row = is_running row.run.status && ltb (last_beat row + stale_after) now

-- The select of `reap_stale_runs`.
unfoldable pub select_stale : ℕ → ℕ → List RunRow → List RunRow
select_stale now stale_after rows = keep_if (is_stale now stale_after) rows

-- The `where` and the `values` of the heartbeat's update.
abbrev pub is_beaten : List ℕ → RunRow → Bool
is_beaten live row = is_in row.run.id live && is_running row.run.status

unfoldable pub beat : List ℕ → ℕ → RunRow → RunRow
beat live now row =
    if is_beaten live row
    then record row { run = record row.run { heartbeat_at = some now } }
    else row

unfoldable pub heartbeat_live_runs : List ℕ → ℕ → List RunRow → ℕ × List RunRow
unfolding beat
heartbeat_live_runs [] now rows = (0, rows)
heartbeat_live_runs (id ∷ live) now rows =
    (length (keep_if (is_beaten (id ∷ live)) rows), map (beat (id ∷ live) now) rows)

unfoldable pub stale_run_error : Text
stale_run_error =
    text "orphaned: no controller worker is executing this run any more (a crash or "
    ++ text "restart, or an unhandled error mid-run); marked failed by the stale-run reaper"

unfoldable pub close_step : ℕ → StepRun → StepRun
close_step t row = elim row.status [
  | step_running ↦ record row {
    status = step_failed;
    error = some stale_run_error;
    finished_at = some t;
  }
  | _ ↦ row
]

-- What a claim and `_finish` make of the row.
unfoldable pub reap_row : ℕ → RunRow → RunRow
unfolding close_step
reap_row t row = record row {
  run = record row.run { status = failed; error = some stale_run_error; finished_at = some t };
  step_runs = map (close_step t) row.step_runs;
}

-- The update by which a run is claimed, with what follows it on the row; `none` if it matches no
-- row.
unfoldable pub claim : ℕ → ℕ → ℕ → ℕ → List RunRow → Option (List RunRow)
unfolding is_stale reap_row
claim now stale_after t id [] = none
claim now stale_after t id (row ∷ rows) =
    let rest = claim now stale_after t id rows in
    if row.run.id == id && is_stale now stale_after row
    then some (reap_row t row ∷ rows)
    else elim rest [ none ↦ none | some rows' ↦ some (row ∷ rows') ]

-- The audit entries and the events of one run that is reaped.
unfoldable pub reap_run : ℕ → RunRow → List RunRow → LeaseTables → LeaseTables
reap_run stale_after row rows db = record {
  rows = rows;
  audits =
      db.audits
      ++ run_reaped row.run.id row.run.current_step (last_beat row) stale_after
        ∷ audited row.run.id (run_finished failed)
        ∷ [];
  events =
      db.events
      ++ finished failed (some stale_run_error) ∷ alert row.run.id (some stale_run_error) ∷ [];
}

-- A renewal by another worker: its live runs, and when.
abbrev pub Renewals : Type 0
Renewals = List (List ℕ × ℕ)

unfoldable pub renew : Renewals → List RunRow → List RunRow
unfolding heartbeat_live_runs
renew [] rows = rows
renew ((live, now) ∷ renewals) rows = renew renewals (heartbeat_live_runs live now rows).1

-- One turn of the loop of `reap_stale_runs`: the claim, and the rest of the body if it matched.
unfoldable pub reap_one : ℕ → ℕ → ℕ → RunRow → ℕ × LeaseTables → ℕ × LeaseTables
unfolding claim reap_run
reap_one now stale_after t row (reaped, db) = elim (claim now stale_after t row.run.id db.rows) [
  | none ↦ (reaped, db)
  | some rows ↦ (reaped + 1, reap_run stale_after row rows db)
]

-- The loop over the selected rows, each with the time that it is closed with and the renewals that come before its claim.
unfoldable pub reap_from : ℕ → ℕ → List (RunRow × ℕ × Renewals) → ℕ × LeaseTables → ℕ × LeaseTables
unfolding reap_one renew
reap_from now stale_after [] result = result
reap_from now stale_after ((row, t, renewals) ∷ selected) (reaped, db) =
    reap_from now stale_after selected
      (reap_one now stale_after t row (reaped, record db { rows = renew renewals db.rows }))
