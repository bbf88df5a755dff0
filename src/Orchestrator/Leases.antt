-- ===== src/Orchestrator/Leases.antt =====
-- `heartbeat_live_tasks` and `reap_stale_tasks` of backend/app/services/orchestrator.py. Between the
-- select and each claim other workers may renew their leases. As in the engine of workflows, the
-- cutoff is not formed: a beat is before it when the beat and `stale_after` come to less than the
-- time of the select.
pub mod Complete
use lycosa.Prelude.{
  ℕ, zero, suc, ◌+◌, ◌-◌, ◌*◌, ◌/◌, ◌%◌, ◌^◌, ◌≤◌, ◌<◌, min, max, Bool, true, false, not, ◌&&◌,
  ◌||◌, Option, none, some, List, [], ◌∷◌, ◌++◌, map, append-nil, append_assoc, Text, text, String,
  length, take, drop, get_elem?, length-append, length-map, length-take-le, All, All-append, any,
  keep_if, is_in, ltb, leb, nat_beq, if◌then◌else◌, ltb→lt, lt→ltb, leb→le, le→leb, nat_beq_iff,
  Bool-cases, Option-cases, Comparable, ◌==◌, nat_comparable, text_beq, text_beq_iff,
  text_comparable, beq_refl, beq_false, ◌≡◌, refl, sym, ap, ◌∙◌, subst, ◌≢◌, ◌↔◌, ◌⊎◌, inl, inr,
  starts_with, contains, join, arith,
}
use lycosa.Orchestrator.State.{
  TaskStatus, queued, assigned, running, succeeded, failed, execution_running, execution_failed,
  Execution, Task, TaskEvent, task_finished,
}

pub record TaskRow : Type 0 where
  pub task : Task
  pub executions : List Execution

-- The audit entry of a task that is reaped: its status, its node and its last beat.
pub record Reaped : Type 0 where
  pub task_id : ℕ
  pub stuck_in : TaskStatus
  pub node_id : Option ℕ
  pub last_heartbeat : ℕ
  pub stale_after : ℕ

-- An entry of the audit log: that of the reaper, or that of `_finish`.
pub data LeaseAudit : Type 0 where
  task_reaped : Reaped → LeaseAudit
  task_ended : (task_id : ℕ) → TaskStatus → LeaseAudit

pub record TaskTables : Type 0 where
  pub rows : List TaskRow
  pub audits : List LeaseAudit
  pub events : List TaskEvent

-- `Task.status.in_(_UNFINISHED)`
abbrev pub is_unfinished : TaskStatus → Bool
is_unfinished succeeded = false
is_unfinished failed = false
is_unfinished _ = true

-- `coalesce(Task.heartbeat_at, Task.queued_at)`
abbrev pub last_beat : TaskRow → ℕ
last_beat row = elim row.task.heartbeat_at [ none ↦ row.task.queued_at | some t ↦ t ]

unfoldable pub is_stale : ℕ → ℕ → TaskRow → Bool
is_stale now stale_after row =
    is_unfinished row.task.status && ltb (last_beat row + stale_after) now

abbrev pub is_beaten : List ℕ → TaskRow → Bool
is_beaten live row = is_in row.task.id live && is_unfinished row.task.status

unfoldable pub beat : List ℕ → ℕ → TaskRow → TaskRow
beat live now row =
    if is_beaten live row
    then record row { task = record row.task { heartbeat_at = some now } }
    else row

-- `heartbeat_live_tasks`, with the set of live tasks of a worker.
unfoldable pub heartbeat_live_tasks : List ℕ → ℕ → List TaskRow → ℕ × List TaskRow
unfolding beat
heartbeat_live_tasks [] now rows = (0, rows)
heartbeat_live_tasks (id ∷ live) now rows =
    (length (keep_if (is_beaten (id ∷ live)) rows), map (beat (id ∷ live) now) rows)

unfoldable pub stale_task_error : Text
stale_task_error =
    text "orphaned: no controller worker is executing this task any more (a crash or "
    ++ text "restart, or an unhandled error mid-dispatch); marked failed by the stale-task reaper"

unfoldable pub close_execution : ℕ → Execution → Execution
unfolding stale_task_error
close_execution t execution = elim execution.status [
  | execution_running ↦ record execution {
    status = execution_failed;
    error = some stale_task_error;
    finished_at = some t;
  }
  | _ ↦ execution
]

-- What the claim, the loop over the executions and `_finish` make of a row. The source closes the
-- executions that it loaded with the select; what comes between here are renewals, which leave the
-- executions as they are.
unfoldable pub reap_row : ℕ → TaskRow → TaskRow
unfolding close_execution
reap_row t row = record {
  task = record row.task {
    status = failed;
    result = none;
    error = some stale_task_error;
    finished_at = some t;
  };
  executions = map (close_execution t) row.executions;
}

-- The `where` of the claim. The identifier is the primary key: it matches one row at most.
abbrev pub is_claimed : ℕ → ℕ → ℕ → TaskRow → Bool
is_claimed now stale_after id row = row.task.id == id && is_stale now stale_after row

unfoldable pub reap_if : ℕ → ℕ → ℕ → ℕ → TaskRow → TaskRow
unfolding is_stale reap_row
reap_if now stale_after t id row = if is_claimed now stale_after id row then reap_row t row else row

abbrev pub reaped_of : ℕ → TaskRow → Reaped
reaped_of stale_after row = record {
  task_id = row.task.id;
  stuck_in = row.task.status;
  node_id = row.task.node_id;
  last_heartbeat = last_beat row;
  stale_after = stale_after;
}

-- Renewals by other workers: their live tasks, and when.
abbrev pub Renewals : Type 0
Renewals = List (List ℕ × ℕ)

unfoldable pub renew : Renewals → List TaskRow → List TaskRow
unfolding heartbeat_live_tasks
renew [] rows = rows
renew ((live, now) ∷ renewals) rows = renew renewals (heartbeat_live_tasks live now rows).1

-- One turn of the loop of `reap_stale_tasks`: the claim, and the rest of the body if it matched.
unfoldable pub reap_one : ℕ → ℕ → ℕ → TaskRow → ℕ × TaskTables → ℕ × TaskTables
unfolding reap_if is_stale
reap_one now stale_after t row (reaped, db) =
    if any (is_claimed now stale_after row.task.id) db.rows
    then (
      reaped + 1,
      record {
        rows = map (reap_if now stale_after t row.task.id) db.rows;
        audits =
            db.audits
            ++ task_reaped (reaped_of stale_after row) ∷ task_ended row.task.id failed ∷ [];
        events = db.events ++ task_finished failed (some stale_task_error) ∷ [];
      },
    )
    else (reaped, db)

-- The loop over the selected rows, each with the time at which it is closed and the renewals that
-- come before its claim.
unfoldable pub reap_from : ℕ → ℕ → List (TaskRow × ℕ × Renewals) → ℕ × TaskTables → ℕ × TaskTables
unfolding reap_one renew
reap_from now stale_after [] result = result
reap_from now stale_after ((row, t, renewals) ∷ selected) (reaped, db) =
    reap_from now stale_after selected
      (reap_one now stale_after t row (reaped, record db { rows = renew renewals db.rows }))
