-- ===== src/Tests/Leases.antt =====
-- The reaper at a table of two stale runs, of which one is renewed in time.
use lycosa.Prelude.{ℕ, some, List, [], ◌∷◌, text, nat_comparable, text_comparable, ◌≡◌, refl, arith}
use lycosa.Workflow.Execution.{failed}
use lycosa.Workflow.Entry.{new_run}
use lycosa.Workflow.Leases.{
  RunRow, LeaseTables, is_stale, beat, heartbeat_live_runs, claim, reap_run, Renewals, renew,
  reap_one, reap_from,
}
use lycosa.Workflow.Leases.Renewal.{status_of, reap_from-renewed}

program : Unit {0}
unfolding is_stale beat heartbeat_live_runs claim reap_run renew reap_one reap_from status_of
program = tt

abbrev row_of : ℕ → RunRow
row_of id = record { run = new_run id (text "bees") 100; started_at = 100; step_runs = [] }

abbrev tables : LeaseTables
tables = record { rows = row_of 1 ∷ row_of 2 ∷ []; audits = []; events = [] }

abbrev selected : List (RunRow × ℕ × Renewals)
selected = (row_of 1, 1_001, (2 ∷ [], 1_000) ∷ []) ∷ (row_of 2, 1_002, []) ∷ []

first_reaped : status_of 1 (reap_from 1_000 300 selected (0, tables)).1.rows ≡ some failed
unfolding program
first_reaped = refl

one_reaped : (reap_from 1_000 300 selected (0, tables)).0 ≡ 1
unfolding program
one_reaped = refl

reap_from-renewed_example :
    status_of 2 (reap_from 1_000 300 selected (0, tables)).1.rows ≡ status_of 2 tables.rows
reap_from-renewed_example =
    reap_from-renewed 1_000 300 2 (2 ∷ []) 1_000 1_001 0 (row_of 1) [] ((row_of 2, 1_002, []) ∷ [])
      tables refl ((omega arith, tt), (tt, tt))
