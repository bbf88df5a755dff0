-- ===== src/Orchestrator/Leases/Complete.antt =====
-- What the reaper leaves behind.
use lycosa.Prelude.{
  any-All, ℕ, ◌+◌, ◌≤◌, false, not, ◌&&◌, List, [], ◌∷◌, map, All, any, is_in, ltb, Bool-cases,
  nat_comparable, text_comparable, ◌≡◌, refl, inl, inr, arith,
}
use lycosa.Orchestrator.Leases.{
  TaskRow, TaskTables, is_stale, is_beaten, beat, heartbeat_live_tasks, reap_row, is_claimed,
  reap_if, Renewals, renew, reap_one, reap_from,
}

-- A row that is stale has one of these identifiers.
abbrev Covered : ℕ → ℕ → List ℕ → TaskRow → Type 0
Covered now stale_after ids row =
    (is_stale now stale_after row && not (is_in row.task.id ids)) ≡ false

module _ (P Q : TaskRow → Type 0) (f : TaskRow → TaskRow) where
  All-map :
      ((row : TaskRow) → P row → Q (f row))
      → (rows : List TaskRow) → All P rows
      → All Q (map f rows)
  All-map step [] holds = tt
  All-map step (row ∷ rows) (here, others) = (step row here, All-map step rows others)

module _ (now stale_after : ℕ) where
  beat-Covered :
      (ids live : List ℕ) (time : ℕ) (row : TaskRow)
      → now ≤ time
      → Covered now stale_after ids row
      → Covered now stale_after ids (beat live time row)
  unfolding beat is_stale
  beat-Covered ids live time row later covered = elim (Bool-cases (is_beaten live row)) [
    | inl beaten ↦
        let fresh : ltb (time + stale_after) now ≡ false = ground (arith, later) in
        simp (beat, beaten, is_stale, fresh) (ground arith)
    | inr idle ↦ simp (beat, idle) covered
  ]

  heartbeat-Covered :
      (ids live : List ℕ) (time : ℕ) (rows : List TaskRow)
      → now ≤ time
      → All (Covered now stale_after ids) rows
      → All (Covered now stale_after ids) (heartbeat_live_tasks live time rows).1
  unfolding heartbeat_live_tasks
  heartbeat-Covered ids [] time rows later covered = covered
  heartbeat-Covered ids (id ∷ live) time rows later covered =
      All-map (Covered now stale_after ids) (Covered now stale_after ids) (beat (id ∷ live) time)
        (λ row. beat-Covered ids (id ∷ live) time row later) rows covered

  renew-Covered :
      (ids : List ℕ) (renewals : Renewals) (rows : List TaskRow)
      → All (λ renewal. now ≤ renewal.1) renewals
      → All (Covered now stale_after ids) rows
      → All (Covered now stale_after ids) (renew renewals rows)
  unfolding renew
  renew-Covered ids [] rows later covered = covered
  renew-Covered ids ((live, time) ∷ renewals) rows (here, later) covered =
      renew-Covered ids renewals _ later (heartbeat-Covered ids live time rows here covered)

  -- A row that the claim of an identifier does not match needs that identifier no longer.
  unclaimed-Covered :
      (id : ℕ) (ids : List ℕ) (row : TaskRow)
      → is_claimed now stale_after id row ≡ false
      → Covered now stale_after (id ∷ ids) row
      → Covered now stale_after ids row
  unclaimed-Covered id ids row unclaimed covered = ground (arith, unclaimed, covered)

  reap_if-Covered :
      (t id : ℕ) (ids : List ℕ) (row : TaskRow)
      → Covered now stale_after (id ∷ ids) row
      → Covered now stale_after ids (reap_if now stale_after t id row)
  unfolding reap_if reap_row is_stale
  reap_if-Covered t id ids row covered = elim (Bool-cases (is_claimed now stale_after id row)) [
    | inl claimed ↦ simp (reap_if, claimed) refl
    | inr unclaimed ↦ simp (reap_if, unclaimed) (unclaimed-Covered id ids row unclaimed covered)
  ]

  reap_one-Covered :
      (t : ℕ) (row : TaskRow) (ids : List ℕ) (reaped : ℕ) (db : TaskTables)
      → All (Covered now stale_after (row.task.id ∷ ids)) db.rows
      → All (Covered now stale_after ids) (reap_one now stale_after t row (reaped, db)).1.rows
  unfolding reap_one
  reap_one-Covered t row ids reaped db covered =
      let id = row.task.id in
      elim (Bool-cases (any (is_claimed now stale_after id) db.rows)) [
        | inl matched ↦
            simp (reap_one, matched)
              (All-map (Covered now stale_after (id ∷ ids)) (Covered now stale_after ids)
                (reap_if now stale_after t id) (reap_if-Covered t id ids) db.rows covered)
        | inr missed ↦
            simp (reap_one, missed)
              (all-unclaimed id ids db.rows (any-All (is_claimed now stale_after id) db.rows missed)
                covered)
      ]
    where
      all-unclaimed :
          (id : ℕ) (ids : List ℕ) (rows : List TaskRow)
          → All (λ r. is_claimed now stale_after id r ≡ false) rows
          → All (Covered now stale_after (id ∷ ids)) rows
          → All (Covered now stale_after ids) rows
      all-unclaimed id ids [] unclaimed covered = tt
      all-unclaimed id ids (r ∷ rows) (first, unclaimed) (here, covered) =
          (unclaimed-Covered id ids r first here, all-unclaimed id ids rows unclaimed covered)

  abbrev pub id_of : TaskRow × ℕ × Renewals → ℕ
  id_of (row, t, renewals) = row.task.id

  -- No renewal before the select.
  abbrev pub AreLater : TaskRow × ℕ × Renewals → Type 0
  AreLater (row, t, renewals) = All (λ renewal. now ≤ renewal.1) renewals

  reap_from-Covered :
      (selected : List (TaskRow × ℕ × Renewals)) (reaped : ℕ) (db : TaskTables)
      → All AreLater selected
      → All (Covered now stale_after (map id_of selected)) db.rows
      → All (Covered now stale_after []) (reap_from now stale_after selected (reaped, db)).1.rows
  unfolding reap_from
  reap_from-Covered [] reaped db later covered = covered
  reap_from-Covered ((row, t, renewals) ∷ selected) reaped db (here, later) covered =
      let renewed : TaskTables = record db { rows = renew renewals db.rows } in
      reap_from-Covered selected (reap_one now stale_after t row (reaped, renewed)).0
        (reap_one now stale_after t row (reaped, renewed)).1 later
        (reap_one-Covered t row (map id_of selected) reaped renewed
          (renew-Covered (row.task.id ∷ map id_of selected) renewals db.rows here covered))

  -- Once the reaper has gone through the rows that it selected, no unfinished task is left whose
  -- lease had lapsed at the time of the select, whatever renewals at or after that time come between
  -- its claims: if every task that was stale then was selected, none is stale now.
  pub reap_from_complete :
      (selected : List (TaskRow × ℕ × Renewals)) (reaped : ℕ) (db : TaskTables)
      → All AreLater selected
      → All
          (λ row.
            (is_stale now stale_after row && not (is_in row.task.id (map id_of selected))) ≡ false)
          db.rows
      → All
          (λ row. is_stale now stale_after row ≡ false)
          (reap_from now stale_after selected (reaped, db)).1.rows
  reap_from_complete selected reaped db later covered =
      none_left (reap_from now stale_after selected (reaped, db)).1.rows
        (reap_from-Covered selected reaped db later covered)
    where
      none_left :
          (rows : List TaskRow)
          → All (Covered now stale_after []) rows
          → All (λ row. is_stale now stale_after row ≡ false) rows
      none_left [] covered' = tt
      none_left (row ∷ rows) (first, covered') = (ground (arith, first), none_left rows covered')
