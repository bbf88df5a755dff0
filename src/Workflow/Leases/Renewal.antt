-- ===== src/Workflow/Leases/Renewal.antt =====
-- The reaper against a worker that renews its leases.
use lycosa.Prelude.{
  ℕ, ◌≤◌, Bool, true, false, ◌&&◌, ◌||◌, Option, none, some, List, [], ◌∷◌, map, All, is_in,
  if◌then◌else◌, nat_beq_iff, Bool-cases, Option-cases, ◌==◌, nat_comparable, text_comparable, ◌≡◌,
  refl, sym, ◌∙◌, subst, ◌⊎◌, inl, inr, arith,
}
use lycosa.Workflow.Execution.{RunStatus}
use lycosa.Workflow.Leases.{
  RunRow, LeaseTables, is_stale, beat, heartbeat_live_runs, reap_row, claim, reap_run, Renewals,
  renew, reap_one, reap_from,
}

unfoldable pub status_of : ℕ → List RunRow → Option RunStatus
status_of id [] = none
status_of id (row ∷ rows) =
    let rest = status_of id rows in if row.run.id == id then some row.run.status else rest

module _ (now stale_after id : ℕ) where
  -- Whether a claim of the run would match.
  threatened : List RunRow → Bool
  threatened [] = false
  threatened (row ∷ rows) = (row.run.id == id && is_stale now stale_after row) || threatened rows

  -- The row at the head is claimed, or is not.
  claim-cons :
      (t other : ℕ) (row : RunRow) (rows : List RunRow) {after : List RunRow}
      → claim now stale_after t other (row ∷ rows) ≡ some after
      → ((row.run.id == other && is_stale now stale_after row ≡ true)
          × (after ≡ reap_row t row ∷ rows))
        ⊎ ((rest : List RunRow) × (claim now stale_after t other rows ≡ some rest)
            × (after ≡ row ∷ rest))
  unfolding claim
  claim-cons t other row rows {after} e =
      elim (Bool-cases (row.run.id == other && is_stale now stale_after row)) [
        | inl hit ↦ inl (hit, ground arith)
        | inr miss ↦ elim (Option-cases (claim now stale_after t other rows)) [
          | inl nowhere ↦ absurd (ground arith)
          | inr (rest, found) ↦ inr (rest, found, ground arith)
        ]
      ]

  reaped-head :
      (t other : ℕ) (row : RunRow) (rows : List RunRow)
      → threatened (row ∷ rows) ≡ false
      → row.run.id == other && is_stale now stale_after row ≡ true
      → (status_of id (reap_row t row ∷ rows) ≡ status_of id (row ∷ rows))
        × (threatened (reap_row t row ∷ rows) ≡ false)
  unfolding status_of threatened reap_row is_stale
  reaped-head t other row rows safe hit = (ground arith, ground arith)

  kept-head :
      (row : RunRow) (rows rest : List RunRow)
      → threatened (row ∷ rows) ≡ false
      → (status_of id rest ≡ status_of id rows) × (threatened rest ≡ false)
      → (status_of id (row ∷ rest) ≡ status_of id (row ∷ rows)) × (threatened (row ∷ rest) ≡ false)
  unfolding status_of threatened
  kept-head row rows rest safe (same, safe') = (ground arith, ground arith)

  threatened-tail :
      (row : RunRow) (rows : List RunRow)
      → threatened (row ∷ rows) ≡ false
      → threatened rows ≡ false
  unfolding threatened
  threatened-tail row rows safe = ground arith

  Kept : List RunRow → List RunRow → Type 0
  Kept rows after = (status_of id after ≡ status_of id rows) × (threatened after ≡ false)

  claim-IsKept :
      (t other : ℕ) (rows after : List RunRow)
      → threatened rows ≡ false
      → claim now stale_after t other rows ≡ some after
      → Kept rows after
  unfolding claim Kept
  claim-IsKept t other [] after safe e = absurd (ground arith)
  claim-IsKept t other (row ∷ rows) after safe e =
      elim (claim-cons t other row rows {after = after} e) [
        | inl (hit, same) ↦
            subst (Kept (row ∷ rows)) (sym same) (reaped-head t other row rows safe hit)
        | inr (rest, found, same) ↦ subst (Kept (row ∷ rows)) (sym same) (
            kept-head row rows rest safe
              (claim-IsKept t other rows rest (threatened-tail row rows safe) found))
      ]

  beat-safe :
      (live : List ℕ) (at : ℕ) (rows : List RunRow)
      → now ≤ at
      → threatened rows ≡ false
      → threatened (map (beat live at) rows) ≡ false
  unfolding beat threatened is_stale
  beat-safe live at [] later safe = refl
  beat-safe live at (row ∷ rows) later safe = ground (arith, beat-safe live at rows later)

  beat-saves :
      (live : List ℕ) (at : ℕ) (rows : List RunRow)
      → now ≤ at
      → is_in id live ≡ true
      → threatened (map (beat live at) rows) ≡ false
  unfolding beat threatened is_stale
  beat-saves live at [] later alive = refl
  beat-saves live at (row ∷ rows) later alive =
      ground (arith, nat_beq_iff row.run.id id, beat-saves live at rows later alive)

  beat-status :
      (live : List ℕ) (at : ℕ) (rows : List RunRow)
      → status_of id (map (beat live at) rows) ≡ status_of id rows
  unfolding beat status_of
  beat-status live at [] = refl
  beat-status live at (row ∷ rows) = ground (arith, beat-status live at rows)

  renew-Kept :
      (renewals : Renewals) (rows : List RunRow)
      → All (λ renewal. now ≤ renewal.1) renewals
      → threatened rows ≡ false
      → Kept rows (renew renewals rows)
  unfolding renew heartbeat_live_runs Kept
  renew-Kept [] rows later safe = (refl, safe)
  renew-Kept (([], at) ∷ renewals) rows (here, later) safe = renew-Kept renewals rows later safe
  renew-Kept ((other ∷ live, at) ∷ renewals) rows (here, later) safe =
      let (same, safe') =
        renew-Kept renewals (map (beat (other ∷ live) at) rows) later
          (beat-safe (other ∷ live) at rows here safe) in
      (same ∙ beat-status (other ∷ live) at rows, safe')

  reap_one-Kept :
      (t : ℕ) (row : RunRow) (reaped : ℕ) (db : LeaseTables)
      → threatened db.rows ≡ false
      → Kept db.rows (reap_one now stale_after t row (reaped, db)).1.rows
  unfolding reap_one reap_run Kept
  reap_one-Kept t row reaped db safe =
      elim (Option-cases (claim now stale_after t row.run.id db.rows)) [
        | inl nowhere ↦ simp (reap_one, nowhere) (refl, safe)
        | inr (rows, found) ↦
            simp (reap_one, found) (claim-IsKept t row.run.id db.rows rows safe found)
      ]

  -- Every renewal of a turn is at or after the select.
  abbrev pub IsLater : RunRow × ℕ × Renewals → Type 0
  IsLater (row, t, renewals) = All (λ renewal. now ≤ renewal.1) renewals

  reap_from-Kept :
      (selected : List (RunRow × ℕ × Renewals)) (reaped : ℕ) (db : LeaseTables)
      → All IsLater selected
      → threatened db.rows ≡ false
      → Kept db.rows (reap_from now stale_after selected (reaped, db)).1.rows
  unfolding reap_from Kept
  reap_from-Kept [] reaped db later safe = (refl, safe)
  reap_from-Kept ((row, t, renewals) ∷ selected) reaped db (here, later) safe =
      let renewed = record db { rows = renew renewals db.rows } in
      let (same, safe') = renew-Kept renewals db.rows here safe in
      let (same', safe'') = reap_one-Kept t row reaped renewed safe' in
      let result = reap_one now stale_after t row (reaped, renewed) in
      let (same'', safe''') = reap_from-Kept selected result.0 result.1 later safe'' in
      (same'' ∙ (same' ∙ same), safe''')

  -- A worker that renews the lease of a run after the select of a reaper and before its first claim
  -- keeps the run: the reaper leaves its status as it was, whatever it selected and whatever other
  -- renewals, all at or after the time of the select, come between its claims.
  pub reap_from-renewed :
      (live : List ℕ) (at t reaped : ℕ) (row : RunRow) (renewals : Renewals)
      (selected : List (RunRow × ℕ × Renewals)) (db : LeaseTables)
      → is_in id live ≡ true
      → All IsLater ((row, t, (live, at) ∷ renewals) ∷ selected)
      → status_of id
          (reap_from now stale_after
            ((row, t, (live, at) ∷ renewals) ∷ selected)
            (reaped, db)).1.rows
        ≡ status_of id db.rows
  unfolding reap_from renew heartbeat_live_runs Kept
  reap_from-renewed [] at t reaped row renewals selected db alive later = absurd (ground arith)
  reap_from-renewed (first ∷ live) at t reaped row renewals selected db alive
        ((now_first, here), later) =
      let beaten = map (beat (first ∷ live) at) db.rows in
      let safe = beat-saves (first ∷ live) at db.rows now_first alive in
      let rest = (row, t, renewals) ∷ selected in
      (reap_from-Kept rest reaped (record db { rows = beaten }) (here, later) safe).0
      ∙ beat-status (first ∷ live) at db.rows
