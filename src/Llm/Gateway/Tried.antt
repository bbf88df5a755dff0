-- ===== src/Llm/Gateway/Tried.antt =====
-- What a call of `generate` leaves behind of the entries of its route.
use lycosa.Prelude.{
  ℕ, ◌+◌, ◌≤◌, true, false, none, List, [], ◌∷◌, ◌++◌, length, All, nat_comparable, text_comparable,
  ◌≡◌,
}
use lycosa.Llm.Routing.{Target}
use lycosa.Llm.Gateway.{UsageRow, Skipped, GatewayResult, row_of}

abbrev pub IsFailure : UsageRow → Type 0
IsFailure row = (row.succeeded ≡ false) × (row.stream ≡ false)

-- The entries of a route before some point were tried, each failed, and each left one row; besides
-- them only those of `during` were asked.
pub record HasTried (targets asked asked' during : List Target) (rows rows' : List UsageRow)
    (skipped skipped' : List Skipped) : Type 0 where
  pub before : List Target
  pub after : List Target
  pub split : targets ≡ before ++ after
  pub failures : List UsageRow
  pub added : rows' ≡ rows ++ failures
  pub failed : All IsFailure failures
  pub one_each : length failures ≡ length before
  pub listed : length skipped' ≡ length skipped + length before
  pub called : asked' ≡ asked ++ (before ++ during)

-- The answer comes from one entry; those before it were tried and failed, those after it were not
-- asked, and the last row that was written is that of the answer.
pub record HasAnswered (max_retries : ℕ) (targets asked asked' : List Target) (index : ℕ)
    (rows rows' : List UsageRow) (skipped : List Skipped) (r : GatewayResult) : Type 0 where
  pub before : List Target
  pub after : List Target
  pub split : targets ≡ before ++ r.target ∷ after
  pub place : r.fallback_index ≡ index + length before
  pub failures : List UsageRow
  pub added :
      rows' ≡ rows ++ (failures ++ row_of r.target true none r.attempts r.fallback_index false ∷ [])
  pub failed : All IsFailure failures
  pub one_each : length failures ≡ length before
  pub listed : length r.skipped ≡ length skipped + length before
  pub called : asked' ≡ asked ++ (before ++ r.target ∷ [])
  pub attempted : (1 ≤ r.attempts) × (r.attempts ≤ max_retries + 1)
