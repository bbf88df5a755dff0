-- ===== src/Llm/Gateway/Entries.antt =====
-- How one entry of a route ends, and how the predicates on the whole loop grow by one entry.
use lycosa.Prelude.{
  ℕ, ◌+◌, ◌≤◌, Bool, true, false, Option, none, some, List, [], ◌∷◌, ◌++◌, append-nil, append_assoc,
  Text, length-append, nat_comparable, text_comparable, ◌≡◌, refl, sym, ap, ◌⊎◌, arith,
}
use lycosa.Llm.Errors.{LlmError}
use lycosa.Llm.Routing.{Target}
use lycosa.Llm.Retries.{Retried, returned, raised, escaped, out_of_fuel, Runtime}
use lycosa.Llm.Retries.Budget.{Counts, IsOutOfTime}
use lycosa.Llm.Retries.Attempts.{with_retries-IsSound}
use lycosa.Llm.Gateway.{
  Response, UsageRow, Skipped, State, Attempted, done, refused, broke, Services, Answer, answered,
  rejected, aborted, unfinished, GatewayResult, End, result, no_answer, failed_through, no_end,
  row_of, answer_of, call_connected, call_checked, call_target,
}
use lycosa.Llm.Gateway.Tried.{IsFailure, HasTried, HasAnswered}

module _ {X C : Type 0} (runtime : Runtime X) (services : Services X C)
    (max_retries request_timeout total_timeout : ℕ) (requires_privacy : Bool) where
  -- What holds of the end of the loop.
  abbrev pub Ends :
      ℕ → List Target → ℕ → List Target → List UsageRow → List Skipped → End × State X → Type 0
  Ends ends_at targets index asked rows skipped (result r, s') =
      HasAnswered max_retries targets asked s'.asked index rows s'.rows skipped r
  Ends ends_at targets index asked rows skipped (no_answer error skipped', s') =
      (t : HasTried targets asked s'.asked [] rows s'.rows skipped skipped') × ((t.after ≡ [])
        ⊎ ((x : X) × IsOutOfTime runtime (some ends_at) 0 x s'.ext))
  Ends ends_at targets index asked rows skipped (failed_through, s') =
      (target : Target) × (rest : List Target) × (skipped' : List Skipped) × (t : HasTried targets
        asked s'.asked (target ∷ []) rows s'.rows skipped skipped')
      × (t.after ≡ target ∷ rest)
  Ends ends_at targets index asked rows skipped (no_end, s') = ⊥

  -- What holds of the answer of one entry.
  abbrev pub Answers : Answer → Type 0
  Answers (answered response attempts) = (1 ≤ attempts) × (attempts ≤ max_retries + 1)
  Answers (rejected error attempts) = Unit
  Answers aborted = Unit
  Answers unfinished = ⊥

  pub answer_of-Answers :
      (budget : Option ℕ) (secret : Option Text) (end : Retried Response) (made : ℕ) (x : X)
      → Counts runtime max_retries budget end made x
      → Answers (answer_of secret end)
  unfolding answer_of
  answer_of-Answers budget secret (returned response attempts) made x c = (c.1, c.2)
  answer_of-Answers budget secret (raised error attempts) made x c = tt
  answer_of-Answers budget secret escaped made x c = tt
  answer_of-Answers budget secret out_of_fuel made x c = c

  call_connected-Answers :
      (target : Target) (ends_at : ℕ) (conn : Attempted C) (x : X)
      → Answers
          (call_connected runtime services max_retries request_timeout total_timeout
            requires_privacy target ends_at conn x).0
  unfolding call_connected
  call_connected-Answers target ends_at (refused error) x = tt
  call_connected-Answers target ends_at broke x = tt
  call_connected-Answers target ends_at (done conn) x =
      let once = services.generate_once target conn in
      let sound = with_retries-IsSound runtime max_retries request_timeout (some ends_at) once x in
      answer_of-Answers (some ends_at) (services.credential conn) _ _ _ sound.counted

  call_checked-Answers :
      (target : Target) (ends_at : ℕ) (checked : Attempted (Unit {0})) (x : X)
      → Answers
          (call_checked runtime services max_retries request_timeout total_timeout requires_privacy
            target ends_at checked x).0
  unfolding call_checked
  call_checked-Answers target ends_at (refused error) x = tt
  call_checked-Answers target ends_at broke x = tt
  call_checked-Answers target ends_at (done _) x =
      let (conn, x') = services.connection_for target requires_privacy x in
      call_connected-Answers target ends_at conn x'

  pub call_target-Answers :
      (target : Target) (ends_at : ℕ) (x : X)
      → Answers
          (call_target runtime services max_retries request_timeout total_timeout requires_privacy
            target ends_at x).0
  unfolding call_target
  call_target-Answers target ends_at x =
      let (checked, x') = services.check_request target x in
      call_checked-Answers target ends_at checked x'

  one_more :
      (target : Target) (targets asked middle_asked asked' during : List Target)
      (rows rows' : List UsageRow) (skipped skipped' : List Skipped) (row : UsageRow)
      (entry : Skipped) (middle : List UsageRow)
      → IsFailure row
      → middle ≡ rows ++ row ∷ []
      → middle_asked ≡ asked ++ target ∷ []
      → HasTried targets middle_asked asked' during middle rows' (skipped ++ entry ∷ []) skipped'
      → HasTried (target ∷ targets) asked asked' during rows rows' skipped skipped'
  one_more target targets asked middle_asked asked' during rows rows' skipped skipped' row entry
        middle bad written now_asked t =
      record {
        before = target ∷ t.before;
        after = t.after;
        split = ap (◌∷◌ target) t.split;
        failures = row ∷ t.failures;
        added = cc (t.added, written, append_assoc rows (row ∷ []) t.failures);
        failed = (bad, t.failed);
        one_each = omega (arith, t.one_each);
        listed = omega (arith, t.listed, length-append skipped (entry ∷ []));
        called = cc (t.called, now_asked, append_assoc asked (target ∷ []) (t.before ++ during));
      }

  one_more_answered :
      (target : Target) (targets asked middle_asked asked' : List Target) (index : ℕ)
      (rows middle rows' : List UsageRow) (skipped : List Skipped) (row : UsageRow)
      (entry : Skipped) (r : GatewayResult)
      → IsFailure row
      → middle ≡ rows ++ row ∷ []
      → middle_asked ≡ asked ++ target ∷ []
      → HasAnswered max_retries targets middle_asked asked'
          (index + 1)
          middle
          rows'
          (skipped ++ entry ∷ [])
          r
      → HasAnswered max_retries (target ∷ targets) asked asked' index rows rows' skipped r
  one_more_answered target targets asked middle_asked asked' index rows middle rows' skipped row
        entry r bad written now_asked t =
      let last = row_of r.target true none r.attempts r.fallback_index false in
      record {
        before = target ∷ t.before;
        after = t.after;
        split = ap (◌∷◌ target) t.split;
        place = omega (arith, t.place);
        failures = row ∷ t.failures;
        added = cc (t.added, written, append_assoc rows (row ∷ []) (t.failures ++ last ∷ []));
        failed = (bad, t.failed);
        one_each = omega (arith, t.one_each);
        listed = omega (arith, t.listed, length-append skipped (entry ∷ []));
        called =
            cc (t.called, now_asked, append_assoc asked (target ∷ []) (t.before ++ r.target ∷ []));
        attempted = t.attempted;
      }

  unfoldable pub nothing_tried :
      (targets asked asked' during : List Target) (rows : List UsageRow) (skipped : List Skipped)
      → asked' ≡ asked ++ during
      → HasTried targets asked asked' during rows rows skipped skipped
  nothing_tried targets asked asked' during rows skipped now_asked = record {
    before = [];
    after = targets;
    split = refl;
    failures = [];
    added = sym (append-nil rows);
    failed = tt;
    one_each = refl;
    listed = omega arith;
    called = now_asked;
  }

  -- The loop stops before an entry.
  pub Ends-stopped :
      (ends_at index : ℕ) (targets : List Target) (skipped : List Skipped) (error : LlmError)
      (s : State X)
      → ((targets ≡ []) ⊎ ((x : X) × IsOutOfTime runtime (some ends_at) 0 x s.ext))
      → Ends ends_at targets index s.asked s.rows skipped (no_answer error skipped, s)
  unfolding nothing_tried
  Ends-stopped ends_at index targets skipped error s why =
      (nothing_tried targets s.asked s.asked [] s.rows skipped (sym (append-nil s.asked)), why)

  -- One entry that failed, before the rest of the loop.
  pub Ends-cons :
      (target : Target) (targets : List Target) (ends_at index : ℕ)
      (asked middle_asked : List Target) (rows middle : List UsageRow) (skipped : List Skipped)
      (row : UsageRow) (entry : Skipped) (end : End × State X)
      → IsFailure row
      → middle ≡ rows ++ row ∷ []
      → middle_asked ≡ asked ++ target ∷ []
      → Ends ends_at targets (index + 1) middle_asked middle (skipped ++ entry ∷ []) end
      → Ends ends_at (target ∷ targets) index asked rows skipped end
  unfolding one_more
  Ends-cons target targets ends_at index asked asked' rows middle skipped row entry (result r, s')
        bad written now_asked t =
      one_more_answered target targets asked asked' s'.asked index rows middle s'.rows skipped row
        entry r bad written now_asked t
  Ends-cons target targets ends_at index asked asked' rows middle skipped row entry
        (no_answer error skipped', s') bad written now_asked (t, why) =
      (
        one_more target targets asked asked' s'.asked [] rows s'.rows skipped skipped' row entry
            middle bad written now_asked t,
        why,
      )
  Ends-cons target targets ends_at index asked asked' rows middle skipped row entry
        (failed_through, s') bad written now_asked (last, rest, skipped', t, here) =
      (
        last,
        rest,
        skipped',
        one_more target targets asked asked' s'.asked (last ∷ []) rows s'.rows skipped skipped' row
            entry middle bad written now_asked t,
        here,
      )
  Ends-cons target targets ends_at index asked asked' rows middle skipped row entry (no_end, s') bad
        written now_asked t =
      t
