-- ===== src/Workflow/Template.antt =====
-- The templates of backend/app/services/workflow.py and of backend/app/schemas/workflow.py: the
-- two regular expressions, `render`, and `template_refs`.
use lycosa.Prelude.{
  ℕ, zero, suc, ◌-◌, Bool, ◌&&◌, ◌||◌, Option, none, some, List, [], ◌∷◌, ◌++◌, Text, text, length,
  leb, if◌then◌else◌, ◌==◌, nat_comparable, text_comparable,
}
use lycosa.Prelude.Dict.{lookup}

-- What `{{ ... }}` names: the run's input, or the output of a step.
pub data Ref : Type 0 where
  input : Ref
  output_of : Text → Ref

-- `context["steps"]`: the output recorded for a step. The status beside it is always "succeeded".
abbrev pub Outputs : Type 0
Outputs = List (Text × Text)

-- `\s` on a Python string.
unfoldable pub is_space : ℕ → Bool
is_space c =
    (leb 9 c && leb c 13)
    || (leb 28 c && leb c 32)
    || (c == 0x85)
    || (c == 0xa0)
    || (c == 0x1680)
    || (leb 0x2000 c && leb c 0x200a)
    || (c == 0x2028)
    || (c == 0x2029)
    || (c == 0x202f)
    || (c == 0x205f)
    || (c == 0x3000)

-- `[a-z0-9_-]`
unfoldable pub is_id_char : ℕ → Bool
is_id_char c =
    (leb b'a' c && leb c b'z') || (leb b'0' c && leb c b'9') || (c == b'_') || (c == b'-')

-- The text after a literal that it begins with.
unfoldable pub after_literal : Text → Text → Option Text
after_literal [] s = some s
after_literal (c ∷ p) [] = none
after_literal (c ∷ p) (d ∷ s) = if c == d then after_literal p s else none

unfoldable pub skip_spaces : Text → Text
unfolding is_space
skip_spaces [] = []
skip_spaces (c ∷ s) = let rest = skip_spaces s in if is_space c then rest else c ∷ s

-- `[a-z0-9_-]+`, as long as it goes, and the text after it.
unfoldable pub take_id : Text → Text × Text
unfolding is_id_char
take_id [] = ([], [])
take_id (c ∷ s) = let (id, rest) = take_id s in if is_id_char c then (c ∷ id, rest) else ([], c ∷ s)

-- `\s*\}\}`
unfoldable pub close : Text → Option Text
unfolding skip_spaces after_literal
close s = after_literal (text "}}") (skip_spaces s)

-- `steps\.[a-z0-9_-]+\.output\s*\}\}`
unfoldable pub step_ref : Text → Option (Text × Text)
unfolding after_literal take_id close
step_ref s = elim (after_literal (text "steps.") s) [
  | none ↦ none
  | some s' ↦
      let (id, rest) = take_id s' in
      if leb 1 (length id)
      then elim (after_literal (text ".output") rest) [
        | none ↦ none
        | some rest' ↦ elim (close rest') [ none ↦ none | some end ↦ some (id, end) ]
      ]
      else none
]

-- `input\s*\}\}`
unfoldable pub input_ref : Text → Option Text
unfolding after_literal close
input_ref s = elim (after_literal (text "input") s) [ none ↦ none | some s' ↦ close s' ]

-- `\{\{\s*`
unfoldable pub open_braces : Text → Option Text
unfolding after_literal skip_spaces
open_braces s = elim (after_literal (text "{{") s) [ none ↦ none | some s' ↦ some (skip_spaces s') ]

-- A match of `_TEMPLATE_RE` at the head of the text, and the text after it.
unfoldable pub match_template : Text → Option (Ref × Text)
unfolding open_braces input_ref step_ref
match_template s = elim (open_braces s) [
  | none ↦ none
  | some s' ↦ elim (input_ref s') [
    | some end ↦ some (input, end)
    | none ↦ elim (step_ref s') [ none ↦ none | some (id, end) ↦ some (output_of id, end) ]
  ]
]

-- A match of `_TEMPLATE_REF_RE` at the head of the text, and the text after it.
unfoldable pub match_step : Text → Option (Text × Text)
unfolding open_braces step_ref
match_step s = elim (open_braces s) [ none ↦ none | some s' ↦ step_ref s' ]

-- `str(steps.get(step_id, {}).get("output") or "")`
unfoldable pub output_in : Outputs → Text → Text
output_in outputs id = elim (lookup id outputs) [ none ↦ [] | some output ↦ output ]

-- The replacement of a match.
unfoldable pub value_of : Text → Outputs → Ref → Text
unfolding output_in
value_of run_input outputs input = run_input
value_of run_input outputs (output_of id) = output_in outputs id

-- How many characters after the first one of `s` belong to a match that leaves `rest`.
abbrev pub matched : Text → Text → ℕ
matched s rest = length s - length rest - 1

-- `_TEMPLATE_RE.sub(replace, template)`; `skip` characters of a match are still to be passed over.
unfoldable pub render_from : Text → Outputs → ℕ → Text → Text
render_from run_input outputs skip [] = []
render_from run_input outputs (suc skip) (c ∷ s) = render_from run_input outputs skip s
render_from run_input outputs zero (c ∷ s) = elim (match_template (c ∷ s)) [
  | none ↦ c ∷ render_from run_input outputs zero s
  | some (ref, rest) ↦
      value_of run_input outputs ref ++ render_from run_input outputs (matched (c ∷ s) rest) s
]

unfoldable pub render : Text → Text → Outputs → Text
unfolding render_from
render template run_input outputs = render_from run_input outputs zero template

-- `_TEMPLATE_REF_RE.findall(s)`
unfoldable pub refs_from : ℕ → Text → List Text
refs_from skip [] = []
refs_from (suc skip) (c ∷ s) = refs_from skip s
refs_from zero (c ∷ s) = elim (match_step (c ∷ s)) [
  | none ↦ refs_from zero s
  | some (id, rest) ↦ id ∷ refs_from (matched (c ∷ s) rest) s
]

unfoldable pub template_refs : Text → List Text
unfolding refs_from
template_refs s = refs_from zero s
