-- ===== src/Orchestrator/Classifier.antt =====
-- backend/app/services/classifier.py: what kind of work a prompt is, and which roles fit.
use lycosa.Prelude.{
  Option, none, some, List, [], ◌∷◌, Text, text, any, if◌then◌else◌, nat_comparable,
  text_comparable, contains,
}

pub data TaskType : Type 0 where
  coding retrieval tool vision general : TaskType

-- `_KEYWORDS`, in order.
abbrev pub keywords : List (TaskType × List Text)
keywords =
    (
      coding,
      text "code"
          ∷ text "function"
          ∷ text "bug"
          ∷ text "refactor"
          ∷ text "python"
          ∷ text "compile"
          ∷ text "unit test"
          ∷ text "script"
          ∷ [],
    )
    ∷ (
      retrieval,
      text "retrieve"
          ∷ text "search"
          ∷ text "documentation"
          ∷ text "docs"
          ∷ text "look up"
          ∷ text "find information"
          ∷ [],
    )
    ∷ (
      vision,
      text "image"
          ∷ text "photo"
          ∷ text "picture"
          ∷ text "detect object"
          ∷ text "camera"
          ∷ text "screenshot"
          ∷ text "ocr"
          ∷ [],
    )
    ∷ (tool, text "run tool" ∷ text "execute command" ∷ text "shell" ∷ text "webhook" ∷ [])
    ∷ []

-- The loop of `classify` over the types.
unfoldable pub first_type : Text → List (TaskType × List Text) → TaskType
first_type lowered [] = general
first_type lowered ((task_type, words) ∷ rest) =
    let later = first_type lowered rest in
    if any (λ word. contains word lowered) words then task_type else later

-- `classify`, with Python's `str.lower`.
unfoldable pub classify : (Text → Text) → Text → Option TaskType → TaskType
unfolding first_type
classify lower prompt (some requested) = requested
classify lower prompt none = first_type (lower prompt) keywords

-- `ROLE_PREFERENCES`
unfoldable pub preferred_roles : TaskType → List Text
preferred_roles coding = text "ai_compute" ∷ text "hybrid" ∷ []
preferred_roles retrieval = text "knowledge" ∷ text "hybrid" ∷ []
preferred_roles tool = text "tool" ∷ text "hybrid" ∷ []
preferred_roles vision = text "vision" ∷ text "hybrid" ∷ []
preferred_roles general = text "hybrid" ∷ text "ai_compute" ∷ text "knowledge" ∷ text "tool" ∷ []
