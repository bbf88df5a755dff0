-- ===== src/Tests/Login.antt =====
-- Password guesses from one address.
use lycosa.Prelude.{
  if◌then◌else◌, ◌==◌, ℕ, ◌+◌, ◌≤◌, true, Option, none, some, List, [], ◌∷◌, Text, text,
  nat_comparable, text_comparable, ◌≡◌, refl, arith,
}
use lycosa.Prelude.Dict.{lookup, assign, remove}
use lycosa.WindowStore.{ticks, prune, bucket_of, retry_after, retry_of, try_hit, clear}
use lycosa.WindowStore.Bound.{within, times_of}
use lycosa.Login.{login_key, guarded, admit_attempt, clear_failures, LoginState, login}
use lycosa.RateLimit.{client_key, dispatch}
use lycosa.RateLimit.Separation.{login-bucket, dispatch-bucket}
use lycosa.Login.Throttle.{Guess, checked, request_of, checked-le-limit}

program : Unit {0}
unfolding lookup assign remove prune bucket_of retry_after retry_of try_hit clear guarded
    admit_attempt clear_failures login checked times_of within
program = tt

abbrev wrong : Text → Text → ℕ → Option ℕ × ℕ
wrong email password x = (if password == text "guess" then none else some 1, x + 1)

abbrev session : ℕ → ℕ → (Text × Text) × ℕ
session user x = ((text "token", text "session"), x)

abbrev guess_at : ℕ → Guess
guess_at now = record {
  ip = text "10.0.0.7";
  email = text "a@b";
  password = text "guess";
  now = now;
}

abbrev guesses : List Guess
guesses = guess_at 1 ∷ guess_at 2 ∷ guess_at 3 ∷ []

abbrev fresh : LoginState ℕ
fresh = record { ext = 0; hits = []; audits = [] }

two_checked :
    times_of (login_key (text "10.0.0.7")) (checked wrong session 2 60 guesses fresh) ≡ 1 ∷ 2 ∷ []
unfolding program
two_checked = refl

checked-le-limit_example :
    within 1
      (ticks 60)
      (times_of (login_key (text "10.0.0.7")) (checked wrong session 2 60 guesses fresh))
    ≤ 2
checked-le-limit_example =
    checked-le-limit wrong session 2 60 guesses (text "10.0.0.7") 1 0
      ((λ x. refl), ((λ x. refl), ((λ x. refl), tt))) (omega arith)
      (omega arith, (omega arith, (omega arith, tt)))

abbrev client : Option Text
client = some (text "10.0.0.7")

login-bucket_example :
    bucket_of (login wrong session 2 60 (request_of (guess_at 5)) fresh).1.hits (client_key client)
    ≡ bucket_of fresh.hits (client_key client)
login-bucket_example = login-bucket wrong session 2 60 client (request_of (guess_at 5)) fresh

abbrev page : ℕ → ℕ × ℕ
page x = (200, x)

dispatch-bucket_example :
    bucket_of
      (dispatch page true 120 60 (text "/api") client 5 [] 0).1
      (login_key (text "10.0.0.7"))
    ≡ bucket_of [] (login_key (text "10.0.0.7"))
dispatch-bucket_example =
    dispatch-bucket page true 120 60 (text "10.0.0.7") (text "/api") client 5 [] 0
