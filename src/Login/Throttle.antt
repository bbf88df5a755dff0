-- ===== src/Login/Throttle.antt =====
-- How often the passwords of a guarded address are checked.
use lycosa.Prelude.{
  ℕ, zero, suc, ◌≤◌, Bool, true, false, Option, none, some, List, [], ◌∷◌, map, All, Text,
  if◌then◌else◌, le→leb, nat_comparable, text_comparable, ◌≡◌, refl, sym, subst,
}
use lycosa.WindowStore.{Hits, Outcome, return, index_error, ticks, try_hit}
use lycosa.WindowStore.Bound.{
  Call, hit, IsTimed, admits, admitted, within, times_of, admitted-le-limit,
}
use lycosa.Login.{
  login_key, admit_attempt, LoginEnd, token_response, invalid_credentials, too_many_requests,
  store_failed, LoginState, LoginRequest, guarded, answer_login, check_password, after_admit, login,
}

-- An attempt from an address.
pub record Guess : Type 0 where
  pub ip : Text
  pub email : Text
  pub password : Text
  pub now : ℕ

abbrev pub request_of : Guess → LoginRequest
request_of guess = record {
  ip = some guess.ip;
  email = guess.email;
  password = guess.password;
  now = guess.now;
}

abbrev pub call_of : Guess → Call
call_of guess = hit (login_key guess.ip) guess.now

-- Whether the answer says that the password was checked.
abbrev pub is_checked : LoginEnd → Bool
is_checked (token_response token) = true
is_checked invalid_credentials = true
is_checked (too_many_requests wait) = false
is_checked store_failed = false

module _ {X : Type 0} (authenticate_user : Text → Text → X → Option ℕ × X)
    (create_user_session : ℕ → X → (Text × Text) × X) (max_failures window_seconds : ℕ) where
  -- The attempts of a run whose password was checked, with their keys and times.
  unfoldable pub checked : List Guess → LoginState X → List (Text × ℕ)
  checked [] s = []
  checked (guess ∷ guesses) s =
      let (end, s') =
        login authenticate_user create_user_session max_failures window_seconds (request_of guess)
          s in
      let rest = checked guesses s' in
      if is_checked end then (login_key guess.ip, guess.now) ∷ rest else rest

  -- Whatever the state, the attempt's password is not that of an account with its email.
  abbrev pub IsWrong : Guess → Type 0
  IsWrong guess = (x : X) → (authenticate_user guess.email guess.password x).0 ≡ none

  after_admit-wrong :
      (guess : Guess) (outcome : Outcome ℕ) (s : LoginState X)
      → IsWrong guess
      → (is_checked
            (after_admit authenticate_user create_user_session max_failures window_seconds guess.ip
              (request_of guess)
              outcome
              s).0
          ≡ admits outcome)
        × ((after_admit authenticate_user create_user_session max_failures window_seconds guess.ip
              (request_of guess)
              outcome
              s).1.hits
            ≡ s.hits)
  unfolding after_admit check_password answer_login
  after_admit-wrong guess index_error s wrong = (refl, refl)
  after_admit-wrong guess (return zero) s wrong = rw (wrong s.ext) (refl, refl)
  after_admit-wrong guess (return (suc wait)) s wrong = (refl, refl)

  login-guarded :
      (guess : Guess) (s : LoginState X)
      → 1 ≤ max_failures
      → login authenticate_user create_user_session max_failures window_seconds (request_of guess) s
        ≡ (let (outcome, hits) =
              try_hit s.hits (login_key guess.ip) max_failures window_seconds guess.now in
            after_admit authenticate_user create_user_session max_failures window_seconds guess.ip
              (request_of guess)
              outcome
              (record s { hits = hits }))
  unfolding login guarded admit_attempt
  login-guarded guess s on = rw (login, guarded, le→leb 1 max_failures on) refl

  -- One attempt beside one call of the store.
  same_step :
      (key : Text) (now : ℕ) (guesses : List Guess) (calls : List Call) (end : LoginEnd)
      (s : LoginState X) (answer : Outcome ℕ) (hits : Hits)
      → is_checked end ≡ admits answer
      → s.hits ≡ hits
      → checked guesses s ≡ admitted max_failures window_seconds s.hits calls
      → (if is_checked end then (key, now) ∷ checked guesses s else checked guesses s) ≡ (
          if admits answer
          then (key, now) ∷ admitted max_failures window_seconds hits calls
          else admitted max_failures window_seconds hits calls)
  same_step key now guesses calls end s answer hits same_answer same_hits same_rest =
      rw (same_answer, same_rest, same_hits) refl

  checked-admitted :
      (guesses : List Guess) (s : LoginState X)
      → All IsWrong guesses
      → 1 ≤ max_failures
      → checked guesses s ≡ admitted max_failures window_seconds s.hits (map call_of guesses)
  unfolding checked admitted
  checked-admitted [] s wrong on = refl
  checked-admitted (guess ∷ guesses) s (first, wrong) on =
      let (answer, hits) =
        try_hit s.hits (login_key guess.ip) max_failures window_seconds guess.now in
      let s' : LoginState X = record s { hits = hits } in
      let (end, after) =
        after_admit authenticate_user create_user_session max_failures window_seconds guess.ip
          (request_of guess) answer s' in
      let (same_answer, same_hits) = after_admit-wrong guess answer s' first in
      simp (login-guarded guess s on) (
        same_step (login_key guess.ip) guess.now guesses (map call_of guesses) end after answer hits
          same_answer same_hits (checked-admitted guesses after wrong on))

  -- While no attempt of the run has a right password: over any run of attempts from any addresses, starting
  -- from the empty store with a clock that does not go back, no closed interval of the window's
  -- length holds more than `max_failures` attempts from one address whose password is checked, if
  -- the limit is at least 1.
  pub checked-le-limit :
      (guesses : List Guess) (ip : Text) (from : ℕ) (x : X)
      → All IsWrong guesses
      → 1 ≤ max_failures
      → IsTimed 0 (map call_of guesses)
      → within from
          (ticks window_seconds)
          (times_of (login_key ip) (checked guesses (record { ext = x; hits = []; audits = [] })))
        ≤ max_failures
  checked-le-limit guesses ip from x wrong on timed =
      subst (λ log. within from (ticks window_seconds) (times_of (login_key ip) log) ≤ max_failures)
        (sym (checked-admitted guesses (record { ext = x; hits = []; audits = [] }) wrong on))
        (admitted-le-limit max_failures window_seconds from (login_key ip) (map call_of guesses)
          timed)
