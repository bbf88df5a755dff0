-- ===== src/Login.antt =====
-- backend/app/core/loginguard.py, and the handler `login` of backend/app/api/v1/auth.py, over the
-- in-process window store. `authenticate_user` and `create_user_session` act on a state of their
-- own; the time of a request is that of the store's call.
pub mod Throttle
use lycosa.Prelude.{
  ℕ, zero, suc, ◌+◌, ◌-◌, ◌*◌, ◌/◌, ◌^◌, ◌≤◌, ◌<◌, min, max, Bool, true, false, not, ◌&&◌, ◌||◌,
  Option, none, some, List, [], ◌∷◌, ◌++◌, map, append-nil, append_assoc, Text, text, String,
  length, take, drop, get_elem?, length-append, length-map, length-take-le, All, All-append, any,
  keep_if, is_in, ltb, leb, nat_beq, if◌then◌else◌, ltb→lt, lt→ltb, leb→le, le→leb, nat_beq_iff,
  Bool-cases, Option-cases, Comparable, ◌==◌, nat_comparable, text_beq, text_beq_iff,
  text_comparable, beq_refl, beq_false, ◌≡◌, refl, sym, ap, ◌∙◌, subst, ◌≢◌, ◌↔◌, ◌⊎◌, inl, inr,
  starts_with, contains, join, arith,
}
use lycosa.WindowStore.{Hits, Outcome, return, index_error, try_hit, clear}

abbrev pub login_key : Text → Text
login_key ip = text "login:" ++ ip

unfoldable pub admit_attempt : Hits → Text → ℕ → ℕ → ℕ → Outcome ℕ × Hits
admit_attempt hits ip max_failures window_seconds now =
    try_hit hits (login_key ip) max_failures window_seconds now

unfoldable pub clear_failures : Hits → Text → Hits
clear_failures hits ip = clear hits (login_key ip)

pub data LoginAudit : Type 0 where
  login_throttled login_failure : Text → LoginAudit
  login_success : ℕ → Text → LoginAudit

-- `TokenResponse`, the two `HTTPException`s, or the exception of the store.
pub data LoginEnd : Type 0 where
  token_response : Text → LoginEnd
  invalid_credentials : LoginEnd
  too_many_requests : ℕ → LoginEnd
  store_failed : LoginEnd

pub record LoginState (X : Type 0) : Type 0 where
  pub ext : X
  pub hits : Hits
  pub audits : List LoginAudit

pub record LoginRequest : Type 0 where
  pub ip : Option Text
  pub email : Text
  pub password : Text
  pub now : ℕ

-- The address that is guarded: `settings.auth_max_failed_logins > 0 and ip is not None`.
unfoldable pub guarded : ℕ → Option Text → Option Text
guarded max_failures ip = if leb 1 max_failures then ip else none

abbrev pub clear_guarded : Option Text → Hits → Hits
clear_guarded none hits = hits
clear_guarded (some ip) hits = clear_failures hits ip

module _ {X : Type 0} (authenticate_user : Text → Text → X → Option ℕ × X)
    (create_user_session : ℕ → X → (Text × Text) × X) (max_failures window_seconds : ℕ) where
  -- What follows `authenticate_user`.
  unfoldable pub answer_login :
      Option Text → LoginRequest → Option ℕ → LoginState X → LoginEnd × LoginState X
  unfolding clear_failures
  answer_login guard request none s =
      (invalid_credentials, record s { audits = s.audits ++ login_failure request.email ∷ [] })
  answer_login guard request (some user) s =
      let ((token, session), x) = create_user_session user s.ext in
      (
        token_response token,
        record s {
          ext = x;
          hits = clear_guarded guard s.hits;
          audits = s.audits ++ login_success user session ∷ [];
        },
      )

  -- The password check and what follows it.
  unfoldable pub check_password :
      Option Text → LoginRequest → LoginState X → LoginEnd × LoginState X
  unfolding answer_login
  check_password guard request s =
      let (user, x) = authenticate_user request.email request.password s.ext in
      answer_login guard request user (record s { ext = x })

  -- `if retry_after:`
  unfoldable pub after_admit :
      Text → LoginRequest → Outcome ℕ → LoginState X → LoginEnd × LoginState X
  unfolding check_password
  after_admit ip request index_error s = (store_failed, s)
  after_admit ip request (return zero) s = check_password (some ip) request s
  after_admit ip request (return (suc wait)) s = (
    too_many_requests (suc wait),
    record s { audits = s.audits ++ login_throttled request.email ∷ [] },
  )

  unfoldable pub login : LoginRequest → LoginState X → LoginEnd × LoginState X
  unfolding guarded admit_attempt after_admit check_password
  login request s = elim (guarded max_failures request.ip) [
    | none ↦ check_password none request s
    | some ip ↦
        let (outcome, hits) = admit_attempt s.hits ip max_failures window_seconds request.now in
        after_admit ip request outcome (record s { hits = hits })
  ]
