-- ===== src/RateLimit/Separation.antt =====
-- The rate limiter and the login guard share one store.
use lycosa.Prelude.{
  ℕ, zero, suc, Bool, not, ◌||◌, Option, none, some, [], ◌∷◌, Text, Bool-cases, Option-cases,
  nat_comparable, text_comparable, ◌≡◌, refl, sym, ap, ◌∙◌, ◌≢◌, inl, inr, arith,
}
use lycosa.WindowStore.{Hits, Outcome, return, index_error, bucket_of, try_hit}
use lycosa.WindowStore.Frame.{try_hit_frame, clear_bucket}
use lycosa.Login.{
  login_key, admit_attempt, clear_failures, clear_guarded, LoginState, LoginRequest, guarded,
  answer_login, check_password, after_admit, login,
}
use lycosa.RateLimit.{client_key, after_hit, dispatch, is_exempt}

abbrev first_char : Text → ℕ
first_char [] = 0
first_char (c ∷ s) = c

client-ne-login : (client : Option Text) (ip : Text) → client_key client ≢ login_key ip
client-ne-login none ip e = absurd (omega (arith, ap first_char e))
client-ne-login (some []) ip e = absurd (omega (arith, ap first_char e))
client-ne-login (some (c ∷ client)) ip e = absurd (omega (arith, ap first_char e))

clear_guarded-bucket :
    (guard : Option Text) (hits : Hits) (client : Option Text)
    → bucket_of (clear_guarded guard hits) (client_key client) ≡ bucket_of hits (client_key client)
unfolding clear_failures
clear_guarded-bucket none hits client = refl
clear_guarded-bucket (some ip) hits client =
    clear_bucket hits (login_key ip) (client_key client) (λ e. client-ne-login client ip (sym e))

module _ {X : Type 0} (authenticate_user : Text → Text → X → Option ℕ × X)
    (create_user_session : ℕ → X → (Text × Text) × X) (max_failures window_seconds : ℕ)
    (client : Option Text) where
  answer_login-bucket :
      (guard : Option Text) (request : LoginRequest) (user : Option ℕ) (s : LoginState X)
      → bucket_of
          (answer_login authenticate_user create_user_session max_failures window_seconds guard
            request user s).1.hits
          (client_key client)
        ≡ bucket_of s.hits (client_key client)
  unfolding answer_login
  answer_login-bucket guard request none s = refl
  answer_login-bucket guard request (some user) s = clear_guarded-bucket guard s.hits client

  after_admit-bucket :
      (ip : Text) (request : LoginRequest) (outcome : Outcome ℕ) (s : LoginState X)
      → bucket_of
          (after_admit authenticate_user create_user_session max_failures window_seconds ip request
            outcome s).1.hits
          (client_key client)
        ≡ bucket_of s.hits (client_key client)
  unfolding after_admit check_password
  after_admit-bucket ip request index_error s = refl
  after_admit-bucket ip request (return zero) s = answer_login-bucket (some ip) request _ _
  after_admit-bucket ip request (return (suc wait)) s = refl

  -- No login, whatever its end, changes the hits that the rate limiter counts for any client.
  pub login-bucket :
      (request : LoginRequest) (s : LoginState X)
      → bucket_of
          (login authenticate_user create_user_session max_failures window_seconds request s).1.hits
          (client_key client)
        ≡ bucket_of s.hits (client_key client)
  unfolding login check_password admit_attempt
  login-bucket request s = elim (Option-cases (guarded max_failures request.ip)) [
    | inl off ↦ simp (login, off) (answer_login-bucket none request _ _)
    | inr (ip, on) ↦
        let key = login_key ip in
        let (outcome, hits) = try_hit s.hits key max_failures window_seconds request.now in
        simp (login, on)
          (after_admit-bucket ip request outcome (record s { hits = hits })
            ∙ try_hit_frame s.hits key (client_key client) max_failures window_seconds request.now
                (λ e. client-ne-login client ip (sym e)))
  ]

module _ {X R : Type 0} (call_next : X → R × X) (enabled : Bool) (requests window_seconds : ℕ)
    (ip : Text) where
  after_hit-hits :
      (outcome : Outcome ℕ) (hits : Hits) (x : X)
      → (after_hit call_next enabled requests window_seconds outcome hits x).1 ≡ hits
  unfolding after_hit
  after_hit-hits index_error hits x = refl
  after_hit-hits (return zero) hits x = refl
  after_hit-hits (return (suc wait)) hits x = refl

  -- No request that the rate limiter sees, whatever its answer, changes the hits that the login
  -- guard counts for any address.
  pub dispatch-bucket :
      (path : Text) (client : Option Text) (now : ℕ) (hits : Hits) (x : X)
      → bucket_of
          (dispatch call_next enabled requests window_seconds path client now hits x).1
          (login_key ip)
        ≡ bucket_of hits (login_key ip)
  unfolding dispatch
  dispatch-bucket path client now hits x = elim (Bool-cases (not enabled || is_exempt path)) [
    | inl free ↦ rw (dispatch, free) refl
    | inr counted ↦
        let key = client_key client in
        let (outcome, hits') = try_hit hits key requests window_seconds now in
        simp (dispatch, counted)
          (ap (λ h. bucket_of h (login_key ip)) (after_hit-hits outcome hits' x)
            ∙ try_hit_frame hits key (login_key ip) requests window_seconds now
                (client-ne-login client ip))
  ]
