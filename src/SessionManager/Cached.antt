-- ===== src/SessionManager/Cached.antt =====
-- What `login` does for a user whose session is cached.
use gradido_blockchain_conne.Base.{String, ◌≡◌, refl, ap, ◌∙◌, some, eq_refl}
use gradido_blockchain_conne.Exec.{ok}
use gradido_blockchain_conne.Platform.{Library, Outside, Session}
use gradido_blockchain_conne.ServerConfig.{ServerConfig}
use gradido_blockchain_conne.SessionManager.{login, cached_or_new, issue, login_token, get_session}
use gradido_blockchain_conne.SessionManager.Granted.{TokenVerifies, CacheKeeps, login-get_session}

module _ (L : Library) (O : Outside L) (C : ServerConfig) where
  -- The token that a login gives while a session is cached.
  cached_token :
      (username password group_alias : String) (w : O.W) (s : Session L) (key : L.Key)
      → (O.cache_get username w).0 ≡ some s
      → s.key_pair ≡ some key
      → let now = O.now (O.cache_get username w).1 in
        login L O C username password group_alias s.client_ip w ≡ (
          ok (L.jwt_sign C.jwt_verify_secret (login_token L O C username (L.public_key key) now.0)),
          now.1,
        )
  unfolding login
  cached_token username password group_alias w s key cached keyed =
      rw (cached, cached_or_new, issue, eq_refl, keyed) refl

  -- While a session of `username` that has a key is cached, a login from its client address with any
  -- password and any group alias returns a token; if such a token verifies and the cache keeps what
  -- it holds, then getSession gives this very session for it to the same address. No password is
  -- checked.
  pub login_cached :
      (username password group_alias : String) (w : O.W) (s : Session L) (key : L.Key)
      → CacheKeeps L O
      → ((token : String) (w₁ : O.W)
          → login L O C username password group_alias s.client_ip w ≡ (ok token, w₁)
          → TokenVerifies L C.jwt_verify_secret token)
      → (O.cache_get username w).0 ≡ some s
      → s.key_pair ≡ some key
      → (token : String) × (w₁ : O.W) × (w₂ : O.W) × (login L O C username password group_alias
            s.client_ip w
          ≡ (ok token, w₁))
        × (get_session L O C token s.client_ip w₁ ≡ (ok s, w₂))
  login_cached username password group_alias w s key keeps tokens cached keyed =
      let v = (O.cache_get username w).1 in
      let w₁ = (O.now v).1 in
      let token =
        L.jwt_sign C.jwt_verify_secret
          (login_token L O C username (L.public_key key) (O.now v).0) in
      let logged_in = cached_token username password group_alias w s key cached keyed in
      let (t, entered, there, from) =
        login-get_session L O C username password group_alias s.client_ip w w₁ token
          (tokens token w₁ logged_in) keeps logged_in in
      let same : t ≡ s = cc (there, keeps.clock username v, keeps.again username w, cached) in
      (
        token,
        w₁,
        (O.cache_get username w₁).1,
        logged_in,
        entered ∙ ap (λ x. (ok x, (O.cache_get username w₁).1)) same,
      )
