-- ===== src/SessionManager/Access.antt =====
-- Who gets a session: what the two forms of `getSession` demand, and that a login gives it.
use gradido_blockchain_conne.Base.{
  String, ◌≡◌, ◌≢◌, ◌↔◌, sym, ◌∙◌, some, arith, eq_iff, inl, inr, Option-cases,
}
use gradido_blockchain_conne.Exec.{
  Exception, library, signature_verification, Result, ok, thrown, returned, aborted, handle_thrown,
}
use gradido_blockchain_conne.Platform.{Library, Outside, Session, Token, answer, fails, Reply-cases}
use gradido_blockchain_conne.ServerConfig.{ServerConfig}
use gradido_blockchain_conne.SessionManager.{bad_token, active_session, get_session}

module _ (L : Library) (O : Outside L) (C : ServerConfig) where
  module _ (name client_ip : String) (w : O.W) (s : Session L) (w' : O.W) where
    abbrev pub IsActive : Type 0
    IsActive = (O.cache_get name w ≡ (some s, w')) × (s.client_ip ≡ client_ip)

    active_session_iff : (active_session L O C name client_ip w ≡ (ok s, w')) ↔ IsActive
    unfolding active_session
    active_session_iff = elim (Option-cases (O.cache_get name w).0) [
      | inl e ↦ (λ h. ground arith, λ h. ground arith)
      | inr (t, e) ↦ (
        λ h. ground (arith, eq_iff t.client_ip client_ip),
        λ h. ground (arith, eq_iff t.client_ip client_ip),
      )
    ]

  bad_token-ne-ok :
      (A : Type 0) (e : Exception) (w w' : O.W) (a : A) → bad_token L O C e w ≢ (ok a, w')
  bad_token-ne-ok A (library signature_verification t) w w' a h = cc
  bad_token-ne-ok A e w w' a h = cc

  caught-ok :
      (r : Result (Session L) × O.W) (s : Session L) (w' : O.W)
      → (handle_thrown r (bad_token L O C) ≡ (ok s, w')) ↔ (r ≡ (ok s, w'))
  caught-ok (ok a, w) s w' = (λ h. h, λ h. h)
  caught-ok (returned d, w) s w' = (λ h. cc, λ h. cc)
  caught-ok (thrown e, w) s w' = (λ h. absurd (bad_token-ne-ok _ e w w' s h), λ h. cc)
  caught-ok (aborted, w) s w' = (λ h. cc, λ h. cc)

  -- The token is signed with the secret of the server and has the name.
  abbrev pub Names : String → String → Type 0
  Names serialized name =
      (token : Token) × (L.jwt_verify C.jwt_verify_secret serialized ≡ answer token)
      × (L.get_value token "name" ≡ answer name)

  module _ (serialized client_ip : String) (w : O.W) where
    get_session_named :
        (token : Token) (name : String)
        → L.jwt_verify C.jwt_verify_secret serialized ≡ answer token
        → L.get_value token "name" ≡ answer name
        → get_session L O C serialized client_ip w
          ≡ handle_thrown (active_session L O C name client_ip w) (bad_token L O C)
    unfolding get_session
    get_session_named token name verified named = rw (verified, named)

    get_session_unnamed :
        (token : Token) (e : Exception)
        → L.jwt_verify C.jwt_verify_secret serialized ≡ answer token
        → L.get_value token "name" ≡ fails e
        → get_session L O C serialized client_ip w ≡ bad_token L O C e w
    unfolding get_session
    get_session_unnamed token e verified named = rw (verified, named)

    get_session_unverified :
        (e : Exception)
        → L.jwt_verify C.jwt_verify_secret serialized ≡ fails e
        → get_session L O C serialized client_ip w ≡ bad_token L O C e w
    unfolding get_session
    get_session_unverified e verified = rw verified

    get_session_forth :
        (s : Session L) (w' : O.W)
        → get_session L O C serialized client_ip w ≡ (ok s, w')
        → (name : String) × Names serialized name × IsActive name client_ip w s w'
    get_session_forth s w' h = elim (Reply-cases (L.jwt_verify C.jwt_verify_secret serialized)) [
      | inr (e, v) ↦ absurd (bad_token-ne-ok _ e w w' s (sym (get_session_unverified e v) ∙ h))
      | inl (token, v) ↦ elim (Reply-cases (L.get_value token "name")) [
        | inr (e, n) ↦
            absurd (bad_token-ne-ok _ e w w' s (sym (get_session_unnamed token e v n) ∙ h))
        | inl (name, n) ↦ (
          name,
          (token, v, n),
          (active_session_iff name client_ip w s w').0 (
              (caught-ok (active_session L O C name client_ip w) s w').0
                (sym (get_session_named token name v n) ∙ h)),
        )
      ]
    ]

  -- `getSession` of a token and a client address returns a session exactly if the token verifies
  -- under the secret of the server, it names a user, the cache has a session of that user, and that
  -- session was opened from the same address; and it returns that session.
  pub get_session_iff :
      (serialized client_ip : String) (w : O.W) (s : Session L) (w' : O.W)
      → (get_session L O C serialized client_ip w ≡ (ok s, w'))
        ↔ ((name : String) × Names serialized name × IsActive name client_ip w s w')
  get_session_iff serialized client_ip w s w' = (
    get_session_forth serialized client_ip w s w',
    λ (name, (token, v, n), active).
        (get_session_named serialized client_ip w token name v n
          ∙ (caught-ok (active_session L O C name client_ip w) s w').1
              ((active_session_iff name client_ip w s w').1 active)),
  )
