-- ===== src/SessionManager/Granted.antt =====
-- A token that `login` gives is good for `getSession`, given what Poco documents of its cache and
-- of its tokens.
use gradido_blockchain_conne.Base.{
  ℕ, String, ◌≡◌, refl, ap, ◌∙◌, some, arith, eq_iff, Option-cases, List, inl, inr,
}
use gradido_blockchain_conne.Exec.{ok, ◌>>◌, pure}
use gradido_blockchain_conne.Exec.Rules.{bind-ok}
use gradido_blockchain_conne.Platform.{Library, Outside, Session, Token, answer, modify}
use gradido_blockchain_conne.ServerConfig.{ServerConfig}
use gradido_blockchain_conne.Session.{login_or_create}
use gradido_blockchain_conne.SessionManager.{login, cached_or_new, issue, login_token, get_session}
use gradido_blockchain_conne.SessionManager.Access.{get_session_iff}

-- A token that a signer has signed verifies under its secret and gives the payload, of which a name
-- is read back. Signer::verify of Poco tests the signature alone, so this does not depend on the time.
pub record TokenVerifies (L : Library) (secret token : String) : Type 0 where
  pub verified : (t : Token) → token ≡ L.jwt_sign secret t → L.jwt_verify secret token ≡ answer t
  pub named : (t : Token) (n : String) → t.name ≡ some n → L.get_value t "name" ≡ answer n

-- An entry of the cache is found until it expires: after it was added, when it is read again, and
-- over a read of the clock.
pub record CacheKeeps (L : Library) (O : Outside L) : Type 0 where
  pub added :
      (k : String) (s : Session L) (w : O.W) → (O.cache_get k (O.cache_add k s w)).0 ≡ some s
  pub again : (k : String) (w : O.W) → (O.cache_get k (O.cache_get k w).1).0 ≡ (O.cache_get k w).0
  pub clock : (k : String) (w : O.W) → (O.cache_get k (O.now w).1).0 ≡ (O.cache_get k w).0

module _ (L : Library) (O : Outside L) (C : ServerConfig) where
  record Issued (username client_ip : String) (s : Session L) (w : O.W) (token : String) (w' : O.W)
      : Type 0 where
    from_ip : s.client_ip ≡ client_ip
    signed :
        (key : List ℕ) × (token
          ≡ L.jwt_sign C.jwt_verify_secret (login_token L O C username key (O.now w).0))
    clock : w' ≡ (O.now w).1

  issue-Issued :
      (username client_ip : String) (s : Session L) (w : O.W) (token : String) (w' : O.W)
      → issue L O C username client_ip s w ≡ (ok token, w')
      → Issued username client_ip s w token w'
  unfolding issue
  issue-Issued username client_ip s w token w' h = elim (Option-cases s.key_pair) [
    | inl e ↦ absurd (ground arith)
    | inr (key, e) ↦ record {
      from_ip = ground (arith, eq_iff s.client_ip client_ip);
      signed = (L.public_key key, ground arith);
      clock = ground arith;
    }
  ]

  -- The session that a login goes on with is the one that the cache then has.
  cached_or_new-cached :
      (username password group_alias client_ip : String) (w : O.W) (s : Session L) (w₁ : O.W)
      → CacheKeeps L O
      → cached_or_new L O C username password group_alias client_ip
          (O.cache_get username w).0
          (O.cache_get username w).1
        ≡ (ok s, w₁)
      → (O.cache_get username w₁).0 ≡ some s
  unfolding cached_or_new
  cached_or_new-cached username password group_alias client_ip w s w₁ keeps h =
      elim (Option-cases (O.cache_get username w).0) [
        | inr (t, e) ↦ ground (arith, keeps.again username w)
        | inl e ↦
            let h' = rw (e, cached_or_new) at h in
            let (created, w₂, logged_in, stored) =
              bind-ok (login_or_create L O username password group_alias client_ip)
                (λ created. modify (O.cache_add username created.1) >> pure created.1)
                (O.cache_get username w).1 h' in
            ground (arith, keeps.added username created.1 w₂)
      ]

  -- If a token that was signed verifies and the cache keeps what it holds, then a token that `login`
  -- returns gives its holder, from the address of the login, the session that the cache has of the
  -- user, and that session was opened from that address.
  pub login-get_session :
      (username password group_alias client_ip : String) (w w' : O.W) (token : String)
      → TokenVerifies L C.jwt_verify_secret token
      → CacheKeeps L O
      → login L O C username password group_alias client_ip w ≡ (ok token, w')
      → (s : Session L) × (get_session L O C token client_ip w'
          ≡ (ok s, (O.cache_get username w').1))
        × ((O.cache_get username w').0 ≡ some s)
        × (s.client_ip ≡ client_ip)
  unfolding login
  login-get_session username password group_alias client_ip w w' token tokens keeps h =
      let (s, w₁, found, issued) =
        bind-ok
          (cached_or_new L O C username password group_alias client_ip (O.cache_get username w).0)
          (issue L O C username client_ip) (O.cache_get username w).1 h in
      let i = issue-Issued username client_ip s w₁ token w' issued in
      let there : (O.cache_get username w').0 ≡ some s =
        ap (λ v. (O.cache_get username v).0) i.clock
        ∙ keeps.clock username w₁
        ∙ cached_or_new-cached username password group_alias client_ip w s w₁ keeps found in
      let payload = login_token L O C username i.signed.0 (O.now w₁).0 in
      (
        s,
        (get_session_iff L O C token client_ip w' s (O.cache_get username w').1).1 (
          username,
          (payload, tokens.verified payload i.signed.1, tokens.named payload username refl),
          (ground arith, i.from_ip),
        ),
        there,
        i.from_ip,
      )
