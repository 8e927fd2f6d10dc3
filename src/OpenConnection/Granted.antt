-- ===== src/OpenConnection/Granted.antt =====
-- src/JSONInterface/JsonOpenConnection.cpp: who gets a token, and what it is good for.
use gradido_blockchain_conne.Base.{
  ℕ, String, Bool, true, false, some, List, [], ◌∷◌, ◌≡◌, ◌≢◌, refl, sym, ap, ◌∙◌, str_eq, arith,
  eq_iff,
}
use gradido_blockchain_conne.Json.{Json, str}
use gradido_blockchain_conne.Exec.{pure, Exception, library, ed25519_verify, state_success, ok}
use gradido_blockchain_conne.Exec.Rules.{bind-ok-elim}
use gradido_blockchain_conne.Access.Rules.{deref-ok}
use gradido_blockchain_conne.Exceptions.{base_of}
use gradido_blockchain_conne.Platform.{Library, Outside, Session, answer, reply, deref}
use gradido_blockchain_conne.ServerConfig.{ServerConfig}
use gradido_blockchain_conne.SessionManager.{get_session_of, active_session}
use gradido_blockchain_conne.SessionManager.Granted.{TokenVerifies}
use gradido_blockchain_conne.Transaction.{or_keep}
use gradido_blockchain_conne.Transaction.Reading.{reply-ok, reply-same}
use gradido_blockchain_conne.Login.{refuse}
use gradido_blockchain_conne.Login.Posted.{
  refuse-same, success-ok, caught_by_base-ne-success, posted-ok,
}
use gradido_blockchain_conne.OpenConnection.{
  connection_token, verified, open_connection, open_caught, handle_request_open,
}

module _ (L : Library) (O : Outside L) (C : ServerConfig) where
  open_caught-ne-success :
      (members : List (String × Json)) (w' : O.W) (e : Exception) (w : O.W)
      → open_caught L O C e w ≢ (ok (state_success members), w')
  unfolding open_caught
  open_caught-ne-success members w' (library ed25519_verify m) w h = cc
  open_caught-ne-success members w' e w h = caught_by_base-ne-success (base_of L e) e w w' members h

  verified-true :
      (b : Bool) (w w' : O.W) (u : Unit {0})
      → verified L O C b w ≡ (ok u, w')
      → (b ≡ true) × (w ≡ w')
  verified-true true w w' u h = (refl, cc)
  verified-true false w w' u h = cc

  abbrev pub token_at : O.W → List (String × Json)
  token_at w =
      ("token", str (L.jwt_sign C.jwt_verify_secret (connection_token L O C (O.now w).0))) ∷ []

  issued :
      (members : List (String × Json)) (w v w' : O.W)
      → w ≡ v
      → pure (state_success (token_at v)) (O.now v).1 ≡ (ok (state_success members), w')
      → (members ≡ token_at w) × (w' ≡ (O.now w).1)
  issued members w v w' same h =
      let (shown, after) = success-ok (token_at v) members (O.now v).1 w' h in
      (shown ∙ ap token_at (sym same), sym after ∙ ap (λ u. (O.now u).1) (sym same))

  -- The request has a key and a signature, and the key verifies the signature of the public key of
  -- the server; the token is signed for the present time.
  pub record Opened (request_stream : String) (members : List (String × Json)) (w w' : O.W)
      : Type 0 where
    pub params : Json
    pub community_pubkey : List ℕ
    pub server_key : List ℕ
    pub parsed : L.parse_json request_stream ≡ answer params
    pub read :
        L.hex_to_bin (or_keep (L.get_string_parameter params "community-key-A") "")
        ≡ some community_pubkey
    pub configured : C.jwt_private_key ≡ some server_key
    pub signed :
        L.key_verify community_pubkey
          (L.sk_to_pk server_key)
          (L.hex_to_bin (or_keep (L.get_string_parameter params "signature") ""))
        ≡ answer true
    pub shown : members ≡ token_at w
    pub after : w' ≡ (O.now w).1

  open-Opened :
      (request_stream : String) (members : List (String × Json)) (w w' : O.W)
      → open_connection L O C request_stream w ≡ (ok (state_success members), w')
      → Opened request_stream members w w'
  unfolding open_connection
  open-Opened request_stream members w w' h =
      bind-ok-elim (reply (L.parse_json request_stream)) _ w h (λ params w₁ e₁ h₁.
        bind-ok-elim (refuse _ "parameter error") _ w₁ h₁ (λ _ w₂ e₂ h₂.
          bind-ok-elim
            (deref (L.hex_to_bin (or_keep (L.get_string_parameter params "community-key-A") ""))) _
            w₂ h₂
            (λ key w₃ e₃ h₃. bind-ok-elim (deref C.jwt_private_key) _ w₃ h₃ (λ server_key w₄ e₄ h₄.
              bind-ok-elim
                (reply (
                  L.key_verify key (L.sk_to_pk server_key)
                    (L.hex_to_bin (or_keep (L.get_string_parameter params "signature") ""))))
                _ w₄ h₄
                (λ valid w₅ e₅ h₅. bind-ok-elim (verified L O C valid) _ w₅ h₅ (λ _ w₆ e₆ h₆.
                  let same : w ≡ w₆ =
                    reply-same _ w w₁ params e₁
                    ∙ refuse-same _ _ w₁ w₂ _ e₂
                    ∙ (deref-ok _ w₂ w₃ key e₃).1
                    ∙ (deref-ok _ w₃ w₄ server_key e₄).1
                    ∙ reply-same _ w₄ w₅ valid e₅
                    ∙ (verified-true valid w₅ w₆ _ e₆).1 in
                  let (shown, after) = issued members w w₆ w' same h₆ in
                  record {
                    params = params;
                    community_pubkey = key;
                    server_key = server_key;
                    parsed = reply-ok _ w w₁ params e₁;
                    read = (deref-ok _ w₂ w₃ key e₃).0;
                    configured = (deref-ok _ w₃ w₄ server_key e₄).0;
                    signed =
                        reply-ok _ w₄ w₅ valid e₅ ∙ ap answer (verified-true valid w₅ w₆ _ e₆).0;
                    shown = shown;
                    after = after;
                  }))))))

  -- A request to /openCommunication that is answered with success was sent by POST with a public key
  -- and a signature, which that key verifies for the public key of this server; the answer is a token
  -- for an open connection, issued at the present time of the clock, and no other member.
  pub handle_open-Opened :
      (method request_stream : String) (members : List (String × Json)) (w w' : O.W)
      → handle_request_open L O C method request_stream w ≡ (ok (some (state_success members)), w')
      → (str_eq method "POST" ≡ true) × Opened request_stream members w w'
  unfolding handle_request_open
  handle_open-Opened method request_stream members w w' h =
      let (post, done) =
        posted-ok method (open_connection L O C request_stream) (open_caught L O C) w w' members
          (open_caught-ne-success members w') h in
      (post, open-Opened request_stream members w w' done)

  -- If the token of the answer to /openCommunication verifies as it was signed when it is used, then
  -- the form of getSession for open connections gives for it, in every state `v`, the session of
  -- every user whom the cache then has with the client's address. That the token verifies is all
  -- that is tested: the expiration that was written into it is not compared with the clock.
  pub handle_open-get_session_of :
      (method request_stream : String) (members : List (String × Json)) (w w' : O.W)
      (username client_ip : String) (v : O.W) (s : Session L)
      → ((token : String)
          → members ≡ ("token", str token) ∷ []
          → TokenVerifies L C.jwt_verify_secret token)
      → handle_request_open L O C method request_stream w ≡ (ok (some (state_success members)), w')
      → (O.cache_get username v).0 ≡ some s
      → s.client_ip ≡ client_ip
      → (token : String) × (members ≡ ("token", str token) ∷ [])
        × (get_session_of L O C token username client_ip v ≡ (ok s, (O.cache_get username v).1))
  unfolding get_session_of active_session
  handle_open-get_session_of method request_stream members w w' username client_ip v s tokens h
        there from =
      let (post, o) = handle_open-Opened method request_stream members w w' h in
      let token = L.jwt_sign C.jwt_verify_secret (connection_token L O C (O.now w).0) in
      let verifies : L.jwt_verify C.jwt_verify_secret token
          ≡ answer (connection_token L O C (O.now w).0) =
        (tokens token o.shown).verified (connection_token L O C (O.now w).0) refl in
      (token, o.shown, ground (arith, verifies, there, eq_iff s.client_ip client_ip, from))
