-- ===== src/Login/Granted.antt =====
-- src/JSONInterface/JsonLogin.cpp: what a token of /login is good for, and how a request ends.
use gradido_blockchain_conne.Base.{
  String, Bool, true, false, not, some, List, [], ◌∷◌, ◌≡◌, ◌≢◌, refl, sym, ap, ◌∙◌, str_eq, subst,
}
use gradido_blockchain_conne.Json.{Json, str}
use gradido_blockchain_conne.Exec.{
  Exception, library, sealed_box_decrypt, decryption_failed, invalid_password_exception,
  missing_key_exception, state_success, ok,
}
use gradido_blockchain_conne.Exec.Rules.{bind-ok-elim}
use gradido_blockchain_conne.Exceptions.{base_of}
use gradido_blockchain_conne.Platform.{Library, Outside, Session, answer, reply}
use gradido_blockchain_conne.ServerConfig.{ServerConfig}
use gradido_blockchain_conne.SessionManager.{login, get_session}
use gradido_blockchain_conne.SessionManager.Granted.{TokenVerifies, CacheKeeps, login-get_session}
use gradido_blockchain_conne.Transaction.{or_keep}
use gradido_blockchain_conne.Transaction.Reading.{reply-ok, reply-same}
use gradido_blockchain_conne.Login.Posted.{
  refuse-ok, refuse-same, success-ok, caught_by_base-ne-success, posted-ok,
}
use gradido_blockchain_conne.Login.{refuse, log_in, login_caught, handle_request_login}

module _ (L : Library) (O : Outside L) (C : ServerConfig) where
  not-false : (b : Bool) → not b ≡ false → b ≡ true
  not-false true h = refl
  not-false false h = sym h

  login_caught-ne-success :
      (members : List (String × Json)) (w' : O.W) (e : Exception) (w : O.W)
      → login_caught L O C e w ≢ (ok (state_success members), w')
  unfolding login_caught
  login_caught-ne-success members w' (library sealed_box_decrypt m) w h = cc
  login_caught-ne-success members w' (invalid_password_exception m user size) w h = cc
  login_caught-ne-success members w' (missing_key_exception m key) w h = cc
  login_caught-ne-success members w' (library decryption_failed m) w h = cc
  login_caught-ne-success members w' e w h =
      caught_by_base-ne-success (base_of L e) e w w' members h

  abbrev pub text_of : Json → String → String
  text_of params name = or_keep (L.get_string_parameter params name) ""

  -- The request names a user and a valid group, and has a password that the key of the server opens
  -- and with which the session manager logs the user in.
  pub record LoggedIn (request_stream client_ip : String) (members : List (String × Json))
      (w w' : O.W) : Type 0 where
    pub params : Json
    pub password : String
    pub token : String
    pub parsed : L.parse_json request_stream ≡ answer params
    pub valid : L.is_valid_group_alias (text_of params "groupAlias") ≡ true
    pub opened :
        L.sealed_decrypt C.jwt_private_key (L.hex_to_bin (text_of params "password"))
        ≡ answer password
    pub logged_in :
        login L O C (text_of params "name") password (text_of params "groupAlias") client_ip w
        ≡ (ok token, w')
    pub shown : members ≡ ("token", str token) ∷ []

  log_in-LoggedIn :
      (request_stream client_ip : String) (members : List (String × Json)) (w w' : O.W)
      → log_in L O C request_stream client_ip w ≡ (ok (state_success members), w')
      → LoggedIn request_stream client_ip members w w'
  unfolding log_in
  log_in-LoggedIn request_stream client_ip members w w' h =
      bind-ok-elim (reply (L.parse_json request_stream)) _ w h (λ params w₁ e₁ h₁.
        bind-ok-elim (refuse _ "parameter error") _ w₁ h₁ (λ _ w₂ e₂ h₂.
          bind-ok-elim (refuse _ "invalid group alias") _ w₂ h₂ (λ _ w₃ e₃ h₃.
            bind-ok-elim
              (reply
                (L.sealed_decrypt C.jwt_private_key (L.hex_to_bin (text_of params "password"))))
              _ w₃ h₃
              (λ password w₄ e₄ h₄.
                bind-ok-elim
                  (login L O C (text_of params "name") password (text_of params "groupAlias")
                    client_ip)
                  _ w₄ h₄
                  (λ token w₅ e₅ h₅.
                    let (shown, same) = success-ok _ members w₅ w' h₅ in
                    record {
                      params = params;
                      password = password;
                      token = token;
                      parsed = reply-ok _ w w₁ params e₁;
                      valid = not-false _ (refuse-ok _ _ w₂ w₃ _ e₃);
                      opened = reply-ok _ w₃ w₄ password e₄;
                      logged_in =
                          subst
                            (λ v.
                              login L O C (text_of params "name") password
                                (text_of params "groupAlias") client_ip v
                              ≡ (ok token, w'))
                            (sym (
                              reply-same _ w w₁ params e₁
                              ∙ refuse-same _ _ w₁ w₂ _ e₂
                              ∙ refuse-same _ _ w₂ w₃ _ e₃
                              ∙ reply-same _ w₃ w₄ password e₄))
                            (e₅ ∙ ap (λ v. (ok token, v)) same);
                      shown = shown;
                    })))))

  -- A request to /login that is answered with success was sent by POST with the name of a user, a
  -- valid group alias and a password that the key of the server decrypts, and the session manager
  -- logged that user in with them; the answer has the token of that login and no other member.
  pub handle_login-LoggedIn :
      (method request_stream client_ip : String) (members : List (String × Json)) (w w' : O.W)
      → handle_request_login L O C method request_stream client_ip w
        ≡ (ok (some (state_success members)), w')
      → (str_eq method "POST" ≡ true) × LoggedIn request_stream client_ip members w w'
  unfolding handle_request_login
  handle_login-LoggedIn method request_stream client_ip members w w' h =
      let (post, done) =
        posted-ok method (log_in L O C request_stream client_ip) (login_caught L O C) w w' members
          (login_caught-ne-success members w') h in
      (post, log_in-LoggedIn request_stream client_ip members w w' done)

  -- If the token of the answer verifies as it was signed and the cache keeps what it holds, then the
  -- answer of a request to /login that succeeds has a token for which getSession, called next from the address
  -- of that request, gives a session that was opened from this address.
  pub handle_login-get_session :
      (method request_stream client_ip : String) (members : List (String × Json)) (w w' : O.W)
      → ((token : String)
          → members ≡ ("token", str token) ∷ []
          → TokenVerifies L C.jwt_verify_secret token)
      → CacheKeeps L O
      → handle_request_login L O C method request_stream client_ip w
        ≡ (ok (some (state_success members)), w')
      → (token : String) × (s : Session L) × (w₁ : O.W) × (members ≡ ("token", str token) ∷ [])
        × (get_session L O C token client_ip w' ≡ (ok s, w₁))
        × (s.client_ip ≡ client_ip)
  handle_login-get_session method request_stream client_ip members w w' tokens keeps h =
      let (post, l) = handle_login-LoggedIn method request_stream client_ip members w w' h in
      let (s, gets, there, from) =
        login-get_session L O C (text_of l.params "name") l.password (text_of l.params "groupAlias")
          client_ip w w' l.token (tokens l.token l.shown) keeps l.logged_in in
      (l.token, s, (O.cache_get (text_of l.params "name") w').1, l.shown, gets, from)
