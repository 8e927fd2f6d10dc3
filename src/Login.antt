-- ===== src/Login.antt =====
-- src/JSONInterface/JsonLogin.cpp: the handler of /login. The document that it hands to the server is
-- `none` where it is left empty, which is for any method but POST. The header of the response, which
-- has the token a second time, is left out.
pub mod Posted
pub mod Granted
use gradido_blockchain_conne.Base.{
  String, append, Bool, true, false, not, ◌||◌, Option, none, some, List, [], ◌∷◌, nonempty, str_eq,
  if◌then◌else◌,
}
use gradido_blockchain_conne.Json.{Json, str}
use gradido_blockchain_conne.Exec.{
  Base, gradido, poco, runtime, standard, foreign, Exception, library, sealed_box_decrypt,
  decryption_failed, invalid_password_exception, missing_key_exception, handle_request, what,
  Document, state_error, state_success, no_details, Exec, ok, pure, throw, try_catch, handle_thrown,
  resume, ◌>>=◌, ◌>>◌,
}
use gradido_blockchain_conne.Exceptions.{base_of}
use gradido_blockchain_conne.Platform.{Library, Outside, reply}
use gradido_blockchain_conne.ServerConfig.{ServerConfig}
use gradido_blockchain_conne.SessionManager.{login}
use gradido_blockchain_conne.Transaction.{or_keep}

-- The three clauses for whole families of exceptions, with which both handlers of logins end.
abbrev pub caught_by_base : {S : Type 0} → Base → Exception → Exec S Document
caught_by_base gradido e = pure (state_error (what e) no_details)
caught_by_base poco e = pure (state_error "Internal Server Error" no_details)
caught_by_base runtime e = pure (state_error "Internal Server Error" no_details)
caught_by_base standard e = throw e
caught_by_base foreign e = throw e

abbrev pub refuse : {S : Type 0} → Bool → String → Exec S (Unit {0})
refuse b message = if b then throw (library handle_request message) else pure tt

module _ (L : Library) (O : Outside L) (C : ServerConfig) where
  -- The body of `try`, for the text of the request.
  unfoldable pub log_in : String → String → Exec O.W Document
  log_in request_stream client_ip = do
    params ← reply (L.parse_json request_stream)
    let username = or_keep (L.get_string_parameter params "name") ""
    let encrypted_password_hex = or_keep (L.get_string_parameter params "password") ""
    let group_alias = or_keep (L.get_string_parameter params "groupAlias") ""
    refuse
        (not (nonempty username)
          || (not (nonempty encrypted_password_hex) || not (nonempty group_alias)))
        "parameter error"
    refuse (not (L.is_valid_group_alias group_alias)) "invalid group alias"
    password ← reply (L.sealed_decrypt C.jwt_private_key (L.hex_to_bin encrypted_password_hex))
    token ← login L O C username password group_alias client_ip
    pure (state_success (("token", str token) ∷ []))

  -- The seven `catch` clauses.
  unfoldable pub login_caught : Exception → Exec O.W Document
  login_caught (library sealed_box_decrypt w) =
      pure (state_error "cannot decrypt password" no_details)
  login_caught (invalid_password_exception w user size) = pure (state_error w no_details)
  login_caught (missing_key_exception w key) =
      pure (state_error (append key " is missing from config") no_details)
  login_caught (library decryption_failed w) = pure (state_error "Internal Server Error" no_details)
  login_caught e = caught_by_base (base_of L e) e

  unfoldable pub handle_request_login : String → String → String → Exec O.W (Option Document)
  unfolding log_in login_caught
  handle_request_login method request_stream client_ip =
      if str_eq method "POST"
      then (try_catch (log_in request_stream client_ip) login_caught >>= λ d. pure (some d))
      else pure none
