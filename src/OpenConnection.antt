-- ===== src/OpenConnection.antt =====
-- src/JSONInterface/JsonOpenConnection.cpp: the handler of /openCommunication, which gives another
-- community a token for its signature of the public key of this server.
pub mod Granted
use gradido_blockchain_conne.Base.{
  ℕ, ◌+◌, String, Bool, true, false, not, ◌||◌, Option, none, some, List, [], ◌∷◌, nonempty, str_eq,
  if◌then◌else◌,
}
use gradido_blockchain_conne.Json.{Json, str}
use gradido_blockchain_conne.Exec.{
  Exception, library, ed25519_verify, what, Document, state_error, state_success, details_of, Exec,
  ok, pure, throw, try_catch, handle_thrown, resume, ◌>>=◌, ◌>>◌,
}
use gradido_blockchain_conne.Exceptions.{base_of}
use gradido_blockchain_conne.Platform.{Library, Outside, Token, reply, total, deref}
use gradido_blockchain_conne.ServerConfig.{ServerConfig}
use gradido_blockchain_conne.Transaction.{or_keep}
use gradido_blockchain_conne.Login.{caught_by_base, refuse}

module _ (L : Library) (O : Outside L) (C : ServerConfig) where
  abbrev pub connection_token : ℕ → Token
  connection_token now = record {
    subject = "openConnection";
    name = none;
    pubkey = none;
    issued_at = now;
    expiration = now + C.session_valid_duration;
  }

  abbrev verified : Bool → Exec O.W (Unit {0})
  verified true = pure tt
  verified false = throw (library ed25519_verify "cannot verify signature")

  -- The body of `try`. The key of the caller and the key of the server are read without a test.
  unfoldable pub open_connection : String → Exec O.W Document
  open_connection request_stream = do
    params ← reply (L.parse_json request_stream)
    let community_pubkey_hex = or_keep (L.get_string_parameter params "community-key-A") ""
    let signature_hex = or_keep (L.get_string_parameter params "signature") ""
    refuse (not (nonempty community_pubkey_hex) || not (nonempty signature_hex)) "parameter error"
    community_pubkey ← deref (L.hex_to_bin community_pubkey_hex)
    server_key ← deref C.jwt_private_key
    valid ←
        reply (L.key_verify community_pubkey (L.sk_to_pk server_key) (L.hex_to_bin signature_hex))
    verified valid
    now ← total O.now
    pure (
        state_success (("token", str (L.jwt_sign C.jwt_verify_secret (connection_token now))) ∷ []))

  unfoldable pub open_caught : Exception → Exec O.W Document
  open_caught (library ed25519_verify w) =
      pure (state_error w (details_of (library ed25519_verify w)))
  open_caught e = caught_by_base (base_of L e) e

  unfoldable pub handle_request_open : String → String → Exec O.W (Option Document)
  unfolding open_connection open_caught
  handle_request_open method request_stream =
      if str_eq method "POST"
      then (try_catch (open_connection request_stream) open_caught >>= λ d. pure (some d))
      else pure none
