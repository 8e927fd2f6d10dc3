-- ===== src/Transaction.antt =====
-- src/JSONInterface/JsonTransaction.cpp: what the handlers of transactions share. The members of a
-- handler are the record `JsonTransaction`; a handler serves one request.
pub mod Silent
pub mod Trace
pub mod Sent
pub mod Reading
pub mod Memo
use gradido_blockchain_conne.Base.{
  ℕ, ◌-◌, ◌*◌, ◌/◌, String, append, utf8, Bool, true, false, not, ◌&&◌, Option, none, some, List,
  [], ◌∷◌, nonempty, ltb, ◌==◌, if◌then◌else◌,
}
use gradido_blockchain_conne.Json.{Json, str}
use gradido_blockchain_conne.Exec.{
  Base, poco, Exception, library, invalid_signature, invalid_input, iota_request,
  request_response_error, rapidjson_parse_error, ed25519_sign, jwt_token, login_exception,
  session_exception, node_rpc_exception, apollo_decay_exception, what, Document, state_error,
  state_success, no_details, text, details_of, Exec, Result, ok, returned, thrown, pure, throw,
  return_error, return_document, when, resume, handle_thrown, try_catch, ◌>>=◌, ◌>>◌,
}
use gradido_blockchain_conne.Exceptions.{base_of, full_string}
use gradido_blockchain_conne.Pending.{new_pending, push_new_transaction}
use gradido_blockchain_conne.Platform.{
  Library, Outside, Session, State, Param, found, missing, Kind, creation, transfer,
  deferred_transfer, other_kind, Reply, answer, fails, call, reply, total, in_world,
}
use gradido_blockchain_conne.ServerConfig.{ServerConfig}
use gradido_blockchain_conne.Session.{sign_transaction}
use gradido_blockchain_conne.SessionManager.{get_session}
use gradido_blockchain_conne.NodeRpc.{get_address_balance, put_transaction}

pub record JsonTransaction (L : Library) : Type 0 where
  pub memo : String
  pub created : ℕ
  pub apollo_transaction_id : ℕ
  pub apollo_created_decay : String
  pub apollo_decay_start : ℕ
  pub archive_transaction : Bool
  pub transaction_nr : ℕ
  pub session : Session L

-- paramError.IsObject()
abbrev pub or_return : {S A : Type 0} → Param A → Exec S A
or_return (found a) s = (ok a, s)
or_return (missing message extra) s = (returned (state_error message extra), s)

-- A parameter whose error is ignored.
abbrev pub or_keep : {A : Type 0} → Param A → A → A
or_keep (found a) old = a
or_keep (missing message extra) old = old

abbrev pub is_poco : Base → Bool
is_poco poco = true
is_poco _ = false

-- More than 60 * 60 * 60 seconds old, and with a number.
unfoldable pub is_archive : ℕ → ℕ → ℕ → Bool
is_archive now created transaction_nr =
    ltb (60 * 60 * 60) ((now - created) / 1000000) && not (transaction_nr == 0)

module _ (L : Library) (O : Outside L) (C : ServerConfig) where
  -- catch (Poco::Exception&) around the parser of dates
  abbrev pub parsed : String → Reply ℕ → Exec (State O.W) ℕ
  parsed message (answer date) = pure date
  parsed message (fails e) =
      if is_poco (base_of L e)
      then return_document (state_error message (text (what e)))
      else throw e

  -- The catch clauses of readSharedParameter around getSession.
  abbrev pub no_session : Exception → Exec (State O.W) (Session L)
  no_session (library jwt_token w) = return_error "invalid jwt token"
  no_session (login_exception w user ip) = return_error w
  no_session (session_exception w user) = return_error w
  no_session e = throw e

  -- readSharedParameter; `start` is the time at which the handler was made, which
  -- mApolloDecayStart holds until it is read.
  unfoldable pub read_shared_parameter :
      ℕ → String → String → Json → Exec (State O.W) (JsonTransaction L)
  unfolding is_archive
  read_shared_parameter start jwt client_ip params = do
    created_string ← or_return (L.get_string_parameter params "created")
    let start_string = or_keep (L.get_string_parameter params "apolloDecayStart") ""
    created ← parsed "cannot parse created" (L.parse_date created_string)
    decay_start ←
        (if nonempty start_string
          then parsed "cannot parse apollo decay start" (L.parse_date start_string)
          else pure start)
    let transaction_nr = or_keep (L.get_uint64_parameter params "transactionNr") 0
    now ← in_world (total O.now)
    session ← try_catch (in_world (get_session L O C jwt client_ip)) no_session
    pure (record {
      memo = or_keep (L.get_string_parameter params "memo") "";
      created = created;
      apollo_transaction_id = or_keep (L.get_uint64_parameter params "apolloTransactionId") 0;
      apollo_created_decay = or_keep (L.get_string_parameter params "apolloCreatedDecay") "";
      apollo_decay_start = decay_start;
      archive_transaction = is_archive now created transaction_nr;
      transaction_nr = transaction_nr;
      session = session;
    })

-- encryptMemo
pub encrypt_memo : (L : Library) → String → List ℕ → L.Key → String
encrypt_memo L memo ed25519_pubkey key =
    let sender_key = L.auth_of_private (L.sk_to_curve25519 (L.private_key key)) in
    let recipient_key = L.auth_of_public ed25519_pubkey in
    L.bin_to_base64 (L.authenticated_encrypt sender_key memo recipient_key)

-- decryptMemo: empty where the memo cannot be decrypted
unfoldable pub decrypt_memo : (L : Library) {S : Type 0} → String → List ℕ → L.Key → Exec S String
decrypt_memo L memo ed25519_pubkey key = do
  let sender_key = L.auth_of_public ed25519_pubkey
  let recipient_key = L.auth_of_private (L.sk_to_curve25519 (L.private_key key))
  clear ← reply (L.authenticated_decrypt recipient_key (L.base64_to_memory memo) sender_key)
  pure (elim clear [ none ↦ "" | some memo_text ↦ memo_text ])

-- The response with the message id of what was sent last.
abbrev pub sent_response : String → Document
sent_response id = state_success (("iotaMessageId", str id) ∷ [])

module _ (L : Library) (O : Outside L) where
  abbrev pub number_or : {S : Type 0} → Option L.Number → Exec S L.Number → Exec S L.Number
  number_or (some n) m = pure n
  number_or none m = m

  -- The key whose balance decays, or `return true`.
  abbrev decaying_key : Kind → Option (List ℕ)
  decaying_key (creation recipient) = some recipient
  decaying_key (transfer sender) = some sender
  decaying_key (deferred_transfer sender) = some sender
  decaying_key other_kind = none

  -- The part of validateApolloDecay behind the choice of the key.
  pub compare_decay : JsonTransaction L → String → Exec O.W Bool
  compare_decay t pubkey_hex = do
    start_string ←
        get_address_balance L O pubkey_hex (L.format_date t.apollo_decay_start)
          t.session.group_alias ""
    start ←
        number_or (L.set_str start_string)
          (throw (node_rpc_exception (append "invalid balance string " start_string) ""))
    apollo ←
        number_or (L.set_str t.apollo_created_decay)
          (throw (library invalid_input "cannot parse to number"))
    let decay = L.sub start (L.decayed start t.apollo_decay_start t.created)
    (if L.not_below_tolerance (L.abs (L.sub apollo decay))
        then throw (
            apollo_decay_exception "apollo decay deviates more than 0.00001 from Gradido Node decay"
              start_string (L.amount_to_string apollo))
        else pure true)

  abbrev pub compare_if : JsonTransaction L → Option (List ℕ) → Exec O.W Bool
  compare_if t (some key) = compare_decay t (L.bin_to_hex key)
  compare_if t none = pure true

  pub validate_apollo_decay : JsonTransaction L → L.Tx → Exec O.W Bool
  unfolding compare_decay
  validate_apollo_decay t tx = compare_if t (decaying_key (L.kind tx))

  abbrev pub signed_or_throw : {S : Type 0} → Option L.Tx → Exec S L.Tx
  signed_or_throw (some tx) = pure tx
  signed_or_throw none = throw (library ed25519_sign "cannot sign transaction")

  -- The part of signAndSendTransaction before the transaction is handed on: it gives the signed
  -- transaction or throws.
  unfoldable pub prepare : JsonTransaction L → L.Tx → String → Exec O.W L.Tx
  prepare t transaction group_alias = do
    signed ← sign_transaction L O t.session (L.set_memo_created t.memo t.created transaction)
    tx ← signed_or_throw signed
    reply (L.validate_single tx) >>= λ _. pure tt
    (if L.is_valid_group_alias group_alias
        then pure tt
        else throw (library invalid_input "invalid group alias"))
    (if nonempty t.apollo_created_decay
        then (validate_apollo_decay t tx >>= λ _. pure tt)
        else pure tt)
    pure tx

  -- The transaction goes to the node, if it is archived, or to iota; the result is its message id.
  unfoldable pub hand_on : JsonTransaction L → L.Tx → String → Exec O.W String
  hand_on t tx group_alias =
      if t.archive_transaction
      then (do
        let id = L.bin_to_hex (L.generic_hash (L.serialized tx))
        put_transaction L O (L.bin_to_base64 (L.serialized tx)) t.transaction_nr group_alias
        pure id)
      else call (
          O.send_message (L.bin_to_hex (utf8 (append "GRADIDO." group_alias)))
            (L.bin_to_hex (L.serialized tx)))

  unfoldable pub remember : JsonTransaction L → L.Tx → String → Exec (State O.W) (Unit {0})
  remember t tx id = do
    now ← in_world (total O.now)
    λ s. (
      ok tt,
      record s {
        pending =
            push_new_transaction
              (new_pending (utf8 id) (L.transaction_type tx) t.apollo_created_decay
                t.apollo_decay_start t.apollo_transaction_id now)
              s.pending;
      },
    )

  unfoldable pub sign_and_send_transaction :
      JsonTransaction L → L.Tx → String → Exec (State O.W) String
  unfolding prepare hand_on remember
  sign_and_send_transaction t transaction group_alias = do
    tx ← in_world (prepare t transaction group_alias)
    id ← in_world (hand_on t tx group_alias)
    remember t tx id
    pure id

  -- handleSignAndSendTransactionExceptions, in a catch clause
  pub handle_sign_and_send_transaction_exceptions : Exception → Exec (State O.W) Document
  handle_sign_and_send_transaction_exceptions (library invalid_signature w) =
      return_error "Internal Server Error"
  handle_sign_and_send_transaction_exceptions (library invalid_input w) =
      return_document
        (state_error "transaction validation failed" (details_of (library invalid_input w)))
  handle_sign_and_send_transaction_exceptions (library iota_request w) =
      return_document (state_error "error by calling iota" (details_of (library iota_request w)))
  handle_sign_and_send_transaction_exceptions (library request_response_error w) =
      return_document
        (state_error "request response exception" (details_of (library request_response_error w)))
  handle_sign_and_send_transaction_exceptions (library rapidjson_parse_error w) =
      return_document
        (state_error "error by calling iota" (details_of (library rapidjson_parse_error w)))
  handle_sign_and_send_transaction_exceptions (library ed25519_sign w) =
      return_error "Internal Server Error"
  handle_sign_and_send_transaction_exceptions (node_rpc_exception w details) = return_document (
      state_error "error by requesting Gradido Node"
        (text (full_string L (node_rpc_exception w details))))
  handle_sign_and_send_transaction_exceptions (apollo_decay_exception w balance decay) =
      return_document (
        state_error "error with apollo decay" (details_of (apollo_decay_exception w balance decay)))
  handle_sign_and_send_transaction_exceptions e = throw e
