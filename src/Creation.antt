-- ===== src/Creation.antt =====
-- src/JSONInterface/JsonCreationTransaction.cpp: the handler of /creation.
pub mod Checks
pub mod Outcome
use gradido_blockchain_conne.Base.{
  ℕ, String, append, Bool, true, false, not, ◌&&◌, Option, none, some, List, [], ◌∷◌, nonempty,
  str_eq, if◌then◌else◌,
}
use gradido_blockchain_conne.Json.{Json}
use gradido_blockchain_conne.Exec.{
  Exception, library, invalid_input, node_rpc_exception, row_not_found_exception, Document, Exec,
  Result, ok, returned, thrown, pure, throw, return_error, return_document, respond, resume,
  handle_thrown, try_catch, ◌>>=◌, ◌>>◌,
}
use gradido_blockchain_conne.Platform.{
  Library, Outside, Session, State, AddressType, address_none, human, subaccount, reply, in_world,
  deref,
}
use gradido_blockchain_conne.ServerConfig.{ServerConfig}
use gradido_blockchain_conne.NodeRpc.{
  get_address_type, get_address_balance, get_address_txids, get_creation_sum_for_month,
}
use gradido_blockchain_conne.Tables.{to_int, to_uint64, load_user, load_group}
use gradido_blockchain_conne.Transaction.{
  JsonTransaction, or_return, or_keep, parsed, read_shared_parameter, number_or, encrypt_memo,
  sent_response, sign_and_send_transaction, handle_sign_and_send_transaction_exceptions,
}

module _ (L : Library) (O : Outside L) where
  unfoldable pub address_type_human : String → Exec O.W (Unit {0})
  address_type_human address_type =
      if str_eq address_type (L.address_string_from_type human)
      then pure tt
      else if str_eq address_type (L.address_string_from_type address_none)
      then return_error "address isn't registered on blockchain"
      else return_error "address has the wrong type for creation"

  -- What is checked with the node for a transaction that is not archived.
  unfoldable pub check_creation : JsonTransaction L → String → String → ℕ → Exec O.W (Unit {0})
  unfolding address_type_human
  check_creation t pubkey_hex amount_string target_date = do
    address_type ← get_address_type L O pubkey_hex t.session.group_alias
    address_type_human address_type
    sum_string ←
        get_creation_sum_for_month L O pubkey_hex (L.month target_date) (L.year target_date)
          (L.format_date t.created) t.session.group_alias
    sum ←
        number_or L O (L.set_str sum_string) (
          throw
            (node_rpc_exception (append "cannot parse sum from Gradido Node: %s" sum_string) ""))
    amount ←
        number_or L O (L.set_str amount_string)
          (throw (library invalid_input "amount cannot be parsed to a number"))
    (if L.greater_than_1000 (L.add sum amount)
        then throw (library invalid_input "creation more than 1.000 GDD per month not allowed")
        else pure tt)

  -- The body of the try block.
  unfoldable pub create : JsonTransaction L → List ℕ → String → ℕ → Exec (State O.W) Document
  create t public_key amount_string target_date = do
    (if t.archive_transaction
        then pure tt
        else in_world (check_creation t (L.bin_to_hex public_key) amount_string target_date))
    creation ← reply (L.create_creation (some public_key) amount_string target_date)
    id ← sign_and_send_transaction L O t creation t.session.group_alias
    pure (sent_response id)

module _ (L : Library) (O : Outside L) (C : ServerConfig) where
  -- handle, behind the shared parameters
  unfoldable pub handle_creation : JsonTransaction L → Json → Exec (State O.W) Document
  handle_creation t params = do
    recipient_name ← or_return (L.get_string_parameter params "recipientName")
    amount_string ← or_return (L.get_string_parameter params "amount")
    target_string ← or_return (L.get_string_parameter params "targetDate")
    target_date ← parsed L O C "cannot parse targetDate" (L.parse_date target_string)
    recipient ← in_world (load_user L O recipient_name (to_int (to_uint64 t.session.group_id)))
    key ← deref t.session.key_pair
    let memo = encrypt_memo L t.memo recipient.public_key key
    try_catch
        (create L O (record t { memo = memo }) recipient.public_key amount_string
          (L.make_local target_date))
        (handle_sign_and_send_transaction_exceptions L O)

  unfoldable pub handle : ℕ → String → String → Json → Exec (State O.W) Document
  unfolding handle_creation create
  handle start jwt client_ip params =
      respond
        (do t ← read_shared_parameter L O C start jwt client_ip params; handle_creation t params)
