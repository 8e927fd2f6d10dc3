-- ===== src/RegisterAddress.antt =====
-- src/JSONInterface/JsonRegisterAddressTransaction.cpp: the handler of /registerAddress.
pub mod Outcome
use gradido_blockchain_conne.Base.{
  ℕ, String, append, Bool, true, false, not, ◌&&◌, Option, none, some, List, [], ◌∷◌, nonempty,
  str_eq, if◌then◌else◌,
}
use gradido_blockchain_conne.Json.{Json}
use gradido_blockchain_conne.Exec.{
  Exception, library, invalid_input, node_rpc_exception, row_not_found_exception, Document, Exec,
  Result, ok, returned, thrown, pure, throw, return_error, return_document, respond, resume,
  handle_thrown, try_catch, ◌>>=◌, ◌>>◌,
}
use gradido_blockchain_conne.Platform.{
  Library, Outside, Session, State, AddressType, address_none, human, subaccount, reply, in_world,
  deref,
}
use gradido_blockchain_conne.ServerConfig.{ServerConfig}
use gradido_blockchain_conne.NodeRpc.{
  get_address_type, get_address_balance, get_address_txids, get_creation_sum_for_month,
}
use gradido_blockchain_conne.Tables.{to_int, to_uint64, load_user, load_group}
use gradido_blockchain_conne.Transaction.{
  JsonTransaction, or_return, or_keep, parsed, read_shared_parameter, number_or, encrypt_memo,
  sent_response, sign_and_send_transaction, handle_sign_and_send_transaction_exceptions,
}

-- The alias may be left out; if it is given it has to be valid.
abbrev pub alias_valid : {S : Type 0} → Library → String → String → Exec S (Unit {0})
alias_valid L group_alias message =
    if nonempty group_alias && not (L.is_valid_group_alias group_alias)
    then return_error message
    else pure tt

abbrev is_subaccount : AddressType → Bool
is_subaccount subaccount = true
is_subaccount _ = false

abbrev pub no_txids : {S : Type 0} → List ℕ → Exec S (Unit {0})
no_txids [] = pure tt
no_txids (n ∷ ns) = return_error "cannot register address because it already exist"

module _ (L : Library) (O : Outside L) where
  -- catch (GradidoNodeRPCException&)
  abbrev pub node_failed : {A : Type 0} → Exception → Exec (State O.W) A
  node_failed (node_rpc_exception w details) = return_error "error by requesting Gradido Node"
  node_failed e = throw e

  pub check_unregistered : List ℕ → String → Exec O.W (Unit {0})
  check_unregistered user_root_pubkey group_alias = do
    txids ← get_address_txids L O (L.bin_to_hex user_root_pubkey) group_alias
    no_txids txids

  -- The body of the second try block.
  pub register :
      JsonTransaction L → List ℕ → AddressType → Bool → String → String → Exec (State O.W) Document
  register t user_root_pubkey address_type moving current_group_alias new_group_alias = do
    base ← reply (L.create_register_address user_root_pubkey address_type)
    last_id ←
        (if moving
          then (do
            id ←
                sign_and_send_transaction L O t (L.outbound base new_group_alias)
                  current_group_alias
            parent ← deref (L.hex_to_bin id)
            sign_and_send_transaction L O t
                (L.set_parent_message_id parent (L.inbound base current_group_alias))
                new_group_alias)
          else sign_and_send_transaction L O t base t.session.group_alias)
    pure (sent_response last_id)

  -- handle, behind the shared parameters
  pub handle_register : JsonTransaction L → Json → Exec (State O.W) Document
  unfolding register check_unregistered
  handle_register t params = do
    address_type_string ← or_return (L.get_string_parameter params "addressType")
    let address_type = L.address_type_from_string address_type_string
    (if is_subaccount address_type
        then return_error "subaccount address type currently not supported from this function"
        else pure tt)
    let current_group_alias = or_keep (L.get_string_parameter params "currentGroupAlias") ""
    let new_group_alias = or_keep (L.get_string_parameter params "newGroupAlias") ""
    alias_valid L current_group_alias "invalid character in currentGroupAlias, only ascii allowed"
    alias_valid L new_group_alias "invalid character in newGroupAlias, only ascii allowed"
    let moving =
        nonempty current_group_alias
        && (nonempty new_group_alias && not (str_eq current_group_alias new_group_alias))
    key ← deref t.session.key_pair
    (if t.archive_transaction
        then pure tt
        else try_catch
            (in_world (
              check_unregistered (L.public_key key)
                (if moving then new_group_alias else t.session.group_alias)))
            node_failed)
    try_catch
        (register t (L.public_key key) address_type moving current_group_alias new_group_alias)
        (handle_sign_and_send_transaction_exceptions L O)

module _ (L : Library) (O : Outside L) (C : ServerConfig) where
  pub handle : ℕ → String → String → Json → Exec (State O.W) Document
  unfolding handle_register
  handle start jwt client_ip params =
      respond (do
        t ← read_shared_parameter L O C start jwt client_ip params
        handle_register L O t params)
