-- ===== src/Transfer.antt =====
-- src/JSONInterface/JsonTransferTransaction.cpp: the handler of /transfer.
pub mod Checks
pub mod Outcome
use gradido_blockchain_conne.Base.{
  ℕ, String, append, Bool, true, false, not, ◌&&◌, Option, none, some, List, [], ◌∷◌, nonempty,
  str_eq, if◌then◌else◌,
}
use gradido_blockchain_conne.Json.{Json}
use gradido_blockchain_conne.Exec.{
  Exception, library, invalid_input, node_rpc_exception, row_not_found_exception, Document, Exec,
  Result, ok, returned, thrown, pure, throw, return_error, return_document, respond, resume,
  handle_thrown, try_catch, ◌>>=◌, ◌>>◌,
}
use gradido_blockchain_conne.Platform.{
  Library, Outside, Session, State, AddressType, address_none, human, subaccount, reply, in_world,
  deref,
}
use gradido_blockchain_conne.ServerConfig.{ServerConfig}
use gradido_blockchain_conne.NodeRpc.{
  get_address_type, get_address_balance, get_address_txids, get_creation_sum_for_month,
}
use gradido_blockchain_conne.Tables.{to_int, to_uint64, load_user, load_group}
use gradido_blockchain_conne.Transaction.{
  JsonTransaction, or_return, or_keep, parsed, read_shared_parameter, number_or, encrypt_memo,
  sent_response, sign_and_send_transaction, handle_sign_and_send_transaction_exceptions,
}

module _ (L : Library) (O : Outside L) where
  -- catch (GradidoNodeRPCException&)
  abbrev pub node_failed : {A : Type 0} → Exception → Exec (State O.W) A
  node_failed (node_rpc_exception w details) = return_error "error by requesting Gradido Node"
  node_failed e = throw e

  -- catch (RowNotFoundException&) around Group::load
  abbrev pub no_group : {A : Type 0} → Exception → Exec (State O.W) A
  no_group (row_not_found_exception w table condition) =
      return_error "recipientGroupAlias not found"
  no_group e = throw e

  -- What is checked with the node for a transaction that is not archived.
  unfoldable pub check_transfer :
      JsonTransaction L → L.Key → List ℕ → String → String → String → String → Exec O.W (Unit {0})
  check_transfer t key recipient recipient_group_alias created coin_group_id amount_string = do
    address_type ← get_address_type L O (L.bin_to_hex recipient) recipient_group_alias
    (if str_eq address_type (L.address_string_from_type address_none)
        then return_error "address isn't registered on blockchain"
        else pure tt)
    balance_string ←
        get_address_balance L O (L.bin_to_hex (L.public_key key)) created t.session.group_alias
          coin_group_id
    balance ←
        number_or L O (L.set_str balance_string) (return_error "error by requesting Gradido Node")
    amount ← number_or L O (L.set_str amount_string) (return_error "cannot parse amount to number")
    (if L.greater amount balance then return_error "insufficient balance" else pure tt)

  -- The body of the last try block, whose catch clause only frees memory.
  pub send_transfer :
      JsonTransaction L → L.Key → List ℕ → String → String → String → Exec (State O.W) Document
  send_transfer t key recipient recipient_group_alias coin_group_id amount_string = do
    base ←
        reply
          (L.create_transfer (some (L.public_key key)) amount_string coin_group_id (some recipient))
    last_id ←
        (if nonempty recipient_group_alias
            && not (str_eq recipient_group_alias t.session.group_alias)
          then (do
            id ←
                sign_and_send_transaction L O t (L.outbound base recipient_group_alias)
                  t.session.group_alias
            parent ← deref (L.hex_to_bin id)
            sign_and_send_transaction L O t
                (L.set_parent_message_id parent (L.inbound base t.session.group_alias))
                recipient_group_alias)
          else sign_and_send_transaction L O t base t.session.group_alias)
    pure (sent_response last_id)

  -- The alias of the recipient's group and its id as an int.
  pub recipient_group : JsonTransaction L → String → Exec (State O.W) (String × ℕ)
  recipient_group t recipient_group_alias =
      if nonempty recipient_group_alias
      then (do
        group ← try_catch (in_world (load_group L O recipient_group_alias)) no_group
        pure (recipient_group_alias, to_int group.id))
      else pure (t.session.group_alias, to_int (to_uint64 t.session.group_id))

  -- handle, behind the shared parameters
  pub handle_transfer : JsonTransaction L → Json → Exec (State O.W) Document
  unfolding recipient_group check_transfer send_transfer
  handle_transfer t params = do
    recipient_name ← or_return (L.get_string_parameter params "recipientName")
    group ← recipient_group t (or_keep (L.get_string_parameter params "recipientGroupAlias") "")
    amount_string ← or_return (L.get_string_parameter params "amount")
    let coin_group_id = or_keep (L.get_string_parameter params "coinGroupId") ""
    recipient ← in_world (load_user L O recipient_name group.1)
    key ← deref t.session.key_pair
    let sealed = record t { memo = encrypt_memo L t.memo recipient.public_key key }
    (if t.archive_transaction
        then pure tt
        else try_catch
            (in_world (
              check_transfer sealed key recipient.public_key group.0
                (or_keep (L.get_string_parameter params "created") "") coin_group_id amount_string))
            node_failed)
    send_transfer sealed key recipient.public_key group.0 coin_group_id amount_string

module _ (L : Library) (O : Outside L) (C : ServerConfig) where
  pub handle : ℕ → String → String → Json → Exec (State O.W) Document
  unfolding handle_transfer
  handle start jwt client_ip params =
      respond (do
        t ← read_shared_parameter L O C start jwt client_ip params
        handle_transfer L O t params)
