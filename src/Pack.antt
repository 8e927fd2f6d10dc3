-- ===== src/Pack.antt =====
-- src/JSONInterface/JsonPackTransaction.cpp: the handler of /packTransaction, which answers with the
-- bytes of the transactions that it builds and sends nothing.
pub mod Quiet
pub mod Entries
pub mod Built
use gradido_blockchain_conne.Base.{
  ℕ, String, Bool, true, false, not, ◌&&◌, Option, none, some, List, [], ◌∷◌, nonempty, str_eq,
  if◌then◌else◌,
}
use gradido_blockchain_conne.Json.{Json, str, obj, Fields, end, field, find_field, array}
use gradido_blockchain_conne.Exec.{
  Base, poco, Exception, library, handle_request, what, Document, state_error, state_success,
  no_details, text, Exec, ok, pure, throw, return_error, return_document, try_catch, ◌>>=◌, ◌>>◌,
  resume, handle_thrown, respond,
}
use gradido_blockchain_conne.Exceptions.{base_of}
use gradido_blockchain_conne.Platform.{Library, AddressType, Param, Reply, answer, fails, reply}
use gradido_blockchain_conne.Access.{member}
use gradido_blockchain_conne.Transaction.{or_return, or_keep, is_poco}

-- The members of the handler.
pub record PackTransaction : Type 0 where
  pub memo : String
  pub created : ℕ

-- One entry of the answer.
abbrev pub entry : String → String → Json
entry group_alias base64 = obj (
    if nonempty group_alias
    then field "groupAlias" (str group_alias) (field "bodyBytesBase64" (str base64) end)
    else field "bodyBytesBase64" (str base64) end)

module _ (L : Library) where
  -- The vector of transactions: the two halves for two groups, or the transaction itself.
  unfoldable pub group_transactions : L.Tx → String → String → List (L.Tx × String)
  group_transactions base from to =
      if nonempty from && nonempty to
      then (L.outbound base to, from) ∷ (L.inbound base from, to) ∷ []
      else (base, "") ∷ []

  -- A key that is left out is a null pointer.
  abbrev bin_or_null : String → Option (List ℕ)
  bin_or_null hex = if nonempty hex then L.hex_to_bin hex else none

module _ (L : Library) {S : Type 0} where
  -- catch (Poco::Exception& ex) { return stateError(message, ex.what()); }
  abbrev pub poco_error : {A : Type 0} → String → Exception → Exec S A
  poco_error message e =
      if is_poco (base_of L e)
      then return_document (state_error message (text (what e)))
      else throw e

  -- readCoinGroupId; FindMember on what is no object is an assertion.
  abbrev coin_group_id_of : Option Json → Exec S String
  coin_group_id_of none = pure ""
  coin_group_id_of (some (str t)) = pure t
  coin_group_id_of (some j) = throw (library handle_request "groupId has unknown type")

  unfoldable pub read_coin_group_id : Json → Exec S String
  read_coin_group_id params = member "coinGroupId" params >>= coin_group_id_of

  abbrev validated : Bool → L.Tx → Exec S (Unit {0})
  validated true tx = pure tt
  validated false tx = do
    json ← reply (L.to_json tx)
    return_document (state_error "invalid transaction" (text json))

  -- The body of the loop of resultBase64Transactions.
  unfoldable pub pack_entry : PackTransaction → L.Tx × String → Exec S Json
  pack_entry t (transaction, group_alias) = do
    let tx = L.set_memo_created_only t.memo t.created transaction
    valid ← reply (L.validate tx)
    validated valid tx
    bytes ← try_catch (reply (L.body_bytes tx)) (poco_error "exception in serializing")
    pure (entry group_alias (L.bin_to_base64 bytes))

  unfoldable pub pack_entries : PackTransaction → List (L.Tx × String) → Exec S (List Json)
  unfolding pack_entry
  pack_entries t [] = pure []
  pack_entries t (x ∷ xs) = do json ← pack_entry t x; rest ← pack_entries t xs; pure (json ∷ rest)

  -- resultBase64Transactions
  unfoldable pub result_base64_transactions :
      PackTransaction → List (L.Tx × String) → Exec S Document
  unfolding pack_entries
  result_base64_transactions t transactions = do
    entries ← pack_entries t transactions
    pure (state_success (("transactions", array entries) ∷ []))

  unfoldable pub transfer : PackTransaction → Json → Exec S Document
  unfolding read_coin_group_id result_base64_transactions group_transactions
  transfer t params = do
    sender_pubkey ← or_return (L.get_string_parameter params "senderPubkey")
    recipient_pubkey ← or_return (L.get_string_parameter params "recipientPubkey")
    amount ← or_return (L.get_string_parameter params "amount")
    coin_group_id ← read_coin_group_id params
    base ← reply (
        L.create_transfer (L.hex_to_bin sender_pubkey) amount coin_group_id
          (L.hex_to_bin recipient_pubkey))
    result_base64_transactions t (
        group_transactions L base (or_keep (L.get_string_parameter params "senderGroupAlias") "")
          (or_keep (L.get_string_parameter params "recipientGroupAlias") ""))

  unfoldable pub creation : PackTransaction → Json → Exec S Document
  unfolding result_base64_transactions
  creation t params = do
    recipient_pubkey ← or_return (L.get_string_parameter params "recipientPubkey")
    amount ← or_return (L.get_string_parameter params "amount")
    target_string ← or_return (L.get_string_parameter params "targetDate")
    target_date ←
        try_catch (reply (L.parse_date target_string)) (poco_error "cannot parse targetDate")
    base ←
        reply (L.create_creation (L.hex_to_bin recipient_pubkey) amount (L.make_local target_date))
    result_base64_transactions t ((base, "") ∷ [])

  unfoldable pub register_address : PackTransaction → Json → Exec S Document
  unfolding result_base64_transactions group_transactions
  register_address t params = do
    let user_root_pubkey = or_keep (L.get_string_parameter params "userRootPubkey") ""
    address_type ← or_return (L.get_string_parameter params "addressType")
    let name_hash = or_keep (L.get_string_parameter params "nameHash") ""
    let subaccount_pubkey = or_keep (L.get_string_parameter params "subaccountPubkey") ""
    (if not (nonempty user_root_pubkey) && not (nonempty subaccount_pubkey)
        then return_error "userRootPubkey or subaccountPubkey must be given"
        else pure tt)
    base ← reply (
        L.create_register_address_of (bin_or_null L user_root_pubkey)
          (L.address_type_from_string address_type) (bin_or_null L name_hash)
          (bin_or_null L subaccount_pubkey))
    result_base64_transactions t (
        group_transactions L base (or_keep (L.get_string_parameter params "currentGroupAlias") "")
          (or_keep (L.get_string_parameter params "newGroupAlias") ""))

  -- The choice that `handle` ends with.
  unfoldable pub by_type : String → PackTransaction → Json → Exec S Document
  unfolding transfer creation register_address
  by_type transaction_type t params =
      if str_eq transaction_type "transfer"
      then transfer t params
      else if str_eq transaction_type "creation"
      then creation t params
      else if str_eq transaction_type "registerAddress"
      then register_address t params
      else return_error "transaction_type unknown"

  -- handle, before the server takes its answer
  unfoldable pub pack : Json → Exec S Document
  unfolding by_type
  pack params = do
    transaction_type ← or_return (L.get_string_parameter params "transactionType")
    created_string ← or_return (L.get_string_parameter params "created")
    created ← try_catch (reply (L.parse_date created_string)) (poco_error "cannot parse created")
    by_type transaction_type
        (record { memo = or_keep (L.get_string_parameter params "memo") ""; created = created })
        params

  unfoldable pub handle : Json → Exec S Document
  unfolding pack
  handle params = respond (pack params)
