-- ===== src/Demo/Packing.antt =====
-- Requests to the concrete server that build or check a transaction without a session.
use gradido_blockchain_conne.Base.{String, List, [], ◌∷◌, ◌≡◌, refl}
use gradido_blockchain_conne.Json.{Json, find_field, str, obj, arr, cons, nil, end, field, array}
use gradido_blockchain_conne.Exec.{ok, state_success}
use gradido_blockchain_conne.Pack
use gradido_blockchain_conne.Pack.{
  pack, by_type, transfer, creation, register_address, entry, group_transactions,
  read_coin_group_id, result_base64_transactions, pack_entries, pack_entry,
}
use gradido_blockchain_conne.Pack.Entries.{IsPack}
use gradido_blockchain_conne.Pack.Built.{handle-IsPack}
use gradido_blockchain_conne.SendTransaction
use gradido_blockchain_conne.SendTransaction.{
  send, signature_pairs, add_signature, add_signatures, check_signed,
}
use gradido_blockchain_conne.SendTransaction.Signed.{Accepted, handle-Accepted}
use gradido_blockchain_conne.Demo.{demo_library, empty_world}

-- A transfer between the groups "one" and "two".
abbrev transfer_request : Json
transfer_request = obj (
    field "transactionType" (str "transfer") (
      field "created" (str "1970-01-01") (
        field "memo" (str "rent") (
          field "senderPubkey" (str "07") (
            field "recipientPubkey" (str "08") (
              field "amount" (str "100") (
                field "senderGroupAlias" (str "one")
                  (field "recipientGroupAlias" (str "two") end))))))))

abbrev two_entries : List (String × Json)
two_entries = ("transactions", array (entry "one" "Bw==" ∷ entry "two" "Bw==" ∷ [])) ∷ []

packed :
    Pack.handle demo_library transfer_request empty_world
    ≡ (ok (state_success two_entries), empty_world)
unfolding Pack.handle pack by_type transfer group_transactions read_coin_group_id
    result_base64_transactions pack_entries pack_entry find_field
packed = refl

handle-IsPack_example : IsPack demo_library transfer_request two_entries
handle-IsPack_example =
    handle-IsPack demo_library transfer_request two_entries empty_world empty_world packed

abbrev pair : Json
pair = obj (field "pubkey" (str "07") (field "signature" (str "09") end))

abbrev signed_request : Json
signed_request = obj (
    field "bodyBytesBase64" (str "Bw==") (
      field "groupAlias" (str "one")
        (field "signaturePairs" (arr (cons pair (cons pair nil))) end)))

abbrev none_shown : List (String × Json)
none_shown = []

signed :
    SendTransaction.handle demo_library signed_request empty_world
    ≡ (ok (state_success []), empty_world)
unfolding SendTransaction.handle send add_signatures add_signature check_signed find_field
signed = refl

handle-Accepted_example : (none_shown ≡ []) × Accepted demo_library signed_request
handle-Accepted_example =
    handle-Accepted demo_library signed_request [] empty_world empty_world signed
