-- ===== src/Demo/Listing.antt =====
-- Requests for listings to the concrete server, and its start.
use gradido_blockchain_conne.Base.{
  String, List, [], ◌∷◌, ◌≡◌, refl, true, eq_iff, sym, ◌∙◌, str_eq, str_eq-ne, Bool, false,
  if◌then◌else◌,
}
use gradido_blockchain_conne.Json.{
  Json, Fields, end, field, str, arr, obj, cons, nil, find_field, add_member, set_member, array,
}
use gradido_blockchain_conne.Exec.{ok, state_success}
use gradido_blockchain_conne.Platform.{Outside, answer}
use gradido_blockchain_conne.SessionManager.{get_session, active_session}
use gradido_blockchain_conne.Tables.{load_user_names_for_pubkeys}
use gradido_blockchain_conne.Transaction.{encrypt_memo, decrypt_memo}
use gradido_blockchain_conne.Transaction.Memo.{decrypt_memo-encrypt_memo}
use gradido_blockchain_conne.ListTransactions
use gradido_blockchain_conne.ListTransactions.{
  contains, linked_pubkey, collect_pubkeys, show_memo, show_transaction, show_transactions,
  with_names, show_list, list_transactions,
}
use gradido_blockchain_conne.ListTransactions.Shown.{RemovesOnly}
use gradido_blockchain_conne.ListTransactions.Answer.{Answered, handle-Answered}
use gradido_blockchain_conne.Demo.{without, demo_library, demo_outside, demo_config, alice_world}

-- A transaction of alice with an encrypted memo, as the node lists it and as it is shown.
abbrev listed : Json
listed = obj (
    field "typeId" (str "TRANSFER")
      (field "memo" (str "Bw==") (field "linkedUser" (obj (field "pubkey" (str "07") end)) end)))

abbrev cleared : Json
cleared = obj (
    field "typeId" (str "TRANSFER") (
      field "linkedUser" (obj (field "firstName" (str "alice") end))
        (field "memo" (str "rent") end)))

abbrev list_of : Json → Fields
list_of transactions = field "count" (str "2") (field "transactions" transactions end)

abbrev node_answer : Json
node_answer = obj (
    field "result"
      (obj (field "transactionList" (obj (list_of (arr (cons listed (cons listed nil))))) end)) end)

abbrev listing_outside : Outside demo_library
listing_outside = record demo_outside { node_request = λ method params w. (answer node_answer, w) }

abbrev shown_list : List (String × Json)
shown_list = ("transactionList", obj (list_of (array (cleared ∷ cleared ∷ [])))) ∷ []

keys_collected :
    collect_pubkeys [] (listed ∷ listed ∷ []) alice_world ≡ (ok ("07" ∷ []), alice_world)
unfolding collect_pubkeys linked_pubkey find_field
keys_collected = refl

transactions_listed :
    ListTransactions.handle demo_library listing_outside demo_config "token of alice" "10.0.0.1"
      (obj end)
      alice_world
    ≡ (ok (state_success shown_list), alice_world)
unfolding ListTransactions.handle list_transactions get_session active_session show_list
    collect_pubkeys linked_pubkey with_names load_user_names_for_pubkeys show_transactions
    show_transaction show_memo decrypt_memo find_field add_member set_member
transactions_listed = refl

without-RemovesOnly : RemovesOnly demo_library
unfolding find_field
without-RemovesOnly name other end d h = refl
without-RemovesOnly name other (field key value rest) d h =
    go (without-RemovesOnly name other rest d.1 h) (str_eq key name) refl
  where
    go :
        find_field other (without name rest) ≡ find_field other rest
        → (b : Bool) → str_eq key name ≡ b
        → find_field other (if b then rest else field key value (without name rest))
          ≡ find_field other (field key value rest)
    go later true e =
        let ne : str_eq key other ≡ false =
          str_eq-ne key other (λ q. h (sym q ∙ (eq_iff key name).0 e)) in
        rw ne
    go later false e = rw later

handle-Answered_example :
    Answered demo_library listing_outside demo_config without-RemovesOnly "token of alice"
      "10.0.0.1"
      (obj end)
      shown_list
      alice_world
handle-Answered_example =
    handle-Answered demo_library listing_outside demo_config without-RemovesOnly "token of alice"
      "10.0.0.1" (obj end) shown_list alice_world alice_world transactions_listed

decrypt_memo-encrypt_memo_example :
    decrypt_memo demo_library
      (encrypt_memo demo_library "rent" (8 ∷ []) (7 ∷ []))
      (7 ∷ [])
      (8 ∷ [])
      alice_world
    ≡ (ok "rent", alice_world)
decrypt_memo-encrypt_memo_example =
    decrypt_memo-encrypt_memo demo_library (λ own other. own ≡ other) (7 ∷ []) (8 ∷ []) "rent"
      alice_world
      (record { converted = λ key. refl; opens = λ own_a other_a own_b other_b h k. refl }) refl
