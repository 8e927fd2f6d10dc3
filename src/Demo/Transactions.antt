-- ===== src/Demo/Transactions.antt =====
-- Requests for transactions to the concrete server.
use gradido_blockchain_conne.Base.{[], ◌∷◌, ◌≡◌, refl, utf8, false}
use gradido_blockchain_conne.Json.{Json, find_field, str, num, obj, end, field}
use gradido_blockchain_conne.Exec.{ok}
use gradido_blockchain_conne.Platform.{State}
use gradido_blockchain_conne.Pending.{PendingTransaction, new_pending, push_new_transaction}
use gradido_blockchain_conne.NodeRpc.{
  request_member, get_address_type, get_address_balance, get_creation_sum_for_month,
}
use gradido_blockchain_conne.NodeRpc.Answers.{texts_read, Reads}
use gradido_blockchain_conne.Session.{sign_transaction}
use gradido_blockchain_conne.SessionManager.{get_session, active_session}
use gradido_blockchain_conne.Tables.{load_user}
use gradido_blockchain_conne.Transaction.{
  JsonTransaction, is_archive, read_shared_parameter, prepare, hand_on, remember,
  sign_and_send_transaction, sent_response,
}
use gradido_blockchain_conne.Transaction.Trace.{Ending, Reports}
use gradido_blockchain_conne.Transaction.Sent.{NoneSent, OneOrTwo, AtMostOne, send-Ending}
use gradido_blockchain_conne.Creation.{address_type_human, check_creation, create, handle_creation}
use gradido_blockchain_conne.Creation
use gradido_blockchain_conne.Creation.Outcome.{OneSent, creation_outcome}
use gradido_blockchain_conne.Creation.Checks.{Granted, create-Granted}
use gradido_blockchain_conne.RegisterAddress
use gradido_blockchain_conne.RegisterAddress.Outcome.{register_outcome}
use gradido_blockchain_conne.Transfer
use gradido_blockchain_conne.Transfer.{check_transfer}
use gradido_blockchain_conne.Transfer.Checks.{Covered, transfer-Covered}
use gradido_blockchain_conne.Transfer.Outcome.{transfer_outcome}
use gradido_blockchain_conne.Demo.{
  World, demo_library, demo_outside, demo_config, alice_session, alice_world, alice_state,
}

-- A request for a transfer or a creation of 100 to alice.
abbrev pub request : Json
request = obj (
    field "created" (str "1970-01-01") (
      field "recipientName" (str "alice") (
        field "amount" (str "100")
          (field "targetDate" (str "1970-01-01") (field "addressType" (str "HUMAN") end)))))

abbrev transaction : JsonTransaction demo_library
transaction = record {
  memo = "memo";
  created = 1000000;
  apollo_transaction_id = 0;
  apollo_created_decay = "";
  apollo_decay_start = 1;
  archive_transaction = false;
  transaction_nr = 0;
  session = alice_session;
}

-- The entry that the answers below push.
abbrev entry : PendingTransaction
entry = new_pending (48 ∷ 102 ∷ []) 1 "" 1 0 5

abbrev pub sent_state : State World
sent_state = record { world = alice_world; pending = entry ∷ [] }

creation_succeeds :
    Creation.handle demo_library demo_outside demo_config 1 "token of alice" "10.0.0.1" request
      alice_state
    ≡ (ok (sent_response "0f"), sent_state)
unfolding Creation.handle handle_creation create check_creation address_type_human
    read_shared_parameter is_archive sign_and_send_transaction prepare hand_on remember
    push_new_transaction new_pending get_session active_session sign_transaction load_user
    get_address_type get_creation_sum_for_month request_member find_field utf8
creation_succeeds = refl

creation_outcome_example : Ending (Reports OneSent NoneSent) NoneSent [] (
    Creation.handle demo_library demo_outside demo_config 1 "token of alice" "10.0.0.1" request
      alice_state)
creation_outcome_example =
    creation_outcome demo_library demo_outside demo_config 1 "token of alice" "10.0.0.1" request
      alice_state

register_outcome_example : Ending (Reports OneOrTwo AtMostOne) AtMostOne [] (
    RegisterAddress.handle demo_library demo_outside demo_config 1 "token of alice" "10.0.0.1"
      request alice_state)
register_outcome_example =
    register_outcome demo_library demo_outside demo_config 1 "token of alice" "10.0.0.1" request
      alice_state

transfer_outcome_example : Ending (Reports OneOrTwo AtMostOne) AtMostOne [] (
    Transfer.handle demo_library demo_outside demo_config 1 "token of alice" "10.0.0.1" request
      alice_state)
transfer_outcome_example =
    transfer_outcome demo_library demo_outside demo_config 1 "token of alice" "10.0.0.1" request
      alice_state

send-Ending_example :
    Ending
      (λ id ids. ids ≡ id ∷ [])
      NoneSent
      []
      (sign_and_send_transaction demo_library demo_outside transaction (1 ∷ []) "one" alice_state)
send-Ending_example = send-Ending demo_library demo_outside transaction (1 ∷ []) "one" alice_state

created :
    create demo_library demo_outside transaction (7 ∷ []) "100" 1000000 alice_state
    ≡ (ok (sent_response "0f"), sent_state)
unfolding create check_creation address_type_human sign_and_send_transaction prepare hand_on
    remember push_new_transaction new_pending sign_transaction get_address_type
    get_creation_sum_for_month request_member find_field utf8
created = refl

create-Granted_example :
    Granted demo_library demo_outside transaction "07" "100" 1000000 alice_world
create-Granted_example =
    create-Granted demo_library demo_outside transaction (7 ∷ []) "100" 1000000 alice_state
      sent_state (sent_response "0f") refl created

covered :
    check_transfer demo_library demo_outside transaction
      (7 ∷ [])
      (7 ∷ [])
      "one"
      "1970-01-01"
      ""
      "100"
      alice_world
    ≡ (ok tt, alice_world)
unfolding check_transfer get_address_type get_address_balance request_member find_field
covered = refl

transfer-Covered_example :
    Covered demo_library demo_outside transaction
      (7 ∷ [])
      (7 ∷ [])
      "one"
      "1970-01-01"
      ""
      "100"
      alice_world
transfer-Covered_example =
    transfer-Covered demo_library demo_outside transaction (7 ∷ []) (7 ∷ []) "one" "1970-01-01" ""
      "100" alice_world alice_world covered

texts_read_example :
    Reads demo_library demo_outside "balance"
      (get_address_balance demo_library demo_outside "07" "1970-01-01" "one" "" alice_world)
      (demo_outside.node_request "getaddressbalance"
        (field "coinGroupId" (str "") (
          field "date"
            (str "1970-01-01")
            (field "pubkey" (str "07") (field "groupAlias" (str "one") end))))
        alice_world)
    × Reads demo_library demo_outside "addressType"
        (get_address_type demo_library demo_outside "07" "one" alice_world)
        (demo_outside.node_request "getaddresstype"
          (field "pubkey" (str "07") (field "groupAlias" (str "one") end))
          alice_world)
    × Reads demo_library demo_outside "sum"
        (get_creation_sum_for_month demo_library demo_outside "07" 1 1970 "1970-01-01" "one"
          alice_world)
        (demo_outside.node_request "getcreationsumformonth"
          (field "pubkey" (str "07") (
            field "month" (num 1) (
              field "year"
                (num 1970)
                (field "startSearchDate" (str "1970-01-01") (field "groupAlias" (str "one") end)))))
          alice_world)
texts_read_example =
    texts_read demo_library demo_outside "07" "1970-01-01" "one" "" 1 1970 alice_world
