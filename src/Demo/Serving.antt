-- ===== src/Demo/Serving.antt =====
-- Requests to the concrete server, one after the other.
use gradido_blockchain_conne.Base.{length, List, [], ◌∷◌, ◌≡◌, ◌≤◌, refl, some, utf8, arith}
use gradido_blockchain_conne.Json.{find_field}
use gradido_blockchain_conne.Pending.{new_pending, push_new_transaction}
use gradido_blockchain_conne.Pending.History.{Event, run}
use gradido_blockchain_conne.NodeRpc.{request_member, get_address_type, get_creation_sum_for_month}
use gradido_blockchain_conne.Session.{sign_transaction}
use gradido_blockchain_conne.SessionManager.{get_session, active_session}
use gradido_blockchain_conne.Tables.{load_user}
use gradido_blockchain_conne.Transaction.{
  is_archive, read_shared_parameter, prepare, hand_on, remember, sign_and_send_transaction,
}
use gradido_blockchain_conne.Creation.{address_type_human, check_creation, create, handle_creation}
use gradido_blockchain_conne.Creation
use gradido_blockchain_conne.Routing.{create_request_handler}
use gradido_blockchain_conne.Server.{Request, serve, serve_all, handle_by, get_pending}
use gradido_blockchain_conne.Server.Refines.{History, serve_all-History, length-serve_all}
use gradido_blockchain_conne.Demo.{demo_library, demo_outside, demo_config, alice_state}
use gradido_blockchain_conne.Demo.Transactions.{request, sent_state}

abbrev pub creation_request : Request
creation_request = record {
  url_first_part = "/creation";
  params = request;
  method = "POST";
  request_stream = "";
  jwt = "token of alice";
  client_ip = "10.0.0.1";
  start = 1;
}

-- A creation, and a look at the list.
abbrev requests : List Request
requests = creation_request ∷ (record creation_request { url_first_part = "/listPending" }) ∷ []

served : serve_all demo_library demo_outside demo_config requests alice_state ≡ some sent_state
unfolding serve_all serve create_request_handler handle_by get_pending Creation.handle
    handle_creation create check_creation address_type_human read_shared_parameter is_archive
    sign_and_send_transaction prepare hand_on remember push_new_transaction new_pending get_session
    active_session sign_transaction load_user get_address_type get_creation_sum_for_month
    request_member find_field utf8
served = refl

serve_all-History_example :
    (vs : List Event) × History demo_library demo_outside demo_config requests vs
    × (run vs [] ≡ some sent_state.pending)
serve_all-History_example =
    serve_all-History demo_library demo_outside demo_config requests alice_state sent_state served

length-serve_all_example : length sent_state.pending ≤ 100
length-serve_all_example =
    length-serve_all demo_library demo_outside demo_config requests alice_state sent_state served
      (omega arith)
