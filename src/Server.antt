-- ===== src/Server.antt =====
-- src/JSONInterface/: how the server answers a request with the handler that
-- JsonRequestHandlerFactory chooses, and the handlers JsonGetPendingTransactions and JsonUnknown.
pub mod Events
pub mod Counts
pub mod Refines
use gradido_blockchain_conne.Base.{ℕ, String, Option, none, some, List, [], ◌∷◌}
use gradido_blockchain_conne.Json.{Json}
use gradido_blockchain_conne.Exec.{
  Document, state_error, no_details, Exec, Result, ok, returned, thrown, aborted, pure, resume,
  ◌>>=◌,
}
use gradido_blockchain_conne.Platform.{Library, Outside, State, in_world}
use gradido_blockchain_conne.ServerConfig.{ServerConfig}
use gradido_blockchain_conne.Pending.{ListEntry, list_as_json}
use gradido_blockchain_conne.Routing.{Handler, create_request_handler}
use gradido_blockchain_conne.Pack
use gradido_blockchain_conne.SendTransaction
use gradido_blockchain_conne.Creation
use gradido_blockchain_conne.Transfer
use gradido_blockchain_conne.RegisterAddress
use gradido_blockchain_conne.Login.{handle_request_login}
use gradido_blockchain_conne.OpenConnection.{handle_request_open}
use gradido_blockchain_conne.Listener
use gradido_blockchain_conne.ListTransactions

-- What handlers take from a request: the first part of its path, the parameters that the base class
-- reads from it, its method and text, the token and the address of the client, and the time at which
-- the handler is made.
pub record Request : Type 0 where
  pub url_first_part : String
  pub params : Json
  pub method : String
  pub request_stream : String
  pub jwt : String
  pub client_ip : String
  pub start : ℕ

-- An answer: a document, the empty document, or a success with the member `pendingTransactions`.
pub data Answer : Type 0 where
  document : Document → Answer
  empty_document : Answer
  pending_transactions : List ListEntry → Answer

abbrev pub document_or_empty : Option Document → Answer
document_or_empty none = empty_document
document_or_empty (some d) = document d

module _ (L : Library) (O : Outside L) (C : ServerConfig) where
  -- JsonGetPendingTransactions::handle
  unfoldable pub get_pending : Exec (State O.W) Answer
  get_pending s = (ok (pending_transactions (list_as_json L.transaction_type_string s.pending)), s)

  -- JsonUnknown::handle
  unfoldable pub unknown_call : Exec (State O.W) Answer
  unknown_call s = (ok (document (state_error "unknown call" no_details)), s)

  abbrev answered : Exec (State O.W) Document → Exec (State O.W) Answer
  answered m = m >>= λ d. pure (document d)

  abbrev answered_or_empty : Exec O.W (Option Document) → Exec (State O.W) Answer
  answered_or_empty m = in_world m >>= λ d. pure (document_or_empty d)

  unfoldable pub handle_by : Handler → Request → Exec (State O.W) Answer
  unfolding get_pending unknown_call
  handle_by Handler.pack_transaction r = answered (in_world (Pack.handle L r.params))
  handle_by Handler.send_transaction_iota r =
      answered (in_world (SendTransaction.handle L r.params))
  handle_by Handler.creation r = answered (Creation.handle L O C r.start r.jwt r.client_ip r.params)
  handle_by Handler.transfer r = answered (Transfer.handle L O C r.start r.jwt r.client_ip r.params)
  handle_by Handler.register_address r =
      answered (RegisterAddress.handle L O C r.start r.jwt r.client_ip r.params)
  handle_by Handler.login r =
      answered_or_empty (handle_request_login L O C r.method r.request_stream r.client_ip)
  handle_by Handler.open_connection r =
      answered_or_empty (handle_request_open L O C r.method r.request_stream)
  handle_by Handler.transaction_listener r = answered (Listener.handle L O r.params)
  handle_by Handler.list_transactions r =
      answered (in_world (ListTransactions.handle L O C r.jwt r.client_ip r.params))
  handle_by Handler.get_pending_transactions r = get_pending
  handle_by Handler.unknown r = unknown_call

  -- One request.
  unfoldable pub serve : Request → Exec (State O.W) Answer
  unfolding handle_by
  serve r = handle_by (create_request_handler r.url_first_part) r

  -- The process goes on with the state behind a request, unless that was undefined behaviour.
  abbrev continues : Result Answer × State O.W → Option (State O.W)
  continues (ok a, s) = some s
  continues (returned d, s) = some s
  continues (thrown e, s) = some s
  continues (aborted, s) = none

  -- Requests one after the other.
  unfoldable pub serve_all : List Request → State O.W → Option (State O.W)
  unfolding serve
  serve_all [] s = some s
  serve_all (r ∷ rs) s = elim (continues (serve r s)) [ none ↦ none | some t ↦ serve_all rs t ]
