-- ===== src/Server/Refines.antt =====
-- src/JSONInterface/: the server refines the list of pending transactions: what requests do to it is
-- a history of transactions sent and of notifications.
use gradido_blockchain_conne.Base.{
  some-injective, ℕ, ◌≤◌, none, some, List, [], ◌∷◌, ◌++◌, ◌≡◌, refl, ap, length,
}
use gradido_blockchain_conne.Exec.{Document, Result, ok, returned, thrown, aborted, pure, resume}
use gradido_blockchain_conne.Platform.{Library, Outside, State}
use gradido_blockchain_conne.ServerConfig.{ServerConfig}
use gradido_blockchain_conne.Pending.{PendingTransaction}
use gradido_blockchain_conne.Pending.History.{Event, run, sent}
use gradido_blockchain_conne.Pending.Sizes.{length-run}
use gradido_blockchain_conne.Routing.{Handler, create_request_handler}
use gradido_blockchain_conne.Transaction.Trace.{Reports}
use gradido_blockchain_conne.Transaction.Sent.{NoneSent, OneOrTwo, AtMostOne}
use gradido_blockchain_conne.Creation
use gradido_blockchain_conne.Creation.Outcome.{OneSent, creation_outcome}
use gradido_blockchain_conne.Transfer
use gradido_blockchain_conne.Transfer.Outcome.{transfer_outcome}
use gradido_blockchain_conne.RegisterAddress
use gradido_blockchain_conne.RegisterAddress.Outcome.{register_outcome}
use gradido_blockchain_conne.Listener
use gradido_blockchain_conne.Listener.Outcome.{handle-Told}
use gradido_blockchain_conne.Server.{
  Request, Answer, document, document_or_empty, get_pending, unknown_call, handle_by, serve,
  continues, serve_all,
}
use gradido_blockchain_conne.Server.Counts.{
  Simulates, one-Counts, none-Counts, OneOrTwo-Counts, AtMostOne-Counts, Reports-Counts, Ending-run,
  Notified-run, resume-state, kept-Simulates,
}
use gradido_blockchain_conne.Server.Events.{Fits, notified, run-append}

module _ (L : Library) (O : Outside L) (C : ServerConfig) where
  document-Simulates :
      (h : Handler) (old : List PendingTransaction) (r : Result Document × State O.W)
      → Simulates h old r.1.pending
      → Simulates h old (resume r (λ d. pure {S = State O.W} (document d))).1.pending
  document-Simulates h old r (vs, ran, fits) = (vs, rw (resume-state r document) ran, fits)

  sends-Simulates :
      (h : Handler) (n : ℕ) (old : List PendingTransaction) (r : Result Document × State O.W)
      → ((vs : List Event) → notified vs ≡ 0 → sent vs ≤ n → Fits h vs)
      → (vs : List Event) × (run vs old ≡ some r.1.pending) × (notified vs ≡ 0) × (sent vs ≤ n)
      → Simulates h old (resume r (λ d. pure {S = State O.W} (document d))).1.pending
  sends-Simulates h n old r fits (vs, ran, none_notified, count) =
      document-Simulates h old r (vs, ran, fits vs none_notified count)

  handle_by-Simulates :
      (h : Handler) (r : Request) (s : State O.W)
      → Simulates h s.pending (handle_by L O C h r s).1.pending
  unfolding handle_by get_pending unknown_call run
  handle_by-Simulates Handler.pack_transaction r s =
      kept-Simulates Handler.pack_transaction s _ document refl refl
  handle_by-Simulates Handler.send_transaction_iota r s =
      kept-Simulates Handler.send_transaction_iota s _ document refl refl
  handle_by-Simulates Handler.creation r s =
      sends-Simulates Handler.creation 1 s.pending
        (Creation.handle L O C r.start r.jwt r.client_ip r.params s) (λ vs a b. (a, b))
        (Ending-run (Reports OneSent NoneSent) NoneSent 1 s.pending _
          (λ d. Reports-Counts OneSent NoneSent 1 d one-Counts (none-Counts 1)) (none-Counts 1)
          (creation_outcome L O C r.start r.jwt r.client_ip r.params s))
  handle_by-Simulates Handler.transfer r s =
      sends-Simulates Handler.transfer 2 s.pending
        (Transfer.handle L O C r.start r.jwt r.client_ip r.params s) (λ vs a b. (a, b))
        (Ending-run (Reports OneOrTwo AtMostOne) AtMostOne 2 s.pending _
          (λ d. Reports-Counts OneOrTwo AtMostOne 2 d OneOrTwo-Counts AtMostOne-Counts)
          AtMostOne-Counts (transfer_outcome L O C r.start r.jwt r.client_ip r.params s))
  handle_by-Simulates Handler.register_address r s =
      sends-Simulates Handler.register_address 2 s.pending
        (RegisterAddress.handle L O C r.start r.jwt r.client_ip r.params s) (λ vs a b. (a, b))
        (Ending-run (Reports OneOrTwo AtMostOne) AtMostOne 2 s.pending _
          (λ d. Reports-Counts OneOrTwo AtMostOne 2 d OneOrTwo-Counts AtMostOne-Counts)
          AtMostOne-Counts (register_outcome L O C r.start r.jwt r.client_ip r.params s))
  handle_by-Simulates Handler.login r s =
      kept-Simulates Handler.login s _ document_or_empty refl refl
  handle_by-Simulates Handler.open_connection r s =
      kept-Simulates Handler.open_connection s _ document_or_empty refl refl
  handle_by-Simulates Handler.transaction_listener r s =
      let (vs, ran, few, sends_none) =
        Notified-run (Listener.handle L O r.params s) s (handle-Told L O r.params s) in
      document-Simulates Handler.transaction_listener s.pending (Listener.handle L O r.params s)
        (vs, ran, (few, sends_none))
  handle_by-Simulates Handler.list_transactions r s =
      kept-Simulates Handler.list_transactions s _ document refl refl
  handle_by-Simulates Handler.get_pending_transactions r s = ([], refl, refl)
  handle_by-Simulates Handler.unknown r s = ([], refl, refl)

  -- The handlers that requests are for, each with its part of a history, in their order.
  pub data History : List Request → List Event → Type 0 where
    no_request : History [] []
    request :
        (r : Request) (rs : List Request) (vs rest : List Event)
        → Fits (create_request_handler r.url_first_part) vs
        → History rs rest
        → History (r ∷ rs) (vs ++ rest)

  -- The requests that a server answers one after the other, whatever the node, iota, the database
  -- and the clock do, as long as none of them ends in undefined behaviour, change the list as a
  -- history does that has for each request, in their order: at most one transaction sent for
  -- /creation, at most two for /transfer and /registerAddress, at most one notification for
  -- /notify, and nothing for any other path.
  pub serve_all-History :
      (rs : List Request) (s t : State O.W)
      → serve_all L O C rs s ≡ some t
      → (vs : List Event) × History rs vs × (run vs s.pending ≡ some t.pending)
  unfolding serve_all serve run
  serve_all-History [] s t h = ([], no_request, ap some (ap State.pending (some-injective h)))
  serve_all-History (r ∷ rs) s t h =
      go (serve L O C r s) (handle_by-Simulates (create_request_handler r.url_first_part) r s)
        (λ u k. serve_all-History rs u t k) h
    where
      go :
          (x : Result Answer × State O.W)
          → Simulates (create_request_handler r.url_first_part) s.pending x.1.pending
          → ((u : State O.W)
              → serve_all L O C rs u ≡ some t
              → (vs : List Event) × History rs vs × (run vs u.pending ≡ some t.pending))
          → elim (continues L O C x) [ none ↦ none | some u ↦ serve_all L O C rs u ] ≡ some t
          → (vs : List Event) × History (r ∷ rs) vs × (run vs s.pending ≡ some t.pending)
      go (ok a, u) (vs, ran, fits) later k =
          let (rest, history, ran') = later u k in
          (vs ++ rest, request r rs vs rest fits history, run-append vs rest _ _ _ ran ran')
      go (returned d, u) (vs, ran, fits) later k =
          let (rest, history, ran') = later u k in
          (vs ++ rest, request r rs vs rest fits history, run-append vs rest _ _ _ ran ran')
      go (thrown e, u) (vs, ran, fits) later k =
          let (rest, history, ran') = later u k in
          (vs ++ rest, request r rs vs rest fits history, run-append vs rest _ _ _ ran ran')
      go (aborted, u) sim later k = cc

  -- Whatever requests a server answers, a list of at most a hundred pending transactions has at most
  -- a hundred after them.
  pub length-serve_all :
      (rs : List Request) (s t : State O.W)
      → serve_all L O C rs s ≡ some t
      → length s.pending ≤ 100
      → length t.pending ≤ 100
  length-serve_all rs s t h bound =
      let (vs, history, ran) = serve_all-History rs s t h in
      length-run vs s.pending t.pending bound ran
