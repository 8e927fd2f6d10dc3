-- ===== src/Transfer/Outcome.antt =====
-- src/JSONInterface/JsonTransferTransaction.cpp: what was sent when the handler answers.
use gradido_blockchain_conne.Base.{ℕ, String, List}
use gradido_blockchain_conne.Json.{Json}
use gradido_blockchain_conne.Exec.{Exception, node_rpc_exception, row_not_found_exception}
use gradido_blockchain_conne.Exec.Quiet.{
  Quiet, nothing, quiet_rules, Quiet-Silent, Quiet-error, Quiet-throw,
}
use gradido_blockchain_conne.Platform.{Library, Outside, State}
use gradido_blockchain_conne.ServerConfig.{ServerConfig}
use gradido_blockchain_conne.NodeRpc.Failures.{node_rules}
use gradido_blockchain_conne.Tables.Silent.{load_user-Silent, load_group-Silent}
use gradido_blockchain_conne.Transaction.{JsonTransaction}
use gradido_blockchain_conne.Transaction.Trace.{
  Ending, Traced, Traced-if, Traced-before, Traced-respond, Reports, Quiet-in_world,
}
use gradido_blockchain_conne.Transaction.Reading.{
  or_return-Quiet, reply-Quiet, deref-Quiet, number_or-Quiet, read_shared-Quiet,
}
use gradido_blockchain_conne.Transaction.Sent.{
  AtMostOne, none_sent, OneOrTwo, one-Traced, two-Traced, report-Traced,
}
use gradido_blockchain_conne.Transfer.{
  node_failed, no_group, check_transfer, send_transfer, recipient_group, handle_transfer, handle,
}

module _ (L : Library) (O : Outside L) where
  node_failed-Quiet : {A : Type 0} (e : Exception) → Quiet State.pending (node_failed L O {A = A} e)
  node_failed-Quiet (node_rpc_exception w d) = Quiet-error _ _ _
  node_failed-Quiet e = Quiet-throw _ e

  no_group-Quiet : {A : Type 0} (e : Exception) → Quiet State.pending (no_group L O {A = A} e)
  no_group-Quiet (row_not_found_exception w table condition) = Quiet-error _ _ _
  no_group-Quiet e = Quiet-throw _ e

  check_transfer-Quiet :
      (t : JsonTransaction L) (key : L.Key) (recipient : List ℕ) (a b c d : String)
      → Quiet nothing (check_transfer L O t key recipient a b c d)
  unfolding check_transfer
  check_transfer-Quiet t key recipient a b c d =
      search (quiet_rules, number_or-Quiet, Quiet-Silent, node_rules) depth 14

  recipient_group-Quiet :
      (t : JsonTransaction L) (a : String) → Quiet State.pending (recipient_group L O t a)
  unfolding recipient_group
  recipient_group-Quiet t a =
      search (quiet_rules, no_group-Quiet, Quiet-in_world, Quiet-Silent, load_group-Silent) depth 10

  send_transfer-Traced :
      (t : JsonTransaction L) (key : L.Key) (recipient : List ℕ) (to coin amount : String)
      → Traced
          (Reports OneOrTwo AtMostOne)
          AtMostOne
          (send_transfer L O t key recipient to coin amount)
  unfolding send_transfer
  send_transfer-Traced t key recipient to coin amount =
      search
        (Traced-before, reply-Quiet, report-Traced, Traced-if, two-Traced, one-Traced, none_sent)
        depth 8

  handle_transfer-Traced :
      (t : JsonTransaction L) (params : Json)
      → Traced (Reports OneOrTwo AtMostOne) AtMostOne (handle_transfer L O t params)
  unfolding handle_transfer
  handle_transfer-Traced t params =
      search
        (
          quiet_rules, Traced-before, send_transfer-Traced, recipient_group-Quiet, or_return-Quiet,
          node_failed-Quiet, check_transfer-Quiet, Quiet-in_world, Quiet-Silent, load_user-Silent,
          deref-Quiet, none_sent,
        )
        depth 16

module _ (L : Library) (O : Outside L) (C : ServerConfig) where
  -- For every request to /transfer: the handler answers with success only if one or two
  -- transactions were pushed to the list, each in the state SENDED and under its message id, of
  -- which the answer names the last; in every other case at most one was pushed.
  pub transfer_outcome :
      (start : ℕ) (jwt client_ip : String) (params : Json) (s : State O.W)
      → Ending
          (Reports OneOrTwo AtMostOne)
          AtMostOne
          s.pending
          (handle L O C start jwt client_ip params s)
  unfolding handle
  transfer_outcome start jwt client_ip params s =
      (Traced-respond _ _ _ (
          Traced-before _ _ _ _ none_sent (read_shared-Quiet L O C start jwt client_ip params)
            (λ t. handle_transfer-Traced L O t params))).at
        s
