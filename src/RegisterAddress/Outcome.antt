-- ===== src/RegisterAddress/Outcome.antt =====
-- src/JSONInterface/JsonRegisterAddressTransaction.cpp: what was sent when the handler answers.
use gradido_blockchain_conne.Base.{ℕ, String, Bool, List, [], ◌∷◌}
use gradido_blockchain_conne.Json.{Json}
use gradido_blockchain_conne.Exec.{Exception, node_rpc_exception}
use gradido_blockchain_conne.Exec.Quiet.{
  Quiet, nothing, quiet_rules, Quiet-if, Quiet-pure, Quiet-Silent, Quiet-error, Quiet-throw,
}
use gradido_blockchain_conne.Platform.{Library, Outside, State, AddressType}
use gradido_blockchain_conne.ServerConfig.{ServerConfig}
use gradido_blockchain_conne.NodeRpc.Failures.{node_rules}
use gradido_blockchain_conne.Transaction.{JsonTransaction}
use gradido_blockchain_conne.Transaction.Trace.{
  Ending, Traced, Traced-if, Traced-before, Traced-try_catch, Traced-respond, Reports,
  Quiet-in_world,
}
use gradido_blockchain_conne.Transaction.Reading.{
  or_return-Quiet, reply-Quiet, deref-Quiet, read_shared-Quiet,
}
use gradido_blockchain_conne.Transaction.Sent.{
  AtMostOne, none_sent, OneOrTwo, one-Traced, two-Traced, report-Traced, handled-Unsuccessful,
  handled-pending,
}
use gradido_blockchain_conne.RegisterAddress.{
  alias_valid, no_txids, node_failed, check_unregistered, register, handle_register, handle,
}

module _ {S B : Type 0} (view : S → B) where
  alias_valid-Quiet :
      (L : Library) (a message : String) → Quiet view (alias_valid {S = S} L a message)
  alias_valid-Quiet L a message =
      Quiet-if view _ _ _ (Quiet-error view message _) (Quiet-pure view tt)

  no_txids-Quiet : (ids : List ℕ) → Quiet view (no_txids {S = S} ids)
  no_txids-Quiet [] = Quiet-pure view tt
  no_txids-Quiet (n ∷ ns) = Quiet-error view _ _

module _ (L : Library) (O : Outside L) where
  node_failed-Quiet : {A : Type 0} (e : Exception) → Quiet State.pending (node_failed L O {A = A} e)
  node_failed-Quiet (node_rpc_exception w d) = Quiet-error _ _ _
  node_failed-Quiet e = Quiet-throw _ e

  check_unregistered-Quiet :
      (key : List ℕ) (group_alias : String) → Quiet nothing (check_unregistered L O key group_alias)
  unfolding check_unregistered
  check_unregistered-Quiet key group_alias =
      search (quiet_rules, no_txids-Quiet, Quiet-Silent, node_rules) depth 8

  register-Traced :
      (t : JsonTransaction L) (key : List ℕ) (kind : AddressType) (moving : Bool) (from to : String)
      → Traced (Reports OneOrTwo AtMostOne) AtMostOne (register L O t key kind moving from to)
  unfolding register
  register-Traced t key kind moving from to =
      Traced-before _ _ _ _ none_sent (reply-Quiet _ _) (λ base.
        report-Traced _ _ _
          (Traced-if _ _ moving _ _ (two-Traced L O t _ _ from to) (one-Traced L O t base _)))

  handle_register-Traced :
      (t : JsonTransaction L) (params : Json)
      → Traced (Reports OneOrTwo AtMostOne) AtMostOne (handle_register L O t params)
  unfolding handle_register
  handle_register-Traced t params =
      search
        (
          quiet_rules, Traced-before, Traced-try_catch, register-Traced, handled-Unsuccessful,
          handled-pending, or_return-Quiet, alias_valid-Quiet, node_failed-Quiet,
          check_unregistered-Quiet, Quiet-in_world, deref-Quiet, none_sent,
        )
        depth 16

module _ (L : Library) (O : Outside L) (C : ServerConfig) where
  -- For every request to /registerAddress: the handler answers with success only if one or two
  -- transactions were pushed to the list, each in the state SENDED and under its message id, of
  -- which the answer names the last; in every other case at most one was pushed.
  pub register_outcome :
      (start : ℕ) (jwt client_ip : String) (params : Json) (s : State O.W)
      → Ending
          (Reports OneOrTwo AtMostOne)
          AtMostOne
          s.pending
          (handle L O C start jwt client_ip params s)
  unfolding handle
  register_outcome start jwt client_ip params s =
      (Traced-respond _ _ _ (
          Traced-before _ _ _ _ none_sent (read_shared-Quiet L O C start jwt client_ip params)
            (λ t. handle_register-Traced L O t params))).at
        s
