-- ===== src/Creation/Outcome.antt =====
-- src/JSONInterface/JsonCreationTransaction.cpp: a creation that is reported was sent once, and
-- one that is refused was not sent.
use gradido_blockchain_conne.Base.{ℕ, String, List, [], ◌∷◌, ◌≡◌, refl}
use gradido_blockchain_conne.Json.{Json}
use gradido_blockchain_conne.Exec.Quiet.{
  Quiet, nothing, quiet_rules, Quiet-if, Quiet-pure, Quiet-Silent,
}
use gradido_blockchain_conne.Platform.{Library, Outside, State}
use gradido_blockchain_conne.ServerConfig.{ServerConfig}
use gradido_blockchain_conne.NodeRpc.Failures.{node_rules}
use gradido_blockchain_conne.Tables.Silent.{load_user-Silent}
use gradido_blockchain_conne.Transaction.{JsonTransaction}
use gradido_blockchain_conne.Transaction.Trace.{
  Ending, Traced, Traced-before, Traced-try_catch, Traced-respond, Reports, Quiet-in_world,
}
use gradido_blockchain_conne.Transaction.Reading.{
  or_return-Quiet, reply-Quiet, deref-Quiet, number_or-Quiet, parsed-Quiet, read_shared-Quiet,
}
use gradido_blockchain_conne.Transaction.Sent.{
  NoneSent, send-Traced, report-Traced, handled-Unsuccessful, handled-pending,
}
use gradido_blockchain_conne.Creation.{
  address_type_human, check_creation, create, handle_creation, handle,
}

-- One transaction was sent, under the id that is reported.
abbrev pub OneSent : String → List String → Type 0
OneSent id ids = ids ≡ id ∷ []

module _ (L : Library) (O : Outside L) where
  address_type_human-Quiet : (a : String) → Quiet nothing (address_type_human L O a)
  unfolding address_type_human
  address_type_human-Quiet a = search quiet_rules depth 6

  pub check_creation-Quiet :
      (t : JsonTransaction L) (pubkey_hex amount_string : String) (target_date : ℕ)
      → Quiet nothing (check_creation L O t pubkey_hex amount_string target_date)
  unfolding check_creation
  check_creation-Quiet t pubkey_hex amount_string target_date =
      search (quiet_rules, number_or-Quiet, address_type_human-Quiet, Quiet-Silent, node_rules)
        depth 14

  create-Traced :
      (t : JsonTransaction L) (public_key : List ℕ) (amount_string : String) (target_date : ℕ)
      → Traced
          (Reports OneSent NoneSent)
          NoneSent
          (create L O t public_key amount_string target_date)
  unfolding create
  create-Traced t public_key amount_string target_date =
      Traced-before _ _ _ _ refl
        (Quiet-if _ t.archive_transaction _ _ (Quiet-pure _ tt)
          (Quiet-in_world _ (check_creation-Quiet t _ amount_string target_date)))
        (λ u.
          Traced-before _ _ _ _ refl (reply-Quiet _ _)
            (λ creation. report-Traced _ _ _ (send-Traced L O t creation _)))

module _ (L : Library) (O : Outside L) (C : ServerConfig) where
  handle_creation-Traced :
      (t : JsonTransaction L) (params : Json)
      → Traced (Reports OneSent NoneSent) NoneSent (handle_creation L O C t params)
  unfolding handle_creation
  handle_creation-Traced t params =
      search
        (
          Traced-before, Traced-try_catch, create-Traced, handled-Unsuccessful, handled-pending,
          or_return-Quiet, parsed-Quiet, Quiet-in_world, Quiet-Silent, load_user-Silent,
          deref-Quiet,
        )
        depth 14

  handle-Traced :
      (start : ℕ) (jwt client_ip : String) (params : Json)
      → Traced (Reports OneSent NoneSent) NoneSent (handle L O C start jwt client_ip params)
  unfolding handle
  handle-Traced start jwt client_ip params = Traced-respond _ _ _ (
      Traced-before _ _ _ _ refl (read_shared-Quiet L O C start jwt client_ip params)
        (λ t. handle_creation-Traced t params))

  -- For every request to /creation and whatever the node, iota, the database and the clock do:
  -- the handler answers with success only if exactly one transaction was pushed to the list, in
  -- the state SENDED and under the message id that the answer names, and if it answers with an
  -- error, throws or stops at an assertion, then the list is as it was.
  pub creation_outcome :
      (start : ℕ) (jwt client_ip : String) (params : Json) (s : State O.W)
      → Ending
          (Reports OneSent NoneSent)
          NoneSent
          s.pending
          (handle L O C start jwt client_ip params s)
  creation_outcome start jwt client_ip params s = (handle-Traced start jwt client_ip params).at s
