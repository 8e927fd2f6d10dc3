-- ===== src/Listener.antt =====
-- src/JSONInterface/JsonTransactionListener.cpp: the handler of /notify, by which the Gradido Node
-- tells what became of a transaction.
pub mod Outcome
use gradido_blockchain_conne.Base.{
  String, utf8, Bool, true, false, Option, none, some, List, [], ◌∷◌, nonempty, if◌then◌else◌, ℕ,
}
use gradido_blockchain_conne.Json.{Json}
use gradido_blockchain_conne.Exec.{
  Document, state_success, Exec, Result, ok, aborted, pure, resume, ◌>>=◌, ◌>>◌,
}
use gradido_blockchain_conne.Pending.{update_transaction, PendingTransaction}
use gradido_blockchain_conne.Platform.{Library, Outside, State, reply}
use gradido_blockchain_conne.Transaction.{or_keep}

abbrev pub updated : {W : Type 0} → Option (List PendingTransaction) → Exec (State W) (Unit {0})
updated none s = (aborted, s)
updated (some p) s = (ok tt, record s { pending = p })

-- pt->updateTransaction
abbrev pub update : {W : Type 0} → String → Bool → String → Exec (State W) (Unit {0})
update id accepted message s = updated (update_transaction (utf8 id) accepted message s.pending) s

module _ (L : Library) (O : Outside L) where
  -- The block behind the parameters, from its base64 text.
  pub notify : String → String → String → Exec (State O.W) (Unit {0})
  notify transaction_base64 error iota_message_id =
      if nonempty transaction_base64
      then (if nonempty error then update iota_message_id false error else (do
        id ← reply (L.read_block (L.base64_to_bin transaction_base64))
        update id true ""))
      else pure tt

  pub handle : Json → Exec (State O.W) Document
  unfolding notify
  handle params = do
    notify (or_keep (L.get_string_parameter params "transactionBase64") "")
        (or_keep (L.get_string_parameter params "error") "")
        (or_keep (L.get_string_parameter params "messageId") "")
    pure (state_success [])
