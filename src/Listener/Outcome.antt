-- ===== src/Listener/Outcome.antt =====
-- src/JSONInterface/JsonTransactionListener.cpp: a request to /notify is at most one event for the
-- list of pending transactions.
use gradido_blockchain_conne.Base.{
  String, utf8, Bool, true, false, Option, none, some, List, [], nonempty, if◌then◌else◌, ◌≡◌, refl,
  ℕ, ◌⊎◌, inl, inr,
}
use gradido_blockchain_conne.Json.{Json}
use gradido_blockchain_conne.Exec.{
  Document, state_success, Result, ok, returned, thrown, aborted, pure, resume, ◌>>=◌,
}
use gradido_blockchain_conne.Pending.{PendingTransaction, update_transaction}
use gradido_blockchain_conne.Pending.History.{notifies, step}
use gradido_blockchain_conne.Platform.{Library, Outside, State, Reply, answer, fails, reply}
use gradido_blockchain_conne.Transaction.{or_keep}
use gradido_blockchain_conne.Listener.{update, updated, notify, handle}

-- The list is as it was, or one notification was applied to it.
abbrev pub Told : List PendingTransaction → List PendingTransaction → Type 0
Told old new =
    (new ≡ old)
    ⊎ ((id : List ℕ) × (accepted : Bool) × (message : String) × (step (notifies id accepted message)
            old
          ≡ some new))

-- What a report does to the list: without a transaction nothing, with an error the rejection of the
-- entry of its message id with that error, and else the confirmation of the entry whose message id
-- is the one of the block.
pub data Reported (L : Library) (transaction_base64 error id : String)
    (old new : List PendingTransaction) : Type 0 where
  no_transaction :
      nonempty transaction_base64 ≡ false
      → new ≡ old
      → Reported L transaction_base64 error id old new
  rejected_by :
      nonempty transaction_base64 ≡ true
      → nonempty error ≡ true
      → step (notifies (utf8 id) false error) old ≡ some new
      → Reported L transaction_base64 error id old new
  confirmed_by :
      (block_id : String)
      → nonempty transaction_base64 ≡ true
      → nonempty error ≡ false
      → L.read_block (L.base64_to_bin transaction_base64) ≡ answer block_id
      → step (notifies (utf8 block_id) true "") old ≡ some new
      → Reported L transaction_base64 error id old new

pub Reported-Told :
    {L : Library} {transaction_base64 error id : String} {old new : List PendingTransaction}
    → Reported L transaction_base64 error id old new
    → Told old new
Reported-Told (no_transaction e h) = inl h
Reported-Told {error = error} {id = id} (rejected_by e f h) = inr (utf8 id, false, error, h)
Reported-Told (confirmed_by block_id e f g h) = inr (utf8 block_id, true, "", h)

-- How a request ends: with the one answer, or as if it had not been made.
abbrev pub Notified :
    {W A : Type 0}
    → (A → Type 0)
    → (List PendingTransaction → List PendingTransaction → Type 0)
    → State W
    → Result A × State W
    → Type 0
Notified Answer Change s (ok a, t) = (Answer a) × (Change s.pending t.pending) × (t.world ≡ s.world)
Notified Answer Change s (returned d, t) = ⊥
Notified Answer Change s (thrown e, t) = t ≡ s
Notified Answer Change s (aborted, t) = t ≡ s

abbrev pub IsSuccess : Document → Type 0
IsSuccess d = d ≡ state_success []

abbrev AnyAnswer : Unit {0} → Type 0
AnyAnswer u = Unit {0}

updated-Notified :
    {W : Type 0} (Change : List PendingTransaction → List PendingTransaction → Type 0) (s : State W)
    (o : Option (List PendingTransaction))
    → ((p : List PendingTransaction) → o ≡ some p → Change s.pending p)
    → Notified AnyAnswer Change s (updated o s)
updated-Notified Change s none h = refl
updated-Notified Change s (some p) h = (tt, h p refl, refl)

module _ (L : Library) (O : Outside L) (t error id : String) (s : State O.W) where
  block-Notified :
      (r : Reply String)
      → nonempty t ≡ true
      → nonempty error ≡ false
      → L.read_block (L.base64_to_bin t) ≡ r
      → Notified AnyAnswer (Reported L t error id) s ((reply r >>= λ b. update b true "") s)
  unfolding step
  block-Notified (answer block_id) e f g =
      updated-Notified (Reported L t error id) s
        (update_transaction (utf8 block_id) true "" s.pending)
        (λ p h. confirmed_by block_id e f g h)
  block-Notified (fails x) e f g = refl

  error-Notified :
      (b : Bool)
      → nonempty t ≡ true
      → nonempty error ≡ b
      → Notified AnyAnswer (Reported L t error id) s (
          (if b
              then update id false error
              else reply (L.read_block (L.base64_to_bin t)) >>= λ b. update b true "")
            s)
  unfolding step
  error-Notified true e f =
      updated-Notified (Reported L t error id) s
        (update_transaction (utf8 id) false error s.pending) (λ p h. rejected_by e f h)
  error-Notified false e f = block-Notified (L.read_block (L.base64_to_bin t)) e f refl

  transaction-Notified :
      (b : Bool)
      → nonempty t ≡ b
      → Notified AnyAnswer (Reported L t error id) s (
          (if b
              then (if nonempty error
                  then update id false error
                  else reply (L.read_block (L.base64_to_bin t)) >>= λ b. update b true "")
              else pure tt)
            s)
  transaction-Notified true e = error-Notified (nonempty error) e refl
  transaction-Notified false e = (tt, no_transaction e refl, refl)

  notify-Notified : Notified AnyAnswer (Reported L t error id) s (notify L O t error id s)
  unfolding notify
  notify-Notified = transaction-Notified (nonempty t) refl

module _ (L : Library) (O : Outside L) where
  answered-Notified :
      (Change : List PendingTransaction → List PendingTransaction → Type 0) (s : State O.W)
      (r : Result (Unit {0}) × State O.W)
      → Notified AnyAnswer Change s r
      → Notified IsSuccess Change s (resume r (λ u. pure (state_success [])))
  answered-Notified Change s (ok u, t) (a, h, k) = (refl, h, k)
  answered-Notified Change s (returned d, t) h = h
  answered-Notified Change s (thrown e, t) h = h
  answered-Notified Change s (aborted, t) h = h

  module _ (params : Json) where
    abbrev pub parameter : String → String
    parameter name = or_keep (L.get_string_parameter params name) ""

    abbrev pub ReportedBy : List PendingTransaction → List PendingTransaction → Type 0
    ReportedBy =
        Reported L (parameter "transactionBase64") (parameter "error") (parameter "messageId")

    -- The handler of /notify, whatever the request holds: if it answers, then with an empty success.
    -- The list of pending transactions is then as it was if the request has no transaction; else, if
    -- the request has an error, one notification rejects its message id with that error; and else
    -- one notification confirms the message id of the block in the request.
    -- If it throws, or reads out of bounds, then nothing was changed.
    pub handle-Notified : (s : State O.W) → Notified IsSuccess ReportedBy s (handle L O params s)
    unfolding handle
    handle-Notified s =
        answered-Notified ReportedBy s
          (notify L O (parameter "transactionBase64") (parameter "error") (parameter "messageId") s)
          (notify-Notified L O (parameter "transactionBase64") (parameter "error")
            (parameter "messageId") s)

    told :
        (s : State O.W) (r : Result Document × State O.W)
        → Notified IsSuccess ReportedBy s r
        → Notified IsSuccess Told s r
    told s (ok d, t) (a, h, k) = (a, Reported-Told h, k)
    told s (returned d, t) h = h
    told s (thrown e, t) h = h
    told s (aborted, t) h = h

    -- The same without the request, for the histories of the server.
    pub handle-Told : (s : State O.W) → Notified IsSuccess Told s (handle L O params s)
    handle-Told s = told s (handle L O params s) (handle-Notified s)
