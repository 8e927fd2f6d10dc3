-- ===== src/Transaction/Sent.antt =====
-- src/JSONInterface/JsonTransaction.cpp: signAndSendTransaction pushes what it has sent.
use gradido_blockchain_conne.Base.{ℕ, String, List, [], ◌∷◌, ◌++◌, ◌≡◌, refl, sym, subst}
use mathlib.Core.Path.{subst₂}
use mathlib.Core.List.{append-nil}
use gradido_blockchain_conne.Exec.{
  Exec, Exception, library, node_rpc_exception, apollo_decay_exception, invalid_signature,
  invalid_input, iota_request, request_response_error, rapidjson_parse_error, ed25519_sign, ◌>>◌,
  pure, ◌>>=◌,
}
use gradido_blockchain_conne.Exec.Quiet.{Quiet-Silent}
use gradido_blockchain_conne.Pending.{new_pending}
use gradido_blockchain_conne.Platform.{deref, Library, Outside, State}
use gradido_blockchain_conne.Transaction.{
  sent_response, JsonTransaction, remember, sign_and_send_transaction,
  handle_sign_and_send_transaction_exceptions,
}
use gradido_blockchain_conne.Transaction.Silent.{prepare-Silent, hand_on-Silent}
use gradido_blockchain_conne.Transaction.Reading.{deref-Quiet}
use gradido_blockchain_conne.Transaction.Trace.{
  Reports, Traced-bind, Traced-pure, Traced-weaken, IsSent, After, Ending, Unsuccessful, Traced,
  Traced-before, Quiet-in_world,
}

-- Nothing was sent.
abbrev pub NoneSent : List String → Type 0
NoneSent ids = ids ≡ []

module _ (L : Library) (O : Outside L) where
  remember-Traced :
      (t : JsonTransaction L) (tx : L.Tx) (id : String)
      → Traced (λ last ids. ids ≡ last ∷ []) NoneSent (remember L O t tx id >> pure id)
  unfolding remember After IsSent new_pending
  remember-Traced t tx id = record {
    at = λ s. (id ∷ [], refl, (new_pending _ _ _ _ _ _, (refl, refl), refl));
  }

  pub send-Traced :
      (t : JsonTransaction L) (transaction : L.Tx) (group_alias : String)
      → Traced
          (λ id ids. ids ≡ id ∷ [])
          NoneSent
          (sign_and_send_transaction L O t transaction group_alias)
  unfolding sign_and_send_transaction
  send-Traced t transaction group_alias =
      Traced-before _ _ _ _ refl
        (Quiet-in_world _ (Quiet-Silent _ (prepare-Silent L O t transaction group_alias)))
        (λ tx.
          Traced-before _ _ _ _ refl
            (Quiet-in_world _ (Quiet-Silent _ (hand_on-Silent L O t tx group_alias)))
            (λ id. remember-Traced t tx id))

  -- signAndSendTransaction returns a message id exactly when one transaction was pushed, in the
  -- state SENDED and under the bytes of this message id; if it throws, the list is as it was.
  pub send-Ending :
      (t : JsonTransaction L) (transaction : L.Tx) (group_alias : String) (s : State O.W)
      → Ending
          (λ id ids. ids ≡ id ∷ [])
          NoneSent
          s.pending
          (sign_and_send_transaction L O t transaction group_alias s)
  send-Ending t transaction group_alias s = (send-Traced t transaction group_alias).at s

  pub handled-Unsuccessful :
      (e : Exception) (s : State O.W)
      → Unsuccessful (handle_sign_and_send_transaction_exceptions L O e s).0
  unfolding handle_sign_and_send_transaction_exceptions
  handled-Unsuccessful (library invalid_signature w) s = tt
  handled-Unsuccessful (library invalid_input w) s = tt
  handled-Unsuccessful (library iota_request w) s = tt
  handled-Unsuccessful (library request_response_error w) s = tt
  handled-Unsuccessful (library rapidjson_parse_error w) s = tt
  handled-Unsuccessful (library ed25519_sign w) s = tt
  handled-Unsuccessful (node_rpc_exception w details) s = tt
  handled-Unsuccessful (apollo_decay_exception w balance decay) s = tt
  handled-Unsuccessful e s = tt

  pub handled-pending :
      (e : Exception) (s : State O.W)
      → (handle_sign_and_send_transaction_exceptions L O e s).1.pending ≡ s.pending
  unfolding handle_sign_and_send_transaction_exceptions
  handled-pending (library invalid_signature w) s = refl
  handled-pending (library invalid_input w) s = refl
  handled-pending (library iota_request w) s = refl
  handled-pending (library request_response_error w) s = refl
  handled-pending (library rapidjson_parse_error w) s = refl
  handled-pending (library ed25519_sign w) s = refl
  handled-pending (node_rpc_exception w details) s = refl
  handled-pending (apollo_decay_exception w balance decay) s = refl
  handled-pending e s = refl

-- What a handler that may send to two groups has sent, when it reports `id`.
pub data OneOrTwo (id : String) : List String → Type 0 where
  one : OneOrTwo id (id ∷ [])
  two : (first : String) → OneOrTwo id (first ∷ id ∷ [])

pub data AtMostOne : List String → Type 0 where
  none_sent : AtMostOne []
  one_sent : (id : String) → AtMostOne (id ∷ [])

module _ {W : Type 0} (Done : String → List String → Type 0) (Fail : List String → Type 0) where
  pub report-Traced :
      (m : Exec (State W) String)
      → Traced Done Fail m
      → Traced (Reports Done Fail) Fail (m >>= λ id. pure (sent_response id))
  report-Traced m h =
      Traced-bind _ _ _ _ _ h
        (λ id ids done. Traced-pure _ _ _ (id, refl, subst (Done id) (sym (append-nil ids)) done))

module _ (L : Library) (O : Outside L) (t : JsonTransaction L) where
  pub one-Traced :
      (tx : L.Tx) (group_alias : String)
      → Traced OneOrTwo AtMostOne (sign_and_send_transaction L O t tx group_alias)
  one-Traced tx group_alias =
      Traced-weaken _ (λ id ids h. subst (OneOrTwo id) (sym h) one)
        (λ ids h. subst AtMostOne (sym h) none_sent) (send-Traced L O t tx group_alias)

  pub two-Traced :
      (outbound : L.Tx) (inbound : List ℕ → L.Tx) (from to : String)
      → Traced OneOrTwo AtMostOne (
          sign_and_send_transaction L O t outbound from >>= λ id.
          deref (L.hex_to_bin id) >>= λ parent. sign_and_send_transaction L O t (inbound parent) to)
  two-Traced outbound inbound from to =
      Traced-bind _ _ _ _ _
        (Traced-weaken _ (λ id ids h. h) (λ ids h. subst AtMostOne (sym h) none_sent)
          (send-Traced L O t outbound from))
        (λ id ids h.
          Traced-before _ _ _ _ (subst (λ l. AtMostOne (l ++ [])) (sym h) (one_sent id))
            (deref-Quiet _ (L.hex_to_bin id))
            (λ parent.
              Traced-weaken _
                (λ last more k. subst₂ (λ l k. OneOrTwo last (l ++ k)) (sym h) (sym k) (two id))
                (λ more k. subst₂ (λ l k. AtMostOne (l ++ k)) (sym h) (sym k) (one_sent id))
                (send-Traced L O t (inbound parent) to)))
