-- ===== src/Server/Events.antt =====
-- src/model/PendingTransactions.cpp: what a request may have done to the list, as a history.
use gradido_blockchain_conne.Base.{
  some-injective, ℕ, suc, ◌≤◌, String, Option, none, some, List, [], ◌∷◌, ◌++◌, ◌≡◌, refl, sym, ap,
  ◌∙◌, inl, inr, length, arith,
}
use gradido_blockchain_conne.Pending.{PendingTransaction, push_new_transaction}
use gradido_blockchain_conne.Pending.History.{Event, sends, notifies, step, run, sent}
use gradido_blockchain_conne.Transaction.Trace.{After}
use gradido_blockchain_conne.Listener.Outcome.{Told}
use gradido_blockchain_conne.Routing.{
  Handler, creation, transfer, register_address, transaction_listener,
}

abbrev pub notified : List Event → ℕ
notified [] = 0
notified (sends e ∷ vs) = notified vs
notified (notifies id accepted message ∷ vs) = suc (notified vs)

-- What each handler may do: the three for transactions send, the listener notifies, and all others
-- leave the list as it is.
abbrev pub Fits : Handler → List Event → Type 0
Fits creation vs = (notified vs ≡ 0) × (sent vs ≤ 1)
Fits transfer vs = (notified vs ≡ 0) × (sent vs ≤ 2)
Fits register_address vs = (notified vs ≡ 0) × (sent vs ≤ 2)
Fits transaction_listener vs = (notified vs ≤ 1) × (sent vs ≡ 0)
Fits h vs = vs ≡ []

pub After-run :
    (ids : List String) (old new : List PendingTransaction)
    → After ids old new
    → (vs : List Event) × (run vs old ≡ some new) × (notified vs ≡ 0) × (sent vs ≡ length ids)
unfolding After run step
After-run [] old new h = ([], ap some (sym h), refl, refl)
After-run (id ∷ ids) old new (p, is_sent, h) =
    let (vs, ran, none_notified, count) = After-run ids (push_new_transaction p old) new h in
    (sends p ∷ vs, ran, none_notified, ap suc count)

pub Told-run :
    (old new : List PendingTransaction)
    → Told old new
    → (vs : List Event) × (run vs old ≡ some new) × (notified vs ≤ 1) × (sent vs ≡ 0)
unfolding run
Told-run old new (inl e) = ([], ap some (sym e), omega arith, refl)
Told-run old new (inr (id, accepted, message, e)) =
    (notifies id accepted message ∷ [], rw (e, run), omega arith, refl)

pub run-append :
    (us vs : List Event) (p q r : List PendingTransaction)
    → run us p ≡ some q
    → run vs q ≡ some r
    → run (us ++ vs) p ≡ some r
unfolding run
run-append [] vs p q r h k = ap (run vs) (some-injective h) ∙ k
run-append (u ∷ us) vs p q r h k = go (λ t a. run-append us vs t q r a k) (step u p) h
  where
    go :
        ((t : List PendingTransaction) → run us t ≡ some q → run (us ++ vs) t ≡ some r)
        → (o : Option (List PendingTransaction))
        → elim o [ none ↦ none | some t ↦ run us t ] ≡ some q
        → elim o [ none ↦ none | some t ↦ run (us ++ vs) t ] ≡ some r
    go later none a = cc
    go later (some t) a = later t a
