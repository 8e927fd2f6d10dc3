-- ===== src/Pending/Sizes.antt =====
-- How long the list gets, over any history that runs to its end.
use mathlib.Core.Option
use gradido_blockchain_conne.Base.{
  some-injective, ℕ, suc, ◌≤◌, String, Bool, true, false, Option, none, some, List, [], ◌∷◌, ◌≡◌,
  refl, sym, ap, ◌∙◌, reverse, length, length-reverse,
}
use gradido_blockchain_conne.Pending.{
  PendingTransaction, push_new_transaction, same_id, settle, update_newest_first,
  update_transaction,
}
use gradido_blockchain_conne.Pending.Window.{length-push}
use gradido_blockchain_conne.Pending.History.{Event, sends, notifies, step, run}

update_newest_first-length :
    (id : List ℕ) (accepted : Bool) (message : String) (p q : List PendingTransaction)
    → update_newest_first id accepted message p ≡ some q
    → length q ≡ length p
unfolding update_newest_first
update_newest_first-length id accepted message [] q h = ap length (sym (some-injective h))
update_newest_first-length id accepted message (e ∷ older) q h =
    go (same_id e.iota_message_id id) (update_newest_first id accepted message older)
      (update_newest_first-length id accepted message older) h
  where
    go :
        (o : Option Bool) (rest : Option (List PendingTransaction))
        → ((r : List PendingTransaction) → rest ≡ some r → length r ≡ length older)
        → elim o [
          | none ↦ none
          | some true ↦ some (settle accepted message e ∷ older)
          | some false ↦ Option.map (◌∷◌ e) rest
        ]
          ≡ some q
        → length q ≡ suc (length older)
    go none rest k a = cc
    go (some true) rest k a = ap length (sym (some-injective a))
    go (some false) none k a = cc
    go (some false) (some r) k a = ap length (sym (some-injective a)) ∙ ap suc (k r refl)

update_transaction-length :
    (id : List ℕ) (accepted : Bool) (message : String) (p q : List PendingTransaction)
    → update_transaction id accepted message p ≡ some q
    → length q ≡ length p
unfolding update_transaction
update_transaction-length id accepted message p q h =
    go (update_newest_first id accepted message (reverse p)) refl h
  where
    go :
        (o : Option (List PendingTransaction))
        → update_newest_first id accepted message (reverse p) ≡ o
        → Option.map reverse o ≡ some q
        → length q ≡ length p
    go none e a = cc
    go (some r) e a =
        ap length (sym (some-injective a))
        ∙ length-reverse r
        ∙ update_newest_first-length id accepted message (reverse p) r e
        ∙ length-reverse p

-- A history that runs to its end leaves at most a hundred entries in a list that had at most a
-- hundred.
pub length-run :
    (vs : List Event) (p q : List PendingTransaction)
    → length p ≤ 100
    → run vs p ≡ some q
    → length q ≤ 100
unfolding run step
length-run [] p q bound h = rw (sym (some-injective h)) bound
length-run (sends e ∷ vs) p q bound h =
    length-run vs (push_new_transaction e p) q (length-push e p) h
length-run (notifies id accepted message ∷ vs) p q bound h =
    go (λ r b. length-run vs r q b) (update_transaction id accepted message p) refl h
  where
    go :
        ((r : List PendingTransaction) → length r ≤ 100 → run vs r ≡ some q → length q ≤ 100)
        → (o : Option (List PendingTransaction)) → update_transaction id accepted message p ≡ o
        → elim o [ none ↦ none | some r ↦ run vs r ] ≡ some q
        → length q ≤ 100
    go later none e a = cc
    go later (some r) e a =
        later r (rw (update_transaction-length id accepted message p r e) bound) a
