-- ===== src/Pending/Tests.antt =====
-- The list of pending transactions at concrete entries.
use gradido_blockchain_conne.Base.{
  ℕ, zero, suc, String, true, false, ◌≡◌, refl, some, List, [], ◌∷◌, false≢true, arith, take,
  take_last,
}
use gradido_blockchain_conne.Pending.{
  PendingTransaction, sended, confirmed, new_pending, push_new_transaction, update_transaction,
  list_as_json, list_entry,
}
use gradido_blockchain_conne.Pending.Window.{list-push, push-take_last}
use gradido_blockchain_conne.Pending.Latest.{
  list_eq_iff, UpdateAt, update-UpdateAt, latest, find_first,
}
use gradido_blockchain_conne.Pending.History.{
  Event, sends, notifies, run, IsProper, IsValid, Follows, verdict, confirms, rejects, run-IsValid,
  run-verdict, run_confirmed,
}

-- An id of 64 characters, and one of them repeated.
abbrev filled : ℕ → ℕ → List ℕ
filled zero x = []
filled (suc n) x = x ∷ filled n x

abbrev first_id : List ℕ
first_id = filled 64 97

abbrev second_id : List ℕ
second_id = filled 64 98

abbrev first : PendingTransaction
first = new_pending first_id 1 "" 0 7 1000

abbrev second : PendingTransaction
second = new_pending second_id 2 "" 0 8 2000

abbrev type_string : ℕ → String
type_string n = "transfer"

list-push_example :
    list_as_json type_string (push_new_transaction second (first ∷ []))
    ≡ take 100 (list_entry type_string second ∷ list_as_json type_string (first ∷ []))
list-push_example = list-push type_string second (first ∷ [])

push-take_last_example :
    push_new_transaction second (first ∷ []) ≡ take_last 100 (first ∷ second ∷ [])
push-take_last_example = push-take_last second (first ∷ [])

update-UpdateAt_example :
    (q : List PendingTransaction) × (update_transaction first_id true "done" (first ∷ second ∷ [])
      ≡ some q)
    × UpdateAt first_id true "done" (first ∷ second ∷ []) q
unfolding new_pending
update-UpdateAt_example =
    update-UpdateAt first_id true "done" (first ∷ second ∷ []) refl (refl, (refl, tt))

-- A history that rejects, sends and confirms.
abbrev history : List Event
history = notifies first_id false "no" ∷ sends second ∷ notifies first_id true "yes" ∷ []

history-IsProper : IsProper history
unfolding new_pending
history-IsProper = (refl, (refl, (refl, tt)))

run-IsValid_example :
    (q : List PendingTransaction) × (run history (first ∷ []) ≡ some q) × IsValid q
unfolding new_pending
run-IsValid_example =
    run-IsValid history (first ∷ []) history-IsProper
      (record { bounded = omega arith; proper = (refl, tt) })

first-Follows : Follows first_id history (first ∷ [])
unfolding new_pending
first-Follows = record {
  message_ids = history-IsProper;
  entry_ids = (refl, tt);
  others = (λ h. false≢true ((list_eq_iff second_id first_id).1 h), tt);
  room = omega arith;
}

run-verdict_example :
    (q : List PendingTransaction) × (e' : PendingTransaction) × (run history (first ∷ []) ≡ some q)
    × (latest first_id q ≡ some e')
    × (e'.state ≡ verdict first_id history sended)
unfolding new_pending latest find_first
run-verdict_example = run-verdict first_id history (first ∷ []) first first-Follows refl

verdict_confirmed : verdict first_id history sended ≡ confirmed
unfolding verdict confirms rejects
verdict_confirmed = refl

abbrev done : PendingTransaction
done = record first { state = confirmed; error_message = "done" }

done-Follows : Follows first_id history (done ∷ [])
unfolding new_pending
done-Follows = record {
  message_ids = history-IsProper;
  entry_ids = (refl, tt);
  others = first-Follows.others;
  room = omega arith;
}

run_confirmed_example :
    (q : List PendingTransaction) × (run history (done ∷ []) ≡ some q)
    × (latest first_id q ≡ some done)
unfolding new_pending latest find_first
run_confirmed_example = run_confirmed first_id history (done ∷ []) done done-Follows refl refl
