-- ===== src/Pending/History.antt =====
-- The list over a history: transactions sent, and verdicts that the Gradido Node notifies.
use gradido_blockchain_conne.Base.{
  ℕ, suc, ◌+◌, ◌≤◌, String, ◌≡◌, ◌≢◌, refl, ◌∙◌, Bool, true, false, ◌&&◌, ◌||◌, not, Option, none,
  some, List, [], ◌∷◌, ◌++◌, arith, if◌then◌else◌, length, All, All-append, All-drop, length-append,
}
use gradido_blockchain_conne.Pending.{
  PendingTransaction, State, sended, confirmed, rejected, list_eq, settle, push_new_transaction,
  update_transaction,
}
use gradido_blockchain_conne.Pending.Window.{push-take_last, length-push, push_below}
use gradido_blockchain_conne.Pending.Latest.{
  IsMessageId, HasMessageId, list_eq_iff, latest, latest-append, altered, altered-HasMessageId,
  update_transaction-altered, length-altered, latest-altered,
}

pub data Event : Type 0 where
  sends : PendingTransaction → Event
  notifies : List ℕ → Bool → String → Event

unfoldable pub step : Event → List PendingTransaction → Option (List PendingTransaction)
step (sends e) p = some (push_new_transaction e p)
step (notifies id accepted message) p = update_transaction id accepted message p

unfoldable pub run : List Event → List PendingTransaction → Option (List PendingTransaction)
run [] p = some p
run (v ∷ vs) p = elim (step v p) [ none ↦ none | some q ↦ run vs q ]

-- All ids of a history are message ids.
abbrev pub IsProper : List Event → Type 0
IsProper [] = Unit
IsProper (sends e ∷ vs) = HasMessageId e × IsProper vs
IsProper (notifies id accepted message ∷ vs) = IsMessageId id × IsProper vs

pub record IsValid (p : List PendingTransaction) : Type 0 where
  pub bounded : length p ≤ 100
  pub proper : All HasMessageId p

push-IsValid :
    (e : PendingTransaction) (p : List PendingTransaction)
    → HasMessageId e
    → IsValid p
    → IsValid (push_new_transaction e p)
push-IsValid e p h v = record {
  bounded = length-push e p;
  proper =
      rw (push-take_last e p) (
        All-drop HasMessageId _ (p ++ e ∷ [])
          (All-append HasMessageId p (e ∷ []) v.proper (h, tt)));
}

altered-IsValid :
    (id : List ℕ) (accepted : Bool) (message : String) (p : List PendingTransaction)
    → IsValid p
    → IsValid (altered id accepted message p)
altered-IsValid id accepted message p v = record {
  bounded = rw (length-altered id accepted message p) v.bounded;
  proper = altered-HasMessageId id accepted message p v.proper;
}

-- From a list within its bound whose ids are message ids, a history of message ids runs to its end,
-- with no read out of bounds, and leaves such a list.
pub run-IsValid :
    (vs : List Event) (p : List PendingTransaction)
    → IsProper vs
    → IsValid p
    → (q : List PendingTransaction) × (run vs p ≡ some q) × IsValid q
unfolding run step
run-IsValid [] p h v = (p, refl, v)
run-IsValid (sends e ∷ vs) p h v =
    run-IsValid vs (push_new_transaction e p) h.1 (push-IsValid e p h.0 v)
run-IsValid (notifies id accepted message ∷ vs) p h v =
    let (q, ran, valid) =
      run-IsValid vs (altered id accepted message p) h.1
        (altered-IsValid id accepted message p v) in
    (q, rw (update_transaction-altered id accepted message p h.0 v.proper, run) ran, valid)

-- Whether a history confirms a message id, and whether it rejects one.
unfoldable pub confirms : List ℕ → List Event → Bool
confirms id [] = false
confirms id (sends e ∷ vs) = confirms id vs
confirms id (notifies j accepted message ∷ vs) = (list_eq j id && accepted) || confirms id vs

unfoldable pub rejects : List ℕ → List Event → Bool
rejects id [] = false
rejects id (sends e ∷ vs) = rejects id vs
rejects id (notifies j accepted message ∷ vs) = (list_eq j id && not accepted) || rejects id vs

-- The state that the verdicts of a history leave behind, whatever their order.
unfoldable pub verdict : List ℕ → List Event → State → State
verdict id vs confirmed = confirmed
verdict id vs sended =
    if confirms id vs then confirmed else if rejects id vs then rejected else sended
verdict id vs rejected = if confirms id vs then confirmed else rejected

-- The history sends no transaction under this id.
abbrev pub SendsOther : List ℕ → List Event → Type 0
SendsOther id [] = Unit
SendsOther id (sends e ∷ vs) = (e.iota_message_id ≢ id) × SendsOther id vs
SendsOther id (notifies j accepted message ∷ vs) = SendsOther id vs

abbrev pub sent : List Event → ℕ
sent [] = 0
sent (sends e ∷ vs) = suc (sent vs)
sent (notifies j accepted message ∷ vs) = sent vs

abbrev pub settled : List ℕ → Event → PendingTransaction → PendingTransaction
settled id (sends x) e = e
settled id (notifies j accepted message) e = if list_eq j id then settle accepted message e else e

verdict-settled :
    (id : List ℕ) (v : Event) (vs : List Event) (e : PendingTransaction)
    → verdict id vs (settled id v e).state ≡ verdict id (v ∷ vs) e.state
unfolding verdict confirms rejects
verdict-settled id (sends x) vs e = ground arith
verdict-settled id (notifies j true message) vs e = ground arith
verdict-settled id (notifies j false message) vs e = ground arith

abbrev pub settled_all : List ℕ → List Event → PendingTransaction → PendingTransaction
settled_all id [] e = e
settled_all id (v ∷ vs) e = settled_all id vs (settled id v e)

settled_all-verdict :
    (id : List ℕ) (vs : List Event) (e : PendingTransaction)
    → (settled_all id vs e).state ≡ verdict id vs e.state
unfolding verdict confirms rejects
settled_all-verdict id [] e = ground arith
settled_all-verdict id (v ∷ vs) e =
    settled_all-verdict id vs (settled id v e) ∙ verdict-settled id v vs e

settled-confirmed :
    (id : List ℕ) (v : Event) (e : PendingTransaction) → e.state ≡ confirmed → settled id v e ≡ e
settled-confirmed id (sends x) e h = refl
settled-confirmed id (notifies j accepted message) e h = ground arith

settled_all-confirmed :
    (id : List ℕ) (vs : List Event) (e : PendingTransaction)
    → e.state ≡ confirmed
    → settled_all id vs e ≡ e
settled_all-confirmed id [] e h = refl
settled_all-confirmed id (v ∷ vs) e h =
    rw (settled-confirmed id v e h) (settled_all-confirmed id vs e h)

latest-push :
    (id : List ℕ) (e : PendingTransaction) (p : List PendingTransaction)
    → suc (length p) ≤ 100
    → e.iota_message_id ≢ id
    → latest id (push_new_transaction e p) ≡ latest id p
latest-push id e p room other =
    rw (push_below e p room, latest-append id p e)
      (ground (arith, list_eq_iff e.iota_message_id id))

-- The facts under which an id keeps its entry: it is a message id, the history sends no other
-- transaction under it, and the list has room for all that the history sends.
pub record Follows (id : List ℕ) (vs : List Event) (p : List PendingTransaction) : Type 0 where
  pub message_ids : IsProper vs
  pub entry_ids : All HasMessageId p
  pub others : SendsOther id vs
  pub room : length p + sent vs ≤ 100

run-latest :
    (id : List ℕ) (vs : List Event) (p : List PendingTransaction) (e : PendingTransaction)
    → Follows id vs p
    → latest id p ≡ some e
    → (q : List PendingTransaction) × (run vs p ≡ some q)
      × (latest id q ≡ some (settled_all id vs e))
unfolding run step
run-latest id [] p e f at = (p, refl, at)
run-latest id (sends x ∷ vs) p e f at =
    let room : suc (length p) ≤ 100 = omega (arith, f.room) in
    let stays = latest-push id x p room f.others.0 in
    run-latest id vs (push_new_transaction x p) e
      (record {
        message_ids = f.message_ids.1;
        entry_ids =
            rw (push_below x p room)
              (All-append HasMessageId p (x ∷ []) f.entry_ids (f.message_ids.0, tt));
        others = f.others.1;
        room = rw (push_below x p room) (omega (arith, f.room, length-append {0} p (x ∷ [])));
      })
      (stays ∙ at)
run-latest id (notifies j accepted message ∷ vs) p e f at =
    let (q, ran, there) =
      run-latest id vs (altered j accepted message p) (settled id (notifies j accepted message) e)
        (record {
          message_ids = f.message_ids.1;
          entry_ids = altered-HasMessageId j accepted message p f.entry_ids;
          others = f.others;
          room = omega (arith, f.room, length-altered j accepted message p);
        })
        (rw (latest-altered j accepted message id p, at) (ground arith)) in
    (
      q,
      rw (update_transaction-altered j accepted message p f.message_ids.0 f.entry_ids, run) ran,
      there,
    )

-- Over a history of message ids that sends nothing else under `id` and for which the list has room,
-- the entry of `id` ends in the state that the verdicts give: confirmed if one of them confirms it, otherwise
-- rejected if one rejects it, whatever their order.
pub run-verdict :
    (id : List ℕ) (vs : List Event) (p : List PendingTransaction) (e : PendingTransaction)
    → Follows id vs p
    → latest id p ≡ some e
    → (q : List PendingTransaction) × (e' : PendingTransaction) × (run vs p ≡ some q)
      × (latest id q ≡ some e')
      × (e'.state ≡ verdict id vs e.state)
run-verdict id vs p e f at =
    let (q, ran, there) = run-latest id vs p e f at in
    (q, settled_all id vs e, ran, there, settled_all-verdict id vs e)

-- Over a history of message ids that sends nothing else under `id` and for which the list has room,
-- an entry of `id` that is confirmed is not changed again, its error message included.
pub run_confirmed :
    (id : List ℕ) (vs : List Event) (p : List PendingTransaction) (e : PendingTransaction)
    → Follows id vs p
    → latest id p ≡ some e
    → e.state ≡ confirmed
    → (q : List PendingTransaction) × (run vs p ≡ some q) × (latest id q ≡ some e)
run_confirmed id vs p e f at h =
    let (q, ran, there) = run-latest id vs p e f at in
    (q, ran, rw (settled_all-confirmed id vs e h) at there)
