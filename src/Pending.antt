-- ===== src/Pending.antt =====
-- src/model/PendingTransactions.h and .cpp: the transactions sent and not yet settled.
-- The list is in the order of `mPendingTransactions`, oldest first. A message id is its bytes.
-- The methods hold `mWorkMutex` from their first statement to their last, so each is one step.
-- `none` is a read behind the end of a string, which the program does not rule out.
pub mod Window
pub mod Latest
pub mod History
pub mod Sizes
mod Tests
use mathlib.Core.Option
use gradido_blockchain_conne.Base.{
  ℕ, ◌/◌, suc, String, Bool, true, false, ◌&&◌, Option, none, some, List, [], ◌∷◌, ◌++◌, map,
  reverse, leb, ltb, ◌==◌, if◌then◌else◌, length, take,
}
use gradido_blockchain_conne.Json.{Json}

pub data State : Type 0 where
  sended confirmed rejected : State

pub record PendingTransaction : Type 0 where
  pub iota_message_id : List ℕ
  pub transaction_type : ℕ
  pub created : ℕ
  pub state : State
  pub error_message : String
  pub apollo_created_decay : String
  pub apollo_decay_start : ℕ
  pub apollo_transaction_id : ℕ

-- The constructor; `now` is what the default constructor of `created` reads from the clock.
unfoldable pub new_pending : List ℕ → ℕ → String → ℕ → ℕ → ℕ → PendingTransaction
new_pending id type decay start transaction_id now = record {
  iota_message_id = id;
  transaction_type = type;
  created = now;
  state = sended;
  error_message = "";
  apollo_created_decay = decay;
  apollo_decay_start = start;
  apollo_transaction_id = transaction_id;
}

abbrev pub state_to_string : State → String
state_to_string sended = "sended"
state_to_string confirmed = "confirmed"
state_to_string rejected = "rejected"

abbrev pub max_pending_transactions_in_list : ℕ
max_pending_transactions_in_list = 100

-- while (size() > MAX) pop_front()
abbrev pop_surplus {ℓ} : {A : Type ℓ} → List A → List A
pop_surplus [] = []
pop_surplus (x ∷ xs) =
    let rest = pop_surplus xs in
    if ltb max_pending_transactions_in_list (suc (length xs)) then rest else x ∷ xs

unfoldable pub push_new_transaction :
    PendingTransaction → List PendingTransaction → List PendingTransaction
push_new_transaction e p = pop_surplus (p ++ e ∷ [])

abbrev pub list_eq : List ℕ → List ℕ → Bool
list_eq [] [] = true
list_eq [] (y ∷ ys) = false
list_eq (x ∷ xs) [] = false
list_eq (x ∷ xs) (y ∷ ys) = x == y && list_eq xs ys

-- memcmp(a.data(), b.data(), 64) == 0; a string's data end with one byte 0.
unfoldable pub same_id : List ℕ → List ℕ → Option Bool
same_id a b =
    if leb 63 (length a) && leb 63 (length b)
    then some (list_eq (take 64 (a ++ 0 ∷ [])) (take 64 (b ++ 0 ∷ [])))
    else none

-- The body of the loop at the entry that is found.
abbrev pub settle : Bool → String → PendingTransaction → PendingTransaction
settle accepted message e = elim e.state [
  | confirmed ↦ e
  | _ ↦ record e { state = if accepted then confirmed else rejected; error_message = message }
]

-- The loop from rbegin() to rend(), on the entries newest first.
update_newest_first :
    List ℕ → Bool → String → List PendingTransaction → Option (List PendingTransaction)
update_newest_first id accepted message [] = some []
update_newest_first id accepted message (e ∷ older) =
    let rest = update_newest_first id accepted message older in
    elim (same_id e.iota_message_id id) [
      | none ↦ none
      | some true ↦ some (settle accepted message e ∷ older)
      | some false ↦ Option.map (◌∷◌ e) rest
    ]

pub update_transaction :
    List ℕ → Bool → String → List PendingTransaction → Option (List PendingTransaction)
update_transaction id accepted message p =
    Option.map reverse (update_newest_first id accepted message (reverse p))

-- One entry of the answer, with the members that the program adds; times are in microseconds.
pub record ListEntry : Type 0 where
  pub message_id : List ℕ
  pub type_string : String
  pub created_ms : ℕ
  pub state_string : String
  pub error : String

pub list_entry : (ℕ → String) → PendingTransaction → ListEntry
list_entry type_string e = record {
  message_id = e.iota_message_id;
  type_string = type_string e.transaction_type;
  created_ms = e.created / 1000;
  state_string = state_to_string e.state;
  error = e.error_message;
}

-- `type_string` is TransactionBase::getTransactionTypeString of gradido_blockchain.
pub list_as_json : (ℕ → String) → List PendingTransaction → List ListEntry
list_as_json type_string p = map (list_entry type_string) (reverse p)
