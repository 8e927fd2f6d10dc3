-- ===== src/ListTransactions/Quiet.antt =====
-- src/JSONInterface/JsonListTransactions.cpp: the handler returns early only with an error.
use gradido_blockchain_conne.Base.{ℕ, String, Option, none, some, List, [], ◌∷◌}
use gradido_blockchain_conne.Json.{Json, Fields}
use gradido_blockchain_conne.Exec.{Base, gradido, Exception}
use gradido_blockchain_conne.Exec.Quiet.{
  Quiet, nothing, quiet_rules, Quiet-bind, Quiet-pure, Quiet-error, Quiet-throw, Quiet-Silent,
}
use gradido_blockchain_conne.Access.Rules.{
  Silent-call, Silent-member, Silent-string_of, Silent-array_of, Silent-fields_of,
}
use gradido_blockchain_conne.Platform.{Library, Outside}
use gradido_blockchain_conne.ServerConfig.{ServerConfig}
use gradido_blockchain_conne.SessionManager.Silent.{get_session-Silent}
use gradido_blockchain_conne.Tables.{load_user_names_for_pubkeys}
use gradido_blockchain_conne.Transaction.{decrypt_memo}
use gradido_blockchain_conne.Transaction.Reading.{reply-Quiet, deref-Quiet}
use gradido_blockchain_conne.ListTransactions.{
  add_pubkey, linked_pubkey, collect_pubkeys, swap_first_name, replace_user, clear_memo, show_memo,
  show_transaction, show_transactions, node_failed, with_names, show_list, list_transactions,
}

ruleset json_rules = (
  quiet_rules, Quiet-Silent, Silent-call, Silent-member, Silent-string_of, Silent-array_of,
  Silent-fields_of, reply-Quiet, deref-Quiet,
)

module _ {S : Type 0} where
  linked_pubkey-Quiet : (t : Json) → Quiet nothing (linked_pubkey {S = S} t)
  unfolding linked_pubkey
  linked_pubkey-Quiet t = search json_rules depth 12

  pub collect_pubkeys-Quiet :
      (ts : List Json) (pubkeys : List String) → Quiet nothing (collect_pubkeys {S = S} pubkeys ts)
  unfolding collect_pubkeys
  collect_pubkeys-Quiet [] pubkeys = Quiet-pure _ pubkeys
  collect_pubkeys-Quiet (t ∷ ts) pubkeys =
      Quiet-bind _ _ _ (linked_pubkey-Quiet t)
        (λ key. collect_pubkeys-Quiet ts (add_pubkey key pubkeys))

module _ (L : Library) {S : Type 0} where
  swap_first_name-Quiet :
      (type_id : Option Json) (name : String) (linked : Fields)
      → Quiet nothing (swap_first_name L {S = S} type_id name linked)
  swap_first_name-Quiet none name linked = search json_rules depth 6
  swap_first_name-Quiet (some j) name linked = search json_rules depth 6

  replace_user-Quiet :
      (o : Option String) (type_id : Option Json) (linked : Fields)
      → Quiet nothing (replace_user L {S = S} o type_id linked)
  replace_user-Quiet none type_id linked = search json_rules depth 6
  replace_user-Quiet (some name) type_id linked = swap_first_name-Quiet type_id name linked

  clear_memo-Quiet :
      (o : Option (List ℕ)) (memo : String) (key : L.Key) (fields : Fields)
      → Quiet nothing (clear_memo L {S = S} o memo key fields)
  unfolding decrypt_memo
  clear_memo-Quiet none memo key fields = search json_rules depth 6
  clear_memo-Quiet (some pubkey) memo key fields = search json_rules depth 8

  show_memo-Quiet :
      (m t : Option Json) (pubkey : String) (key : L.Key) (fields : Fields)
      → Quiet nothing (show_memo L {S = S} m t pubkey key fields)
  unfolding show_memo
  show_memo-Quiet none t pubkey key fields = search json_rules depth 6
  show_memo-Quiet (some m) none pubkey key fields = search json_rules depth 6
  show_memo-Quiet (some m) (some t) pubkey key fields =
      search (json_rules, clear_memo-Quiet) depth 10

  show_transaction-Quiet :
      (names : List (String × String)) (key : L.Key) (t : Json)
      → Quiet nothing (show_transaction L {S = S} names key t)
  unfolding show_transaction
  show_transaction-Quiet names key t =
      search (json_rules, linked_pubkey-Quiet, replace_user-Quiet, show_memo-Quiet) depth 14

  pub show_transactions-Quiet :
      (names : List (String × String)) (key : L.Key) (ts : List Json)
      → Quiet nothing (show_transactions L {S = S} names key ts)
  unfolding show_transactions
  show_transactions-Quiet names key [] = Quiet-pure _ []
  show_transactions-Quiet names key (t ∷ ts) =
      Quiet-bind _ _ _ (show_transaction-Quiet names key t) (λ shown.
        Quiet-bind _ _ _ (show_transactions-Quiet names key ts)
          (λ others. Quiet-pure _ (shown ∷ others)))

module _ (L : Library) (O : Outside L) (C : ServerConfig) where
  node_failed-Quiet :
      {A : Type 0} (b : Base) (e : Exception) → Quiet nothing (node_failed L O C {A = A} b e)
  node_failed-Quiet gradido e = Quiet-error _ _ _
  node_failed-Quiet b e = Quiet-throw _ e

  with_names-Quiet :
      (pubkeys : List String) (key : L.Key) (ts : List Json)
      → Quiet nothing (with_names L O C pubkeys key ts)
  unfolding with_names load_user_names_for_pubkeys
  with_names-Quiet [] key ts = Quiet-pure _ ts
  with_names-Quiet (pubkey ∷ pubkeys) key ts = search (json_rules, show_transactions-Quiet) depth 8

  pub show_list-Quiet :
      (key : L.Key) (answered : Json) → Quiet nothing (show_list L O C key answered)
  unfolding show_list
  show_list-Quiet key answered =
      search (json_rules, collect_pubkeys-Quiet, with_names-Quiet) depth 14

  pub list_transactions-Quiet :
      (jwt client_ip : String) (params : Json)
      → Quiet nothing (list_transactions L O C jwt client_ip params)
  unfolding list_transactions
  list_transactions-Quiet jwt client_ip params =
      search (json_rules, get_session-Silent, node_failed-Quiet, show_list-Quiet) depth 14
