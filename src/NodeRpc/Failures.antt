-- ===== src/NodeRpc/Failures.antt =====
-- Which exceptions leave the requests to the Gradido Node.
use gradido_blockchain_conne.Base.{ℕ, String, ◌≡◌, refl}
use gradido_blockchain_conne.Json.{Fields}
use gradido_blockchain_conne.Exec.{
  Base, foreign, gradido, poco, runtime, standard, request_response_error, Exception, library,
  node_rpc_exception, Result, ok, returned, thrown, aborted, Exec, handle_thrown, try_catch,
}
use gradido_blockchain_conne.Exec.Rules.{Silent, NotReturned}
use gradido_blockchain_conne.Platform.{Library, Outside}
use gradido_blockchain_conne.Exceptions.{base_of}
use gradido_blockchain_conne.Access.Rules.{access_rules}
use gradido_blockchain_conne.NodeRpc.{
  request_member, normalised, handle_gradido_node_rpc_exception, get_address_balance,
  get_address_type, get_address_txids, get_creation_sum_for_month, put_transaction,
}

module _ (L : Library) (O : Outside L) where
  Silent-request_member :
      (method : String) (params : Fields) (a b c : String)
      → Silent (request_member L O method params a b c)
  unfolding request_member
  Silent-request_member method params a b c = search access_rules depth 12

  -- An exception that a caller of the node has to expect: an error response of the node, a
  -- GradidoNodeRPCException, or what derives neither from Poco's nor from the standard's class.
  pub data NodeFailure : Exception → Type 0 where
    error_response : (w : String) → NodeFailure (library request_response_error w)
    rpc_failure : (w details : String) → NodeFailure (node_rpc_exception w details)
    unknown_failure : (e : Exception) → base_of L e ≡ foreign → NodeFailure e

  abbrev pub Ends : {A : Type 0} → Result A → Type 0
  Ends (ok a) = Unit
  Ends (returned d) = ⊥
  Ends (thrown e) = NodeFailure e
  Ends aborted = Unit

  normalised-NodeFailure :
      (b : Base) (e : Exception) → base_of L e ≡ b → NodeFailure (normalised L O b e)
  unfolding normalised
  normalised-NodeFailure gradido e h = rpc_failure _ _
  normalised-NodeFailure poco e h = rpc_failure _ _
  normalised-NodeFailure runtime e h = rpc_failure _ _
  normalised-NodeFailure standard e h = rpc_failure _ _
  normalised-NodeFailure foreign e h = unknown_failure e h

  handled-NodeFailure :
      (A : Type 0) (e : Exception) (w : O.W)
      → Ends (handle_gradido_node_rpc_exception L O {A = A} e w).0
  unfolding handle_gradido_node_rpc_exception
  handled-NodeFailure A (library request_response_error t) w = error_response t
  handled-NodeFailure A (library c t) w = normalised-NodeFailure (base_of L (library c t)) _ refl
  handled-NodeFailure A e w = normalised-NodeFailure (base_of L e) e refl

  handle_thrown-Ends :
      {A : Type 0} (r : Result A × O.W)
      → NotReturned r.0
      → Ends (handle_thrown r (handle_gradido_node_rpc_exception L O)).0
  handle_thrown-Ends (ok a, w) n = tt
  handle_thrown-Ends (returned d, w) n = n
  handle_thrown-Ends {A} (thrown e, w) n = handled-NodeFailure A e w
  handle_thrown-Ends (aborted, w) n = tt

  record Guarded {A : Type 0} (m : Exec O.W A) : Type 0 where
    at : (w : O.W) → Ends (m w).0

  try_catch-Guarded :
      {A : Type 0} (m : Exec O.W A)
      → Silent m
      → Guarded (try_catch m (handle_gradido_node_rpc_exception L O))
  try_catch-Guarded m k = record { at = λ w. handle_thrown-Ends (m w) (k.at w) }

  ruleset request_rules = (access_rules, Silent-request_member, try_catch-Guarded)

  get_address_balance-Guarded : (a b c d : String) → Guarded (get_address_balance L O a b c d)
  unfolding get_address_balance
  get_address_balance-Guarded a b c d = search request_rules depth 8

  get_address_type-Guarded : (a b : String) → Guarded (get_address_type L O a b)
  unfolding get_address_type
  get_address_type-Guarded a b = search request_rules depth 8

  get_address_txids-Guarded : (a b : String) → Guarded (get_address_txids L O a b)
  unfolding get_address_txids
  get_address_txids-Guarded a b = search request_rules depth 8

  get_creation_sum-Guarded :
      (a : String) (m y : ℕ) (b c : String) → Guarded (get_creation_sum_for_month L O a m y b c)
  unfolding get_creation_sum_for_month
  get_creation_sum-Guarded a m y b c = search request_rules depth 8

  put_transaction-Guarded : (a : String) (n : ℕ) (b : String) → Guarded (put_transaction L O a n b)
  unfolding put_transaction
  put_transaction-Guarded a n b = search request_rules depth 8

  Ends-NotReturned : {A : Type 0} (r : Result A) → Ends r → NotReturned r
  Ends-NotReturned (ok a) h = tt
  Ends-NotReturned (returned d) h = h
  Ends-NotReturned (thrown e) h = tt
  Ends-NotReturned aborted h = tt

  Silent-Guarded : {A : Type 0} (m : Exec O.W A) → Guarded m → Silent m
  Silent-Guarded m g = record { at = λ w. Ends-NotReturned (m w).0 (g.at w) }

  pub get_address_balance-Silent : (a b c d : String) → Silent (get_address_balance L O a b c d)
  get_address_balance-Silent a b c d = Silent-Guarded _ (get_address_balance-Guarded a b c d)

  pub get_address_type-Silent : (a b : String) → Silent (get_address_type L O a b)
  get_address_type-Silent a b = Silent-Guarded _ (get_address_type-Guarded a b)

  pub get_address_txids-Silent : (a b : String) → Silent (get_address_txids L O a b)
  get_address_txids-Silent a b = Silent-Guarded _ (get_address_txids-Guarded a b)

  pub get_creation_sum-Silent :
      (a : String) (m y : ℕ) (b c : String) → Silent (get_creation_sum_for_month L O a m y b c)
  get_creation_sum-Silent a m y b c = Silent-Guarded _ (get_creation_sum-Guarded a m y b c)

  pub put_transaction-Silent :
      (a : String) (n : ℕ) (b : String) → Silent (put_transaction L O a n b)
  put_transaction-Silent a n b = Silent-Guarded _ (put_transaction-Guarded a n b)

  -- Whatever the node, the network and the parser do, each of the five requests answers, stops at
  -- an assertion, or throws an error response of the node, a GradidoNodeRPCException, or an
  -- exception of unknown class.
  pub requests_end :
      (pubkey_hex date_string group_alias coin_group_id : String) (month year nr : ℕ) (w : O.W)
      → Ends (get_address_balance L O pubkey_hex date_string group_alias coin_group_id w).0
        × Ends (get_address_type L O pubkey_hex group_alias w).0
        × Ends (get_address_txids L O pubkey_hex group_alias w).0
        × Ends (get_creation_sum_for_month L O pubkey_hex month year date_string group_alias w).0
        × Ends (put_transaction L O pubkey_hex nr group_alias w).0
  requests_end pubkey_hex date_string group_alias coin_group_id month year nr w = (
    (get_address_balance-Guarded pubkey_hex date_string group_alias coin_group_id).at w,
    (get_address_type-Guarded pubkey_hex group_alias).at w,
    (get_address_txids-Guarded pubkey_hex group_alias).at w,
    (get_creation_sum-Guarded pubkey_hex month year date_string group_alias).at w,
    (put_transaction-Guarded pubkey_hex nr group_alias).at w,
  )

pub ruleset node_rules = (
  get_address_balance-Silent, get_address_type-Silent, get_address_txids-Silent,
  get_creation_sum-Silent, put_transaction-Silent,
)
