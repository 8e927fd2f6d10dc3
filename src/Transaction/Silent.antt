-- ===== src/Transaction/Silent.antt =====
-- src/JSONInterface/JsonTransaction.cpp: what comes before the sending never returns a response.
use gradido_blockchain_conne.Base.{true, ℕ, String, Option, none, some, List}
use gradido_blockchain_conne.Exec.{Exec}
use gradido_blockchain_conne.Exec.Rules.{Silent, Silent-pure, Silent-throw}
use gradido_blockchain_conne.Access.Rules.{access_rules, Silent-reply}
use gradido_blockchain_conne.Platform.{Library, Outside}
use gradido_blockchain_conne.NodeRpc.Failures.{node_rules}
use gradido_blockchain_conne.Session.Silent.{sign_transaction-Silent}
use gradido_blockchain_conne.Transaction.{
  JsonTransaction, number_or, compare_decay, compare_if, validate_apollo_decay, signed_or_throw,
  prepare, hand_on,
}

module _ (L : Library) (O : Outside L) where
  number_or-Silent :
      {S : Type 0} (o : Option L.Number) (m : Exec S L.Number)
      → Silent m
      → Silent (number_or L O o m)
  number_or-Silent (some n) m k = Silent-pure n
  number_or-Silent none m k = k

  signed_or_throw-Silent : {S : Type 0} (o : Option L.Tx) → Silent (signed_or_throw L O {S = S} o)
  signed_or_throw-Silent (some tx) = Silent-pure tx
  signed_or_throw-Silent none = Silent-throw _

  ruleset decay_rules = (access_rules, node_rules, number_or-Silent, Silent-reply)

  compare_decay-Silent :
      (t : JsonTransaction L) (pubkey_hex : String) → Silent (compare_decay L O t pubkey_hex)
  unfolding compare_decay
  compare_decay-Silent t pubkey_hex = search decay_rules depth 12

  compare_if-Silent : (t : JsonTransaction L) (o : Option (List ℕ)) → Silent (compare_if L O t o)
  compare_if-Silent t (some key) = compare_decay-Silent t (L.bin_to_hex key)
  compare_if-Silent t none = Silent-pure true

  validate_apollo_decay-Silent :
      (t : JsonTransaction L) (tx : L.Tx) → Silent (validate_apollo_decay L O t tx)
  unfolding validate_apollo_decay
  validate_apollo_decay-Silent t tx = compare_if-Silent t _

  pub prepare-Silent :
      (t : JsonTransaction L) (tx : L.Tx) (group_alias : String)
      → Silent (prepare L O t tx group_alias)
  unfolding prepare
  prepare-Silent t tx group_alias =
      search
        (decay_rules, signed_or_throw-Silent, sign_transaction-Silent, validate_apollo_decay-Silent)
        depth 14

  pub hand_on-Silent :
      (t : JsonTransaction L) (tx : L.Tx) (group_alias : String)
      → Silent (hand_on L O t tx group_alias)
  unfolding hand_on
  hand_on-Silent t tx group_alias = search decay_rules depth 12
