-- ===== src/Pack/Quiet.antt =====
-- src/JSONInterface/JsonPackTransaction.cpp: the calls end early only with an error.
use gradido_blockchain_conne.Base.{String, Bool, true, false, Option, none, some}
use gradido_blockchain_conne.Json.{Json, str}
use gradido_blockchain_conne.Exec.{Exception}
use gradido_blockchain_conne.Exec.Quiet.{
  Quiet, nothing, quiet_rules, Quiet-Silent, Quiet-if, Quiet-error, Quiet-throw, Quiet-pure,
  Quiet-bind,
}
use gradido_blockchain_conne.Access.Rules.{Silent-member}
use gradido_blockchain_conne.Platform.{Library}
use gradido_blockchain_conne.Transaction.Reading.{or_return-Quiet, reply-Quiet}
use gradido_blockchain_conne.Pack.{poco_error, coin_group_id_of, read_coin_group_id, validated}

module _ (L : Library) {S : Type 0} where
  pub poco_error-Quiet :
      {A : Type 0} (message : String) (e : Exception)
      → Quiet nothing (poco_error L {S = S} {A = A} message e)
  poco_error-Quiet message e = Quiet-if _ _ _ _ (Quiet-error _ _ _) (Quiet-throw _ e)

  pub coin_group_id_of-Quiet : (o : Option Json) → Quiet nothing (coin_group_id_of L {S = S} o)
  coin_group_id_of-Quiet none = Quiet-pure _ ""
  coin_group_id_of-Quiet (some (str t)) = Quiet-pure _ t
  coin_group_id_of-Quiet (some j) = Quiet-throw _ _

  pub read_coin_group_id-Quiet :
      (params : Json) → Quiet nothing (read_coin_group_id L {S = S} params)
  unfolding read_coin_group_id
  read_coin_group_id-Quiet params =
      Quiet-bind _ _ _ (Quiet-Silent _ (Silent-member "coinGroupId" params)) coin_group_id_of-Quiet

  pub validated-Quiet : (b : Bool) (tx : L.Tx) → Quiet nothing (validated L {S = S} b tx)
  validated-Quiet true tx = Quiet-pure _ tt
  validated-Quiet false tx = search (quiet_rules, reply-Quiet) depth 6

pub ruleset pack_rules = (
  quiet_rules, reply-Quiet, or_return-Quiet, poco_error-Quiet, read_coin_group_id-Quiet,
  validated-Quiet,
)
