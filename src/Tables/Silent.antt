-- ===== src/Tables/Silent.antt =====
-- No load or save ends by an early return.
use gradido_blockchain_conne.Base.{ℕ, String, Option, none, some}
use gradido_blockchain_conne.Exec.Rules.{Silent, silent_rules}
use gradido_blockchain_conne.Access.Rules.{Silent-call}
use gradido_blockchain_conne.Platform.{Library, Outside, GroupRow, UserRow}
use gradido_blockchain_conne.Tables.{load_group, group_or_throw, load_user, user_or_throw}

module _ (L : Library) (O : Outside L) where
  Silent-group_or_throw :
      (alias : String) (row : Option GroupRow) → Silent (group_or_throw L O alias row)
  Silent-group_or_throw alias none = record { at = λ s. tt }
  Silent-group_or_throw alias (some row) = record { at = λ s. tt }

  pub load_group-Silent : (alias : String) → Silent (load_group L O alias)
  unfolding load_group
  load_group-Silent alias = search (silent_rules, Silent-call, Silent-group_or_throw)

  Silent-user_or_throw :
      (name : String) (row : Option UserRow) → Silent (user_or_throw L O name row)
  Silent-user_or_throw name none = record { at = λ s. tt }
  Silent-user_or_throw name (some row) = record { at = λ s. tt }

  pub load_user-Silent : (name : String) (group_id : ℕ) → Silent (load_user L O name group_id)
  unfolding load_user
  load_user-Silent name group_id = search (silent_rules, Silent-call, Silent-user_or_throw)
