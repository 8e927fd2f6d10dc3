-- ===== src/Tables.antt =====
-- src/model/table/: loading and saving rows. The SQL statements are calls of `Outside`.
-- An `int` group id is the 32 bits of the number; SQL and `uint64_t` see it with its sign extended.
pub mod Silent
use gradido_blockchain_conne.Base.{
  ℕ, ◌+◌, ◌%◌, String, append, Bool, Option, none, some, List, [], ◌∷◌, str_eq, ◌==◌, ltb,
  if◌then◌else◌,
}
use gradido_blockchain_conne.Exec.{Exec, row_not_found_exception, pure, throw, ◌>>=◌, ◌>>◌, ok}
use gradido_blockchain_conne.Platform.{Library, Outside, GroupRow, UserRow, BackupRow, call}

-- (int)id
abbrev pub to_int : ℕ → ℕ
to_int id = id % 4294967296

-- (uint64_t)id of an int
abbrev pub to_uint64 : ℕ → ℕ
to_uint64 id = if ltb id 2147483648 then id else id + 18446744069414584320

-- std::unordered_map::insert, of one pair and of a list of them, and find.
abbrev pub find_name : String → List (String × String) → Option String
find_name key [] = none
find_name key ((other, name) ∷ rest) =
    let later = find_name key rest in if str_eq other key then some name else later

abbrev insert_name : String × String → List (String × String) → List (String × String)
insert_name row names = elim (find_name row.0 names) [ none ↦ row ∷ names | some name ↦ names ]

abbrev pub insert_names : List (String × String) → List (String × String) → List (String × String)
insert_names [] names = names
insert_names (row ∷ rows) names = insert_names rows (insert_name row names)

module _ (L : Library) (O : Outside L) where
  abbrev group_or_throw : String → Option GroupRow → Exec O.W GroupRow
  group_or_throw alias (some row) = pure row
  group_or_throw alias none = throw (
      row_not_found_exception "couldn't load group" "group" (append "where groupAlias LIKE " alias))

  -- Group::load
  unfoldable pub load_group : String → Exec O.W GroupRow
  load_group alias = do row ← call (O.select_group alias); group_or_throw alias row

  -- Group::save
  unfoldable pub save_group : GroupRow → Exec O.W (Unit {0})
  save_group row =
      if row.id == 0
      then call (O.insert_group row.name row.alias row.description)
      else call (O.update_group row.id row.name row.description)

  abbrev user_or_throw : String → Option UserRow → Exec O.W UserRow
  user_or_throw name (some row) = pure row
  user_or_throw name none =
      throw (row_not_found_exception "couldn't load user" "user" (append "where name LIKE " name))

  -- User::load, with the group id as an int
  unfoldable pub load_user : String → ℕ → Exec O.W UserRow
  load_user name group_id = do
    row ← call (O.select_user name (to_uint64 group_id))
    user_or_throw name row

  -- User::loadUserNamesForPubkeys; a key that the map has keeps its first name.
  unfoldable pub load_user_names_for_pubkeys : List String → Exec O.W (List (String × String))
  load_user_names_for_pubkeys pubkeys_hex = do
    rows ← call (O.select_names pubkeys_hex)
    pure (insert_names rows [])

  -- User::save
  unfoldable pub save_user : UserRow → Exec O.W (Unit {0})
  save_user row = call (O.insert_user row)

  -- UserBackup::save
  unfoldable pub save_user_backup : BackupRow → Exec O.W (Unit {0})
  save_user_backup row = call (O.insert_backup row)

  -- BaseTable::getLastInsertId
  unfoldable pub get_last_insert_id : Exec O.W ℕ
  get_last_insert_id = call O.last_insert_id
