-- ===== src/Migrations.antt =====
-- src/model/table/VersionsManager.cpp and Migration.cpp: bringing the schema of the database up to
-- date. Of the database this needs the names of its tables and the rows of `migrations`; the
-- statements that create a table, insert a row and select all rows act on these as SQL says, unless
-- they throw, and then do nothing. The part of CREATE TABLE that depends on the connector is left out.
pub mod Rounds
pub mod Again
use gradido_blockchain_conne.Base.{
  ℕ, String, Bool, true, false, not, List, [], ◌∷◌, ◌++◌, str_eq, ltb, if◌then◌else◌,
}
use gradido_blockchain_conne.Platform.{Reply, Call, answer, fails}
use gradido_blockchain_conne.Exec.{
  Exception, unknown_table_name_exception, missing_migration_exception, Exec, Result, ok, pure,
  throw, resume, ◌>>=◌, ◌>>◌, lift, thrown,
}

pub data Statement : Type 0 where
  create_table : String → Statement
  insert_migration : String → ℕ → Statement
  select_migrations : Statement

-- What the statements are sent with: ConnectionManager::getConnection, and `now` of a
-- Poco::Data::Statement, which may throw. `Connections` holds what both depend on.
pub record Connector : Type 1 where
  pub Connections : Type 0
  pub Session : Type 0
  pub get_connection : Exec Connections Session
  pub execute : Session → Statement → Call Connections (Unit {0})

pub record Database (W : Type 0) : Type 0 where
  pub tables : List String
  pub migrations : List (String × ℕ)
  pub connections : W

unfoldable pub contains : String → List String → Bool
contains name [] = false
contains name (x ∷ xs) = let rest = contains name xs in if str_eq x name then true else rest

-- What a statement that does not throw does to the database.
abbrev pub effect : {W : Type 0} → Statement → Database W → Database W
effect (create_table name) d =
    if contains name d.tables then d else record d { tables = d.tables ++ name ∷ [] }
effect (insert_migration name version) d = record d {
  migrations = d.migrations ++ (name, version) ∷ [];
}
effect select_migrations d = d

abbrev pub executed :
    {W : Type 0} → Statement → Database W → Reply (Unit {0}) × W → Result (Unit {0}) × Database W
executed statement d (answer u, w) = (ok tt, effect statement (record d { connections = w }))
executed statement d (fails e, w) = (thrown e, record d { connections = w })

-- factoryTable, with getLastSchemaVersion of the table
unfoldable pub last_schema_version : String → Result ℕ
last_schema_version name =
    if str_eq name "user"
    then ok 1
    else if str_eq name "group"
    then ok 1
    else if str_eq name "user_backup"
    then ok 1
    else thrown (unknown_table_name_exception "unknown tableName" name)

abbrev pub required_tables : List String
required_tables = "user" ∷ "group" ∷ "user_backup" ∷ []

module _ (C : Connector) where
  abbrev pub Db : Type 0
  Db = Database C.Connections

  abbrev pub connect : Exec Db C.Session
  connect d = (
    (C.get_connection d.connections).0,
    record d { connections = (C.get_connection d.connections).1 },
  )

  abbrev pub run_statement : C.Session → Statement → Exec Db (Unit {0})
  run_statement session statement d =
      executed statement d (C.execute session statement d.connections)

  abbrev pub create_table_if_not_exist : C.Session → String → Exec Db (Unit {0})
  create_table_if_not_exist session name = run_statement session (create_table name)

  -- Migration::save
  abbrev pub save_migration : C.Session → String → ℕ → Exec Db (Unit {0})
  save_migration session name version = run_statement session (insert_migration name version)

  abbrev pub all_rows : Exec Db (List (String × ℕ))
  all_rows d = (ok d.migrations, d)

  -- Migration::loadAll, over a connection of its own
  abbrev pub load_all : Exec Db (List (String × ℕ))
  load_all = connect >>= λ session. run_statement session select_migrations >> all_rows

  -- The loop over the migrations: the names of the tables that exist.
  unfoldable pub existing_tables : List (String × ℕ) → Exec Db (List String)
  existing_tables [] = pure []
  existing_tables ((name, version) ∷ rest) = do
    last ← lift (last_schema_version name)
    (if ltb version last
        then throw (missing_migration_exception "migration missing" name version)
        else pure tt)
    names ← existing_tables rest
    pure (name ∷ names)

  -- The loop over the required tables.
  unfoldable pub create_missing : C.Session → List String → List String → Exec Db (Unit {0})
  create_missing session existing [] = pure tt
  create_missing session existing (name ∷ names) = do
    (if contains name existing then pure tt else (do
      last ← lift (last_schema_version name)
      create_table_if_not_exist session name
      save_migration session name last))
    create_missing session existing names

  unfoldable pub migrate : Exec Db (Unit {0})
  unfolding existing_tables create_missing
  migrate = do
    session ← connect
    create_table_if_not_exist session "migration"
    rows ← load_all
    existing ← existing_tables rows
    create_missing session existing required_tables
