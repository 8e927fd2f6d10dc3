-- ===== src/Demo/Notifications.antt =====
-- A notification for the concrete server, and the migration of its empty database.
use gradido_blockchain_conne.Json.{Json, str, obj, end, field}
use gradido_blockchain_conne.Listener
use gradido_blockchain_conne.Listener.Outcome.{Notified, IsSuccess, ReportedBy, handle-Notified}
use gradido_blockchain_conne.Base.{[], ℕ, ◌+◌, ◌==◌, if◌then◌else◌, ◌∷◌, ◌≡◌, refl}
use gradido_blockchain_conne.Exec.{ok, thrown, other, poco}
use gradido_blockchain_conne.Platform.{Reply, answer, fails}
use gradido_blockchain_conne.Migrations.{
  Connector, Database, migrate, existing_tables, create_missing, contains, last_schema_version,
}
use gradido_blockchain_conne.Migrations.Again.{Alike, checks, migrate_again}
use gradido_blockchain_conne.Demo.{demo_library, demo_outside, alice_state}

abbrev rejection : Json
rejection = obj (
    field "transactionBase64" (str "Bw==")
      (field "error" (str "invalid") (field "messageId" (str "0f") end)))

handle-Notified_example :
    Notified IsSuccess
      (ReportedBy demo_library demo_outside rejection)
      alice_state
      (Listener.handle demo_library demo_outside rejection alice_state)
handle-Notified_example = handle-Notified demo_library demo_outside rejection alice_state

-- A connector that counts its calls and refuses the one with the number `bad`.
abbrev refuses : ℕ → ℕ → Reply (Unit {0}) × ℕ
refuses bad n = (if n == bad then fails (other poco "refused") else answer tt, n + 1)

abbrev connector : ℕ → Connector
connector bad = record {
  Connections = ℕ;
  Session = Unit {0};
  get_connection = λ n. (ok tt, n);
  execute = λ session statement n. refuses bad n;
}

abbrev empty_database : Database ℕ
empty_database = record { tables = []; migrations = []; connections = 0 }

abbrev migrated : Database ℕ
migrated = record {
  tables = "migration" ∷ "user" ∷ "group" ∷ "user_backup" ∷ [];
  migrations = ("user", 1) ∷ ("group", 1) ∷ ("user_backup", 1) ∷ [];
  connections = 8;
}

first_migration : migrate (connector 9) empty_database ≡ (ok tt, migrated)
unfolding migrate existing_tables create_missing contains last_schema_version
first_migration = refl

-- The second migration is refused its second statement.
second_migration :
    migrate (connector 9) migrated
    ≡ (thrown (other poco "refused"), record migrated { connections = 10 })
unfolding migrate existing_tables create_missing contains last_schema_version
second_migration = refl

migrate_again_example :
    Alike (connector 9) migrated (migrate (connector 9) migrated) (checks (connector 9) migrated)
migrate_again_example = migrate_again (connector 9) empty_database migrated first_migration
