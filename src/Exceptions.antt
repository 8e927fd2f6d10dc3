-- ===== src/Exceptions.antt =====
-- The exception classes of the program: their base, as a `catch` sees it, and `getFullString`.
use gradido_blockchain_conne.Base.{ℕ, String, append, nonempty, if◌then◌else◌}
use gradido_blockchain_conne.Exec.{
  Base, gradido, Exception, library, other, login_exception, session_exception, node_rpc_exception,
  apollo_decay_exception, row_not_found_exception, invalid_password_exception, rate_limit_exception,
  missing_key, missing_key_exception, unknown_table_name_exception, missing_migration_exception,
}
use gradido_blockchain_conne.Platform.{Library}

-- getFullString of each class, from `what()` and the members.
abbrev pub login_full_string : String → String → String → String
login_full_string w user ip = append (append (append w (append ", user: " user)) " with ip: ") ip

abbrev pub session_full_string : String → String → String
session_full_string w user = append w (append ", user: " user)

abbrev pub node_rpc_full_string : String → String → String
node_rpc_full_string w details =
    if nonempty details then append w (append ", details: " details) else w

abbrev pub apollo_decay_full_string : String → String → String → String
apollo_decay_full_string w balance decay =
    append (append w (append ", startBalance: " balance)) (append ", decay: " decay)

abbrev pub row_not_found_full_string : String → String → String → String
row_not_found_full_string w table condition =
    append (append w (append ", table: " table)) (append ", condition: " condition)

abbrev pub unknown_table_name_full_string : String → String → String
unknown_table_name_full_string w table = append w (append ", table name: " table)

module _ (L : Library) where
  -- Every class that the program declares derives from GradidoBlockchainException.
  unfoldable pub base_of : Exception → Base
  base_of (library c w) = L.base c
  base_of (other b w) = b
  base_of (login_exception w user ip) = gradido
  base_of (session_exception w user) = gradido
  base_of (node_rpc_exception w details) = gradido
  base_of (apollo_decay_exception w balance decay) = gradido
  base_of (row_not_found_exception w table condition) = gradido
  base_of (invalid_password_exception w user size) = gradido
  base_of (rate_limit_exception w) = gradido
  base_of (missing_key_exception w key) = L.base missing_key
  base_of (unknown_table_name_exception w table) = gradido
  base_of (missing_migration_exception w table version) = gradido

  abbrev pub invalid_password_full_string : String → String → ℕ → String
  invalid_password_full_string w user size =
      append (append w (append ", username: " user)) (append ", password size: " (L.to_string size))

  abbrev pub missing_migration_full_string : String → String → ℕ → String
  missing_migration_full_string w table version =
      append (append w (append ", table name: " table)) (append ", version: " (L.to_string version))

  unfoldable pub full_string : Exception → String
  full_string (library c w) = L.library_full_string c w
  full_string (other b w) = L.other_full_string b w
  full_string (login_exception w user ip) = login_full_string w user ip
  full_string (session_exception w user) = session_full_string w user
  full_string (node_rpc_exception w details) = node_rpc_full_string w details
  full_string (apollo_decay_exception w balance decay) = apollo_decay_full_string w balance decay
  full_string (row_not_found_exception w table condition) =
      row_not_found_full_string w table condition
  full_string (invalid_password_exception w user size) = invalid_password_full_string w user size
  full_string (rate_limit_exception w) = w
  full_string (missing_key_exception w key) = L.missing_key_full_string w key
  full_string (unknown_table_name_exception w table) = unknown_table_name_full_string w table
  full_string (missing_migration_exception w table version) =
      missing_migration_full_string w table version
