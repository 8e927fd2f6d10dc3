-- ===== src/Demo/Settings.antt =====
-- The settings of the concrete server, and its life.
use gradido_blockchain_conne.Base.{
  ◌++◌, zero, suc, ℕ, List, String, append, [], ◌∷◌, ◌≡◌, refl, some, str_eq, if◌then◌else◌, true,
  Option, false,
}
use gradido_blockchain_conne.ServerConfig.{
  Settings, load_keys, load_session, init_server_crypto, server_setup_type_from_string, unload,
}
use gradido_blockchain_conne.ServerConfig.Keys.{
  Passes, HasSize, server_key, private_key, init_server_crypto-Passes,
}
use gradido_blockchain_conne.Exec.{poco, other}
use gradido_blockchain_conne.Platform.{Reply, answer, fails}
use gradido_blockchain_conne.Migrations.{
  Statement, migrate, existing_tables, create_missing, contains, last_schema_version,
}
use gradido_blockchain_conne.ConnectionManager.{
  SessionPools, set_connections_from_config, get_connection,
}
use gradido_blockchain_conne.Routing.{create_request_handler}
use gradido_blockchain_conne.Server.{Request, serve, serve_all, handle_by, get_pending}
use gradido_blockchain_conne.Process.{Startup, Process, Ended, Exit, exit_ok, main}
use gradido_blockchain_conne.Process.Life.{OutcomeOf, main-Outcome}
use gradido_blockchain_conne.Demo.{World, alice_state, demo_library, demo_outside, demo_config}
use gradido_blockchain_conne.Demo.Serving.{creation_request}

abbrev bytes16 : List ℕ
bytes16 = 1 ∷ 2 ∷ 3 ∷ 4 ∷ 5 ∷ 6 ∷ 7 ∷ 8 ∷ 9 ∷ 10 ∷ 11 ∷ 12 ∷ 13 ∷ 14 ∷ 15 ∷ 16 ∷ []

abbrev zeros : ℕ → List ℕ
zeros zero = []
zeros (suc n) = 0 ∷ zeros n

-- A configuration with a private key, and the defaults otherwise.
abbrev settings : Settings
settings = record {
  get_string = λ name default. if str_eq name "crypto.jwt.private" then "0a" else default;
  get_int = λ name default. default;
  sodium_hex2bin = λ size text. some bytes16;
  hex_to_bin = λ text. some (zeros 64);
}

starts : (init_server_crypto settings demo_config).0 ≡ true
unfolding init_server_crypto server_setup_type_from_string
starts = refl

-- The key of crypto.jwt.private in the configuration that is shipped has 32 bytes, as an x25519 key;
-- with such a key the server does not start.
shipped_key_refused :
    (init_server_crypto (record settings { hex_to_bin = λ text. some (zeros 32) }) demo_config).0
    ≡ false
unfolding init_server_crypto server_setup_type_from_string
shipped_key_refused = refl

init_server_crypto-Passes_example :
    Passes
      (init_server_crypto settings demo_config)
      (HasSize 16 (server_key settings demo_config) × HasSize 64 (private_key settings demo_config))
      (load_session settings (load_keys settings demo_config))
      demo_config
init_server_crypto-Passes_example = init_server_crypto-Passes settings demo_config

-- A container of pools by their uri; a session is its connector and connection string.
abbrev find_pool : String → List (String × (String × String)) → Reply (String × String)
find_pool name [] = fails (other poco "Not found")
find_pool name ((uri, session) ∷ rest) =
    let later = find_pool name rest in if str_eq name uri then answer session else later

abbrev pool_uri : String → String → String
pool_uri key connection = append key (append ":///" connection)

abbrev pools : SessionPools
pools = record {
  Pools = List (String × (String × String));
  Session = String × String;
  mysql_key = "mysql";
  sqlite_key = "sqlite";
  to_string = λ n. "3306";
  uri = pool_uri;
  add =
      λ key connection least most old. answer ((pool_uri key connection, (key, connection)) ∷ old);
  Pool = String × String;
  World = List Statement;
  get_pool = find_pool;
  get = λ pool w. (answer pool, w);
}

-- The statements are recorded.
abbrev execute : String × String → Statement → List Statement → Reply (Unit {0}) × List Statement
execute session statement sent = (answer tt, sent ++ statement ∷ [])

abbrev start : Startup
start = record {
  mnemonic_word_lists = true;
  crypto_keys = answer tt;
  ssl_client_context = true;
  node_settings = answer tt;
}

-- One request, for the list of pending transactions.
abbrev requests : List Request
requests = (record creation_request { url_first_part = "/listPending" }) ∷ []

abbrev process : Process pools World
process = record {
  globals = demo_config;
  database = record {
    tables = [];
    migrations = [];
    connections = record {
      session_pool_names = "";
      session_pools = [];
      my_sqlite = false;
      world = [];
    };
  };
  state = alice_state;
}

abbrev exit_of : Ended pools World → Option Exit
exit_of Option.none = Option.none
exit_of (Option.some (e, freed, p)) = Option.some e

abbrev ended : Ended pools World
ended = main pools execute demo_library demo_outside false settings start requests process

-- The process ends well, and the key of the server is given back.
lives : exit_of ended ≡ some exit_ok
unfolding main init_server_crypto server_setup_type_from_string set_connections_from_config
    get_connection migrate existing_tables create_missing contains last_schema_version serve_all
    serve create_request_handler handle_by get_pending unload
lives = refl

main-Outcome_example :
    OutcomeOf pools execute demo_library demo_outside settings start requests process
      (main pools execute demo_library demo_outside false settings start requests process)
main-Outcome_example =
    main-Outcome pools execute demo_library demo_outside settings start requests process
