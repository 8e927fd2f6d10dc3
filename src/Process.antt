-- ===== src/Process.antt =====
-- src/GradidoBlockchainConnector.cpp: the life of the process, from the configuration over the
-- requests to its end. Loggers and sockets are left out.
pub mod Life
use gradido_blockchain_conne.Base.{
  ℕ, Bool, true, false, Option, none, some, List, [], if◌then◌else◌,
}
use gradido_blockchain_conne.Exec.{Exception, Result, ok, returned, thrown, aborted}
use gradido_blockchain_conne.Platform.{Library, Outside, State, Reply, Call, answer, fails}
use gradido_blockchain_conne.ServerConfig.{ServerConfig, Settings, init_server_crypto, unload}
use gradido_blockchain_conne.ConnectionManager.{
  SessionPools, ConnectionManager, set_connections_from_config, get_connection,
}
use gradido_blockchain_conne.Migrations.{Statement, Connector, Database, migrate}
use gradido_blockchain_conne.Server.{Request, serve_all}

-- How `main` ends: with a code of Poco's Application, or with an exception.
pub data Exit : Type 0 where
  exit_ok exit_config : Exit
  escaped : Exception → Exit

-- What the calls of the libraries give at the start: loadMnemonicWordLists, loadCryptoKeys, which
-- may throw, whether Poco makes the context of initSSLClientContext, and the settings for iota, the
-- node and insecure requests, which the libraries read and which may throw.
pub record Startup : Type 0 where
  pub mnemonic_word_lists : Bool
  pub crypto_keys : Reply (Unit {0})
  pub ssl_client_context : Bool
  pub node_settings : Reply (Unit {0})

pub record Process (P : SessionPools) (W : Type 0) : Type 0 where
  pub globals : ServerConfig
  pub database : Database (ConnectionManager P)
  pub state : State W

-- The exit, the memory that was given back, and the process at its end; `none` is undefined
-- behaviour in a handler.
abbrev pub Ended : SessionPools → Type 0 → Type 0
Ended P W = Option (Exit × List (List ℕ) × Process P W)

module _ (P : SessionPools) (execute : P.Session → Statement → Call P.World (Unit {0}))
    (L : Library) (O : Outside L) where
  abbrev in_manager : {A : Type 0} → ConnectionManager P → A × P.World → A × ConnectionManager P
  in_manager m (a, w) = (a, record m { world = w })

  -- The connections of VersionsManager and Migration; `execute` is `now` of a statement of Poco.
  abbrev pub connector : Connector
  connector = record {
    Connections = ConnectionManager P;
    Session = P.Session;
    get_connection = get_connection P;
    execute = λ session statement m. in_manager m (execute session statement m.world);
  }

  abbrev pub stop : Exit → Process P O.W → Ended P O.W
  stop e p = some (e, [], p)

  -- Until the server is stopped it answers requests; then come the last lines.
  abbrev pub shut_down : Process P O.W → Option (State O.W) → Ended P O.W
  shut_down p none = none
  shut_down p (some s) =
      some (exit_ok, (unload p.globals).0, record p { globals = (unload p.globals).1; state = s })

  -- VersionsManager::migrate, and the server behind it
  abbrev pub start_server :
      List Request
      → Process P O.W
      → Result (Unit {0}) × Database (ConnectionManager P)
      → Ended P O.W
  start_server requests p (ok u, d) =
      shut_down (record p { database = d }) (serve_all L O p.globals requests p.state)
  start_server requests p (thrown e, d) = stop (escaped e) (record p { database = d })
  start_server requests p (returned response, d) = none
  start_server requests p (aborted, d) = none

  -- initIota, the address of the node, and readUnsecureFlags
  abbrev pub load_node_settings : Reply (Unit {0}) → List Request → Process P O.W → Ended P O.W
  load_node_settings (answer u) requests p = start_server requests p (migrate connector p.database)
  load_node_settings (fails e) requests p = stop (escaped e) p

  -- initMysql, and what follows it
  abbrev pub init_mysql :
      Startup → List Request → Process P O.W → Result Bool × ConnectionManager P → Ended P O.W
  init_mysql up requests p (ok b, c) =
      load_node_settings up.node_settings requests
        (record p { database = record p.database { connections = c } })
  init_mysql up requests p (thrown e, c) =
      stop (escaped e) (record p { database = record p.database { connections = c } })
  init_mysql up requests p (returned response, c) = none
  init_mysql up requests p (aborted, c) = none

  abbrev pub init_ssl : Bool → Settings → Startup → List Request → Process P O.W → Ended P O.W
  init_ssl true cfg up requests p =
      init_mysql up requests p (set_connections_from_config P cfg p.database.connections)
  init_ssl false cfg up requests p = stop exit_config p

  abbrev pub load_crypto_keys :
      Reply (Unit {0}) → Settings → Startup → List Request → Process P O.W → Ended P O.W
  load_crypto_keys (answer u) cfg up requests p = init_ssl up.ssl_client_context cfg up requests p
  load_crypto_keys (fails e) cfg up requests p = stop (escaped e) p

  abbrev pub load_word_lists : Settings → Startup → List Request → Process P O.W → Ended P O.W
  load_word_lists cfg up requests p =
      if up.mnemonic_word_lists
      then load_crypto_keys up.crypto_keys cfg up requests p
      else stop exit_config p

  abbrev pub init_crypto :
      Bool × ServerConfig → Settings → Startup → List Request → Process P O.W → Ended P O.W
  init_crypto (true, g) cfg up requests p =
      load_word_lists cfg up requests (record p { globals = g })
  init_crypto (false, g) cfg up requests p = stop exit_config (record p { globals = g })

  -- GradidoBlockchainConnector::main; with the option `help` it only prints.
  unfoldable pub main : Bool → Settings → Startup → List Request → Process P O.W → Ended P O.W
  main true cfg up requests p = stop exit_ok p
  main false cfg up requests p = init_crypto (init_server_crypto cfg p.globals) cfg up requests p
