-- ===== src/Process/Life.antt =====
-- src/GradidoBlockchainConnector.cpp: requests are answered only by a process that is set up.
use gradido_blockchain_conne.Base.{
  ℕ, Bool, true, false, Option, none, some, List, [], ◌≡◌, refl, sym, subst, if◌then◌else◌,
}
use gradido_blockchain_conne.Exec.{Exception, Result, ok, returned, thrown, aborted}
use gradido_blockchain_conne.Platform.{Library, Outside, State, Reply, Call, answer, fails}
use gradido_blockchain_conne.ServerConfig.{
  ServerConfig, Settings, init_server_crypto, unload, released, load_keys, load_session,
}
use gradido_blockchain_conne.ServerConfig.Keys.{
  HasSize, server_key, private_key, init_server_crypto-Passes,
}
use gradido_blockchain_conne.ConnectionManager.{
  SessionPools, ConnectionManager, set_connections_from_config,
}
use gradido_blockchain_conne.ConnectionManager.Connected.{Configured, set_connections-Configured}
use gradido_blockchain_conne.Migrations.{Statement, Database, migrate}
use gradido_blockchain_conne.Server.{Request, serve_all}
use gradido_blockchain_conne.Process.{
  Exit, exit_ok, exit_config, escaped, Startup, Process, Ended, stop, shut_down, start_server,
  init_ssl, load_crypto_keys, load_word_lists, load_node_settings, init_mysql, init_crypto, main,
  connector,
}

-- The keys that the settings hold.
abbrev pub keys_of : ServerConfig → List (List ℕ)
keys_of g =
    released g.crypto_app_secret (released g.apollo_jwt_public_key (released g.jwt_private_key []))

module _ (P : SessionPools) (execute : P.Session → Statement → Call P.World (Unit {0}))
    (L : Library) (O : Outside L) (cfg : Settings) (up : Startup) (requests : List Request)
    (p : Process P O.W) where
  -- The settings under which the server answers requests.
  abbrev pub configured : ServerConfig
  configured = load_session cfg (load_keys cfg p.globals)

  -- All that the answering of requests rests on, and what is left behind.
  pub record Served (freed : List (List ℕ)) (q : Process P O.W) : Type 0 where
    pub server_key_size : HasSize 16 (server_key cfg p.globals)
    pub private_key_size : HasSize 64 (private_key cfg p.globals)
    pub word_lists : up.mnemonic_word_lists ≡ true
    pub crypto_keys : up.crypto_keys ≡ answer tt
    pub ssl : up.ssl_client_context ≡ true
    pub connections : ConnectionManager P
    pub connected : Configured P cfg p.database.connections connections
    pub node_settings : up.node_settings ≡ answer tt
    pub migrated :
        migrate (connector P execute L O) (record p.database { connections = connections })
        ≡ (ok tt, q.database)
    pub answered : serve_all L O configured requests p.state ≡ some q.state
    pub given_back : freed ≡ keys_of configured
    pub no_keys : keys_of q.globals ≡ []

  -- No request was answered, and nothing was given back.
  pub record NotServed (exit : Exit) (freed : List (List ℕ)) (q : Process P O.W) : Type 0 where
    pub failed : exit ≡ exit_ok → ⊥
    pub untouched : q.state ≡ p.state
    pub kept : freed ≡ []

  abbrev pub Outcome : Exit → List (List ℕ) → Process P O.W → Type 0
  Outcome exit_ok freed q = Served freed q
  Outcome e freed q = NotServed e freed q

  abbrev pub OutcomeOf : Ended P O.W → Type 0
  OutcomeOf none = Unit
  OutcomeOf (some (e, freed, q)) = Outcome e freed q

  -- What is known once the libraries have been set up.
  record Ready : Type 0 where
    sizes : HasSize 16 (server_key cfg p.globals) × HasSize 64 (private_key cfg p.globals)
    words : up.mnemonic_word_lists ≡ true
    keys : up.crypto_keys ≡ answer tt
    context : up.ssl_client_context ≡ true

  not_served :
      (exit : Exit) (q : Process P O.W)
      → (exit ≡ exit_ok → ⊥)
      → q.state ≡ p.state
      → NotServed exit [] q
  not_served exit q h e = record { failed = h; untouched = e; kept = refl }

  escaped-NotServed :
      (e : Exception) (q : Process P O.W) → q.state ≡ p.state → NotServed (escaped e) [] q
  escaped-NotServed e q h = not_served (escaped e) q (λ h. cc) h

  config-NotServed : (q : Process P O.W) → q.state ≡ p.state → NotServed exit_config [] q
  config-NotServed q h = not_served exit_config q (λ h. cc) h

  -- The process once its settings are read.
  abbrev ready : Process P O.W
  ready = record p { globals = configured }

  abbrev with_connections : ConnectionManager P → Process P O.W
  with_connections c = record ready { database = record p.database { connections = c } }

  module _ (c : ConnectionManager P) (connected : Configured P cfg p.database.connections c)
      (r : Ready) (node : up.node_settings ≡ answer tt) where
    abbrev connected_process : Process P O.W
    connected_process = with_connections c

    abbrev connected_database : Database (ConnectionManager P)
    connected_database = record p.database { connections = c }

    shut_down-Outcome :
        (d : Database (ConnectionManager P)) (o : Option (State O.W))
        → migrate (connector P execute L O) connected_database ≡ (ok tt, d)
        → serve_all L O configured requests p.state ≡ o
        → OutcomeOf (shut_down P execute L O (record connected_process { database = d }) o)
    unfolding unload
    shut_down-Outcome d none migrated answered = tt
    shut_down-Outcome d (some t) migrated answered = record {
      server_key_size = r.sizes.0;
      private_key_size = r.sizes.1;
      word_lists = r.words;
      crypto_keys = r.keys;
      ssl = r.context;
      connections = c;
      connected = connected;
      node_settings = node;
      migrated = migrated;
      answered = answered;
      given_back = refl;
      no_keys = refl;
    }

    start-Outcome :
        (m : Result (Unit {0}) × Database (ConnectionManager P))
        → migrate (connector P execute L O) connected_database ≡ m
        → OutcomeOf (start_server P execute L O requests connected_process m)
    start-Outcome (ok u, d) migrated =
        shut_down-Outcome d (serve_all L O configured requests p.state) migrated refl
    start-Outcome (thrown e, d) migrated =
        escaped-NotServed e (record connected_process { database = d }) refl
    start-Outcome (returned response, d) migrated = tt
    start-Outcome (aborted, d) migrated = tt

  node-Outcome :
      (c : ConnectionManager P)
      → Configured P cfg p.database.connections c
      → Ready
      → (n : Reply (Unit {0})) → up.node_settings ≡ n
      → OutcomeOf (load_node_settings P execute L O n requests (with_connections c))
  node-Outcome c connected r (answer u) node =
      start-Outcome c connected r node
        (migrate (connector P execute L O) (record p.database { connections = c })) refl
  node-Outcome c connected r (fails e) node = escaped-NotServed e (with_connections c) refl

  mysql-Outcome :
      (m : Result Bool × ConnectionManager P)
      → Ready
      → set_connections_from_config P cfg p.database.connections ≡ m
      → OutcomeOf (init_mysql P execute L O up requests ready m)
  mysql-Outcome (ok b, c) r connected =
      let (same, database) =
        set_connections-Configured P cfg p.database.connections b c connected in
      node-Outcome c database r up.node_settings refl
  mysql-Outcome (thrown e, c) r connected = escaped-NotServed e (with_connections c) refl
  mysql-Outcome (returned response, c) r connected = tt
  mysql-Outcome (aborted, c) r connected = tt

  module _ (sizes : HasSize 16 (server_key cfg p.globals) × HasSize 64 (private_key cfg p.globals))
      (words : up.mnemonic_word_lists ≡ true) where
    ssl-Outcome :
        (b : Bool)
        → up.crypto_keys ≡ answer tt
        → up.ssl_client_context ≡ b
        → OutcomeOf (init_ssl P execute L O b cfg up requests ready)
    ssl-Outcome true keys context =
        mysql-Outcome (set_connections_from_config P cfg p.database.connections)
          (record { sizes = sizes; words = words; keys = keys; context = context }) refl
    ssl-Outcome false keys context = config-NotServed ready refl

    keys-Outcome :
        (k : Reply (Unit {0}))
        → up.crypto_keys ≡ k
        → OutcomeOf (load_crypto_keys P execute L O k cfg up requests ready)
    keys-Outcome (answer u) keys = ssl-Outcome up.ssl_client_context keys refl
    keys-Outcome (fails e) keys = escaped-NotServed e ready refl

  words-Outcome :
      (b : Bool)
      → HasSize 16 (server_key cfg p.globals) × HasSize 64 (private_key cfg p.globals)
      → up.mnemonic_word_lists ≡ b
      → OutcomeOf (
          if b
          then load_crypto_keys P execute L O up.crypto_keys cfg up requests ready
          else stop P execute L O exit_config ready)
  words-Outcome true sizes words = keys-Outcome sizes words up.crypto_keys refl
  words-Outcome false sizes words = config-NotServed ready refl

  crypto-Outcome :
      (b : Bool) (g : ServerConfig)
      → (b ≡ true
          → (HasSize 16 (server_key cfg p.globals) × HasSize 64 (private_key cfg p.globals))
            × (g ≡ configured))
      → OutcomeOf (init_crypto P execute L O (b, g) cfg up requests p)
  crypto-Outcome true g h =
      let (sizes, same) = h refl in
      subst
        (λ g. OutcomeOf (load_word_lists P execute L O cfg up requests (record p { globals = g })))
        (sym same) (words-Outcome up.mnemonic_word_lists sizes refl)
  crypto-Outcome false g h = config-NotServed (record p { globals = g }) refl

  -- Unless a handler ends in undefined behaviour: a process that is not asked for help and ends with
  -- the code for success had a server key of 16 and a private key of 64 bytes, and its word lists,
  -- keys, SSL context and node settings loaded; the pool of the configured database was added and
  -- is the one that getConnection asks for, and with these connections the database was migrated;
  -- the process answered all requests under the settings that were configured and at the end gave
  -- back the keys that these hold, and holds none.
  -- If it ends with another code or with an exception, it answered no request and gave nothing back.
  pub main-Outcome : OutcomeOf (main P execute L O false cfg up requests p)
  unfolding main
  main-Outcome =
      let passes = init_server_crypto-Passes cfg p.globals in
      crypto-Outcome (init_server_crypto cfg p.globals).0 (init_server_crypto cfg p.globals).1
        (λ e. (passes.0.0 e, passes.1 e))
