-- ===== src/ConnectionManager/Connected.antt =====
-- src/ConnectionManager.cpp: the database that was configured is the one that is used.
use gradido_blockchain_conne.Base.{
  ℕ, String, Bool, true, false, nonempty, ◌≡◌, refl, subst, if◌then◌else◌,
}
use gradido_blockchain_conne.Exec.{Exec, Result, ok, thrown, returned, aborted, pure, resume}
use gradido_blockchain_conne.Platform.{Reply, answer, fails}
use gradido_blockchain_conne.ServerConfig.{Settings}
use gradido_blockchain_conne.ConnectionManager.{
  SessionPools, ConnectionManager, set_connection, set_connection_sqlite, db_config,
  set_connections_from_config, added, use_sqlite,
}

module _ (P : SessionPools) where
  -- The pool of the database with this key and connection string was added to those of `m`, and is
  -- the one that getConnection asks for.
  pub record Opened (key connection : String) (least most : ℕ) (m m' : ConnectionManager P)
      : Type 0 where
    pub named : m'.session_pool_names ≡ P.uri key connection
    pub pool_added : P.add key connection least most m.session_pools ≡ answer m'.session_pools

  -- The database that the settings name: the file of SQLite if there is one, and MySQL otherwise.
  abbrev Chosen : Bool → Settings → ConnectionManager P → ConnectionManager P → Type 0
  Chosen true config m m' =
      Opened P.sqlite_key (config.get_string "db.sqlite" "") 1 2 m m' × (m'.my_sqlite ≡ true)
  Chosen false config m m' =
      Opened P.mysql_key (db_config P config) 1 16 m m' × (m'.my_sqlite ≡ m.my_sqlite)

  abbrev pub Configured : Settings → ConnectionManager P → ConnectionManager P → Type 0
  Configured config m m' = Chosen (nonempty (config.get_string "db.sqlite" "")) config m m'

  -- What holds of the manager where a call returns.
  abbrev Ends :
      {A : Type 0} → (ConnectionManager P → Type 0) → Result A × ConnectionManager P → Type 0
  Ends Q (ok a, m) = Q m
  Ends Q (returned d, m) = Unit
  Ends Q (thrown e, m) = Unit
  Ends Q (aborted, m) = Unit

  Ends-pure :
      {A B : Type 0} (Q : ConnectionManager P → Type 0) (b : B) (r : Result A × ConnectionManager P)
      → Ends Q r
      → Ends Q (resume r (λ a. pure b))
  Ends-pure Q b (ok a, m) h = h
  Ends-pure Q b (returned d, m) h = h
  Ends-pure Q b (thrown e, m) h = h
  Ends-pure Q b (aborted, m) h = h

  module _ (key connection : String) (least most : ℕ) (m : ConnectionManager P) where
    abbrev named : ConnectionManager P
    named = record m { session_pool_names = P.uri key connection }

    added-Opened :
        (r : Reply P.Pools)
        → P.add key connection least most m.session_pools ≡ r
        → Ends
            (λ m'. Opened key connection least most m m' × (m'.my_sqlite ≡ m.my_sqlite))
            (added P named r)
    added-Opened (answer pools) e = (record { named = refl; pool_added = e }, refl)
    added-Opened (fails x) e = tt

    added_sqlite-Opened :
        (r : Reply P.Pools)
        → P.add key connection least most m.session_pools ≡ r
        → Ends
            (λ m'. Opened key connection least most m m' × (m'.my_sqlite ≡ true))
            (resume (added P named r) (λ u. use_sqlite P))
    added_sqlite-Opened (answer pools) e = (record { named = refl; pool_added = e }, refl)
    added_sqlite-Opened (fails x) e = tt

  resume-pure :
      {A B : Type 0} (b c : B) (m : ConnectionManager P) (r : Result A × ConnectionManager P)
      → resume r (λ a. pure b) ≡ (ok c, m)
      → b ≡ c
  resume-pure b c m (ok a, n) h = cc
  resume-pure b c m (returned d, n) h = cc
  resume-pure b c m (thrown e, n) h = cc
  resume-pure b c m (aborted, n) h = cc

  module _ (config : Settings) (m : ConnectionManager P) where
    abbrev connect : Exec (ConnectionManager P) (Unit {0})
    connect =
        if nonempty (config.get_string "db.sqlite" "")
        then set_connection_sqlite P (config.get_string "db.sqlite" "")
        else set_connection P (db_config P config)

    connect-Ends :
        (b : Bool)
        → Ends (Chosen b config m) (
            (if b
                then set_connection_sqlite P (config.get_string "db.sqlite" "")
                else set_connection P (db_config P config))
              m)
    connect-Ends true =
        added_sqlite-Opened P.sqlite_key (config.get_string "db.sqlite" "") 1 2 m
          (P.add P.sqlite_key (config.get_string "db.sqlite" "") 1 2 m.session_pools) refl
    connect-Ends false =
        added-Opened P.mysql_key (db_config P config) 1 16 m
          (P.add P.mysql_key (db_config P config) 1 16 m.session_pools) refl

    -- If setConnectionsFromConfig returns, then it returns true, and the pool of the database that the
    -- settings name was added and is the one that getConnection asks for.
    pub set_connections-Configured :
        (b : Bool) (m' : ConnectionManager P)
        → set_connections_from_config P config m ≡ (ok b, m')
        → (true ≡ b) × Configured config m m'
    unfolding set_connections_from_config
    set_connections-Configured b m' h = (
      resume-pure true b m' (connect m) h,
      subst (Ends (Configured config m)) h (
          Ends-pure (Configured config m) true (connect m)
            (connect-Ends (nonempty (config.get_string "db.sqlite" "")))),
    )
