-- ===== src/ConnectionManager.antt =====
-- src/ConnectionManager.h and .cpp: which database the statements of the tables go to. The container
-- of session pools is Poco's.
pub mod Connected
use gradido_blockchain_conne.Base.{
  ℕ, String, append, Bool, true, false, not, nonempty, if◌then◌else◌,
}
use gradido_blockchain_conne.Exec.{Exec, Result, ok, thrown, pure, resume, ◌>>=◌, ◌>>◌}
use gradido_blockchain_conne.Platform.{Reply, Call, answer, fails}
use gradido_blockchain_conne.ServerConfig.{Settings}

-- What the code calls: std::to_string, the keys of Poco's connectors, Session::uri, and add and
-- getPool of a SessionPoolContainer. `add` takes the key, the connection string and the numbers of
-- sessions. `get` is the call of a pool; it may throw, and `World` is what it depends on.
pub record SessionPools : Type 1 where
  pub Pools : Type 0
  pub Pool : Type 0
  pub Session : Type 0
  pub World : Type 0
  pub mysql_key : String
  pub sqlite_key : String
  pub to_string : ℕ → String
  pub uri : String → String → String
  pub add : String → String → ℕ → ℕ → Pools → Reply Pools
  pub get_pool : String → Pools → Reply Pool
  pub get : Pool → Call World Session

-- The object, and the world that its sessions are taken from.
pub record ConnectionManager (P : SessionPools) : Type 0 where
  pub session_pool_names : String
  pub session_pools : P.Pools
  pub my_sqlite : Bool
  pub world : P.World

module _ (P : SessionPools) where
  -- The pool is added in place; where that throws, the name has been set already.
  abbrev pub added : ConnectionManager P → Reply P.Pools → Result (Unit {0}) × ConnectionManager P
  added m (answer pools) = (ok tt, record m { session_pools = pools })
  added m (fails e) = (thrown e, m)

  abbrev pub set_connection : String → Exec (ConnectionManager P) (Unit {0})
  set_connection connection_string m =
      added (record m { session_pool_names = P.uri P.mysql_key connection_string })
        (P.add P.mysql_key connection_string 1 16 m.session_pools)

  abbrev pub use_sqlite : Exec (ConnectionManager P) (Unit {0})
  use_sqlite m = (ok tt, record m { my_sqlite = true })

  abbrev pub set_connection_sqlite : String → Exec (ConnectionManager P) (Unit {0})
  set_connection_sqlite file_name =
      (λ (m : ConnectionManager P).
        added (record m { session_pool_names = P.uri P.sqlite_key file_name })
          (P.add P.sqlite_key file_name 1 2 m.session_pools))
      >> use_sqlite

  -- The connection string for MySQL.
  abbrev pub db_config : Settings → String
  db_config config = append "host=" (
      append (config.get_string "db.host" "localhost") (
        append ";port=" (
          append (P.to_string (config.get_int "db.port" 3306)) (
            append ";db=" (
              append (config.get_string "db.name" "blockchain_connector") (
                append ";user=" (
                  append (config.get_string "db.user" "root")
                    (append ";password=" (append (config.get_string "db.password" "") ";")))))))))

  unfoldable pub set_connections_from_config : Settings → Exec (ConnectionManager P) Bool
  set_connections_from_config config = do
    (if nonempty (config.get_string "db.sqlite" "")
        then set_connection_sqlite (config.get_string "db.sqlite" "")
        else set_connection (db_config config))
    pure true

  abbrev taken : {A : Type 0} → Reply A × P.World → Exec (ConnectionManager P) A
  taken (answer a, w) m = (ok a, record m { world = w })
  taken (fails e, w) m = (thrown e, record m { world = w })

  abbrev from_pool : Reply P.Pool → Exec (ConnectionManager P) P.Session
  from_pool (answer pool) m = taken (P.get pool m.world) m
  from_pool (fails e) m = (thrown e, m)

  unfoldable pub get_connection : Exec (ConnectionManager P) P.Session
  get_connection m = from_pool (P.get_pool m.session_pool_names m.session_pools) m
