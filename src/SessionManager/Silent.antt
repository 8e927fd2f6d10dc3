-- ===== src/SessionManager/Silent.antt =====
-- Looking a session up does not end by an early return.
use gradido_blockchain_conne.Base.{String, Option, none, some}
use gradido_blockchain_conne.Exec.{Exception, library, signature_verification}
use gradido_blockchain_conne.Exec.Rules.{Silent, silent_rules}
use gradido_blockchain_conne.Access.Rules.{Silent-reply, Silent-total}
use gradido_blockchain_conne.Platform.{Library, Outside, Session}
use gradido_blockchain_conne.ServerConfig.{ServerConfig}
use gradido_blockchain_conne.SessionManager.{get_session, bad_token, session_or_throw}

module _ (L : Library) (O : Outside L) (C : ServerConfig) where
  Silent-bad_token : (A : Type 0) (e : Exception) → Silent {A = A} (bad_token L O C e)
  Silent-bad_token A (library signature_verification w) = record { at = λ s. tt }
  Silent-bad_token A e = record { at = λ s. tt }

  Silent-session_or_throw :
      (name : String) (o : Option (Session L)) → Silent (session_or_throw L O C name o)
  Silent-session_or_throw name none = record { at = λ s. tt }
  Silent-session_or_throw name (some t) = record { at = λ s. tt }

  pub get_session-Silent : (token ip : String) → Silent (get_session L O C token ip)
  unfolding get_session
  get_session-Silent token ip =
      search (silent_rules, Silent-total, Silent-reply, Silent-bad_token, Silent-session_or_throw)
        depth 12
