-- ===== src/SessionManager.antt =====
-- src/SessionManager.cpp: the cache of logged-in sessions and the tokens that name them.
pub mod Silent
pub mod Access
pub mod Cached
pub mod Granted
use Prim.Native.String.{slice}
use gradido_blockchain_conne.Base.{
  ℕ, ◌+◌, String, Bool, true, false, not, Option, none, some, List, str_eq, if◌then◌else◌,
}
use gradido_blockchain_conne.Exec.{
  Exception, library, jwt_token, signature_verification, login_exception, session_exception, Exec,
  Result, ok, thrown, pure, throw, resume, handle_thrown, try_catch, ◌>>=◌, ◌>>◌,
}
use gradido_blockchain_conne.Platform.{Library, Outside, Session, Token, reply, total, modify}
use gradido_blockchain_conne.ServerConfig.{ServerConfig}
use gradido_blockchain_conne.Session.{login_or_create, get_public_key}

module _ (L : Library) (O : Outside L) (C : ServerConfig) where
  -- The session of the cache, or a new one that is put into it.
  unfoldable pub cached_or_new :
      String → String → String → String → Option (Session L) → Exec O.W (Session L)
  cached_or_new username password group_alias client_ip (some s) = pure s
  cached_or_new username password group_alias client_ip none = do
    created ← login_or_create L O username password group_alias client_ip
    modify (O.cache_add username created.1)
    pure created.1

  abbrev from_ip : String → String → Session L → Exec O.W (Unit {0})
  from_ip name client_ip s =
      if str_eq s.client_ip client_ip
      then pure tt
      else throw (login_exception "invalid ip" name client_ip)

  abbrev public_key_or_throw : String → String → Option (List ℕ) → Exec O.W (List ℕ)
  public_key_or_throw username client_ip (some key) = pure key
  public_key_or_throw username client_ip none =
      throw (login_exception "no public key" username client_ip)

  abbrev pub login_token : String → List ℕ → ℕ → Token
  login_token username key now = record {
    subject = "login";
    name = some username;
    pubkey = some (slice (L.bin_to_hex key) 0 64);
    issued_at = now;
    expiration = now + C.session_valid_duration;
  }

  -- The part of `login` behind the cache.
  unfoldable pub issue : String → String → Session L → Exec O.W String
  issue username client_ip s = do
    from_ip username client_ip s
    key ← public_key_or_throw username client_ip (get_public_key L O s)
    now ← total O.now
    pure (L.jwt_sign C.jwt_verify_secret (login_token username key now))

  unfoldable pub login : String → String → String → String → Exec O.W String
  unfolding cached_or_new issue
  login username password group_alias client_ip = do
    cached ← total (O.cache_get username)
    s ← cached_or_new username password group_alias client_ip cached
    issue username client_ip s

  -- catch (SignatureVerificationException&)
  abbrev bad_token : {A : Type 0} → Exception → Exec O.W A
  bad_token (library signature_verification w) = throw (library jwt_token "invalid jwtToken")
  bad_token e = throw e

  abbrev session_or_throw : String → Option (Session L) → Exec O.W (Session L)
  session_or_throw name (some s) = pure s
  session_or_throw name none = throw (session_exception "no session found" name)

  -- The lookup that both forms of getSession end with.
  unfoldable pub active_session : String → String → Exec O.W (Session L)
  active_session name client_ip = do
    cached ← total (O.cache_get name)
    s ← session_or_throw name cached
    from_ip name client_ip s
    pure s

  -- getSession(token, clientIp)
  unfoldable pub get_session : String → String → Exec O.W (Session L)
  unfolding active_session
  get_session serialized_jwt_token client_ip =
      try_catch
        (do
          token ← reply (L.jwt_verify C.jwt_verify_secret serialized_jwt_token)
          name ← reply (L.get_value token "name")
          active_session name client_ip)
        bad_token

  -- getSession(token, username, clientIp), for the token of an open connection
  unfoldable pub get_session_of : String → String → String → Exec O.W (Session L)
  unfolding active_session
  get_session_of serialized_jwt_token username client_ip =
      try_catch
        (do
          token ← reply (L.jwt_verify C.jwt_verify_secret serialized_jwt_token)
          (if str_eq token.subject "openConnection"
              then pure tt
              else throw (session_exception "wrong token" token.subject))
          active_session username client_ip)
        bad_token
