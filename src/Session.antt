-- ===== src/Session.antt =====
-- src/model/Session.cpp: logging a user in against the database, and signing for the user.
pub mod Silent
pub mod Login
pub mod Names
pub mod Created
pub mod GroupId
use Prim.Native.String.{len}
use gradido_blockchain_conne.Base.{
  ℕ, String, Bool, true, false, not, Option, none, some, List, ◌==◌, if◌then◌else◌,
}
use gradido_blockchain_conne.Exec.{
  Exception, library, ed25519_sign, decryption_failed, null_pointer, missing_key_exception,
  invalid_password_exception, row_not_found_exception, Exec, ok, thrown, pure, throw, when, resume,
  handle_thrown, try_catch, ◌>>=◌, ◌>>◌,
}
use gradido_blockchain_conne.Pending.{list_eq}
use gradido_blockchain_conne.Platform.{
  Library, Outside, Session, GroupRow, UserRow, BackupRow, Reply, answer, fails, call, reply, total,
  deref,
}
use gradido_blockchain_conne.Tables.{
  to_int, to_uint64, load_group, save_group, save_user, save_user_backup, get_last_insert_id,
}

module _ (L : Library) (O : Outside L) where
  -- Session::Session, with the two members that loginOrCreate sets first
  unfoldable pub new_session : String → String → Session L
  new_session group_alias client_ip = record {
    user_name = "";
    group_alias = group_alias;
    group_id = 0;
    client_ip = client_ip;
    encryption_secret = none;
    key_pair = none;
  }

  -- The catch clause of getGroupId: a group that is not there is created.
  create_group : String → Exception → Exec O.W ℕ
  create_group group_alias (row_not_found_exception w table condition) = do
    save_group L O (record { id = 0; name = group_alias; alias = group_alias; description = "" })
    id ← get_last_insert_id L O
    pure (to_int id)
  create_group group_alias e = throw e

  -- getGroupId: the new value of mGroupId
  unfoldable pub get_group_id : Session L → Exec O.W ℕ
  unfolding create_group
  get_group_id s =
      if not (s.group_id == 0)
      then pure s.group_id
      else try_catch (do group ← load_group L O s.group_alias; pure (to_int group.id))
          (create_group s.group_alias)

  abbrev present : {A : Type 0} → Option A → Exception → Exec O.W A
  present (some a) e = pure a
  present none e = throw e

  abbrev refuse : Bool → Exception → Exec O.W (Unit {0})
  refuse true e = throw e
  refuse false e = pure tt

  -- The end of createNewUser: the passphrase is kept for the support.
  unfoldable pub back_up : L.Key × String → Exec O.W L.Key
  back_up created = do
    user_id ← get_last_insert_id L O
    supported ← (λ w. (ok (O.has_support_key w), w))
    refuse (not supported) (
        missing_key_exception "missing key for saving passphrase for new user"
          "crypto.server_admin_public")
    sealed ← call (O.seal_for_support created.1)
    save_user_backup L O
        (record { user_id = user_id; key_user_id = 0; encrypted_passphrase = sealed })
    pure created.0

  -- createNewUser: the new value of mUserKeyPair
  unfoldable pub create_new_user : String → ℕ → L.Secret → Exec O.W L.Key
  unfolding back_up
  create_new_user user_name group_id secret = do
    created ← total O.create_key_pair
    crypted ←
        present (L.crypted_private_key created.0 secret)
          (library null_pointer "cannot get encrypted private key")
    save_user L O (record {
      id = 0;
      name = user_name;
      group_id = to_uint64 group_id;
      password = L.key_hashed secret;
      public_key = L.public_key created.0;
      encrypted_private_key = crypted;
    })
    back_up created

  -- The branch of loginOrCreate for a user that is stored.
  unfoldable pub check_user : String → ℕ → L.Secret → UserRow → Exec O.W L.Key
  check_user user_name password_size secret row = do
    refuse (not (row.password == L.key_hashed secret))
        (invalid_password_exception "login failed" user_name password_size)
    private_key ←
        present (L.decrypt secret row.encrypted_private_key)
          (library decryption_failed "cannot decrypt private key")
    let key = L.key_of_private private_key
    refuse (not (list_eq (L.public_key key) row.public_key))
        (library decryption_failed "calculated and stored pubkey mismatch")
    pure key

  abbrev pub login_or_new : String → ℕ → ℕ → L.Secret → Option UserRow → Exec O.W (ℕ × L.Key)
  login_or_new user_name password_size group_id secret (some row) = do
    key ← check_user user_name password_size secret row
    pure (1, key)
  login_or_new user_name password_size group_id secret none = do
    key ← create_new_user user_name group_id secret
    pure (0, key)

  -- loginOrCreate: 1 for a user that existed, 0 for a new one; and the session after it.
  unfoldable pub login_or_create : String → String → String → String → Exec O.W (ℕ × Session L)
  login_or_create user_name user_password group_alias client_ip = do
    let s = new_session group_alias client_ip
    secret ← call (O.run_encryption user_name user_password)
    group_id ← get_group_id s
    row ← call (O.select_credentials user_name (to_uint64 group_id))
    outcome ← login_or_new user_name (len user_password) group_id secret row
    pure (
      outcome.0,
      record s { group_id = group_id; encryption_secret = some secret; key_pair = some outcome.1 },
    )

  pub verify_password : Session L → String → Exec O.W Bool
  verify_password s password = do
    secret ← call (O.run_encryption s.user_name password)
    own ← deref s.encryption_secret
    pure (L.key_hashed own == L.key_hashed secret)

  -- getPublicKey
  abbrev pub get_public_key : Session L → Option (List ℕ)
  get_public_key s = elim s.key_pair [ none ↦ none | some key ↦ some (L.public_key key) ]

  -- The catch clause of signTransaction: `none` is its `return false`.
  abbrev unsigned : {S : Type 0} → Exception → Exec S (Option L.Tx)
  unsigned (library ed25519_sign w) = pure none
  unsigned e = throw e

  -- signTransaction: the transaction with the signature added
  unfoldable pub sign_transaction : {S : Type 0} → Session L → L.Tx → Exec S (Option L.Tx)
  sign_transaction s tx =
      try_catch
        (do
          key ← deref s.key_pair
          bytes ← reply (L.body_bytes tx)
          sign ← reply (L.key_sign key bytes)
          signed ← reply (L.add_sign (some (L.public_key key)) (some sign) tx)
          pure (some signed))
        unsigned
