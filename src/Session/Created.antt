-- ===== src/Session/Created.antt =====
-- src/model/Session.cpp: a user that was created can log in.
use gradido_blockchain_conne.Base.{
  ℕ, String, true, not, Option, none, some, List, ◌≡◌, refl, ap, ◌∙◌, ◌==◌, ==_iff,
}
use gradido_blockchain_conne.Exec.{
  Exception, library, null_pointer, missing_key_exception, ok, pure,
}
use gradido_blockchain_conne.Exec.Rules.{bind-ok-elim}
use gradido_blockchain_conne.Platform.{Library, Outside, UserRow, answer, call, call-ok}
use gradido_blockchain_conne.Tables.{to_uint64, save_user, save_user_backup, get_last_insert_id}
use gradido_blockchain_conne.Pending.Latest.{list_eq_iff}
use gradido_blockchain_conne.Session.{back_up, create_new_user, check_user, present, refuse}

-- What the key classes document: a private key that was encrypted with a secret is decrypted with it,
-- and it has the public key of the pair that it comes from.
abbrev pub KeysReadBack : Library → Type 0
KeysReadBack L =
    (key : L.Key) (secret : L.Secret) (crypted : List ℕ)
    → L.crypted_private_key key secret ≡ some crypted
    → (private_key : List ℕ) × (L.decrypt secret crypted ≡ some private_key)
      × (L.public_key (L.key_of_private private_key) ≡ L.public_key key)

eq_self : (n : ℕ) → (n == n) ≡ true
eq_self n = (==_iff n n).1 refl

module _ (L : Library) (O : Outside L) where
  -- The row is saved in some state, and under any id it opens with the secret to a pair with the key.
  pub record Stored (user_name : String) (group_id : ℕ) (secret : L.Secret) (key : L.Key)
      : Type 0 where
    pub row : UserRow
    pub before : O.W
    pub after : O.W
    pub name_is : row.name ≡ user_name
    pub group_is : row.group_id ≡ to_uint64 group_id
    pub saved : O.insert_user row before ≡ (answer tt, after)
    pub opens :
        (id size : ℕ) (w : O.W)
        → (own : L.Key) × (check_user L O user_name size secret (record row { id = id }) w
            ≡ (ok own, w))
          × (L.public_key own ≡ L.public_key key)

  present-ok :
      {A : Type 0} (o : Option A) (e : Exception) (w w' : O.W) (a : A)
      → present L O o e w ≡ (ok a, w')
      → o ≡ some a
  present-ok none e w w' a h = cc
  present-ok (some b) e w w' a h = cc

  check_user-own :
      (user_name : String) (size : ℕ) (secret : L.Secret) (row : UserRow) (private_key : List ℕ)
      (w : O.W)
      → row.password ≡ L.key_hashed secret
      → L.decrypt secret row.encrypted_private_key ≡ some private_key
      → L.public_key (L.key_of_private private_key) ≡ row.public_key
      → check_user L O user_name size secret row w ≡ (ok (L.key_of_private private_key), w)
  unfolding check_user
  check_user-own user_name size secret row private_key w password decrypts same = rw (
    (==_iff row.password (L.key_hashed secret)).1 password,
    decrypts,
    (list_eq_iff (L.public_key (L.key_of_private private_key)) row.public_key).1 same,
  )

  pure-ok : {A : Type 0} (a b : A) (w w' : O.W) → pure a w ≡ (ok b, w') → a ≡ b
  pure-ok a b w w' h = cc

  -- What is returned is the key that was made.
  back_up-key :
      (created : L.Key × String) (key : L.Key) (w w' : O.W)
      → back_up L O created w ≡ (ok key, w')
      → created.0 ≡ key
  unfolding back_up
  back_up-key created key w w' h = bind-ok-elim (get_last_insert_id L O) _ w h (λ user_id w₁ e₁ h₁.
      bind-ok-elim
        (refuse L O (not (O.has_support_key w₁)) (
          missing_key_exception "missing key for saving passphrase for new user"
            "crypto.server_admin_public"))
        _ w₁ h₁
        (λ _ w₂ e₂ h₂.
          bind-ok-elim (call (O.seal_for_support created.1)) _ w₂ h₂ (λ sealed w₃ e₃ h₃.
            bind-ok-elim
              (save_user_backup L O
                (record { user_id = user_id; key_user_id = 0; encrypted_passphrase = sealed }))
              _ w₃ h₃ (λ _ w₄ e₄ h₄. pure-ok created.0 key w₄ w' h₄))))

  stored :
      (user_name : String) (group_id : ℕ) (secret : L.Secret) (created key : L.Key)
      (crypted : List ℕ) (w₁ w₂ : O.W)
      → KeysReadBack L
      → L.crypted_private_key created secret ≡ some crypted
      → O.insert_user
          (record {
            id = 0;
            name = user_name;
            group_id = to_uint64 group_id;
            password = L.key_hashed secret;
            public_key = L.public_key created;
            encrypted_private_key = crypted;
          })
          w₁
        ≡ (answer tt, w₂)
      → created ≡ key
      → Stored user_name group_id secret key
  stored user_name group_id secret created key crypted w₁ w₂ reads encrypted saved same_key =
      let (private_key, decrypts, same) = reads created secret crypted encrypted in
      record {
        row = record {
          id = 0;
          name = user_name;
          group_id = to_uint64 group_id;
          password = L.key_hashed secret;
          public_key = L.public_key created;
          encrypted_private_key = crypted;
        };
        before = w₁;
        after = w₂;
        name_is = refl;
        group_is = refl;
        saved = saved;
        opens = λ id size v. (
          L.key_of_private private_key,
          check_user-own user_name size secret _ private_key v refl decrypts same,
          same ∙ ap L.public_key same_key,
        );
      }

  -- If the key classes read back what they encrypt, then where createNewUser returns a key it has
  -- saved a row for this name and group, which under any id passes the check of a login with the same
  -- secret, and the session that logs in so has the public key of the new user.
  pub create_new_user-Stored :
      (user_name : String) (group_id : ℕ) (secret : L.Secret) (key : L.Key) (w w' : O.W)
      → KeysReadBack L
      → create_new_user L O user_name group_id secret w ≡ (ok key, w')
      → Stored user_name group_id secret key
  unfolding create_new_user save_user
  create_new_user-Stored user_name group_id secret key w w' reads h =
      let created = (O.create_key_pair w).0 in
      bind-ok-elim
        (present L O (L.crypted_private_key created.0 secret)
          (library null_pointer "cannot get encrypted private key"))
        _ (O.create_key_pair w).1 h
        (λ crypted w₁ e₁ h₁.
          let row : UserRow = record {
            id = 0;
            name = user_name;
            group_id = to_uint64 group_id;
            password = L.key_hashed secret;
            public_key = L.public_key created.0;
            encrypted_private_key = crypted;
          } in
          bind-ok-elim (save_user L O row) _ w₁ h₁ (λ _ w₂ e₂ h₂.
            stored user_name group_id secret created.0 key crypted w₁ w₂ reads
              (present-ok _ _ _ w₁ crypted e₁) (call-ok (O.insert_user row w₁) tt w₂ e₂)
              (back_up-key created key w₂ w' h₂)))
