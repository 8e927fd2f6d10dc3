-- ===== src/Session/Login.antt =====
-- When a login succeeds, and what it leaves in the session.
use Prim.Native.String.{len}
use gradido_blockchain_conne.Base.{
  ℕ, String, ◌≡◌, refl, sym, ap, ◌∙◌, Option, none, some, arith, List, inl, inr, Option-cases,
}
use gradido_blockchain_conne.Exec.{Result, ok, pure, ◌>>=◌}
use gradido_blockchain_conne.Exec.Rules.{bind-ok}
use gradido_blockchain_conne.Pending.Latest.{list_eq_iff}
use gradido_blockchain_conne.Platform.{Library, Outside, Session, UserRow, answer, call, call-ok}
use gradido_blockchain_conne.Tables.{to_uint64}
use gradido_blockchain_conne.Session.{
  new_session, get_group_id, check_user, create_new_user, login_or_new, login_or_create,
}

module _ (L : Library) (O : Outside L) where
  -- A stored user that the key derived from the password opens.
  pub record Opens (secret : L.Secret) (row : UserRow) (key : L.Key) : Type 0 where
    pub hashed : row.password ≡ L.key_hashed secret
    pub private_key : List ℕ
    pub decrypted : L.decrypt secret row.encrypted_private_key ≡ some private_key
    pub key_made : key ≡ L.key_of_private private_key
    pub public_key : L.public_key key ≡ row.public_key

  check_user-Opens :
      (name : String) (size : ℕ) (secret : L.Secret) (row : UserRow) (w w' : O.W) (key : L.Key)
      → check_user L O name size secret row w ≡ (ok key, w')
      → Opens secret row key
  unfolding check_user
  check_user-Opens name size secret row w w' key h =
      elim (Option-cases (L.decrypt secret row.encrypted_private_key)) [
        | inl e ↦ absurd (ground arith)
        | inr (private_key, e) ↦ record {
          hashed = ground arith;
          private_key = private_key;
          decrypted = e;
          key_made = ground arith;
          public_key =
              ground
                (arith, list_eq_iff (L.public_key (L.key_of_private private_key)) row.public_key);
        }
      ]

  -- What a successful login went through: the key derivation for this user and password, the
  -- statement for the stored user, and one of the two branches.
  pub record LoggedIn (name password alias ip : String) (n : ℕ) (s : Session L) (w : O.W)
      : Type 0 where
    pub secret : L.Secret
    pub w₁ : O.W
    pub derived : O.run_encryption name password w ≡ (answer secret, w₁)
    pub group_id : ℕ
    pub row : Option UserRow
    pub w₂ : O.W
    pub w₃ : O.W
    pub selected : O.select_credentials name (to_uint64 group_id) w₂ ≡ (answer row, w₃)
    pub key : L.Key
    pub w₄ : O.W
    pub outcome : login_or_new L O name (len password) group_id secret row w₃ ≡ (ok (n, key), w₄)
    pub is : s ≡ record (new_session L O alias ip) {
      group_id = group_id;
      encryption_secret = some secret;
      key_pair = some key;
    }

  key_of : L.Key → Result (ℕ × L.Key) × O.W → L.Key
  key_of d (ok (n, k), w) = k
  key_of d _ = d

  login_or_new_existing :
      (name : String) (size group_id : ℕ) (secret : L.Secret) (row : Option UserRow) (w w' : O.W)
      (key : L.Key)
      → login_or_new L O name size group_id secret row w ≡ (ok (1, key), w')
      → (r : UserRow) × (row ≡ some r) × Opens secret r key
  unfolding key_of
  login_or_new_existing name size group_id secret (some r) w w' key h =
      let (key', w₁, checked, same) =
        bind-ok (check_user L O name size secret r)
          (λ (k : L.Key). pure {S = O.W} {A = ℕ × L.Key} (1, k)) w h in
      let opens = check_user-Opens name size secret r w w₁ key' checked in
      let same_key : key' ≡ key = ap (key_of key) same in (r, refl, rw same_key at opens)
  login_or_new_existing name size group_id secret none w w' key h =
      let (key', w₁, created, same) =
        bind-ok (create_new_user L O name group_id secret)
          (λ (k : L.Key). pure {S = O.W} {A = ℕ × L.Key} (0, k)) w h in
      absurd (ground arith)

  first_of : Result (ℕ × Session L) × O.W → ℕ
  first_of (ok (n, s), w) = n
  first_of _ = 0

  session_of : Session L → Result (ℕ × Session L) × O.W → Session L
  session_of d (ok (n, s), w) = s
  session_of d _ = d

  pub login-LoggedIn :
      (name password alias ip : String) (n : ℕ) (s : Session L) (w w' : O.W)
      → login_or_create L O name password alias ip w ≡ (ok (n, s), w')
      → LoggedIn name password alias ip n s w
  unfolding login_or_create first_of session_of
  login-LoggedIn name password alias ip n s w w' h =
      let blank = new_session L O alias ip in
      let finish = λ (secret : L.Secret) (group_id : ℕ) (outcome : ℕ × L.Key).
        pure {S = O.W} {A = ℕ × Session L} (
          outcome.0,
          record blank {
            group_id = group_id;
            encryption_secret = some secret;
            key_pair = some outcome.1;
          },
        ) in
      let chosen = λ (secret : L.Secret) (group_id : ℕ) (row : Option UserRow).
        login_or_new L O name (len password) group_id secret row >>= finish secret group_id in
      let looked_up = λ (secret : L.Secret) (group_id : ℕ).
        call (O.select_credentials name (to_uint64 group_id)) >>= chosen secret group_id in
      let (secret, w₁, derived, h₁) =
        bind-ok (call (O.run_encryption name password))
          (λ (secret : L.Secret). get_group_id L O blank >>= looked_up secret) w h in
      let (group_id, w₂, grouped, h₂) = bind-ok (get_group_id L O blank) (looked_up secret) w₁ h₁ in
      let (row, w₃, selected, h₃) =
        bind-ok (call (O.select_credentials name (to_uint64 group_id))) (chosen secret group_id) w₂
          h₂ in
      let (outcome, w₄, logged_in, h₄) =
        bind-ok (login_or_new L O name (len password) group_id secret row) (finish secret group_id)
          w₃ h₃ in
      let first : outcome.0 ≡ n = ap first_of h₄ in
      let count : Path (Result (ℕ × L.Key) × O.W) (ok outcome, w₄) (ok (n, outcome.1), w₄) =
        λ i. (ok (first i, outcome.1), w₄) in
      record {
        secret = secret;
        w₁ = w₁;
        derived = call-ok (O.run_encryption name password w) secret w₁ derived;
        group_id = group_id;
        row = row;
        w₂ = w₂;
        w₃ = w₃;
        selected = call-ok (O.select_credentials name (to_uint64 group_id) w₂) row w₃ selected;
        key = outcome.1;
        w₄ = w₄;
        outcome = logged_in ∙ count;
        is = sym (ap (session_of s) h₄);
      }

  -- A login that reports an existing user found a stored row of that name whose password is the hash
  -- of the key derived from the name and the password, whose private key that derived key decrypts,
  -- and whose public key belongs to the private key; and the session has the pair.
  pub login-Opens :
      (name password alias ip : String) (s : Session L) (w w' : O.W)
      → login_or_create L O name password alias ip w ≡ (ok (1, s), w')
      → (secret : L.Secret) × (row : UserRow) × (key : L.Key) × ((w₁ : O.W) × (O.run_encryption name
              password w
            ≡ (answer secret, w₁)))
        × ((w₂ w₃ : O.W) × (O.select_credentials name (to_uint64 s.group_id) w₂
              ≡ (answer (some row), w₃)))
        × Opens secret row key
        × (s.key_pair ≡ some key)
  unfolding new_session
  login-Opens name password alias ip s w w' h =
      let l = login-LoggedIn name password alias ip 1 s w w' h in
      let (row, at, opens) =
        login_or_new_existing name (len password) l.group_id l.secret l.row l.w₃ l.w₄ l.key
          l.outcome in
      (
        l.secret,
        row,
        l.key,
        (l.w₁, l.derived),
        (l.w₂, l.w₃, rw (ap (λ (t : Session L). t.group_id) l.is, ← at) l.selected),
        opens,
        ap (λ (t : Session L). t.key_pair) l.is,
      )
