-- ===== src/Demo/Logins.antt =====
-- Logins and sessions of the concrete server.
use gradido_blockchain_conne.Base.{
  subst, ℕ, String, List, [], ◌∷◌, ◌≡◌, ◌↔◌, refl, sym, ap, Option, none, some, true, arith, eq_iff,
  eq_refl, Bool-cases, false≢true, ◌==◌, inl, inr,
}
use gradido_blockchain_conne.Exec.{login_exception, ok, thrown, pure, ◌>>=◌}
use gradido_blockchain_conne.Platform.{Session, Token, UserRow, answer, call}
use gradido_blockchain_conne.Tables.{to_uint64, load_group}
use gradido_blockchain_conne.Session.{
  get_group_id, check_user, new_session, login_or_create, verify_password,
}
use gradido_blockchain_conne.Session.Login.{login-Opens, Opens}
use gradido_blockchain_conne.Session.Names.{verify_password_unnamed}
use gradido_blockchain_conne.SessionManager.{
  cached_or_new, issue, active_session, login, get_session,
}
use gradido_blockchain_conne.SessionManager.Access.{get_session_iff, Names, IsActive}
use gradido_blockchain_conne.SessionManager.Cached.{login_cached}
use gradido_blockchain_conne.SessionManager.Granted.{login-get_session, TokenVerifies, CacheKeeps}
use gradido_blockchain_conne.NodeRpc.{
  get_address_balance, get_address_type, get_address_txids, get_creation_sum_for_month,
  put_transaction,
}
use gradido_blockchain_conne.NodeRpc.Failures.{requests_end, Ends}
use gradido_blockchain_conne.Demo.{
  World, is_text, is_alice, alice_token, open_token, is_missing, is_open, demo_library,
  demo_outside, demo_config, alice_session, empty_world, alice_world,
}

-- A login of a stored user opens a session with the stored key.
first_login :
    login_or_create demo_library demo_outside "alice" "pw" "one" "10.0.0.1" empty_world
    ≡ (ok (1, alice_session), empty_world)
unfolding login_or_create get_group_id check_user new_session load_group
first_login = refl

login-Opens_example :
    (secret : ℕ) × (row : UserRow) × (key : List ℕ) × ((w₁ : World) × (demo_outside.run_encryption
          "alice" "pw" empty_world
        ≡ (answer secret, w₁)))
    × ((w₂ w₃ : World) × (demo_outside.select_credentials "alice" (to_uint64 1) w₂
          ≡ (answer (some row), w₃)))
    × Opens demo_library demo_outside secret row key
    × (alice_session.key_pair ≡ some key)
login-Opens_example =
    login-Opens demo_library demo_outside "alice" "pw" "one" "10.0.0.1" alice_session empty_world
      empty_world first_login

verify_password_unnamed_example :
    (secret : ℕ) × ((w₁ : World) × (demo_outside.run_encryption "alice" "pw" empty_world
        ≡ (answer secret, w₁)))
    × ((again : String) (v : World)
        → verify_password demo_library demo_outside alice_session again v
          ≡ (call (demo_outside.run_encryption "" again) >>= λ other.
                pure (demo_library.key_hashed secret == demo_library.key_hashed other))
              v)
verify_password_unnamed_example =
    verify_password_unnamed demo_library demo_outside "alice" "pw" "one" "10.0.0.1" 1 alice_session
      empty_world empty_world first_login

get_session_iff_example :
    (get_session demo_library demo_outside demo_config "token of alice" "10.0.0.1" alice_world
      ≡ (ok alice_session, alice_world))
    ↔ ((name : String) × Names demo_library demo_outside demo_config "token of alice" name
        × IsActive demo_library demo_outside demo_config name "10.0.0.1" alice_world alice_session
            alice_world)
get_session_iff_example =
    get_session_iff demo_library demo_outside demo_config "token of alice" "10.0.0.1" alice_world
      alice_session alice_world

session_found :
    get_session demo_library demo_outside demo_config "token of alice" "10.0.0.1" alice_world
    ≡ (ok alice_session, alice_world)
unfolding get_session active_session
session_found = refl

session_from_elsewhere :
    (name : String) × ((get_session demo_library demo_outside demo_config "token of alice" name
        alice_world).0
      ≡ thrown (login_exception "invalid ip" "alice" name))
unfolding get_session active_session
session_from_elsewhere = ("10.0.0.2", refl)

is_text-eq : (t : String) (o : Option String) → is_text t o ≡ true → o ≡ some t
is_text-eq t (some u) h = ap some ((eq_iff u t).0 h)
is_text-eq t none h = ground arith

is_alice-eq : (t : Token) → is_alice t ≡ true → t ≡ alice_token
is_alice-eq t h =
    let subject : t.subject ≡ "login" = ground (arith, eq_iff t.subject "login") in
    let name = is_text-eq "alice" t.name (ground arith) in
    let pubkey = is_text-eq "07" t.pubkey (ground arith) in
    let issued : t.issued_at ≡ 5 = ground arith in
    let expires : t.expiration ≡ 605 = ground arith in
    λ i. record {
      subject = subject i;
      name = name i;
      pubkey = pubkey i;
      issued_at = issued i;
      expiration = expires i;
    }

is_missing-eq : (o : Option String) → is_missing o ≡ true → o ≡ none
is_missing-eq (some u) h = absurd (false≢true h)
is_missing-eq none h = refl

is_open-eq : (t : Token) → is_open t ≡ true → t ≡ open_token
is_open-eq t h =
    let subject : t.subject ≡ "openConnection" =
      ground (arith, eq_iff t.subject "openConnection") in
    let name = is_missing-eq t.name (ground arith) in
    let pubkey = is_missing-eq t.pubkey (ground arith) in
    let issued : t.issued_at ≡ 5 = ground arith in
    let expires : t.expiration ≡ 605 = ground arith in
    λ i. record {
      subject = subject i;
      name = name i;
      pubkey = pubkey i;
      issued_at = issued i;
      expiration = expires i;
    }

abbrev signed : Token → String
signed t = demo_library.jwt_sign "secret" t

signed-alice : (t : Token) → "token of alice" ≡ signed t → is_alice t ≡ true
signed-alice t h = elim (Bool-cases (is_alice t)) [
  | inl e ↦ e
  | inr e ↦ absurd (elim (Bool-cases (is_open t)) [
    | inl o ↦ absurd (false≢true ((eq_iff "token of alice" "open token").1 (rw (e, o) at h)))
    | inr o ↦ absurd (false≢true ((eq_iff "token of alice" "other token").1 (rw (e, o) at h)))
  ])
]

signed-open : (t : Token) → "open token" ≡ signed t → is_open t ≡ true
signed-open t h = elim (Bool-cases (is_alice t)) [
  | inl e ↦ absurd (false≢true ((eq_iff "open token" "token of alice").1 (rw e at h)))
  | inr e ↦ elim (Bool-cases (is_open t)) [
    | inl o ↦ o
    | inr o ↦ absurd (false≢true ((eq_iff "open token" "other token").1 (rw (e, o) at h)))
  ]
]

pub alice_verifies : TokenVerifies demo_library "secret" "token of alice"
alice_verifies = record {
  verified = λ t h. ap answer (sym (is_alice-eq t (signed-alice t h)));
  named = λ t n h. rw h;
}

pub open_verifies : TokenVerifies demo_library "secret" "open token"
open_verifies = record {
  verified = λ t h. ap answer (sym (is_open-eq t (signed-open t h)));
  named = λ t n h. rw h;
}

pub cache_keeps : CacheKeeps demo_library demo_outside
cache_keeps = record { added = λ k s w. rw (eq_refl k); again = λ k w. refl; clock = λ k w. refl }

first_token :
    login demo_library demo_outside demo_config "alice" "pw" "one" "10.0.0.1" empty_world
    ≡ (ok "token of alice", alice_world)
unfolding login cached_or_new issue login_or_create get_group_id check_user new_session load_group
first_token = refl

login-get_session_example :
    (s : Session demo_library) × (get_session demo_library demo_outside demo_config "token of alice"
        "10.0.0.1"
        (record { clock = 5; cache = ("alice", alice_session) ∷ [] })
      ≡ (ok s, alice_world))
    × ((demo_outside.cache_get "alice" alice_world).0 ≡ some s)
    × (s.client_ip ≡ "10.0.0.1")
login-get_session_example =
    login-get_session demo_library demo_outside demo_config "alice" "pw" "one" "10.0.0.1"
      empty_world alice_world "token of alice" alice_verifies cache_keeps first_token

requests_end_example :
    Ends demo_library demo_outside
      (get_address_balance demo_library demo_outside "07" "1970" "one" "" empty_world).0
    × Ends demo_library demo_outside
        (get_address_type demo_library demo_outside "07" "one" empty_world).0
    × Ends demo_library demo_outside
        (get_address_txids demo_library demo_outside "07" "one" empty_world).0
    × Ends demo_library demo_outside
        (get_creation_sum_for_month demo_library demo_outside "07" 1 1970 "1970" "one"
          empty_world).0
    × Ends demo_library demo_outside
        (put_transaction demo_library demo_outside "07" 1 "one" empty_world).0
requests_end_example =
    requests_end demo_library demo_outside "07" "1970" "one" "" 1 1970 1 empty_world

wrong_password :
    login demo_library demo_outside demo_config "alice" "wrong password" "two" "10.0.0.1"
      alice_world
    ≡ (ok "token of alice", alice_world)
unfolding login cached_or_new issue
wrong_password = refl

login_cached_example :
    (token : String) × (w₁ w₂ : World) × (login demo_library demo_outside demo_config "alice"
        "wrong password" "two" "10.0.0.1" alice_world
      ≡ (ok token, w₁))
    × (get_session demo_library demo_outside demo_config token "10.0.0.1" w₁
        ≡ (ok alice_session, w₂))
login_cached_example =
    login_cached demo_library demo_outside demo_config "alice" "wrong password" "two" alice_world
      alice_session (7 ∷ []) cache_keeps
      (λ token w₁ h.
        let same : "token of alice" ≡ token = cc (wrong_password, h) in
        subst (TokenVerifies demo_library "secret") same alice_verifies)
      refl refl
