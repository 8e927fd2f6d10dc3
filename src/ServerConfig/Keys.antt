-- ===== src/ServerConfig/Keys.antt =====
-- src/ServerConfig.cpp: with which settings the server starts, and that it gives its keys back.
use gradido_blockchain_conne.Base.{
  ℕ, Bool, true, false, List, ◌≡◌, ◌↔◌, refl, sym, ◌∙◌, Option, none, some, ◌==◌, length,
  if◌then◌else◌, false≢true, ==_iff,
}
use gradido_blockchain_conne.ServerConfig.{
  ServerConfig, Settings, bin_or_old, load_keys, load_session, check_private_key, check_server_key,
  init_server_crypto,
}

abbrev pub HasSize : ℕ → Option (List ℕ) → Type 0
HasSize n o = (key : List ℕ) × (o ≡ some key) × (length key ≡ n)

-- A test that a call passes exactly under a condition, with what it leaves in either case.
abbrev pub Passes : Bool × ServerConfig → Type 0 → ServerConfig → ServerConfig → Type 0
Passes r P done kept =
    ((r.0 ≡ true) ↔ P)
    × (r.0 ≡ true → r.1 ≡ done)
    × (r.0 ≡ false
        → (r.1.jwt_verify_secret ≡ kept.jwt_verify_secret)
          × (r.1.session_valid_duration ≡ kept.session_valid_duration))

size-ne-none : (n : ℕ) → HasSize n none → ⊥
size-ne-none n (key, e, l) = cc e

size_of : (n : ℕ) (key : List ℕ) → HasSize n (some key) → length key ≡ n
size_of n key (other, e, l) = let same : key ≡ other = cc e in rw same l

module _ (cfg : Settings) where
  private_key-Passes :
      (o : Option (List ℕ)) (g : ServerConfig)
      → Passes (check_private_key cfg o g) (HasSize 64 o) (load_session cfg g) g
  private_key-Passes none g = (
    (λ e. absurd (false≢true e), λ h. absurd (size-ne-none 64 h)),
    λ e. absurd (false≢true e),
    λ e. (refl, refl),
  )
  private_key-Passes (some key) g = go (length key == 64) refl
    where
      go :
          (b : Bool)
          → (length key == 64) ≡ b
          → Passes
              (if b then (true, load_session cfg g) else (false, g))
              (HasSize 64 (some key))
              (load_session cfg g)
              g
      go true e = (
        (λ h. (key, refl, (==_iff (length key) 64).0 e), λ h. refl),
        λ h. refl,
        λ h. absurd (false≢true (sym h)),
      )
      go false e = (
        (λ h. absurd (false≢true h), λ h. sym e ∙ (==_iff (length key) 64).1 (size_of 64 key h)),
        λ h. absurd (false≢true h),
        λ h. (refl, refl),
      )

  server_key-Passes :
      (o : Option (List ℕ)) (g : ServerConfig)
      → Passes
          (check_server_key cfg o g)
          (HasSize 16 o × HasSize 64 (load_keys cfg g).jwt_private_key)
          (load_session cfg (load_keys cfg g))
          g
  server_key-Passes none g = (
    (λ e. absurd (false≢true e), λ h. absurd (size-ne-none 16 h.0)),
    λ e. absurd (false≢true e),
    λ e. (refl, refl),
  )
  server_key-Passes (some key) g = go (length key == 16) refl
    where
      inner :
          Passes
            (check_private_key cfg (load_keys cfg g).jwt_private_key (load_keys cfg g))
            (HasSize 64 (load_keys cfg g).jwt_private_key)
            (load_session cfg (load_keys cfg g))
            (load_keys cfg g)
      inner = private_key-Passes (load_keys cfg g).jwt_private_key (load_keys cfg g)

      go :
          (b : Bool)
          → (length key == 16) ≡ b
          → Passes
              (if b
                then check_private_key cfg (load_keys cfg g).jwt_private_key (load_keys cfg g)
                else (false, g))
              (HasSize 16 (some key) × HasSize 64 (load_keys cfg g).jwt_private_key)
              (load_session cfg (load_keys cfg g))
              g
      go true e = (
        (λ h. ((key, refl, (==_iff (length key) 16).0 e), inner.0.0 h), λ h. inner.0.1 h.1),
        inner.1,
        inner.2,
      )
      go false e = (
        (λ h. absurd (false≢true h), λ h. sym e ∙ (==_iff (length key) 16).1 (size_of 16 key h.0)),
        λ h. absurd (false≢true h),
        λ h. (refl, refl),
      )

  module _ (g : ServerConfig) where
    abbrev pub server_key : Option (List ℕ)
    server_key =
        cfg.sodium_hex2bin 16
          (cfg.get_string "crypto.server_key" "a51ef8ac7ef1abf162fb7a65261acd7a")

    abbrev pub private_key : Option (List ℕ)
    private_key = bin_or_old cfg (cfg.get_string "crypto.jwt.private" "") g.jwt_private_key

    -- initServerCrypto succeeds exactly if the server key is hex of 16 bytes and the private key, from
    -- the configuration or, where that is empty, as it was, has 64 bytes. If it succeeds, the globals
    -- are the keys and settings of the configuration; if not, the verify secret and the duration of
    -- sessions are as they were.
    pub init_server_crypto-Passes :
        Passes
          (init_server_crypto cfg g)
          (HasSize 16 server_key × HasSize 64 private_key)
          (load_session cfg (load_keys cfg g))
          g
    unfolding init_server_crypto
    init_server_crypto-Passes = server_key-Passes server_key g
