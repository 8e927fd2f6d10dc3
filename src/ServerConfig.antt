-- ===== src/ServerConfig.antt =====
-- src/ServerConfig.h and .cpp: the global settings, how they are read at the start and released at
-- the end. A configured duration is not negative.
pub mod Keys
use gradido_blockchain_conne.Base.{
  ℕ, ◌*◌, String, Bool, true, false, List, [], ◌∷◌, Option, none, some, nonempty, str_eq, ◌==◌,
  length, if◌then◌else◌,
}

pub data ServerSetupType : Type 0 where
  server_type_test server_type_staging server_type_production : ServerSetupType

-- Of the globals, those that this file initialises; the duration is in microseconds, and a pointer
-- that may be null is an Option.
pub record ServerConfig : Type 0 where
  pub server_setup_type : ServerSetupType
  pub crypto_app_secret : Option (List ℕ)
  pub apollo_jwt_public_key : Option (List ℕ)
  pub jwt_private_key : Option (List ℕ)
  pub jwt_verify_secret : String
  pub session_valid_duration : ℕ

-- What the code calls: MapEnvironmentToConfig::getString and getInt with their defaults,
-- sodium_hex2bin with the room for its result, and DataTypeConverter::hexToBin.
pub record Settings : Type 0 where
  pub get_string : String → String → String
  pub get_int : String → ℕ → ℕ
  pub sodium_hex2bin : ℕ → String → Option (List ℕ)
  pub hex_to_bin : String → Option (List ℕ)

-- getServerSetupTypeFromString
unfoldable pub server_setup_type_from_string : String → ServerSetupType
server_setup_type_from_string text =
    if str_eq "test" text
    then server_type_test
    else if str_eq "staging" text
    then server_type_staging
    else if str_eq "production" text
    then server_type_production
    else server_type_production

module _ (cfg : Settings) where
  -- A pointer that is set where the text of the configuration is not empty.
  abbrev pub bin_or_old : String → Option (List ℕ) → Option (List ℕ)
  bin_or_old text old = if nonempty text then cfg.hex_to_bin text else old

  abbrev pub load_keys : ServerConfig → ServerConfig
  load_keys g = record g {
    server_setup_type = server_setup_type_from_string (cfg.get_string "server_setup_type" "");
    crypto_app_secret =
        bin_or_old (cfg.get_string "crypto.app_secret" "21ffbbc616fe") g.crypto_app_secret;
    apollo_jwt_public_key =
        bin_or_old (cfg.get_string "crypto.jwt.apollo_public" "") g.apollo_jwt_public_key;
    jwt_private_key = bin_or_old (cfg.get_string "crypto.jwt.private" "") g.jwt_private_key;
  }

  abbrev pub load_session : ServerConfig → ServerConfig
  load_session g = record g {
    jwt_verify_secret = cfg.get_string "verify.jwt" "";
    session_valid_duration = cfg.get_int "session.duration_seconds" 600 * 1000000;
  }

  -- crypto_sign_SECRETKEYBYTES is 64.
  abbrev check_private_key : Option (List ℕ) → ServerConfig → Bool × ServerConfig
  check_private_key none g = (false, g)
  check_private_key (some key) g = if length key == 64 then (true, load_session g) else (false, g)

  -- crypto_shorthash_KEYBYTES is 16.
  abbrev check_server_key : Option (List ℕ) → ServerConfig → Bool × ServerConfig
  check_server_key none g = (false, g)
  check_server_key (some key) g =
      let rest = check_private_key (load_keys g).jwt_private_key (load_keys g) in
      if length key == 16 then rest else (false, g)

  -- initServerCrypto
  unfoldable pub init_server_crypto : ServerConfig → Bool × ServerConfig
  unfolding server_setup_type_from_string
  init_server_crypto g =
      check_server_key
        (cfg.sodium_hex2bin 16
          (cfg.get_string "crypto.server_key" "a51ef8ac7ef1abf162fb7a65261acd7a"))
        g

-- if (p) { mm->releaseMemory(p); … }
abbrev pub released : Option (List ℕ) → List (List ℕ) → List (List ℕ)
released none later = later
released (some memory) later = memory ∷ later

-- unload, with what it gives back to the memory manager, in this order.
unfoldable pub unload : ServerConfig → List (List ℕ) × ServerConfig
unload g = (
  released g.crypto_app_secret (released g.apollo_jwt_public_key (released g.jwt_private_key [])),
  record g { crypto_app_secret = none; apollo_jwt_public_key = none; jwt_private_key = none },
)
