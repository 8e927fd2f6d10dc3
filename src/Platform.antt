-- ===== src/Platform.antt =====
-- What the program calls and does not implement: gradido_blockchain, Poco, MPFR and libsodium as
-- the functions of `Library`, and the services behind the process as the calls of `Outside`.
-- Each field stands for the calls that its comment names; nothing is assumed of them here.
use gradido_blockchain_conne.Base.{
  ℕ, String, ◌≡◌, refl, ◌⊎◌, inl, inr, Bool, Option, none, some, List,
}
use gradido_blockchain_conne.Json.{Json, Fields}
use gradido_blockchain_conne.Exec.{
  Base, LibraryClass, Exception, Details, Result, ok, thrown, aborted, Exec,
}
use gradido_blockchain_conne.Pending.{PendingTransaction}

-- A foreign call answers or throws.
pub data Reply {ℓ} (A : Type ℓ) : Type ℓ where
  answer : A → Reply A
  fails : Exception → Reply A

pub Reply-cases {ℓ} :
    {A : Type ℓ} (r : Reply A) → ((a : A) × (r ≡ answer a)) ⊎ ((e : Exception) × (r ≡ fails e))
Reply-cases (answer a) = inl (a, refl)
Reply-cases (fails e) = inr (e, refl)

abbrev pub Call : Type 0 → Type 0 → Type 0
Call W A = W → Reply A × W

-- getStringParameter and getUInt64Parameter: the value, or the error that they return.
-- With an error the variable keeps what it held.
pub data Param {ℓ} (A : Type ℓ) : Type ℓ where
  found : A → Param A
  missing : String → Details → Param A

-- The kinds of a transaction body that the program tells apart.
pub data Kind : Type 0 where
  creation : List ℕ → Kind
  transfer : List ℕ → Kind
  deferred_transfer : List ℕ → Kind
  other_kind : Kind

-- RegisterAddress_AddressType
pub data AddressType : Type 0 where
  address_none human project subaccount : AddressType
  other_address : ℕ → AddressType

-- The payload of a JSON web token that the program writes; `none` is a claim that it leaves out.
pub record Token : Type 0 where
  pub subject : String
  pub name : Option String
  pub pubkey : Option String
  pub issued_at : ℕ
  pub expiration : ℕ

-- Times are microseconds, keys and serialised data are bytes.
pub record Library : Type 1 where
  pub Tx : Type 0
  pub Key : Type 0
  pub Secret : Type 0
  pub Number : Type 0
  -- JsonRequestHandler; parse_json is parseJsonWithErrorPrintFile
  pub parse_json : String → Reply Json
  pub get_string_parameter : Json → String → Param String
  pub get_uint64_parameter : Json → String → Param ℕ
  -- Exceptions: the base under which a class is caught, and getFullString
  pub base : LibraryClass → Base
  pub library_full_string : LibraryClass → String → String
  pub missing_key_full_string : String → String → String
  pub other_full_string : Base → String → String
  -- std::to_string
  pub to_string : ℕ → String
  -- Poco::DateTimeParser::parse, DateTime::makeLocal, month, year, DateTimeFormatter::format
  pub parse_date : String → Reply ℕ
  pub make_local : ℕ → ℕ
  pub month : ℕ → ℕ
  pub year : ℕ → ℕ
  pub format_date : ℕ → String
  -- mpfr_set_str, mpfr_add, mpfr_sub, mpfr_abs, mpfr_cmp(a, b) > 0, and mpfr_cmp_d with the two
  -- constants of the program; calculateDecayFactorForDuration with calculateDecayFast; amountToString
  pub set_str : String → Option Number
  pub add : Number → Number → Number
  pub sub : Number → Number → Number
  pub abs : Number → Number
  pub greater : Number → Number → Bool
  pub greater_than_1000 : Number → Bool
  pub not_below_tolerance : Number → Bool
  pub decayed : Number → ℕ → ℕ → Number
  pub amount_to_string : Number → String
  -- DataTypeConverter; hexToBin is null where the text is no hex
  pub bin_to_hex : List ℕ → String
  pub bin_to_base64 : List ℕ → String
  pub hex_to_bin : String → Option (List ℕ)
  pub base64_to_bin : String → List ℕ
  pub base64_to_memory : String → Option (List ℕ)
  -- crypto_sign_ed25519_sk_to_pk; `key_verify` is KeyPairEd25519(key).verify(message, signature)
  -- `base64_to_bin` is base64ToBinString, `base64_to_memory` base64ToBin
  -- KeyPairEd25519, SecretKeyCryptography, AuthenticatedEncryption, SealedBoxes, Passphrase
  pub public_key : Key → List ℕ
  pub key_sign : Key → List ℕ → Reply (List ℕ)
  pub key_of_private : List ℕ → Key
  pub crypted_private_key : Key → Secret → Option (List ℕ)
  pub key_hashed : Secret → ℕ
  pub decrypt : Secret → List ℕ → Option (List ℕ)
  pub private_key : Key → List ℕ
  -- AuthenticatedEncryption from a private x25519 key and from a KeyPairEd25519 of a public key,
  -- with its encrypt and decrypt; crypto_sign_ed25519_sk_to_curve25519
  pub AuthKey : Type 0
  pub sk_to_curve25519 : List ℕ → List ℕ
  pub auth_of_private : List ℕ → AuthKey
  pub auth_of_public : List ℕ → AuthKey
  pub authenticated_encrypt : AuthKey → String → AuthKey → List ℕ
  pub authenticated_decrypt : AuthKey → Option (List ℕ) → AuthKey → Reply (Option String)
  pub sealed_decrypt : Option (List ℕ) → Option (List ℕ) → Reply String
  pub sk_to_pk : List ℕ → List ℕ
  pub key_verify : List ℕ → List ℕ → Option (List ℕ) → Reply Bool
  pub generic_hash : List ℕ → List ℕ
  -- Poco::RegularExpression::match with the expression for base64, rapidjson RemoveMember
  pub is_base64 : String → Bool
  pub remove_member : String → Fields → Fields
  -- GradidoTransaction, TransactionBody, TransactionFactory, CrossGroupTransactionBuilder; a pointer
  -- that may be null is an Option. `create_register_address_of` is the call with all arguments;
  -- `set_memo_created` is setMemo, setCreated and updateBodyBytes, `set_memo_created_only` the first
  -- two; `load_body` makes a transaction of the body in the bytes; `validate` is at its own level.
  pub create_transfer : Option (List ℕ) → String → String → Option (List ℕ) → Reply Tx
  pub create_creation : Option (List ℕ) → String → ℕ → Reply Tx
  pub create_register_address : List ℕ → AddressType → Reply Tx
  pub create_register_address_of :
      Option (List ℕ) → AddressType → Option (List ℕ) → Option (List ℕ) → Reply Tx
  pub outbound : Tx → String → Tx
  pub inbound : Tx → String → Tx
  pub set_parent_message_id : List ℕ → Tx → Tx
  pub set_memo_created : String → ℕ → Tx → Tx
  pub set_memo_created_only : String → ℕ → Tx → Tx
  pub body_bytes : Tx → Reply (List ℕ)
  pub load_body : List ℕ → Reply Tx
  pub add_sign : Option (List ℕ) → Option (List ℕ) → Tx → Reply Tx
  pub sign_count : Tx → ℕ
  pub min_signature_count : Tx → ℕ
  pub validate : Tx → Reply Bool
  pub to_json : Tx → Reply String
  pub validate_single : Tx → Reply Bool
  pub is_valid_group_alias : String → Bool
  pub serialized : Tx → List ℕ
  pub transaction_type : Tx → ℕ
  pub transaction_type_string : ℕ → String
  pub kind : Tx → Kind
  -- GradidoBlock(&bin) with getTransactionBody and getMessageIdHex
  pub read_block : List ℕ → Reply String
  pub address_type_from_string : String → AddressType
  pub address_string_from_type : AddressType → String
  -- Poco::JWT::Signer with its secret: sign and verify; payload().getValue<std::string>
  pub jwt_sign : String → Token → String
  pub jwt_verify : String → String → Reply Token
  pub get_value : Token → String → Reply String

-- src/model/Session.h: the members of a Session. `encryption_secret` and `key_pair` are pointers.
pub record Session (L : Library) : Type 0 where
  pub user_name : String
  pub group_alias : String
  pub group_id : ℕ
  pub client_ip : String
  pub encryption_secret : Option L.Secret
  pub key_pair : Option L.Key

-- Rows of the tables, as the program reads and writes them.
pub record GroupRow : Type 0 where
  pub id : ℕ
  pub name : String
  pub alias : String
  pub description : String

pub record UserRow : Type 0 where
  pub id : ℕ
  pub name : String
  pub group_id : ℕ
  pub password : ℕ
  pub public_key : List ℕ
  pub encrypted_private_key : List ℕ

pub record BackupRow : Type 0 where
  pub user_id : ℕ
  pub key_user_id : ℕ
  pub encrypted_passphrase : List ℕ

pub record Outside (L : Library) : Type 1 where
  pub W : Type 0
  -- the clock of the machine
  pub now : W → ℕ × W
  -- JsonRPCRequest::request to the Gradido Node, IotaRequest::sendMessage
  pub node_request : String → Fields → Call W Json
  pub send_message : String → String → Call W String
  -- PasswordEncryptionRateLimiter::waitForFreeSlotAndRunEncryption for one thread
  pub run_encryption : String → String → Call W L.Secret
  -- KeyPairEd25519::create(Passphrase::generate(..)), and the passphrase sealed for the support key;
  -- CryptoConfig::g_SupportPublicKey may be missing
  pub create_key_pair : W → (L.Key × String) × W
  pub has_support_key : W → Bool
  pub seal_for_support : String → Call W (List ℕ)
  -- the SQL statements of the tables
  pub select_group : String → Call W (Option GroupRow)
  pub insert_group : String → String → String → Call W (Unit {0})
  pub update_group : ℕ → String → String → Call W (Unit {0})
  pub select_user : String → ℕ → Call W (Option UserRow)
  pub select_credentials : String → ℕ → Call W (Option UserRow)
  pub select_names : List String → Call W (List (String × String))
  pub insert_user : UserRow → Call W (Unit {0})
  pub insert_backup : BackupRow → Call W (Unit {0})
  pub last_insert_id : Call W ℕ
  -- Poco::AccessExpireCache
  pub cache_get : String → W → Option (Session L) × W
  pub cache_add : String → Session L → W → W

-- The state of the process: what lies outside, and the list of pending transactions.
pub record State (W : Type 0) : Type 0 where
  pub world : W
  pub pending : List PendingTransaction

module _ {W A : Type 0} where
  abbrev pub of_reply : Reply A × W → Result A × W
  of_reply (answer a, w) = (ok a, w)
  of_reply (fails e, w) = (thrown e, w)

  abbrev pub call : Call W A → Exec W A
  call c w = of_reply (c w)

  -- A call with no effect.
  abbrev pub reply : Reply A → Exec W A
  reply r w = of_reply (r, w)

  abbrev pub total : (W → A × W) → Exec W A
  total c w = (ok (c w).0, (c w).1)

  -- What a call of a part that knows nothing of the list does to the state.
  abbrev pub in_world : Exec W A → Exec (State W) A
  in_world m s = ((m s.world).0, record s { world = (m s.world).1 })

pub call-ok :
    {W A : Type 0} (r : Reply A × W) (a : A) (w : W) → of_reply r ≡ (ok a, w) → r ≡ (answer a, w)
call-ok (answer b, v) a w h = cc h
call-ok (fails e, v) a w h = cc h

abbrev pub modify : {W : Type 0} → (W → W) → Exec W (Unit {0})
modify f w = (ok tt, f w)

-- A pointer that is read without a test.
abbrev pub deref : {S A : Type 0} → Option A → Exec S A
deref none s = (aborted, s)
deref (some a) s = (ok a, s)
