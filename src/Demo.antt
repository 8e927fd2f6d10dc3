-- ===== src/Demo.antt =====
-- A concrete server for the tests: one user "alice" of one group, a node that answers all that it
-- is asked, and short stand-ins for keys, numbers and transactions.
pub mod Logins
pub mod Transactions
pub mod Notifications
pub mod Packing
pub mod Connections
pub mod Listing
pub mod Serving
pub mod Users
pub mod Settings
use gradido_blockchain_conne.Base.{
  ℕ, ◌+◌, ◌-◌, String, Bool, true, false, ◌&&◌, Option, none, some, List, [], ◌∷◌, ◌++◌, str_eq,
  ltb, ◌==◌, if◌then◌else◌,
}
use gradido_blockchain_conne.Json.{Json, Fields, str, num, arr, obj, nil, end, field, find_field}
use gradido_blockchain_conne.Exec.{gradido, no_details, Exception, library, jwt_token}
use gradido_blockchain_conne.Platform.{
  Library, Outside, Session, Param, found, missing, Reply, answer, fails, Kind, transfer,
  AddressType, address_none, human, project, subaccount, other_address, Token, GroupRow, UserRow,
  State,
}
use gradido_blockchain_conne.ServerConfig.{ServerConfig, server_type_test}

abbrev string_parameter : Option Json → Param String
string_parameter (some (str text)) = found text
string_parameter _ = missing "parameter error" no_details

abbrev number_parameter : Option Json → Param ℕ
number_parameter (some (num n)) = found n
number_parameter _ = missing "parameter error" no_details

abbrev parameter : Json → String → Option Json
parameter (obj fields) name = find_field name fields
parameter _ name = none

abbrev type_name : AddressType → String
type_name address_none = "NONE"
type_name human = "HUMAN"
type_name project = "PROJECT"
type_name subaccount = "SUBACCOUNT"
type_name (other_address n) = "OTHER"

abbrev pub alice_token : Token
alice_token = record {
  subject = "login";
  name = some "alice";
  pubkey = some "07";
  issued_at = 5;
  expiration = 605;
}

abbrev pub is_text : String → Option String → Bool
is_text t (some u) = str_eq u t
is_text t none = false

abbrev pub is_alice : Token → Bool
is_alice t =
    str_eq t.subject "login"
    && is_text "alice" t.name
    && is_text "07" t.pubkey
    && (t.issued_at == 5 && t.expiration == 605)

-- The token of an open connection, from the same second.
abbrev pub open_token : Token
open_token = record {
  subject = "openConnection";
  name = none;
  pubkey = none;
  issued_at = 5;
  expiration = 605;
}

abbrev pub is_missing : Option String → Bool
is_missing none = true
is_missing (some t) = false

abbrev pub is_open : Token → Bool
is_open t =
    str_eq t.subject "openConnection"
    && is_missing t.name
    && is_missing t.pubkey
    && (t.issued_at == 5 && t.expiration == 605)

abbrev value_of : Option String → Reply String
value_of (some text) = answer text
value_of none = fails (library jwt_token "no such claim")

abbrev pub without : String → Fields → Fields
without name end = end
without name (field key value rest) =
    let later = without name rest in if str_eq key name then rest else field key value later

-- The members of all requests whose body is text.
abbrev login_params : Json
login_params = obj (
    field "name" (str "alice") (
      field "password" (str "0a") (
        field "groupAlias" (str "one")
          (field "community-key-A" (str "07") (field "signature" (str "09") end)))))

abbrev pub demo_library : Library
demo_library = record {
  Tx = List ℕ;
  Key = List ℕ;
  Secret = ℕ;
  Number = ℕ;
  get_string_parameter = λ params name. string_parameter (parameter params name);
  get_uint64_parameter = λ params name. number_parameter (parameter params name);
  base = λ c. gradido;
  library_full_string = λ c w. w;
  missing_key_full_string = λ w key. w;
  parse_json = λ text. answer login_params;
  other_full_string = λ b w. w;
  to_string = λ n. "1";
  parse_date = λ text. answer 1000000;
  make_local = λ date. date;
  month = λ date. 1;
  year = λ date. 1970;
  format_date = λ date. "1970-01-01";
  set_str = λ text.
      if str_eq text "100" then some 100 else if str_eq text "9000" then some 9000 else none;
  add = λ a b. a + b;
  sub = λ a b. a - b;
  abs = λ a. a;
  greater = λ a b. ltb b a;
  greater_than_1000 = λ a. ltb 1000 a;
  not_below_tolerance = λ a. ltb 0 a;
  decayed = λ a from to. a;
  amount_to_string = λ a. "100";
  bin_to_hex = λ bytes. "07";
  bin_to_base64 = λ bytes. "Bw==";
  hex_to_bin = λ text. some (7 ∷ []);
  base64_to_bin = λ text. 7 ∷ [];
  public_key = λ key. key;
  key_sign = λ key message. answer (9 ∷ []);
  key_of_private = λ bytes. bytes;
  crypted_private_key = λ key secret. some key;
  key_hashed = λ secret. secret;
  decrypt = λ secret bytes. some bytes;
  private_key = λ key. key;
  AuthKey = List ℕ;
  sk_to_curve25519 = λ key. key;
  auth_of_private = λ key. key;
  auth_of_public = λ key. key;
  authenticated_encrypt = λ sender memo recipient. recipient;
  authenticated_decrypt = λ recipient bytes sender. answer (some "rent");
  base64_to_memory = λ text. some (8 ∷ []);
  is_base64 = λ text. str_eq text "Bw==";
  remove_member = without;
  sealed_decrypt = λ key bytes. answer "pw";
  sk_to_pk = λ key. key;
  key_verify = λ key message sign. answer true;
  generic_hash = λ bytes. bytes;
  create_transfer = λ sender amount coin recipient. answer (1 ∷ []);
  create_creation = λ recipient amount date. answer (2 ∷ []);
  create_register_address_of = λ key type hash subaccount. answer (3 ∷ []);
  create_register_address = λ key type. answer (3 ∷ []);
  outbound = λ tx group_alias. 4 ∷ tx;
  inbound = λ tx group_alias. 5 ∷ tx;
  set_parent_message_id = λ parent tx. parent ++ tx;
  set_memo_created = λ memo created tx. tx;
  set_memo_created_only = λ memo created tx. tx;
  body_bytes = λ tx. answer tx;
  load_body = λ bytes. answer bytes;
  add_sign = λ key sign tx. answer (9 ∷ tx);
  sign_count = λ tx. 2;
  min_signature_count = λ tx. 1;
  validate = λ tx. answer true;
  to_json = λ tx. answer "{}";
  validate_single = λ tx. answer true;
  is_valid_group_alias = λ group_alias. true;
  serialized = λ tx. tx;
  transaction_type = λ tx. 1;
  transaction_type_string = λ type. "transfer";
  kind = λ tx. transfer (7 ∷ []);
  read_block = λ bytes. answer "0f";
  address_type_from_string = λ text. human;
  address_string_from_type = type_name;
  jwt_sign = λ secret t.
      if is_alice t then "token of alice" else if is_open t then "open token" else "other token";
  jwt_verify = λ secret text.
      if str_eq text "token of alice"
      then answer alice_token
      else if str_eq text "open token"
      then answer open_token
      else fails (library jwt_token "invalid");
  get_value = λ t claim. value_of t.name;
}

pub record World : Type 0 where
  pub clock : ℕ
  pub cache : List (String × Session demo_library)

abbrev pub cached : String → List (String × Session demo_library) → Option (Session demo_library)
cached name [] = none
cached name ((other, s) ∷ rest) =
    let later = cached name rest in if str_eq other name then some s else later

abbrev pub group_row : GroupRow
group_row = record { id = 1; name = "group one"; alias = "one"; description = "" }

abbrev user_row : UserRow
user_row = record {
  id = 1;
  name = "alice";
  group_id = 1;
  password = 42;
  public_key = 7 ∷ [];
  encrypted_private_key = 7 ∷ [];
}

abbrev node_answer : Json
node_answer = obj (
    field "result"
      (obj (
        field "balance" (str "100") (
          field "addressType" (str "HUMAN")
            (field "sum" (str "100") (field "transactionNrs" (arr nil) end)))))
      end)

abbrev pub demo_outside : Outside demo_library
demo_outside = record {
  W = World;
  now = λ w. (w.clock, w);
  node_request = λ method params w. (answer node_answer, w);
  send_message = λ index message w. (answer "0f", w);
  run_encryption = λ name password w. (answer 42, w);
  create_key_pair = λ w. ((8 ∷ [], "words"), w);
  has_support_key = λ w. true;
  seal_for_support = λ text w. (answer (9 ∷ []), w);
  select_group = λ group_alias w. (answer (some group_row), w);
  insert_group = λ name group_alias description w. (answer tt, w);
  update_group = λ id name description w. (answer tt, w);
  select_user = λ name group_id w. (answer (some user_row), w);
  select_credentials = λ name group_id w. (answer (some user_row), w);
  select_names = λ pubkeys w. (answer (("07", "alice") ∷ []), w);
  insert_user = λ row w. (answer tt, w);
  insert_backup = λ row w. (answer tt, w);
  last_insert_id = λ w. (answer 1, w);
  cache_get = λ name w. (cached name w.cache, w);
  cache_add = λ name s w. record w { cache = (name, s) ∷ w.cache };
}

abbrev pub demo_config : ServerConfig
demo_config = record {
  server_setup_type = server_type_test;
  crypto_app_secret = none;
  apollo_jwt_public_key = none;
  jwt_private_key = none;
  jwt_verify_secret = "secret";
  session_valid_duration = 600;
}

abbrev pub alice_session : Session demo_library
alice_session = record {
  user_name = "";
  group_alias = "one";
  group_id = 1;
  client_ip = "10.0.0.1";
  encryption_secret = some 42;
  key_pair = some (7 ∷ []);
}

-- Nobody is logged in.
abbrev pub empty_world : World
empty_world = record { clock = 5; cache = [] }

abbrev pub alice_world : World
alice_world = record { clock = 5; cache = ("alice", alice_session) ∷ [] }

abbrev pub alice_state : State World
alice_state = record { world = alice_world; pending = [] }
