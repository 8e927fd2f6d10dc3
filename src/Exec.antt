-- ===== src/Exec.antt =====
-- The program's calls: a call changes a state and ends in one of four ways.
-- Exceptions are values; a response is what a handler's early `return` hands to the server.
pub mod Quiet
pub mod Rules
pub mod Succeeds
use gradido_blockchain_conne.Base.{ℕ, String, Bool, true, false, List}
use gradido_blockchain_conne.Json.{Json}

-- The base classes that the `catch` clauses of the program name, innermost first.
pub data Base : Type 0 where
  gradido poco runtime standard foreign : Base

-- Exception classes of gradido_blockchain and Poco that the program throws or catches by name.
pub data LibraryClass : Type 0 where
  invalid_signature invalid_input iota_request request_response_error : LibraryClass
  rapidjson_parse_error rapidjson_missing_member : LibraryClass
  ed25519_sign ed25519_verify jwt_token handle_request decryption_failed : LibraryClass
  missing_key null_pointer signature_verification sealed_box_decrypt : LibraryClass

-- An exception object: of a class of the program with its members, of a library class that is
-- named, or of any other class, known by the base under which a `catch` can take it.
pub data Exception : Type 0 where
  library : LibraryClass → String → Exception
  other : Base → String → Exception
  login_exception : String → String → String → Exception
  session_exception : String → String → Exception
  node_rpc_exception : String → String → Exception
  apollo_decay_exception : String → String → String → Exception
  row_not_found_exception : String → String → String → Exception
  invalid_password_exception : String → String → ℕ → Exception
  rate_limit_exception : String → Exception
  missing_key_exception : String → String → Exception
  unknown_table_name_exception : String → String → Exception
  missing_migration_exception : String → String → ℕ → Exception

-- `ex.what()`
unfoldable pub what : Exception → String
what (library c w) = w
what (other b w) = w
what (login_exception w user ip) = w
what (session_exception w user) = w
what (node_rpc_exception w details) = w
what (apollo_decay_exception w balance decay) = w
what (row_not_found_exception w table condition) = w
what (invalid_password_exception w user size) = w
what (rate_limit_exception w) = w
what (missing_key_exception w key) = w
what (unknown_table_name_exception w table) = w
what (missing_migration_exception w table version) = w

-- The last argument of `stateError`.
pub data Details : Type 0 where
  no_details : Details
  text : String → Details
  details_of : Exception → Details

-- A response document, by the calls of JsonRequestHandler that build it.
pub data Document : Type 0 where
  state_error : String → Details → Document
  state_success : List (String × Json) → Document

-- `aborted` is undefined behaviour or a failed assertion: no statement runs after it.
pub data Result {ℓ} (A : Type ℓ) : Type ℓ where
  ok : A → Result A
  returned : Document → Result A
  thrown : Exception → Result A
  aborted : Result A

abbrev pub Exec : Type 0 → Type 0 → Type 0
Exec S A = S → Result A × S

module _ {S A : Type 0} where
  abbrev pub pure : A → Exec S A
  pure a s = (ok a, s)

  abbrev pub return_error : String → Exec S A
  return_error message s = (returned (state_error message no_details), s)

  abbrev pub return_document : Document → Exec S A
  return_document d s = (returned d, s)

  abbrev pub throw : Exception → Exec S A
  throw e s = (thrown e, s)

  abbrev pub abort : Exec S A
  abort s = (aborted, s)

  -- What comes after a call that has ended.
  abbrev pub resume : {B : Type 0} → Result A × S → (A → Exec S B) → Result B × S
  resume (ok a, s) f = f a s
  resume (returned d, s) f = (returned d, s)
  resume (thrown e, s) f = (thrown e, s)
  resume (aborted, s) f = (aborted, s)

  infixl 5 ◌>>=◌
  abbrev pub ◌>>=◌ : {B : Type 0} → Exec S A → (A → Exec S B) → Exec S B
  ◌>>=◌ m f s = resume (m s) f

  abbrev pub handle_thrown : Result A × S → (Exception → Exec S A) → Result A × S
  handle_thrown (ok a, s) h = (ok a, s)
  handle_thrown (returned d, s) h = (returned d, s)
  handle_thrown (thrown e, s) h = h e s
  handle_thrown (aborted, s) h = (aborted, s)

  -- try { m } catch (...) { h }
  abbrev pub try_catch : Exec S A → (Exception → Exec S A) → Exec S A
  try_catch m h s = handle_thrown (m s) h

  abbrev pub lift : Result A → Exec S A
  lift r s = (r, s)

infixl 5 ◌>>◌
abbrev pub ◌>>◌ : {S B : Type 0} → Exec S (Unit {0}) → Exec S B → Exec S B
m >> k = m >>= λ _. k

abbrev pub when : {S : Type 0} → Bool → Exec S (Unit {0}) → Exec S (Unit {0})
when true m s = m s
when false m s = (ok tt, s)

-- The body of a handler whose early `return` is its result.
abbrev pub respond : {S : Type 0} → Exec S Document → Exec S Document
respond m s = elim (m s).0 [
  | ok d ↦ (ok d, (m s).1)
  | returned d ↦ (ok d, (m s).1)
  | thrown e ↦ (thrown e, (m s).1)
  | aborted ↦ (aborted, (m s).1)
]
