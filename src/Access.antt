-- ===== src/Access.antt =====
-- Accesses to parsed JSON that throw, or that rapidjson asserts.
-- A member that is read without a test of its type (`GetString`, `GetUint64`, `GetArray`, a lookup
-- in what is no object) is an assertion: `aborted`.
pub mod Rules
use gradido_blockchain_conne.Base.{ℕ, String, List, [], ◌∷◌, Option, none, some}
use gradido_blockchain_conne.Json.{Json, Fields, num, str, arr, obj, find_field, items}
use gradido_blockchain_conne.Exec.{
  rapidjson_missing_member, library, Exec, ok, pure, throw, abort, ◌>>=◌,
}

module _ {S : Type 0} where
  -- FindMember and HasMember, on a value that has to be an object
  abbrev pub member : String → Json → Exec S (Option Json)
  member name (obj fields) s = (ok (find_field name fields), s)
  member name _ s = abort s

  -- An object whose members are changed.
  abbrev pub fields_of : Json → Exec S Fields
  fields_of (obj fields) s = (ok fields, s)
  fields_of _ s = abort s

  abbrev pub string_of : Json → Exec S String
  string_of (str text) s = (ok text, s)
  string_of _ s = abort s

  abbrev pub uint64_of : Json → Exec S ℕ
  uint64_of (num n) s = (ok n, s)
  uint64_of _ s = abort s

  abbrev pub array_of : Json → Exec S (List Json)
  array_of (arr values) s = (ok (items values), s)
  array_of _ s = abort s

  -- HasMember, or throw
  abbrev pub required : {A : Type 0} → Option A → String → Exec S A
  required (some a) message s = (ok a, s)
  required none message s = throw (library rapidjson_missing_member message) s

  -- for (it …) transactionNrs.push_back(it->GetUint64())
  pub uint64_all : List Json → Exec S (List ℕ)
  uint64_all [] = pure []
  uint64_all (value ∷ values) = do n ← uint64_of value; ns ← uint64_all values; pure (n ∷ ns)
