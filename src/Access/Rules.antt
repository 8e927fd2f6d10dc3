-- ===== src/Access/Rules.antt =====
-- Foreign calls and accesses to JSON never end by an early return.
use gradido_blockchain_conne.Base.{String, List, [], ◌∷◌, Option, none, some, ◌≡◌}
use gradido_blockchain_conne.Json.{Json, Fields, null, bool, num, str, arr, obj, find_member}
use gradido_blockchain_conne.Exec.{ok}
use gradido_blockchain_conne.Exec.Rules.{
  Silent, Silent-bind, Silent-pure, silent_rules, NotReturned,
}
use gradido_blockchain_conne.Platform.{Call, Reply, answer, fails, call, reply, total, deref}
use gradido_blockchain_conne.Access.{
  uint64_all, member, fields_of, string_of, array_of, uint64_of, required,
}

module _ {S : Type 0} where
  pub Silent-call : {A : Type 0} (c : Call S A) → Silent (call c)
  Silent-call c = record { at = λ s. go (c s) }
    where
      go : {A : Type 0} (r : Reply A × S) → NotReturned (call (λ s. r) r.1).0
      go (answer a, s) = tt
      go (fails e, s) = tt

  pub Silent-reply : {A : Type 0} (r : Reply A) → Silent {S = S} (reply r)
  Silent-reply (answer a) = record { at = λ s. tt }
  Silent-reply (fails e) = record { at = λ s. tt }

  pub Silent-deref : {A : Type 0} (o : Option A) → Silent {S = S} (deref o)
  Silent-deref none = record { at = λ s. tt }
  Silent-deref (some a) = record { at = λ s. tt }

  pub Silent-total : {A : Type 0} (c : S → A × S) → Silent (total c)
  Silent-total c = record { at = λ s. tt }

  pub Silent-member : (name : String) (j : Json) → Silent {S = S} (member name j)
  Silent-member name (obj fields) = record { at = λ s. tt }
  Silent-member name _ = record { at = λ s. tt }

  pub member-ok :
      (name : String) (j : Json) (s s' : S) (o : Option Json)
      → member name j s ≡ (ok o, s')
      → find_member name j ≡ o
  member-ok name (obj fields) s s' o h = cc
  member-ok name null s s' o h = cc
  member-ok name (bool b) s s' o h = cc
  member-ok name (num n) s s' o h = cc
  member-ok name (str t) s s' o h = cc
  member-ok name (arr values) s s' o h = cc

  pub fields_of-ok :
      (j : Json) (s s' : S) (fields : Fields)
      → fields_of j s ≡ (ok fields, s')
      → (j ≡ obj fields) × (s ≡ s')
  fields_of-ok (obj g) s s' fields h = (cc, cc)
  fields_of-ok null s s' fields h = cc
  fields_of-ok (bool b) s s' fields h = cc
  fields_of-ok (num n) s s' fields h = cc
  fields_of-ok (str t) s s' fields h = cc
  fields_of-ok (arr values) s s' fields h = cc

  pub deref-ok :
      {A : Type 0} (o : Option A) (s s' : S) (a : A)
      → deref o s ≡ (ok a, s')
      → (o ≡ some a) × (s ≡ s')
  deref-ok none s s' a h = cc
  deref-ok (some b) s s' a h = (cc, cc)

  pub Silent-fields_of : (j : Json) → Silent {S = S} (fields_of j)
  Silent-fields_of (obj fields) = record { at = λ s. tt }
  Silent-fields_of _ = record { at = λ s. tt }

  pub Silent-string_of : (j : Json) → Silent {S = S} (string_of j)
  Silent-string_of (str t) = record { at = λ s. tt }
  Silent-string_of _ = record { at = λ s. tt }

  pub Silent-uint64_of : (j : Json) → Silent {S = S} (uint64_of j)
  Silent-uint64_of (num t) = record { at = λ s. tt }
  Silent-uint64_of _ = record { at = λ s. tt }

  pub Silent-array_of : (j : Json) → Silent {S = S} (array_of j)
  Silent-array_of (arr t) = record { at = λ s. tt }
  Silent-array_of _ = record { at = λ s. tt }

  pub Silent-required : (o : Option Json) (message : String) → Silent {S = S} (required o message)
  Silent-required none message = record { at = λ s. tt }
  Silent-required (some j) message = record { at = λ s. tt }

  pub Silent-uint64_all : (values : List Json) → Silent {S = S} (uint64_all values)
  unfolding uint64_all
  Silent-uint64_all [] = record { at = λ s. tt }
  Silent-uint64_all (value ∷ values) =
      Silent-bind _ _ (Silent-uint64_of value)
        (λ n. Silent-bind _ _ (Silent-uint64_all values) (λ ns. Silent-pure (n ∷ ns)))

pub ruleset access_rules = (
  silent_rules, Silent-call, Silent-member, Silent-string_of, Silent-uint64_of, Silent-array_of,
  Silent-fields_of, Silent-required, Silent-uint64_all,
)
