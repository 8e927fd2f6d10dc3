-- ===== src/ListTransactions/Keys.antt =====
-- src/JSONInterface/JsonListTransactions.cpp: which public keys the database is asked for.
use gradido_blockchain_conne.Base.{
  String, Bool, true, false, ◌||◌, ◌&&◌, Option, none, some, List, [], ◌∷◌, ◌++◌, ◌≡◌, refl, sym,
  ap, ◌∙◌, nonempty, str_eq, arith, eq_iff, if◌then◌else◌, subst,
}
use gradido_blockchain_conne.Json.{Json, str, num, arr, obj, bool, null, find_member}
use gradido_blockchain_conne.Exec.{ok, ◌>>=◌}
use gradido_blockchain_conne.Exec.Rules.{bind-ok-elim}
use gradido_blockchain_conne.Access.{member, string_of}
use gradido_blockchain_conne.Access.Rules.{member-ok, deref-ok}
use gradido_blockchain_conne.Platform.{deref}
use gradido_blockchain_conne.ListTransactions.{
  contains, add_pubkey, member_of, linked_pubkey, collect_pubkeys,
}

-- The text that a value holds, and the key of a listed transaction.
abbrev pub text_of : Option Json → Option String
text_of (some (str t)) = some t
text_of _ = none

abbrev pub within : String → Option Json → Option Json
within name (some j) = find_member name j
within name none = none

abbrev pub pubkey_of : Json → Option String
pubkey_of transaction = text_of (within "pubkey" (find_member "linkedUser" transaction))

-- Whether one of the transactions has this key.
abbrev pub has_pubkey : String → List Json → Bool
has_pubkey key [] = false
has_pubkey key (transaction ∷ rest) =
    elim (pubkey_of transaction) [ none ↦ false | some other ↦ str_eq other key ]
    || has_pubkey key rest

-- No key is in the list twice.
abbrev pub Distinct : List String → Type 0
Distinct [] = Unit
Distinct (key ∷ rest) = (contains key rest ≡ false) × Distinct rest

contains-append :
    (key : String) (xs ys : List String)
    → contains key (xs ++ ys) ≡ (contains key xs || contains key ys)
contains-append key [] ys = refl
contains-append key (x ∷ xs) ys = rw (contains-append key xs ys) (ground arith)

append-Distinct :
    (key : String) (xs : List String)
    → contains key xs ≡ false
    → Distinct xs
    → Distinct (xs ++ key ∷ [])
append-Distinct key [] h d = (refl, tt)
append-Distinct key (x ∷ xs) h d = (
  rw (contains-append x xs (key ∷ [])) (ground (arith, d.0, h, eq_iff x key, eq_iff key x)),
  append-Distinct key xs (ground arith) d.1,
)

-- The two tests of `add_pubkey` and what it does in each case.
data Added (key : String) (keys : List String) : List String → Type 0 where
  no_key : nonempty key ≡ false → Added key keys keys
  known : contains key keys ≡ true → nonempty key ≡ true → Added key keys keys
  fresh : contains key keys ≡ false → nonempty key ≡ true → Added key keys (keys ++ key ∷ [])

add_pubkey-Added : (key : String) (keys : List String) → Added key keys (add_pubkey key keys)
add_pubkey-Added key keys = go (nonempty key) (contains key keys) refl refl
  where
    go :
        (b c : Bool)
        → nonempty key ≡ b
        → contains key keys ≡ c
        → Added key keys (if b then (if c then keys else keys ++ key ∷ []) else keys)
    go true true p q = known q p
    go true false p q = fresh q p
    go false c p q = no_key p

add_one-Distinct :
    (key : String) (keys new : List String) → Added key keys new → Distinct keys → Distinct new
add_one-Distinct key keys new (no_key e) d = d
add_one-Distinct key keys new (known e f) d = d
add_one-Distinct key keys new (fresh e f) d = append-Distinct key keys e d

contains-same :
    (key other : String) (keys : List String)
    → str_eq key other ≡ true
    → contains key keys ≡ contains other keys
contains-same key other keys h = ap (λ k. contains k keys) ((eq_iff key other).0 h)

contains_after :
    (key other : String) (keys new : List String)
    → Added key keys new
    → contains other new ≡ (contains other keys || (str_eq key other && nonempty key))
contains_after key other keys new (no_key e) = ground (arith, e)
contains_after key other keys new (known e f) = ground (arith, e, f, contains-same key other keys)
contains_after key other keys new (fresh e f) =
    rw (contains-append other keys (key ∷ [])) (ground (arith, e, f))

has_pubkey-cons :
    (t : Json) (key other : String) (ts : List Json)
    → pubkey_of t ≡ some key
    → has_pubkey other (t ∷ ts) ≡ (str_eq key other || has_pubkey other ts)
has_pubkey-cons t key other ts e = rw e

or-false : (b : Bool) → b ≡ (b || false)
or-false true = refl
or-false false = refl

regroup :
    (c e n h m : Bool) → (e ≡ true → n ≡ m) → ((c || (e && n)) || (h && m)) ≡ (c || ((e || h) && m))
regroup true e n h m k = refl
regroup false true true h m k = ground (arith, k refl)
regroup false true false h m k = ground (arith, k refl)
regroup false false n h m k = refl

module _ {S : Type 0} where
  string_of-ok : (j : Json) (s s' : S) (t : String) → string_of j s ≡ (ok t, s') → j ≡ str t
  string_of-ok (str u) s s' t h = cc
  string_of-ok null s s' t h = cc
  string_of-ok (bool b) s s' t h = cc
  string_of-ok (num n) s s' t h = cc
  string_of-ok (arr values) s s' t h = cc
  string_of-ok (obj fields) s s' t h = cc

  pub member_of-ok :
      (name : String) (j : Json) (s s' : S) (v : Json)
      → member_of name j s ≡ (ok v, s')
      → find_member name j ≡ some v
  member_of-ok name j s s' v h =
      bind-ok-elim (member name j) deref s h
        (λ o s₁ e₁ h₁. member-ok name j s s₁ o e₁ ∙ (deref-ok o s₁ s' v h₁).0)

  pub linked_pubkey-ok :
      (t : Json) (s s' : S) (key : String)
      → linked_pubkey t s ≡ (ok key, s')
      → pubkey_of t ≡ some key
  unfolding linked_pubkey
  linked_pubkey-ok t s s' key h =
      bind-ok-elim (member_of "linkedUser" t >>= member_of "pubkey") string_of s h (λ j s₂ e₂ h₂.
        bind-ok-elim (member_of "linkedUser" t) (member_of "pubkey") s e₂ (λ linked s₁ e₁ h₁. rw (
          member_of-ok "linkedUser" t s s₁ linked e₁,
          member_of-ok "pubkey" linked s₁ s₂ j h₁,
          string_of-ok j s₂ s' key h₂,
        )))

  -- The first loop leaves the keys that it starts with, and adds each key of the list that is not
  -- empty, once.
  collect_pubkeys-Distinct :
      (ts : List Json) (keys found : List String) (s s' : S)
      → collect_pubkeys keys ts s ≡ (ok found, s')
      → Distinct keys
      → Distinct found
        × ((key : String)
            → contains key found ≡ (contains key keys || (has_pubkey key ts && nonempty key)))
  unfolding collect_pubkeys
  collect_pubkeys-Distinct [] keys found s s' h d =
      let e : keys ≡ found = cc h in
      (subst Distinct e d, λ key. rw e (or-false (contains key found)))
  collect_pubkeys-Distinct (t ∷ ts) keys found s s' h d =
      bind-ok-elim (linked_pubkey t) (λ key. collect_pubkeys (add_pubkey key keys) ts) s h
        (λ key s₁ e₁ h₁.
          let added = add_pubkey-Added key keys in
          let (distinct, members) =
            collect_pubkeys-Distinct ts (add_pubkey key keys) found s₁ s' h₁
              (add_one-Distinct key keys _ added d) in
          (
            distinct,
            λ other.
                members other
                ∙ ap (λ b. b || (has_pubkey other ts && nonempty other))
                    (contains_after key other keys _ added)
                ∙ regroup (contains other keys) (str_eq key other) (nonempty key)
                    (has_pubkey other ts) (nonempty other)
                    (λ e. ap nonempty ((eq_iff key other).0 e))
                ∙ ap (λ b. contains other keys || (b && nonempty other))
                    (sym (has_pubkey-cons t key other ts (linked_pubkey-ok t s s₁ key e₁))),
          ))

  -- If the keys of the listed transactions can be read, then each key that is not empty and that one
  -- of the transactions has is collected, no other key, and none of them twice.
  pub collected_once :
      (ts : List Json) (found : List String) (s s' : S)
      → collect_pubkeys [] ts s ≡ (ok found, s')
      → Distinct found × ((key : String) → contains key found ≡ (has_pubkey key ts && nonempty key))
  collected_once ts found s s' h = collect_pubkeys-Distinct ts [] found s s' h tt
