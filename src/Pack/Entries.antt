-- ===== src/Pack/Entries.antt =====
-- src/JSONInterface/JsonPackTransaction.cpp: the entries that an answer of /packTransaction shows.
use gradido_blockchain_conne.Base.{
  ℕ, String, Bool, true, false, ◌&&◌, List, [], ◌∷◌, ◌≡◌, refl, ap, ◌∙◌, nonempty, if◌then◌else◌,
}
use gradido_blockchain_conne.Json.{Json, array}
use gradido_blockchain_conne.Exec.{
  Exception, Document, state_error, ok, return_document, throw, try_catch, ◌>>=◌, text,
}
use gradido_blockchain_conne.Exec.Quiet.{Quiet, nothing, Quiet-pure, Quiet-bind}
use gradido_blockchain_conne.Exec.Succeeds.{Succeeds, Succeeds-pure, Succeeds-bind, Succeeds-ok}
use gradido_blockchain_conne.Platform.{Library, found, Reply, answer, fails, reply}
use gradido_blockchain_conne.Transaction.{or_keep}
use gradido_blockchain_conne.Transaction.Reading.{reply-ok}
use gradido_blockchain_conne.Pack.Quiet.{pack_rules}
use gradido_blockchain_conne.Pack.{
  PackTransaction, poco_error, entry, validated, pack_entry, pack_entries, group_transactions,
}

module _ (L : Library) where
  -- An entry of the answer shows a transaction with the memo and the date of the request, which is
  -- valid, by the bytes of its body and by its group, if it has one.
  pub record PackedEntry (t : PackTransaction) (x : L.Tx × String) (json : Json) : Type 0 where
    pub bytes : List ℕ
    pub is_valid : L.validate (L.set_memo_created_only t.memo t.created x.0) ≡ answer true
    pub serialised : L.body_bytes (L.set_memo_created_only t.memo t.created x.0) ≡ answer bytes
    pub shown : json ≡ entry x.1 (L.bin_to_base64 bytes)

  abbrev pub Packed : PackTransaction → List (L.Tx × String) → List Json → Type 0
  Packed t [] [] = Unit
  Packed t [] (j ∷ js) = ⊥
  Packed t (x ∷ xs) [] = ⊥
  Packed t (x ∷ xs) (j ∷ js) = PackedEntry t x j × Packed t xs js

  -- One transaction without a group, or the two halves of one between two groups.
  pub data Grouped : List (L.Tx × String) → Type 0 where
    alone : (base : L.Tx) → Grouped ((base, "") ∷ [])
    halves :
        (base : L.Tx) (from to : String)
        → nonempty from ≡ true
        → nonempty to ≡ true
        → Grouped ((L.outbound base to, from) ∷ (L.inbound base from, to) ∷ [])

  -- The memo and the date are those of the request.
  pub record Asked (params : Json) (t : PackTransaction) : Type 0 where
    pub memo : t.memo ≡ or_keep (L.get_string_parameter params "memo") ""
    pub date : String
    pub given : L.get_string_parameter params "created" ≡ found date
    pub created : L.parse_date date ≡ answer t.created

  -- The members of a successful answer.
  abbrev pub HasEntries : PackTransaction → List (String × Json) → Type 0
  HasEntries t members =
      (transactions : List (L.Tx × String)) × (entries : List Json) × Grouped transactions
      × Packed t transactions entries
      × (members ≡ ("transactions", array entries) ∷ [])

  abbrev pub IsPack : Json → List (String × Json) → Type 0
  IsPack params members = (t : PackTransaction) × Asked params t × HasEntries t members

  pub groups-Grouped :
      (base : L.Tx) (from to : String) → Grouped (group_transactions L base from to)
  unfolding group_transactions
  groups-Grouped base from to = go (nonempty from) (nonempty to) refl refl
    where
      go :
          (b c : Bool)
          → nonempty from ≡ b
          → nonempty to ≡ c
          → Grouped (
              if b && c
              then (L.outbound base to, from) ∷ (L.inbound base from, to) ∷ []
              else (base, "") ∷ [])
      go true true p q = halves base from to p q
      go true false p q = alone base
      go false c p q = alone base

  module _ {S : Type 0} where
    json-ne-ok :
        (r : Reply String) (s s' : S) (u : Unit {0})
        → (reply r >>= λ json.
              return_document {S = S} (state_error "invalid transaction" (text json)))
            s
          ≡ (ok u, s')
        → ⊥
    json-ne-ok (answer b) s s' u h = cc
    json-ne-ok (fails e) s s' u h = cc

    validated-ok :
        (b : Bool) (tx : L.Tx) (s s' : S) (u : Unit {0})
        → validated L b tx s ≡ (ok u, s')
        → b ≡ true
    validated-ok true tx s s' u h = refl
    validated-ok false tx s s' u h = absurd (json-ne-ok (L.to_json tx) s s' u h)

    poco_error-ne-ok :
        {A : Type 0} (b : Bool) (d : Document) (e : Exception) (s s' : S) (a : A)
        → (if b then return_document d else throw e) s ≡ (ok a, s')
        → ⊥
    poco_error-ne-ok true d e s s' a h = cc
    poco_error-ne-ok false d e s s' a h = cc

    pub caught-ok :
        {A : Type 0} (r : Reply A) (message : String) (s s' : S) (a : A)
        → try_catch (reply r) (poco_error L message) s ≡ (ok a, s')
        → r ≡ answer a
    caught-ok (answer b) message s s' a h = cc
    caught-ok (fails e) message s s' a h = absurd (poco_error-ne-ok _ _ e s s' a h)

    pack_entry-Packed :
        (t : PackTransaction) (tx : L.Tx) (group_alias : String) (s : S)
        → Succeeds (PackedEntry t (tx, group_alias)) (pack_entry L t (tx, group_alias)) s
    unfolding pack_entry
    pack_entry-Packed t tx group_alias s =
        let tx' = L.set_memo_created_only t.memo t.created tx in
        Succeeds-bind _ nothing (reply (L.validate tx')) _ s (search pack_rules depth 6)
          (λ valid s₁ asked.
            Succeeds-bind _ nothing (validated L valid tx') _ s₁ (search pack_rules depth 6)
              (λ u s₂ accepted.
                Succeeds-bind _ nothing
                  (try_catch (reply (L.body_bytes tx')) (poco_error L "exception in serializing")) _
                  s₂ (search pack_rules depth 6)
                  (λ bytes s₃ serialised. Succeeds-pure _ _ s₃ (record {
                    bytes = bytes;
                    is_valid =
                        reply-ok (L.validate tx') s s₁ valid asked
                        ∙ ap answer (validated-ok valid tx' s₁ s₂ u accepted);
                    serialised = caught-ok (L.body_bytes tx') _ s₂ s₃ bytes serialised;
                    shown = refl;
                  }))))

    pack_entry-Quiet :
        (t : PackTransaction) (x : L.Tx × String) → Quiet nothing (pack_entry L {S = S} t x)
    unfolding pack_entry
    pack_entry-Quiet t (tx, group_alias) = search pack_rules depth 10

    pub pack_entries-Quiet :
        (t : PackTransaction) (xs : List (L.Tx × String))
        → Quiet nothing (pack_entries L {S = S} t xs)
    unfolding pack_entries
    pack_entries-Quiet t [] = Quiet-pure _ []
    pack_entries-Quiet t (x ∷ xs) =
        Quiet-bind _ _ _ (pack_entry-Quiet t x)
          (λ json. Quiet-bind _ _ _ (pack_entries-Quiet t xs) (λ rest. Quiet-pure _ (json ∷ rest)))

    pub pack_entries-Packed :
        (t : PackTransaction) (xs : List (L.Tx × String)) (s : S)
        → Succeeds (Packed t xs) (pack_entries L t xs) s
    unfolding pack_entries
    pack_entries-Packed t [] s = Succeeds-pure _ [] s tt
    pack_entries-Packed t ((tx, group_alias) ∷ xs) s =
        Succeeds-bind _ nothing (pack_entry L t (tx, group_alias)) _ s
          (pack_entry-Quiet t (tx, group_alias))
          (λ json s₁ first.
            Succeeds-bind _ nothing (pack_entries L t xs) _ s₁ (pack_entries-Quiet t xs)
              (λ rest s₂ others. Succeeds-pure _ (json ∷ rest) s₂ (
                Succeeds-ok _ _ s s₁ json first (pack_entry-Packed t tx group_alias s),
                Succeeds-ok _ _ s₁ s₂ rest others (pack_entries-Packed t xs s₁),
              )))
