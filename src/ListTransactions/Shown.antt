-- ===== src/ListTransactions/Shown.antt =====
-- src/JSONInterface/JsonListTransactions.cpp: what the handler changes in the answer of the node.
use gradido_blockchain_conne.Base.{
  ℕ, String, Bool, true, false, Option, none, some, List, [], ◌∷◌, ◌≡◌, ◌≢◌, refl, sym, ap, ◌∙◌,
  nonempty, str_eq, arith, eq_iff, str_eq-ne, if◌then◌else◌, subst, Pointwise,
}
use gradido_blockchain_conne.Json.{
  Json, Items, Fields, end, field, str, num, arr, obj, bool, null, find_member, find_field,
  add_member, set_member, items,
}
use gradido_blockchain_conne.Exec.{Exec, ok, pure, ◌>>=◌}
use gradido_blockchain_conne.Exec.Rules.{bind-ok-elim}
use gradido_blockchain_conne.Access.{member, fields_of, string_of, array_of}
use gradido_blockchain_conne.Access.Rules.{fields_of-ok}
use gradido_blockchain_conne.Platform.{Library}
use gradido_blockchain_conne.Tables.{find_name}
use gradido_blockchain_conne.Transaction.{decrypt_memo}
use gradido_blockchain_conne.ListTransactions.{
  member_of, linked_pubkey, replace_user, clear_memo, show_memo, show_transaction,
  show_transactions,
}

-- No two members have the same name.
abbrev pub DistinctNames : Fields → Type 0
DistinctNames end = Unit
DistinctNames (field key value rest) = (find_field key rest ≡ none) × DistinctNames rest

-- What rapidjson documents of RemoveMember, where no name stands twice: it removes the member of
-- that name, and may move other members in its place.
abbrev pub RemovesOnly : Library → Type 0
RemovesOnly L =
    (name other : String) (fields : Fields)
    → DistinctNames fields
    → other ≢ name
    → find_field other (L.remove_member name fields) ≡ find_field other fields

add_member-other :
    (name other : String) (value : Json) (fields : Fields)
    → other ≢ name
    → find_field other (add_member name value fields) ≡ find_field other fields
unfolding add_member find_field
add_member-other name other value end h = ground (arith, eq_iff name other, h)
add_member-other name other value (field key old rest) h =
    rw (add_member-other name other value rest h)

set_member-other :
    (name other : String) (value : Json) (fields : Fields)
    → other ≢ name
    → find_field other (set_member name value fields) ≡ find_field other fields
unfolding set_member find_field
set_member-other name other value end h = refl
set_member-other name other value (field key old rest) h =
    go (set_member-other name other value rest h) (str_eq key name) refl
  where
    go :
        find_field other (set_member name value rest) ≡ find_field other rest
        → (b : Bool) → str_eq key name ≡ b
        → find_field other
            (if b then field key value rest else field key old (set_member name value rest))
          ≡ find_field other (field key old rest)
    go later true e =
        let ne : str_eq key other ≡ false =
          str_eq-ne key other (λ q. h (sym q ∙ (eq_iff key name).0 e)) in
        rw ne
    go later false e = rw later

set_member-none :
    (name other : String) (value : Json) (fields : Fields)
    → find_field other fields ≡ none
    → find_field other (set_member name value fields) ≡ none
unfolding set_member find_field
set_member-none name other value end h = refl
set_member-none name other value (field key old rest) h =
    go (set_member-none name other value rest) (str_eq key name) (str_eq key other) h refl
  where
    go :
        (find_field other rest ≡ none → find_field other (set_member name value rest) ≡ none)
        → (b c : Bool) → (if c then some old else find_field other rest) ≡ none
        → (str_eq key other ≡ c)
        → find_field other
            (if b then field key value rest else field key old (set_member name value rest))
          ≡ none
    go later b true h e = cc
    go later true false h e = rw e h
    go later false false h e = rw e (later h)

set_member-DistinctNames :
    (name : String) (value : Json) (fields : Fields)
    → DistinctNames fields
    → DistinctNames (set_member name value fields)
unfolding set_member
set_member-DistinctNames name value end d = tt
set_member-DistinctNames name value (field key old rest) (d, ds) =
    go (set_member-DistinctNames name value rest ds) (str_eq key name)
  where
    go :
        DistinctNames (set_member name value rest)
        → (b : Bool)
        → DistinctNames
            (if b then field key value rest else field key old (set_member name value rest))
    go later true = (d, ds)
    go later false = (set_member-none name key value rest d, later)

-- The members of a transaction but for its user and its memo.
abbrev pub SameBut : String → Fields → Fields → Type 0
SameBut name old new = (n : String) → n ≢ name → find_field n new ≡ find_field n old

abbrev pub UniqueMembers : Json → Type 0
UniqueMembers (obj fields) = DistinctNames fields
UniqueMembers j = Unit

-- A transaction in which no name stands twice is shown with these members.
abbrev pub Shown : Json → Json → Type 0
Shown old new =
    UniqueMembers old
    → (n : String) → n ≢ "linkedUser"
    → n ≢ "memo"
    → find_member n new ≡ find_member n old

module _ {S : Type 0} where
  pub pure-ok : {A : Type 0} (a b : A) (s s' : S) → pure a s ≡ (ok b, s') → a ≡ b
  pure-ok a b s s' h = cc

  pub array_of-ok :
      (j : Json) (s s' : S) (values : List Json)
      → array_of j s ≡ (ok values, s')
      → (is : Items) × (j ≡ arr is) × (items is ≡ values)
  array_of-ok (arr is) s s' values h = (is, refl, cc)
  array_of-ok (obj g) s s' values h = cc
  array_of-ok null s s' values h = cc
  array_of-ok (bool b) s s' values h = cc
  array_of-ok (num n) s s' values h = cc
  array_of-ok (str t) s s' values h = cc

module _ (L : Library) (removes : RemovesOnly L) where
  memo-SameBut :
      (b : Bool) (clear : String) (fields : Fields)
      → DistinctNames fields
      → SameBut "memo" fields
          (if b then add_member "memo" (str clear) (L.remove_member "memo" fields) else fields)
  memo-SameBut true clear fields d n h =
      add_member-other "memo" n (str clear) (L.remove_member "memo" fields) h
      ∙ removes "memo" n fields d h
  memo-SameBut false clear fields d n h = refl

  module _ {S : Type 0} where
    clear_memo-SameBut :
        (o : Option (List ℕ)) (memo : String) (key : L.Key) (fields new : Fields) (s s' : S)
        → DistinctNames fields
        → clear_memo L o memo key fields s ≡ (ok new, s')
        → SameBut "memo" fields new
    clear_memo-SameBut none memo key fields new s s' d h n m =
        ap (find_field n) (sym (pure-ok fields new s s' h))
    clear_memo-SameBut (some pubkey) memo key fields new s s' d h n m =
        bind-ok-elim (decrypt_memo L memo pubkey key) _ s h (λ clear s₁ e₁ h₁.
          ap (find_field n) (sym (pure-ok _ new s₁ s' h₁))
          ∙ memo-SameBut (nonempty clear) clear fields d n m)

    if-ok :
        (b : Bool) (m : Exec S Fields) (fields new : Fields) (s s' : S)
        → (m s ≡ (ok new, s') → SameBut "memo" fields new)
        → (if b then m else pure fields) s ≡ (ok new, s')
        → SameBut "memo" fields new
    if-ok true m fields new s s' k h = k h
    if-ok false m fields new s s' k h = λ n e. ap (find_field n) (sym (pure-ok fields new s s' h))

    show_memo-SameBut :
        (m t : Option Json) (pubkey : String) (key : L.Key) (fields new : Fields) (s s' : S)
        → DistinctNames fields
        → show_memo L m t pubkey key fields s ≡ (ok new, s')
        → SameBut "memo" fields new
    unfolding show_memo
    show_memo-SameBut none t pubkey key fields new s s' d h =
        λ n e. ap (find_field n) (sym (pure-ok fields new s s' h))
    show_memo-SameBut (some m) none pubkey key fields new s s' d h =
        λ n e. ap (find_field n) (sym (pure-ok fields new s s' h))
    show_memo-SameBut (some m) (some t) pubkey key fields new s s' d h =
        bind-ok-elim (string_of m) _ s h (λ memo s₁ e₁ h₁.
          bind-ok-elim (string_of t) _ s₁ h₁ (λ type_id s₂ e₂ h₂.
            if-ok (L.is_base64 memo) (clear_memo L (L.hex_to_bin pubkey) memo key fields) fields new
              s₂ s' (clear_memo-SameBut (L.hex_to_bin pubkey) memo key fields new s₂ s' d) h₂))

    show_transaction-Shown :
        (names : List (String × String)) (key : L.Key) (t new : Json) (s s' : S)
        → show_transaction L names key t s ≡ (ok new, s')
        → Shown t new
    unfolding show_transaction
    show_transaction-Shown names key t new s s' h unique n user memo =
        bind-ok-elim (linked_pubkey t) _ s h (λ pubkey s₁ e₁ h₁.
          bind-ok-elim (member_of "linkedUser" t >>= fields_of) _ s₁ h₁ (λ linked s₂ e₂ h₂.
            bind-ok-elim (member "typeId" t) _ s₂ h₂ (λ type_id s₃ e₃ h₃.
              bind-ok-elim (replace_user L (find_name pubkey names) type_id _) _ s₃ h₃
                (λ replaced s₄ e₄ h₄. bind-ok-elim (fields_of t) _ s₄ h₄ (λ fields s₅ e₅ h₅.
                  bind-ok-elim
                    (show_memo L (find_field "memo" fields) type_id pubkey key
                      (set_member "linkedUser" (obj replaced) fields))
                    _ s₅ h₅
                    (λ shown s₆ e₆ h₆.
                      ap (find_member n) (sym (pure-ok (obj shown) new s₆ s' h₆))
                      ∙ show_memo-SameBut (find_field "memo" fields) type_id pubkey key
                          (set_member "linkedUser" (obj replaced) fields) shown s₅ s₆
                          (set_member-DistinctNames "linkedUser" (obj replaced) fields
                            (subst UniqueMembers (fields_of-ok t s₄ s₅ fields e₅).0 unique))
                          e₆ n memo
                      ∙ set_member-other "linkedUser" n (obj replaced) fields user
                      ∙ ap (find_member n) (sym (fields_of-ok t s₄ s₅ fields e₅).0)))))))

    pub show_transactions-Shown :
        (names : List (String × String)) (key : L.Key) (ts shown : List Json) (s s' : S)
        → show_transactions L names key ts s ≡ (ok shown, s')
        → Pointwise Shown ts shown
    unfolding show_transactions
    show_transactions-Shown names key [] shown s s' h =
        subst (Pointwise Shown []) (pure-ok [] shown s s' h) tt
    show_transactions-Shown names key (t ∷ ts) shown s s' h =
        bind-ok-elim (show_transaction L names key t) _ s h (λ first s₁ e₁ h₁.
          bind-ok-elim (show_transactions L names key ts) _ s₁ h₁ (λ others s₂ e₂ h₂.
            subst (Pointwise Shown (t ∷ ts)) (pure-ok (first ∷ others) shown s₂ s' h₂) (
              show_transaction-Shown names key t first s s₁ e₁,
              show_transactions-Shown names key ts others s₁ s₂ e₂,
            )))
