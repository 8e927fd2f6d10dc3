-- ===== src/Pending/Latest.antt =====
-- Which entry `updateTransaction` changes, for message ids of the 64 characters that it compares.
use mathlib.Core.List.{reverse-append, reverse-reverse, reverse-cons, append_assoc}
use mathlib.Core.Option
use gradido_blockchain_conne.Base.{
  ℕ, zero, suc, String, ◌≡◌, ◌≢◌, ◌↔◌, refl, ap, sym, ◌∙◌, Bool, true, ◌⊎◌, inl, inr, Option, none,
  some, List, [], ◌∷◌, ◌++◌, reverse, arith, if◌then◌else◌, false≢true, Bool-cases, length, take,
  All, All-reverse, length-reverse,
}
use gradido_blockchain_conne.Pending.{
  PendingTransaction, list_eq, same_id, settle, update_newest_first, update_transaction,
}

abbrev pub IsMessageId : List ℕ → Type 0
IsMessageId id = length id ≡ 64

abbrev pub HasMessageId : PendingTransaction → Type 0
HasMessageId e = IsMessageId e.iota_message_id

pub list_eq_iff : (a b : List ℕ) → (list_eq a b ≡ true) ↔ (a ≡ b)
list_eq_iff [] [] = ground arith
list_eq_iff [] (y ∷ ys) = ground arith
list_eq_iff (x ∷ xs) [] = ground arith
list_eq_iff (x ∷ xs) (y ∷ ys) = ground (arith, list_eq_iff xs ys)

take_whole : (n : ℕ) (a : List ℕ) → length a ≡ n → take n (a ++ 0 ∷ []) ≡ a
take_whole zero [] h = refl
take_whole zero (x ∷ a) h = absurd (omega arith)
take_whole (suc n) [] h = absurd (omega arith)
take_whole (suc n) (x ∷ a) h = ap (◌∷◌ x) (take_whole n a (omega arith))

-- On two message ids the comparison of 64 bytes is the comparison of the ids.
pub same_id-eq : (a b : List ℕ) → IsMessageId a → IsMessageId b → same_id a b ≡ some (list_eq a b)
unfolding same_id
same_id-eq a b ha hb = rw (take_whole 64 a ha, take_whole 64 b hb, ha, hb)

-- The newest entry with an id, or none.
unfoldable pub find_first : List ℕ → List PendingTransaction → Option PendingTransaction
find_first id [] = none
find_first id (e ∷ older) =
    let rest = find_first id older in if list_eq e.iota_message_id id then some e else rest

unfoldable pub latest : List ℕ → List PendingTransaction → Option PendingTransaction
latest id p = find_first id (reverse p)

pub latest-append :
    (id : List ℕ) (p : List PendingTransaction) (e : PendingTransaction)
    → latest id (p ++ e ∷ []) ≡ (if list_eq e.iota_message_id id then some e else latest id p)
unfolding latest find_first
latest-append id p e = rw (reverse-append p (e ∷ []))

-- The loop where no comparison runs over the end of a string.
alter : List ℕ → Bool → String → List PendingTransaction → List PendingTransaction
alter id accepted message [] = []
alter id accepted message (e ∷ older) =
    let rest = alter id accepted message older in
    if list_eq e.iota_message_id id then settle accepted message e ∷ older else e ∷ rest

module _ (id : List ℕ) (accepted : Bool) (message : String) where
  update_newest_first-alter :
      (p : List PendingTransaction)
      → IsMessageId id
      → All HasMessageId p
      → update_newest_first id accepted message p ≡ some (alter id accepted message p)
  unfolding update_newest_first alter
  update_newest_first-alter [] h hs = refl
  update_newest_first-alter (e ∷ older) h hs =
      ground (arith, same_id-eq e.iota_message_id id hs.0 h, update_newest_first-alter older h hs.1)

  length-alter : (p : List PendingTransaction) → length (alter id accepted message p) ≡ length p
  unfolding alter
  length-alter [] = refl
  length-alter (e ∷ older) = ground (arith, length-alter older)

  settle-id :
      (e : PendingTransaction) → (settle accepted message e).iota_message_id ≡ e.iota_message_id
  settle-id e = ground arith

  alter-HasMessageId :
      (p : List PendingTransaction)
      → All HasMessageId p
      → All HasMessageId (alter id accepted message p)
  unfolding alter
  alter-HasMessageId [] h = tt
  alter-HasMessageId (e ∷ older) h = ground (arith, alter-HasMessageId older h.1, settle-id e)

  find_first-alter :
      (j : List ℕ) (p : List PendingTransaction)
      → find_first j (alter id accepted message p) ≡ (
          if list_eq id j
          then Option.map (settle accepted message) (find_first j p)
          else find_first j p)
  unfolding alter find_first
  find_first-alter j [] = ground arith
  find_first-alter j (e ∷ older) = ground (
    arith,
    find_first-alter j older,
    settle-id e,
    list_eq_iff e.iota_message_id id,
    list_eq_iff e.iota_message_id j,
    list_eq_iff id j,
  )

  abbrev NoneOf : List PendingTransaction → Type 0
  NoneOf = All (λ e. e.iota_message_id ≢ id)

  abbrev AlterAt : List PendingTransaction → List PendingTransaction → Type 0
  AlterAt p q =
      (NoneOf p × (q ≡ p))
      ⊎ ((newer : List PendingTransaction) × (e : PendingTransaction) × (older : List
            PendingTransaction)
          × (p ≡ newer ++ e ∷ older)
          × (e.iota_message_id ≡ id)
          × NoneOf newer
          × (q ≡ newer ++ settle accepted message e ∷ older))

  alter-AlterAt : (p : List PendingTransaction) → AlterAt p (alter id accepted message p)
  unfolding alter
  alter-AlterAt [] = inl (tt, refl)
  alter-AlterAt (e ∷ older) = elim (Bool-cases (list_eq e.iota_message_id id)) [
    | inl same ↦ inr ([], e, older, refl, (list_eq_iff e.iota_message_id id).0 same, tt, rw same)
    | inr differs ↦
        let apart : e.iota_message_id ≢ id =
          λ same. false≢true (sym differs ∙ (list_eq_iff e.iota_message_id id).1 same) in
        elim (alter-AlterAt older) [
          | inl (none_of, same) ↦ inl ((apart, none_of), rw differs (ap (◌∷◌ e) same))
          | inr (newer, x, rest, at, found, none_of, changed) ↦ inr (
            e ∷ newer,
            x,
            rest,
            ap (◌∷◌ e) at,
            found,
            (apart, none_of),
            rw differs (ap (◌∷◌ e) changed),
          )
        ]
  ]

  -- What an update may do to a list: nothing, if no entry has the id; or settle the newest that has.
  abbrev pub UpdateAt : List PendingTransaction → List PendingTransaction → Type 0
  UpdateAt p q =
      (NoneOf p × (q ≡ p))
      ⊎ ((before : List PendingTransaction) × (e : PendingTransaction) × (behind : List
            PendingTransaction)
          × (p ≡ before ++ e ∷ behind)
          × (e.iota_message_id ≡ id)
          × NoneOf behind
          × (q ≡ before ++ settle accepted message e ∷ behind))

  reverse_at :
      (newer older : List PendingTransaction) (e : PendingTransaction)
      → reverse (newer ++ e ∷ older) ≡ reverse older ++ e ∷ reverse newer
  reverse_at newer older e =
      reverse-append newer (e ∷ older)
      ∙ ap (λ (l : List PendingTransaction). l ++ reverse newer) (reverse-cons e older)
      ∙ append_assoc (reverse older) (e ∷ []) (reverse newer)

  AlterAt-UpdateAt :
      (p q : List PendingTransaction) → AlterAt (reverse p) q → UpdateAt p (reverse q)
  AlterAt-UpdateAt p q (inl (none_of, same)) = inl (
    rw reverse-reverse at (All-reverse _ (reverse p) none_of),
    ap reverse same ∙ reverse-reverse p,
  )
  AlterAt-UpdateAt p q (inr (newer, e, older, at, found, none_of, changed)) = inr (
    reverse older,
    e,
    reverse newer,
    sym (reverse-reverse p) ∙ ap reverse at ∙ reverse_at newer older e,
    found,
    All-reverse _ newer none_of,
    ap reverse changed ∙ reverse_at newer older (settle accepted message e),
  )

  pub altered : List PendingTransaction → List PendingTransaction
  altered p = reverse (alter id accepted message (reverse p))

  pub update_transaction-altered :
      (p : List PendingTransaction)
      → IsMessageId id
      → All HasMessageId p
      → update_transaction id accepted message p ≡ some (altered p)
  unfolding update_transaction altered
  update_transaction-altered p h hs =
      rw (update_newest_first-alter (reverse p) h (All-reverse _ p hs))

  -- Where all ids are message ids, an update of `id` ends without a read out of bounds. It leaves
  -- the list as it is, if no entry has the id, and otherwise settles the newest entry that has it
  -- and nothing else.
  pub update-UpdateAt :
      (p : List PendingTransaction)
      → IsMessageId id
      → All HasMessageId p
      → (q : List PendingTransaction) × (update_transaction id accepted message p ≡ some q)
        × UpdateAt p q
  unfolding altered
  update-UpdateAt p h hs = (
    altered p,
    update_transaction-altered p h hs,
    AlterAt-UpdateAt p _ (alter-AlterAt (reverse p)),
  )

  pub altered-HasMessageId :
      (p : List PendingTransaction) → All HasMessageId p → All HasMessageId (altered p)
  unfolding altered
  altered-HasMessageId p h = All-reverse _ _ (alter-HasMessageId (reverse p) (All-reverse _ p h))

  pub length-altered : (p : List PendingTransaction) → length (altered p) ≡ length p
  unfolding altered
  length-altered p =
      length-reverse (alter id accepted message (reverse p))
      ∙ length-alter (reverse p)
      ∙ length-reverse p

  pub latest-altered :
      (j : List ℕ) (p : List PendingTransaction)
      → latest j (altered p)
        ≡ (if list_eq id j then Option.map (settle accepted message) (latest j p) else latest j p)
  unfolding latest altered
  latest-altered j p = rw reverse-reverse (find_first-alter j (reverse p))
