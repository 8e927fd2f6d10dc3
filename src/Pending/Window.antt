-- ===== src/Pending/Window.antt =====
-- How `pushNewTransaction` bounds the list, and what `listAsJson` then shows.
use mathlib.Core.List.{reverse-cons, reverse-append}
use gradido_blockchain_conne.Base.{
  ℕ, zero, suc, ◌-◌, ◌≤◌, String, ◌≡◌, refl, sym, List, [], ◌∷◌, ◌++◌, map, reverse, inl, inr,
  arith, ltb, Bool-cases, length, take, take_last, length-append, length-drop, length-reverse,
}
use gradido_blockchain_conne.Pending.{
  PendingTransaction, pop_surplus, push_new_transaction, list_entry, list_as_json,
}

module _ {ℓ} {A : Type ℓ} where
  pop_surplus-take_last : (xs : List A) → pop_surplus xs ≡ take_last 100 xs
  pop_surplus-take_last [] = refl
  pop_surplus-take_last (x ∷ xs) = elim (Bool-cases (ltb 100 (suc (length xs)))) [
    | inl over ↦
        let e : suc (length xs) - 100 ≡ suc (length xs - 100) = ground arith in
        rw (over, e) (pop_surplus-take_last xs)
    | inr fits ↦ let e : suc (length xs) - 100 ≡ 0 = ground arith in rw (fits, e)
  ]

  take_all : (n : ℕ) (xs : List A) → length xs ≤ n → take n xs ≡ xs
  take_all zero [] h = refl
  take_all zero (x ∷ xs) h = absurd (omega arith)
  take_all (suc n) [] h = refl
  take_all (suc n) (x ∷ xs) h = rw (take_all n xs (omega arith))

  take-append_short : (n : ℕ) (xs ys : List A) → n ≤ length xs → take n (xs ++ ys) ≡ take n xs
  take-append_short zero xs ys h = refl
  take-append_short (suc n) [] ys h = absurd (omega arith)
  take-append_short (suc n) (x ∷ xs) ys h = rw (take-append_short n xs ys (omega arith))

  reverse-take_last : (n : ℕ) (xs : List A) → reverse (take_last n xs) ≡ take n (reverse xs)
  reverse-take_last n [] =
      let e : 0 - n ≡ 0 = omega arith in rw e (sym (take_all n [] (omega arith)))
  reverse-take_last n (x ∷ xs) = elim (Bool-cases (ltb n (suc (length xs)))) [
    | inl over ↦
        let e : suc (length xs) - n ≡ suc (length xs - n) = ground arith in
        let short : n ≤ length (reverse xs) = ground (arith, length-reverse xs) in
        rw (e, reverse-cons x xs, take-append_short n (reverse xs) (x ∷ []) short)
          (reverse-take_last n xs)
    | inr fits ↦
        let e : suc (length xs) - n ≡ 0 = ground arith in
        let short : length (reverse (x ∷ xs)) ≤ n = ground (arith, length-reverse (x ∷ xs)) in
        rw (e, take_all n (reverse (x ∷ xs)) short)
  ]

  map-take {κ} :
      {B : Type κ} (f : A → B) (n : ℕ) (xs : List A) → map f (take n xs) ≡ take n (map f xs)
  map-take f zero xs = refl
  map-take f (suc n) [] = refl
  map-take f (suc n) (x ∷ xs) = rw (map-take f n xs)

-- A push appends the new transaction and keeps the last hundred, in their order.
pub push-take_last :
    (e : PendingTransaction) (p : List PendingTransaction)
    → push_new_transaction e p ≡ take_last 100 (p ++ e ∷ [])
unfolding push_new_transaction
push-take_last e p = pop_surplus-take_last (p ++ e ∷ [])

pub length-push :
    (e : PendingTransaction) (p : List PendingTransaction) → length (push_new_transaction e p) ≤ 100
length-push e p =
    rw (push-take_last e p) (omega (arith, length-drop (length (p ++ e ∷ []) - 100) (p ++ e ∷ [])))

-- Below the bound nothing is lost.
pub push_below :
    (e : PendingTransaction) (p : List PendingTransaction)
    → suc (length p) ≤ 100
    → push_new_transaction e p ≡ p ++ e ∷ []
push_below e p h =
    let k : length (p ++ e ∷ []) - 100 ≡ 0 = omega (arith, length-append p (e ∷ [])) in
    rw (push-take_last e p, k)

-- The answer to a listing shows the transaction pushed last first, before what an earlier listing
-- showed, and is cut to a hundred entries.
pub list-push :
    (type_string : ℕ → String) (e : PendingTransaction) (p : List PendingTransaction)
    → list_as_json type_string (push_new_transaction e p)
      ≡ take 100 (list_entry type_string e ∷ list_as_json type_string p)
unfolding list_as_json
list-push type_string e p =
    rw (push-take_last e p, reverse-take_last 100 (p ++ e ∷ []), reverse-append p (e ∷ []))
      (map-take (list_entry type_string) 100 (e ∷ reverse p))
