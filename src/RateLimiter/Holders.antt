-- ===== src/RateLimiter/Holders.antt =====
-- The users that hold a slot, and how their number changes with one thread's phase.
use gradido_blockchain_conne.Base.{
  ℕ, suc, ◌+◌, ◌<◌, String, true, false, ◌≡◌, refl, ap, List, [], ◌∷◌, ◌++◌, arith, str_eq, eq_iff,
  if◌then◌else◌, length, length-append,
}
use gradido_blockchain_conne.RateLimiter.{
  Phase, waiting, encrypting, finished, crashed, Moves, moves, member, erase,
}

unfoldable pub count : String → List String → ℕ
count u [] = 0
count u (x ∷ xs) = if str_eq x u then suc (count u xs) else count u xs

-- The users of the threads that have taken a slot and not given it back.
unfoldable pub holders : List (String × Phase) → List String
holders [] = []
holders ((u, waiting) ∷ ts) = holders ts
holders ((u, encrypting) ∷ ts) = u ∷ holders ts
holders ((u, finished) ∷ ts) = holders ts
holders ((u, crashed) ∷ ts) = u ∷ holders ts

pub count-append : (u : String) (xs ys : List String) → count u (xs ++ ys) ≡ count u xs + count u ys
unfolding count
count-append u [] ys = omega arith
count-append u (x ∷ xs) ys = ground (arith, count-append u xs ys)

pub holders-append : (ts ss : List (String × Phase)) → holders (ts ++ ss) ≡ holders ts ++ holders ss
unfolding holders
holders-append [] ss = refl
holders-append ((u, waiting) ∷ ts) ss = holders-append ts ss
holders-append ((u, encrypting) ∷ ts) ss = ap (◌∷◌ u) (holders-append ts ss)
holders-append ((u, finished) ∷ ts) ss = holders-append ts ss
holders-append ((u, crashed) ∷ ts) ss = ap (◌∷◌ u) (holders-append ts ss)

pub member-count : (u : String) (xs : List String) → member u xs ≡ false → count u xs ≡ 0
unfolding member count
member-count u [] h = refl
member-count u (x ∷ xs) h = ground (arith, member-count u xs)

pub count-member : (u : String) (xs : List String) → 0 < count u xs → member u xs ≡ true
unfolding member count
count-member u [] h = absurd (omega arith)
count-member u (x ∷ xs) h = ground (arith, count-member u xs)

pub count-erase :
    (u v : String) (xs : List String)
    → 0 < count u xs
    → count v xs ≡ count v (erase u xs) + count v (u ∷ [])
unfolding erase count
count-erase u v [] h = absurd (omega arith)
count-erase u v (x ∷ xs) h = ground (arith, count-erase u v xs, eq_iff x u, eq_iff x v, eq_iff u v)

pub length-erase :
    (u : String) (xs : List String) → 0 < count u xs → length xs ≡ suc (length (erase u xs))
unfolding erase count
length-erase u [] h = absurd (omega arith)
length-erase u (x ∷ xs) h = ground (arith, length-erase u xs)

-- How the holders change with the phase of one thread.
module _ (u : String) (before behind : List (String × Phase)) where
  holders-at :
      (p : Phase)
      → holders (before ++ (u, p) ∷ behind) ≡ holders before ++ holders ((u, p) ∷ behind)
  holders-at p = holders-append before ((u, p) ∷ behind)

  abbrev idle : List String
  idle = holders before ++ holders behind

  count-idle :
      (v : String)
      → count v (holders before ++ u ∷ holders behind) ≡ count v idle + count v (u ∷ [])
  unfolding count
  count-idle v = ground (
    arith,
    count-append v (holders before) (u ∷ holders behind),
    count-append v (holders before) (holders behind),
  )

  length-idle : length (holders before ++ u ∷ holders behind) ≡ suc (length idle)
  length-idle = omega (
    arith,
    length-append {0} (holders before) (u ∷ holders behind),
    length-append {0} (holders before) (holders behind),
  )

-- `ts'` has one holder more than `ts`, namely `u`.
pub record Gains (u : String) (ts ts' : List (String × Phase)) : Type 0 where
  pub counted : (v : String) → count v (holders ts') ≡ count v (holders ts) + count v (u ∷ [])
  pub longer : length (holders ts') ≡ suc (length (holders ts))

pub start-Gains :
    (u : String) (ts ts' : List (String × Phase))
    → Moves u waiting encrypting ts ts'
    → Gains u ts ts'
unfolding holders
start-Gains u ts ts' (moves before behind e e') = record {
  counted = λ v.
      rw (e, e', holders-at u before behind waiting, holders-at u before behind encrypting)
        (count-idle u before behind v);
  longer =
      rw (e, e', holders-at u before behind waiting, holders-at u before behind encrypting)
        (length-idle u before behind);
}

pub finish-Gains :
    (u : String) (ts ts' : List (String × Phase))
    → Moves u encrypting finished ts ts'
    → Gains u ts' ts
unfolding holders
finish-Gains u ts ts' (moves before behind e e') = record {
  counted = λ v.
      rw (e, e', holders-at u before behind finished, holders-at u before behind encrypting)
        (count-idle u before behind v);
  longer =
      rw (e, e', holders-at u before behind finished, holders-at u before behind encrypting)
        (length-idle u before behind);
}

pub crash-holders :
    (u : String) (ts ts' : List (String × Phase))
    → Moves u encrypting crashed ts ts'
    → holders ts' ≡ holders ts
unfolding holders
crash-holders u ts ts' (moves before behind e e') =
    rw (e, e', holders-at u before behind crashed, holders-at u before behind encrypting)
