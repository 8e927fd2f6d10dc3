-- ===== src/Login/Posted.antt =====
-- src/JSONInterface/JsonLogin.cpp: the parts of a request that both handlers of
-- logins share, and what their successes go through.
use gradido_blockchain_conne.Base.{
  String, Bool, true, false, none, some, List, ◌≡◌, ◌≢◌, refl, ◌∙◌, str_eq, if◌then◌else◌,
}
use gradido_blockchain_conne.Json.{Json}
use gradido_blockchain_conne.Exec.{
  Base, gradido, poco, runtime, standard, foreign, Exception, Document, state_success, Result, ok,
  returned, thrown, aborted, Exec, pure, resume, ◌>>=◌, try_catch,
}
use gradido_blockchain_conne.Login.{caught_by_base, refuse}

module _ {S : Type 0} where
  pub refuse-ok :
      (b : Bool) (message : String) (s s' : S) (u : Unit {0})
      → refuse b message s ≡ (ok u, s')
      → b ≡ false
  refuse-ok true message s s' u h = cc
  refuse-ok false message s s' u h = refl

  pub refuse-same :
      (b : Bool) (message : String) (s s' : S) (u : Unit {0})
      → refuse b message s ≡ (ok u, s')
      → s ≡ s'
  refuse-same true message s s' u h = cc
  refuse-same false message s s' u h = cc

  pub success-ok :
      (xs ys : List (String × Json)) (s s' : S)
      → pure (state_success xs) s ≡ (ok (state_success ys), s')
      → (ys ≡ xs) × (s ≡ s')
  success-ok xs ys s s' h = (cc, cc)

  -- What the clauses of `caught_by_base` answer is an error.
  pub caught_by_base-ne-success :
      (b : Base) (e : Exception) (s s' : S) (members : List (String × Json))
      → caught_by_base b e s ≢ (ok (state_success members), s')
  caught_by_base-ne-success gradido e s s' members h = cc
  caught_by_base-ne-success poco e s s' members h = cc
  caught_by_base-ne-success runtime e s s' members h = cc
  caught_by_base-ne-success standard e s s' members h = cc
  caught_by_base-ne-success foreign e s s' members h = cc

  -- A request behind `try` and the choice by the method.
  pub posted-ok :
      (method : String) (m : Exec S Document) (h : Exception → Exec S Document) (s s' : S)
      (members : List (String × Json))
      → ((e : Exception) (t : S) → h e t ≢ (ok (state_success members), s'))
      → (if str_eq method "POST" then (try_catch m h >>= λ d. pure (some d)) else pure none) s
        ≡ (ok (some (state_success members)), s')
      → (str_eq method "POST" ≡ true) × (m s ≡ (ok (state_success members), s'))
  posted-ok method m h s s' members errors answered = go (str_eq method "POST") refl answered
    where
      handled :
          (e : Exception) (t : S) (r : Result Document × S)
          → h e t ≡ r
          → resume r (λ d. pure (some d)) ≡ (ok (some (state_success members)), s')
          → ⊥
      handled e t (ok d, t') k a = errors e t (k ∙ cc a)
      handled e t (returned d, t') k a = cc
      handled e t (thrown x, t') k a = cc
      handled e t (aborted, t') k a = cc

      caught :
          (r : Result Document × S)
          → (try_catch (λ t. r) h >>= λ d. pure (some d)) s
            ≡ (ok (some (state_success members)), s')
          → r ≡ (ok (state_success members), s')
      caught (ok d, t) a = cc
      caught (returned d, t) a = cc
      caught (thrown e, t) a = absurd (handled e t (h e t) refl a)
      caught (aborted, t) a = cc

      go :
          (b : Bool)
          → str_eq method "POST" ≡ b
          → (if b then (try_catch m h >>= λ d. pure (some d)) else pure none) s
            ≡ (ok (some (state_success members)), s')
          → (str_eq method "POST" ≡ true) × (m s ≡ (ok (state_success members), s'))
      go true e a = (e, caught (m s) a)
      go false e a = cc
