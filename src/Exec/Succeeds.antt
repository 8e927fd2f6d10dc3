-- ===== src/Exec/Succeeds.antt =====
-- What holds of the result of a call, where it neither fails nor answers early with a success.
use gradido_blockchain_conne.Base.{String, Bool, true, false, ◌≡◌, refl, subst, List, if◌then◌else◌}
use gradido_blockchain_conne.Exec.{
  Exception, Details, Document, state_error, state_success, Result, ok, returned, thrown, aborted,
  Exec, throw, return_document, resume, ◌>>=◌, respond, handle_thrown, try_catch,
}
use gradido_blockchain_conne.Json.{Json}
use gradido_blockchain_conne.Exec.Quiet.{NoSuccess, Quiet, nothing}

abbrev pub Outcome : {A : Type 0} → (A → Type 0) → Result A → Type 0
Outcome P (ok a) = P a
Outcome P (returned (state_error message extra)) = Unit
Outcome P (returned (state_success members)) = ⊥
Outcome P (thrown e) = Unit
Outcome P aborted = Unit

pub record Succeeds {S A : Type 0} (P : A → Type 0) (m : Exec S A) (s : S) : Type 0 where
  pub at : Outcome P (m s).0

module _ {S A : Type 0} (P : A → Type 0) where
  pub Succeeds-pure : (a : A) (s : S) → P a → Succeeds P (λ s. (ok a, s)) s
  Succeeds-pure a s p = record { at = p }

  pub Succeeds-error :
      (message : String) (extra : Details) (s : S)
      → Succeeds P (return_document (state_error message extra)) s
  Succeeds-error message extra s = record { at = tt }

  pub Succeeds-throw : (e : Exception) (s : S) → Succeeds P (throw e) s
  Succeeds-throw e s = record { at = tt }

  resume-Outcome :
      {B : Type 0} (r : Result B × S) (f : B → Exec S A)
      → NoSuccess r.0
      → ((b : B) (s₁ : S) → r ≡ (ok b, s₁) → Succeeds P (f b) s₁)
      → Outcome P (resume r f).0
  resume-Outcome (ok b, s) f n k = (k b s refl).at
  resume-Outcome (returned (state_error message extra), s) f n k = tt
  resume-Outcome (returned (state_success members), s) f n k = n
  resume-Outcome (thrown e, s) f n k = tt
  resume-Outcome (aborted, s) f n k = tt

  pub Succeeds-bind :
      {B C : Type 0} (view : S → C) (m : Exec S B) (f : B → Exec S A) (s : S)
      → Quiet view m
      → ((b : B) (s₁ : S) → m s ≡ (ok b, s₁) → Succeeds P (f b) s₁)
      → Succeeds P (m >>= f) s
  Succeeds-bind view m f s q k = record { at = resume-Outcome (m s) f (q.fails s) k }

  -- The rule where nothing is to be known of the first call, for `search`.
  pub Succeeds-then :
      {B : Type 0} (m : Exec S B) (f : B → Exec S A) (s : S)
      → Quiet nothing m
      → ((b : B) (s₁ : S) → Succeeds P (f b) s₁)
      → Succeeds P (m >>= f) s
  Succeeds-then m f s q k = Succeeds-bind nothing m f s q (λ b s₁ h. k b s₁)

  pub Succeeds-if :
      (b : Bool) (m n : Exec S A) (s : S)
      → (b ≡ true → Succeeds P m s)
      → (b ≡ false → Succeeds P n s)
      → Succeeds P (if b then m else n) s
  Succeeds-if true m n s h k = h refl
  Succeeds-if false m n s h k = k refl

  -- The rule by the cases of the call's result.
  pub Succeeds-Quiet :
      (m : Exec S A) (s : S)
      → Quiet nothing m
      → ((a : A) (s' : S) → m s ≡ (ok a, s') → P a)
      → Succeeds P m s
  Succeeds-Quiet m s q k = record { at = go (m s) refl (q.fails s) }
    where
      go : (r : Result A × S) → m s ≡ r → NoSuccess r.0 → Outcome P r.0
      go (ok a, s') e n = k a s' e
      go (returned (state_error message extra), s') e n = tt
      go (returned (state_success members), s') e n = n
      go (thrown x, s') e n = tt
      go (aborted, s') e n = tt

  handle_thrown-Outcome :
      (r : Result A × S) (h : Exception → Exec S A)
      → Outcome P r.0
      → ((e : Exception) (s : S) → Outcome P (h e s).0)
      → Outcome P (handle_thrown r h).0
  handle_thrown-Outcome (ok a, s) h p k = p
  handle_thrown-Outcome (returned d, s) h p k = p
  handle_thrown-Outcome (thrown e, s) h p k = k e s
  handle_thrown-Outcome (aborted, s) h p k = p

  pub Succeeds-try_catch :
      (m : Exec S A) (h : Exception → Exec S A) (s : S)
      → Succeeds P m s
      → ((e : Exception) (s : S) → Outcome P (h e s).0)
      → Succeeds P (try_catch m h) s
  Succeeds-try_catch m h s p k = record { at = handle_thrown-Outcome (m s) h p.at k }

pub Succeeds-ok :
    {S A : Type 0} (P : A → Type 0) (m : Exec S A) (s s' : S) (a : A)
    → m s ≡ (ok a, s')
    → Succeeds P m s
    → P a
Succeeds-ok P m s s' a h p = subst (λ r. Outcome P r.0) h p.at

-- The result of a handler.
abbrev pub OnSuccess : (List (String × Json) → Type 0) → Document → Type 0
OnSuccess P (state_success members) = P members
OnSuccess P (state_error message extra) = Unit

module _ {S : Type 0} (P : List (String × Json) → Type 0) where
  respond-OnSuccess :
      (r : Result Document × S) (d : Document) (s' : S)
      → Outcome (OnSuccess P) r.0
      → respond (λ s. r) r.1 ≡ (ok d, s')
      → OnSuccess P d
  respond-OnSuccess (ok c, s) d s' p h = let e : c ≡ d = cc h in subst (OnSuccess P) e p
  respond-OnSuccess (returned (state_error message extra), s) d s' p h =
      let e : state_error message extra ≡ d = cc h in subst (OnSuccess P) e tt
  respond-OnSuccess (returned (state_success members), s) d s' p h = absurd p
  respond-OnSuccess (thrown e, s) d s' p h = cc
  respond-OnSuccess (aborted, s) d s' p h = cc

  pub Succeeds-respond :
      (m : Exec S Document) (s s' : S) (d : Document)
      → Succeeds (OnSuccess P) m s
      → respond m s ≡ (ok d, s')
      → OnSuccess P d
  Succeeds-respond m s s' d p h = respond-OnSuccess (m s) d s' p.at h

-- A handler's result satisfies what its successes imply.
pub Succeeds-implies :
    {S : Type 0} (P Q : List (String × Json) → Type 0) (m : Exec S Document) (s : S)
    → ((members : List (String × Json)) → P members → Q members)
    → Succeeds (OnSuccess P) m s
    → Succeeds (OnSuccess Q) m s
Succeeds-implies P Q m s f p = record { at = go (m s).0 p.at }
  where
    go : (r : Result Document) → Outcome (OnSuccess P) r → Outcome (OnSuccess Q) r
    go (ok (state_success members)) h = f members h
    go (ok (state_error message extra)) h = tt
    go (returned (state_success members)) h = h
    go (returned (state_error message extra)) h = tt
    go (thrown e) h = tt
    go aborted h = tt
