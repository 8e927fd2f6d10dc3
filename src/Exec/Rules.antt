-- ===== src/Exec/Rules.antt =====
-- What a call keeps, and how it may end: one rule for each way to build a call.
use gradido_blockchain_conne.Base.{Bool, true, false, ◌≡◌, refl, ◌∙◌, if◌then◌else◌}
use gradido_blockchain_conne.Exec.{
  Exception, Result, ok, returned, thrown, aborted, Exec, throw, abort, resume, ◌>>=◌,
  handle_thrown, try_catch, when,
}

-- The call leaves `view` of the state as it was, however it ends.
pub record Keeps {S B A : Type 0} (view : S → B) (m : Exec S A) : Type 0 where
  pub at : (s : S) → view (m s).1 ≡ view s

module _ {S B : Type 0} (view : S → B) where
  pub Keeps-pure : {A : Type 0} (a : A) → Keeps view (λ s. (ok a, s))
  Keeps-pure a = record { at = λ s. refl }

  pub Keeps-end : {A : Type 0} (r : Result A) → Keeps view (λ s. (r, s))
  Keeps-end r = record { at = λ s. refl }

  resume-Keeps :
      {A C : Type 0} (r : Result A × S) (f : A → Exec S C)
      → ((a : A) → Keeps view (f a))
      → view (resume r f).1 ≡ view r.1
  resume-Keeps (ok a, s) f k = (k a).at s
  resume-Keeps (returned d, s) f k = refl
  resume-Keeps (thrown e, s) f k = refl
  resume-Keeps (aborted, s) f k = refl

  pub Keeps-bind :
      {A C : Type 0} (m : Exec S A) (f : A → Exec S C)
      → Keeps view m
      → ((a : A) → Keeps view (f a))
      → Keeps view (m >>= f)
  Keeps-bind m f km kf = record { at = λ s. resume-Keeps (m s) f kf ∙ km.at s }

  handle_thrown-Keeps :
      {A : Type 0} (r : Result A × S) (h : Exception → Exec S A)
      → ((e : Exception) → Keeps view (h e))
      → view (handle_thrown r h).1 ≡ view r.1
  handle_thrown-Keeps (ok a, s) h k = refl
  handle_thrown-Keeps (returned d, s) h k = refl
  handle_thrown-Keeps (thrown e, s) h k = (k e).at s
  handle_thrown-Keeps (aborted, s) h k = refl

  pub Keeps-try_catch :
      {A : Type 0} (m : Exec S A) (h : Exception → Exec S A)
      → Keeps view m
      → ((e : Exception) → Keeps view (h e))
      → Keeps view (try_catch m h)
  Keeps-try_catch m h km kh = record { at = λ s. handle_thrown-Keeps (m s) h kh ∙ km.at s }

  pub Keeps-if :
      {A : Type 0} (b : Bool) (m n : Exec S A)
      → Keeps view m
      → Keeps view n
      → Keeps view (if b then m else n)
  Keeps-if true m n km kn = km
  Keeps-if false m n km kn = kn

  pub Keeps-when : (b : Bool) (m : Exec S (Unit {0})) → Keeps view m → Keeps view (when b m)
  Keeps-when true m km = record { at = λ s. km.at s }
  Keeps-when false m km = record { at = λ s. refl }

pub ruleset keeps_rules = (Keeps-pure, Keeps-end, Keeps-bind, Keeps-try_catch, Keeps-if, Keeps-when)

-- The call never ends by an early return of a response.
abbrev pub NotReturned : {A : Type 0} → Result A → Type 0
NotReturned (ok a) = Unit
NotReturned (returned d) = ⊥
NotReturned (thrown e) = Unit
NotReturned aborted = Unit

pub record Silent {S A : Type 0} (m : Exec S A) : Type 0 where
  pub at : (s : S) → NotReturned (m s).0

module _ {S : Type 0} where
  pub Silent-pure : {A : Type 0} (a : A) → Silent {S = S} (λ s. (ok a, s))
  Silent-pure a = record { at = λ s. tt }

  pub Silent-throw : {A : Type 0} (e : Exception) → Silent {S = S} {A = A} (throw e)
  Silent-throw e = record { at = λ s. tt }

  pub Silent-abort : {A : Type 0} → Silent {S = S} {A = A} abort
  Silent-abort = record { at = λ s. tt }

  resume-Silent :
      {A C : Type 0} (r : Result A × S) (f : A → Exec S C)
      → NotReturned r.0
      → ((a : A) → Silent (f a))
      → NotReturned (resume r f).0
  resume-Silent (ok a, s) f n k = (k a).at s
  resume-Silent (returned d, s) f n k = absurd n
  resume-Silent (thrown e, s) f n k = tt
  resume-Silent (aborted, s) f n k = tt

  pub Silent-bind :
      {A C : Type 0} (m : Exec S A) (f : A → Exec S C)
      → Silent m
      → ((a : A) → Silent (f a))
      → Silent (m >>= f)
  Silent-bind m f km kf = record { at = λ s. resume-Silent (m s) f (km.at s) kf }

  handle_thrown-Silent :
      {A : Type 0} (r : Result A × S) (h : Exception → Exec S A)
      → NotReturned r.0
      → ((e : Exception) → Silent (h e))
      → NotReturned (handle_thrown r h).0
  handle_thrown-Silent (ok a, s) h n k = tt
  handle_thrown-Silent (returned d, s) h n k = absurd n
  handle_thrown-Silent (thrown e, s) h n k = (k e).at s
  handle_thrown-Silent (aborted, s) h n k = tt

  pub Silent-try_catch :
      {A : Type 0} (m : Exec S A) (h : Exception → Exec S A)
      → Silent m
      → ((e : Exception) → Silent (h e))
      → Silent (try_catch m h)
  Silent-try_catch m h km kh = record { at = λ s. handle_thrown-Silent (m s) h (km.at s) kh }

  pub Silent-if :
      {A : Type 0} (b : Bool) (m n : Exec S A) → Silent m → Silent n → Silent (if b then m else n)
  Silent-if true m n km kn = km
  Silent-if false m n km kn = kn

pub ruleset silent_rules =
    (Silent-pure, Silent-throw, Silent-abort, Silent-bind, Silent-try_catch, Silent-if)

-- What a call that has ended well went through.
module _ {S A B : Type 0} where
  resume-ok :
      (r : Result A × S) (f : A → Exec S B) {b : B} {s' : S}
      → resume r f ≡ (ok b, s')
      → (a : A) × (s₁ : S) × (r ≡ (ok a, s₁)) × (f a s₁ ≡ (ok b, s'))
  resume-ok (ok a, s) f h = (a, s, refl, h)
  resume-ok (returned d, s) f h = cc
  resume-ok (thrown e, s) f h = cc
  resume-ok (aborted, s) f h = cc

  pub bind-ok :
      (m : Exec S A) (f : A → Exec S B) (s : S) {b : B} {s' : S}
      → (m >>= f) s ≡ (ok b, s')
      → (a : A) × (s₁ : S) × (m s ≡ (ok a, s₁)) × (f a s₁ ≡ (ok b, s'))
  bind-ok m f s h = resume-ok (m s) f h

  -- The same, where what follows from it is to be shown.
  pub bind-ok-elim :
      {P : Type 0} (m : Exec S A) (f : A → Exec S B) (s : S) {b : B} {s' : S}
      → (m >>= f) s ≡ (ok b, s')
      → ((a : A) (s₁ : S) → m s ≡ (ok a, s₁) → f a s₁ ≡ (ok b, s') → P)
      → P
  bind-ok-elim m f s h k = let (a, s₁, e, h₁) = resume-ok (m s) f h in k a s₁ e h₁

-- If the call returns a result from the state `s`, then `P` holds of it.
pub record Ensures {S A : Type 0} (m : Exec S A) (s : S) (P : A → Type 0) : Type 0 where
  pub at : (a : A) (s' : S) → m s ≡ (ok a, s') → P a

pub Ensures-bind :
    {S A B : Type 0} (m : Exec S A) (f : A → Exec S B) (s : S) (P : B → Type 0)
    → ((a : A) (s₁ : S) → m s ≡ (ok a, s₁) → Ensures (f a) s₁ P)
    → Ensures (m >>= f) s P
Ensures-bind m f s P k = record {
  at = λ b s' h. let (a, s₁, h₁, h₂) = bind-ok m f s h in (k a s₁ h₁).at b s' h₂;
}
