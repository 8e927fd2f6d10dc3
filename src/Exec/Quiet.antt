-- ===== src/Exec/Quiet.antt =====
-- Calls that keep a part of the state and, where they return a response early, return an error.
use gradido_blockchain_conne.Base.{String, Bool, true, false, ◌≡◌, refl, ◌∙◌, if◌then◌else◌}
use gradido_blockchain_conne.Exec.{
  Exception, Details, state_error, state_success, Result, ok, returned, thrown, aborted, Exec,
  throw, abort, return_document, resume, ◌>>=◌, handle_thrown, try_catch,
}
use gradido_blockchain_conne.Exec.Rules.{Silent, NotReturned}

abbrev pub NoSuccess : {A : Type 0} → Result A → Type 0
NoSuccess (ok a) = Unit
NoSuccess (returned (state_error message extra)) = Unit
NoSuccess (returned (state_success members)) = ⊥
NoSuccess (thrown e) = Unit
NoSuccess aborted = Unit

pub record Quiet {S B A : Type 0} (view : S → B) (m : Exec S A) : Type 0 where
  pub keeps : (s : S) → view (m s).1 ≡ view s
  pub fails : (s : S) → NoSuccess (m s).0

module _ {S B : Type 0} (view : S → B) where
  pub Quiet-pure : {A : Type 0} (a : A) → Quiet view (λ s. (ok a, s))
  Quiet-pure a = record { keeps = λ s. refl; fails = λ s. tt }

  pub Quiet-throw : {A : Type 0} (e : Exception) → Quiet view (throw {S = S} {A = A} e)
  Quiet-throw e = record { keeps = λ s. refl; fails = λ s. tt }

  pub Quiet-abort : {A : Type 0} → Quiet view (abort {S = S} {A = A})
  Quiet-abort = record { keeps = λ s. refl; fails = λ s. tt }

  pub Quiet-error :
      {A : Type 0} (message : String) (extra : Details)
      → Quiet view (return_document {S = S} {A = A} (state_error message extra))
  Quiet-error message extra = record { keeps = λ s. refl; fails = λ s. tt }

  resume-keeps :
      {A C : Type 0} (r : Result A × S) (f : A → Exec S C)
      → ((a : A) → Quiet view (f a))
      → view (resume r f).1 ≡ view r.1
  resume-keeps (ok a, s) f k = (k a).keeps s
  resume-keeps (returned d, s) f k = refl
  resume-keeps (thrown e, s) f k = refl
  resume-keeps (aborted, s) f k = refl

  resume-fails :
      {A C : Type 0} (r : Result A × S) (f : A → Exec S C)
      → NoSuccess r.0
      → ((a : A) → Quiet view (f a))
      → NoSuccess (resume r f).0
  resume-fails (ok a, s) f n k = (k a).fails s
  resume-fails (returned (state_error message extra), s) f n k = tt
  resume-fails (returned (state_success members), s) f n k = n
  resume-fails (thrown e, s) f n k = tt
  resume-fails (aborted, s) f n k = tt

  pub Quiet-bind :
      {A C : Type 0} (m : Exec S A) (f : A → Exec S C)
      → Quiet view m
      → ((a : A) → Quiet view (f a))
      → Quiet view (m >>= f)
  Quiet-bind m f km kf = record {
    keeps = λ s. resume-keeps (m s) f kf ∙ km.keeps s;
    fails = λ s. resume-fails (m s) f (km.fails s) kf;
  }

  handle_thrown-keeps :
      {A : Type 0} (r : Result A × S) (h : Exception → Exec S A)
      → ((e : Exception) → Quiet view (h e))
      → view (handle_thrown r h).1 ≡ view r.1
  handle_thrown-keeps (ok a, s) h k = refl
  handle_thrown-keeps (returned d, s) h k = refl
  handle_thrown-keeps (thrown e, s) h k = (k e).keeps s
  handle_thrown-keeps (aborted, s) h k = refl

  handle_thrown-fails :
      {A : Type 0} (r : Result A × S) (h : Exception → Exec S A)
      → NoSuccess r.0
      → ((e : Exception) → Quiet view (h e))
      → NoSuccess (handle_thrown r h).0
  handle_thrown-fails (ok a, s) h n k = tt
  handle_thrown-fails (returned d, s) h n k = n
  handle_thrown-fails (thrown e, s) h n k = (k e).fails s
  handle_thrown-fails (aborted, s) h n k = tt

  pub Quiet-try_catch :
      {A : Type 0} (m : Exec S A) (h : Exception → Exec S A)
      → Quiet view m
      → ((e : Exception) → Quiet view (h e))
      → Quiet view (try_catch m h)
  Quiet-try_catch m h km kh = record {
    keeps = λ s. handle_thrown-keeps (m s) h kh ∙ km.keeps s;
    fails = λ s. handle_thrown-fails (m s) h (km.fails s) kh;
  }

  pub Quiet-if :
      {A : Type 0} (b : Bool) (m n : Exec S A)
      → Quiet view m
      → Quiet view n
      → Quiet view (if b then m else n)
  Quiet-if true m n km kn = km
  Quiet-if false m n km kn = kn

pub ruleset quiet_rules =
    (Quiet-pure, Quiet-throw, Quiet-abort, Quiet-error, Quiet-bind, Quiet-try_catch, Quiet-if)

-- Of the state as a whole nothing is kept, only its type.
abbrev pub nothing : {S : Type 0} → S → Unit {0}
nothing s = tt

Silent-NoSuccess : {A : Type 0} (r : Result A) → NotReturned r → NoSuccess r
Silent-NoSuccess (ok a) h = tt
Silent-NoSuccess (returned d) h = absurd h
Silent-NoSuccess (thrown e) h = tt
Silent-NoSuccess aborted h = tt

pub Quiet-Silent : {S A : Type 0} (m : Exec S A) → Silent m → Quiet nothing m
Quiet-Silent m k = record { keeps = λ s. refl; fails = λ s. Silent-NoSuccess (m s).0 (k.at s) }
