-- ===== src/Transaction/Trace.antt =====
-- src/JSONInterface/JsonTransaction.cpp: which message ids a call adds to the list of pending
-- transactions, however it ends.
use gradido_blockchain_conne.Base.{
  String, utf8, Bool, true, false, List, [], ◌∷◌, ◌++◌, ◌≡◌, refl, sym, subst, if◌then◌else◌,
}
use gradido_blockchain_conne.Exec.{
  Exception, Document, state_error, state_success, Result, ok, returned, thrown, aborted, Exec,
  pure, resume, ◌>>=◌, handle_thrown, try_catch, respond,
}
use gradido_blockchain_conne.Exec.Quiet.{Quiet, nothing, NoSuccess}
use gradido_blockchain_conne.Pending.{PendingTransaction, sended, push_new_transaction}
use gradido_blockchain_conne.Platform.{State, in_world}
use gradido_blockchain_conne.Transaction.{sent_response}

-- A transaction that has just been sent under a message id.
unfoldable pub IsSent : String → PendingTransaction → Type 0
IsSent id p = (p.iota_message_id ≡ utf8 id) × (p.state ≡ sended)

-- The transactions sent under the ids were pushed in this order, and nothing else happened.
unfoldable pub After : List String → List PendingTransaction → List PendingTransaction → Type 0
After [] old new = new ≡ old
After (id ∷ ids) old new =
    (p : PendingTransaction) × (IsSent id p) × (After ids (push_new_transaction p old) new)

pub After-append :
    (ids more : List String) (old mid new : List PendingTransaction)
    → After ids old mid
    → After more mid new
    → After (ids ++ more) old new
unfolding After
After-append [] more old mid new h k = subst (λ l. After more l new) h k
After-append (id ∷ ids) more old mid new (p, sent, h) k =
    (p, sent, After-append ids more _ mid new h k)

module _ {W A : Type 0} (Done : A → List String → Type 0) (Fail : List String → Type 0) where
  abbrev pub Ending : List PendingTransaction → Result A × State W → Type 0
  Ending old (ok a, s) = (ids : List String) × (Done a ids) × (After ids old s.pending)
  Ending old (returned (state_error m d), s) =
      (ids : List String) × (Fail ids) × (After ids old s.pending)
  Ending old (returned (state_success members), s) = ⊥
  Ending old (thrown e, s) = (ids : List String) × (Fail ids) × (After ids old s.pending)
  Ending old (aborted, s) = (ids : List String) × (Fail ids) × (After ids old s.pending)

  pub record Traced (m : Exec (State W) A) : Type 0 where
    pub at : (s : State W) → Ending s.pending (m s)

pub Quiet-in_world :
    {W A : Type 0} (m : Exec W A) → Quiet nothing m → Quiet State.pending (in_world m)
Quiet-in_world m k = record { keeps = λ s. refl; fails = λ s. k.fails s.world }

module _ {W A : Type 0} {Done Done' : A → List String → Type 0}
    {Fail Fail' : List String → Type 0} where
  Ending-weaken :
      (old : List PendingTransaction) (r : Result A × State W)
      → ((a : A) (ids : List String) → Done a ids → Done' a ids)
      → ((ids : List String) → Fail ids → Fail' ids)
      → Ending Done Fail old r
      → Ending Done' Fail' old r
  Ending-weaken old (ok a, s) d f (ids, h, k) = (ids, d a ids h, k)
  Ending-weaken old (returned (state_error m x), s) d f (ids, h, k) = (ids, f ids h, k)
  Ending-weaken old (returned (state_success x), s) d f h = h
  Ending-weaken old (thrown e, s) d f (ids, h, k) = (ids, f ids h, k)
  Ending-weaken old (aborted, s) d f (ids, h, k) = (ids, f ids h, k)

  pub Traced-weaken :
      (m : Exec (State W) A)
      → ((a : A) (ids : List String) → Done a ids → Done' a ids)
      → ((ids : List String) → Fail ids → Fail' ids)
      → Traced Done Fail m
      → Traced Done' Fail' m
  Traced-weaken m d f h = record { at = λ s. Ending-weaken s.pending (m s) d f (h.at s) }

-- A call that ends without a success, behind one that pushed `ids`.
module _ {W A : Type 0} (Done : A → List String → Type 0) (Fail : List String → Type 0) where
  Ending-quiet :
      (old : List PendingTransaction) (r : Result A × State W)
      → r.1.pending ≡ old
      → NoSuccess r.0
      → ((a : A) → Done a [])
      → Fail []
      → Ending Done Fail old r
  unfolding After
  Ending-quiet old (ok a, s) h n d f = ([], d a, h)
  Ending-quiet old (returned (state_error m x), s) h n d f = ([], f, h)
  Ending-quiet old (returned (state_success x), s) h n d f = n
  Ending-quiet old (thrown e, s) h n d f = ([], f, h)
  Ending-quiet old (aborted, s) h n d f = ([], f, h)

  pub Traced-pure : (a : A) → Done a [] → Traced {W = W} Done Fail (pure a)
  unfolding After
  Traced-pure a d = record { at = λ s. ([], d, refl) }

  pub Traced-Quiet :
      (m : Exec (State W) A)
      → Quiet State.pending m
      → ((a : A) → Done a [])
      → Fail []
      → Traced Done Fail m
  Traced-Quiet m k d f = record {
    at = λ s. Ending-quiet s.pending (m s) (k.keeps s) (k.fails s) d f;
  }

  Ending-After :
      (ids : List String) (old mid : List PendingTransaction) (r : Result A × State W)
      → After ids old mid
      → Ending (λ a more. Done a (ids ++ more)) (λ more. Fail (ids ++ more)) mid r
      → Ending Done Fail old r
  Ending-After ids old mid (ok a, s) h (more, d, k) =
      (ids ++ more, d, After-append ids more old mid s.pending h k)
  Ending-After ids old mid (returned (state_error m x), s) h (more, d, k) =
      (ids ++ more, d, After-append ids more old mid s.pending h k)
  Ending-After ids old mid (returned (state_success x), s) h k = k
  Ending-After ids old mid (thrown e, s) h (more, d, k) =
      (ids ++ more, d, After-append ids more old mid s.pending h k)
  Ending-After ids old mid (aborted, s) h (more, d, k) =
      (ids ++ more, d, After-append ids more old mid s.pending h k)

module _ {W A B : Type 0} (Done : A → List String → Type 0) (Fail : List String → Type 0)
    (Done' : B → List String → Type 0) where
  resume-Ending :
      (old : List PendingTransaction) (r : Result A × State W) (f : A → Exec (State W) B)
      → Ending Done Fail old r
      → ((a : A) (ids : List String)
          → Done a ids
          → Traced (λ b more. Done' b (ids ++ more)) (λ more. Fail (ids ++ more)) (f a))
      → Ending Done' Fail old (resume r f)
  resume-Ending old (ok a, s) f (ids, h, k) c =
      Ending-After Done' Fail ids old s.pending (f a s) k ((c a ids h).at s)
  resume-Ending old (returned (state_error m x), s) f h c = h
  resume-Ending old (returned (state_success x), s) f h c = h
  resume-Ending old (thrown e, s) f h c = h
  resume-Ending old (aborted, s) f h c = h

  pub Traced-bind :
      (m : Exec (State W) A) (f : A → Exec (State W) B)
      → Traced Done Fail m
      → ((a : A) (ids : List String)
          → Done a ids
          → Traced (λ b more. Done' b (ids ++ more)) (λ more. Fail (ids ++ more)) (f a))
      → Traced Done' Fail (m >>= f)
  Traced-bind m f h c = record { at = λ s. resume-Ending s.pending (m s) f (h.at s) c }

module _ {W B : Type 0} (Done : B → List String → Type 0) (Fail : List String → Type 0) where
  before-Ending :
      {A : Type 0} (old : List PendingTransaction) (r : Result A × State W)
      (f : A → Exec (State W) B)
      → r.1.pending ≡ old
      → NoSuccess r.0
      → Fail []
      → ((a : A) → Traced Done Fail (f a))
      → Ending Done Fail old (resume r f)
  unfolding After
  before-Ending old (ok a, s) f h n z c = subst (λ l. Ending Done Fail l (f a s)) h ((c a).at s)
  before-Ending old (returned (state_error m x), s) f h n z c = ([], z, h)
  before-Ending old (returned (state_success x), s) f h n z c = n
  before-Ending old (thrown e, s) f h n z c = ([], z, h)
  before-Ending old (aborted, s) f h n z c = ([], z, h)

  pub Traced-before :
      {A : Type 0} (m : Exec (State W) A) (f : A → Exec (State W) B)
      → Fail []
      → Quiet State.pending m
      → ((a : A) → Traced Done Fail (f a))
      → Traced Done Fail (m >>= f)
  Traced-before m f z k c = record {
    at = λ s. before-Ending s.pending (m s) f (k.keeps s) (k.fails s) z c;
  }

  pub Traced-if :
      (b : Bool) (m n : Exec (State W) B)
      → Traced Done Fail m
      → Traced Done Fail n
      → Traced Done Fail (if b then m else n)
  Traced-if true m n km kn = km
  Traced-if false m n km kn = kn

-- The call throws or returns an error.
abbrev pub Unsuccessful : {A : Type 0} → Result A → Type 0
Unsuccessful (ok a) = ⊥
Unsuccessful (returned (state_error m x)) = Unit
Unsuccessful (returned (state_success members)) = ⊥
Unsuccessful (thrown e) = Unit
Unsuccessful aborted = Unit

module _ {W A : Type 0} (Done : A → List String → Type 0) (Fail : List String → Type 0) where
  Ending-Unsuccessful :
      (ids : List String) (old mid : List PendingTransaction) (r : Result A × State W)
      → Unsuccessful r.0
      → r.1.pending ≡ mid
      → Fail ids
      → After ids old mid
      → Ending Done Fail old r
  Ending-Unsuccessful ids old mid (ok a, s) u h f k = absurd u
  Ending-Unsuccessful ids old mid (returned (state_error m x), s) u h f k =
      (ids, f, subst (λ l. After ids old l) (sym h) k)
  Ending-Unsuccessful ids old mid (returned (state_success x), s) u h f k = u
  Ending-Unsuccessful ids old mid (thrown e, s) u h f k =
      (ids, f, subst (λ l. After ids old l) (sym h) k)
  Ending-Unsuccessful ids old mid (aborted, s) u h f k =
      (ids, f, subst (λ l. After ids old l) (sym h) k)

  Ending-caught :
      (old : List PendingTransaction) (r : Result A × State W) (h : Exception → Exec (State W) A)
      → Ending Done Fail old r
      → ((e : Exception) (s : State W) → Unsuccessful (h e s).0)
      → ((e : Exception) (s : State W) → (h e s).1.pending ≡ s.pending)
      → Ending Done Fail old (handle_thrown r h)
  Ending-caught old (ok a, s) h k u v = k
  Ending-caught old (returned d, s) h k u v = k
  Ending-caught old (thrown e, s) h (ids, f, k) u v =
      Ending-Unsuccessful ids old s.pending (h e s) (u e s) (v e s) f k
  Ending-caught old (aborted, s) h k u v = k

  pub Traced-try_catch :
      (m : Exec (State W) A) (h : Exception → Exec (State W) A)
      → Traced Done Fail m
      → ((e : Exception) (s : State W) → Unsuccessful (h e s).0)
      → ((e : Exception) (s : State W) → (h e s).1.pending ≡ s.pending)
      → Traced Done Fail (try_catch m h)
  Traced-try_catch m h k u v = record { at = λ s. Ending-caught s.pending (m s) h (k.at s) u v }

-- The responses of a handler that reports what it sent last.
abbrev pub Reports :
    (String → List String → Type 0) → (List String → Type 0) → Document → List String → Type 0
Reports Done Fail (state_success members) ids =
    (id : String) × (state_success members ≡ sent_response id) × (Done id ids)
Reports Done Fail (state_error m x) ids = Fail ids

module _ {W : Type 0} (Done : String → List String → Type 0) (Fail : List String → Type 0) where
  Ending-respond :
      (old : List PendingTransaction) (r : Result Document × State W)
      → Ending (Reports Done Fail) Fail old r
      → Ending (Reports Done Fail) Fail old (respond (λ s. r) r.1)
  Ending-respond old (ok d, s) h = h
  Ending-respond old (returned (state_error m x), s) h = h
  Ending-respond old (returned (state_success x), s) h = absurd h
  Ending-respond old (thrown e, s) h = h
  Ending-respond old (aborted, s) h = h

  pub Traced-respond :
      (m : Exec (State W) Document)
      → Traced (Reports Done Fail) Fail m
      → Traced (Reports Done Fail) Fail (respond m)
  Traced-respond m h = record { at = λ s. Ending-respond s.pending (m s) (h.at s) }
