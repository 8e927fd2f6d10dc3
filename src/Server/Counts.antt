-- ===== src/Server/Counts.antt =====
-- src/JSONInterface/: from what a handler sent or was told to a part of a history.
use gradido_blockchain_conne.Base.{
  ℕ, ◌≤◌, String, some, List, [], ◌∷◌, ◌≡◌, refl, sym, ap, ◌∙◌, length, arith,
}
use gradido_blockchain_conne.Exec.{
  Document, state_error, state_success, Result, ok, returned, thrown, aborted, pure, resume,
}
use gradido_blockchain_conne.Platform.{State}
use gradido_blockchain_conne.Pending.{PendingTransaction}
use gradido_blockchain_conne.Pending.History.{Event, run, sent}
use gradido_blockchain_conne.Routing.{Handler}
use gradido_blockchain_conne.Transaction.Trace.{Ending, Reports, After}
use gradido_blockchain_conne.Transaction.Sent.{
  NoneSent, OneOrTwo, one, two, AtMostOne, none_sent, one_sent,
}
use gradido_blockchain_conne.Creation.Outcome.{OneSent}
use gradido_blockchain_conne.Listener.Outcome.{Notified, IsSuccess, Told}
use gradido_blockchain_conne.Server.{Answer}
use gradido_blockchain_conne.Server.Events.{Fits, notified, After-run, Told-run}

-- The list behind a request is that before it after a history that the handler may have made.
abbrev pub Simulates : Handler → List PendingTransaction → List PendingTransaction → Type 0
Simulates h old new = (vs : List Event) × (run vs old ≡ some new) × Fits h vs

-- Of ids that were sent, how many.
abbrev pub Counts : (List String → Type 0) → ℕ → Type 0
Counts P n = (ids : List String) → P ids → length ids ≤ n

counted :
    {n : ℕ} (ids : List String)
    → length ids ≤ n
    → (old new : List PendingTransaction) → After ids old new
    → (vs : List Event) × (run vs old ≡ some new) × (notified vs ≡ 0) × (sent vs ≤ n)
counted ids bound old new h =
    let (vs, ran, none_notified, count) = After-run ids old new h in
    (vs, ran, none_notified, omega (arith, count, bound))

pub one-Counts : (id : String) → Counts (OneSent id) 1
one-Counts id ids h = rw h (omega arith)

pub none-Counts : (n : ℕ) → Counts NoneSent n
none-Counts n ids h = rw h (omega arith)

pub OneOrTwo-Counts : (id : String) (ids : List String) → OneOrTwo id ids → length ids ≤ 2
OneOrTwo-Counts id [] h = elim h [ ]
OneOrTwo-Counts id (first ∷ []) one = omega arith
OneOrTwo-Counts id (first ∷ second ∷ []) (two other) = omega arith
OneOrTwo-Counts id (first ∷ second ∷ third ∷ more) h = elim h [ ]

pub AtMostOne-Counts : (ids : List String) → AtMostOne ids → length ids ≤ 2
AtMostOne-Counts [] none_sent = omega arith
AtMostOne-Counts (id ∷ []) (one_sent other) = omega arith
AtMostOne-Counts (id ∷ second ∷ more) h = elim h [ ]

pub Reports-Counts :
    (Done : String → List String → Type 0) (Fail : List String → Type 0) (n : ℕ) (d : Document)
    → ((id : String) → Counts (Done id) n)
    → Counts Fail n
    → Counts (Reports Done Fail d) n
Reports-Counts Done Fail n (state_success members) f g ids (id, e, h) = f id ids h
Reports-Counts Done Fail n (state_error m x) f g ids h = g ids h

module _ {W A : Type 0} (Done : A → List String → Type 0) (Fail : List String → Type 0)
    (n : ℕ) where
  pub Ending-run :
      (old : List PendingTransaction) (r : Result A × State W)
      → ((a : A) → Counts (Done a) n)
      → Counts Fail n
      → Ending Done Fail old r
      → (vs : List Event) × (run vs old ≡ some r.1.pending) × (notified vs ≡ 0) × (sent vs ≤ n)
  Ending-run old (ok a, s) d f (ids, h, k) = counted ids (d a ids h) old s.pending k
  Ending-run old (returned (state_error m x), s) d f (ids, h, k) =
      counted ids (f ids h) old s.pending k
  Ending-run old (returned (state_success x), s) d f h = absurd h
  Ending-run old (thrown e, s) d f (ids, h, k) = counted ids (f ids h) old s.pending k
  Ending-run old (aborted, s) d f (ids, h, k) = counted ids (f ids h) old s.pending k

nothing_done :
    (p : List PendingTransaction)
    → (vs : List Event) × (run vs p ≡ some p) × (notified vs ≤ 1) × (sent vs ≡ 0)
unfolding run
nothing_done p = ([], refl, omega arith, refl)

module _ {W : Type 0} where
  pub Notified-run :
      (r : Result Document × State W) (s : State W)
      → Notified IsSuccess Told s r
      → (vs : List Event) × (run vs s.pending ≡ some r.1.pending)
        × (notified vs ≤ 1)
        × (sent vs ≡ 0)
  Notified-run (ok d, t) s (answer, told, world) = Told-run s.pending t.pending told
  Notified-run (returned d, t) s h = absurd h
  Notified-run (thrown e, t) s h = rw h (nothing_done s.pending)
  Notified-run (aborted, t) s h = rw h (nothing_done s.pending)

  -- A handler's document goes on to the answer with the state as it is.
  pub resume-state :
      {A : Type 0} (r : Result A × State W) (f : A → Answer)
      → (resume r (λ a. pure {S = State W} (f a))).1 ≡ r.1
  resume-state (ok a, s) f = refl
  resume-state (returned d, s) f = refl
  resume-state (thrown e, s) f = refl
  resume-state (aborted, s) f = refl

  -- A handler that leaves the list.
  pub kept-Simulates :
      {A : Type 0} (h : Handler) (s : State W) (r : Result A × State W) (f : A → Answer)
      → Fits h []
      → r.1.pending ≡ s.pending
      → Simulates h s.pending (resume r (λ a. pure {S = State W} (f a))).1.pending
  unfolding run
  kept-Simulates h s r f fits same =
      ([], ap some (sym same ∙ ap State.pending (sym (resume-state r f))), fits)
