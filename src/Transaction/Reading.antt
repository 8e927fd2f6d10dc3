-- ===== src/Transaction/Reading.antt =====
-- src/JSONInterface/JsonTransaction.cpp: reading the parameters ends with an error at worst and
-- does not touch the list of pending transactions.
use gradido_blockchain_conne.Base.{ℕ, String, Option, none, some, ◌≡◌, refl}
use gradido_blockchain_conne.Json.{Json}
use gradido_blockchain_conne.Exec.{
  Exception, ok, library, jwt_token, login_exception, session_exception, Exec, no_details, text,
  what,
}
use gradido_blockchain_conne.Exec.Quiet.{
  Quiet, Quiet-pure, Quiet-throw, Quiet-error, Quiet-if, Quiet-Silent, quiet_rules,
}
use gradido_blockchain_conne.Access.Rules.{Silent-total}
use gradido_blockchain_conne.Platform.{
  Library, Outside, Param, found, missing, State, Reply, answer, fails, deref, reply,
}
use gradido_blockchain_conne.ServerConfig.{ServerConfig}
use gradido_blockchain_conne.SessionManager.Silent.{get_session-Silent}
use gradido_blockchain_conne.Transaction.{
  number_or, or_return, parsed, no_session, read_shared_parameter,
}
use gradido_blockchain_conne.Transaction.Trace.{Quiet-in_world}

module _ {S B : Type 0} (view : S → B) where
  pub or_return-Quiet : {A : Type 0} (p : Param A) → Quiet view (or_return p)
  or_return-Quiet (found a) = Quiet-pure view a
  or_return-Quiet (missing m x) = Quiet-error view m x

  pub reply-Quiet : {A : Type 0} (r : Reply A) → Quiet view (reply r)
  reply-Quiet (answer a) = Quiet-pure view a
  reply-Quiet (fails e) = Quiet-throw view e

  pub deref-Quiet : {A : Type 0} (o : Option A) → Quiet view (deref o)
  deref-Quiet none = record { keeps = λ s. refl; fails = λ s. tt }
  deref-Quiet (some a) = record { keeps = λ s. refl; fails = λ s. tt }

-- What was read is what the parameter or the answer holds.
pub or_return-ok :
    {S A : Type 0} (p : Param A) (s s' : S) (a : A) → or_return p s ≡ (ok a, s') → p ≡ found a
or_return-ok (found b) s s' a h = cc
or_return-ok (missing m x) s s' a h = cc

pub reply-ok :
    {S A : Type 0} (r : Reply A) (s s' : S) (a : A) → reply r s ≡ (ok a, s') → r ≡ answer a
reply-ok (answer b) s s' a h = cc
reply-ok (fails e) s s' a h = cc

pub reply-same : {S A : Type 0} (r : Reply A) (s s' : S) (a : A) → reply r s ≡ (ok a, s') → s ≡ s'
reply-same (answer b) s s' a h = cc
reply-same (fails e) s s' a h = cc

module _ (L : Library) (O : Outside L) where
  pub number_or-Quiet :
      {S B : Type 0} (view : S → B) (o : Option L.Number) (m : Exec S L.Number)
      → Quiet view m
      → Quiet view (number_or L O o m)
  number_or-Quiet view (some n) m k = Quiet-pure view n
  number_or-Quiet view none m k = k

module _ (L : Library) (O : Outside L) (C : ServerConfig) where
  pub parsed-Quiet : (message : String) (r : Reply ℕ) → Quiet State.pending (parsed L O C message r)
  parsed-Quiet message (answer date) = Quiet-pure _ date
  parsed-Quiet message (fails e) =
      Quiet-if _ _ _ _ (Quiet-error _ message (text (what e))) (Quiet-throw _ e)

  no_session-Quiet : (e : Exception) → Quiet State.pending (no_session L O C e)
  no_session-Quiet (library jwt_token w) = Quiet-error _ "invalid jwt token" no_details
  no_session-Quiet (login_exception w user ip) = Quiet-error _ w no_details
  no_session-Quiet (session_exception w user) = Quiet-error _ w no_details
  no_session-Quiet e = Quiet-throw _ e

  pub read_shared-Quiet :
      (start : ℕ) (jwt client_ip : String) (params : Json)
      → Quiet State.pending (read_shared_parameter L O C start jwt client_ip params)
  unfolding read_shared_parameter
  read_shared-Quiet start jwt client_ip params =
      search
        (
          quiet_rules, or_return-Quiet, parsed-Quiet, no_session-Quiet, Quiet-in_world,
          Quiet-Silent, Silent-total, get_session-Silent,
        )
        depth 14
