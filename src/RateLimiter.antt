-- ===== src/RateLimiter.antt =====
-- src/PasswordEncryptionRateLimiter.cpp: at most one key derivation for a user at a time, and not
-- more of them than processors. Each stretch between `lock()` and `unlock()` is one step; threads
-- interleave between them. `mRunningEncryptions` is a list, since only its members matter.
pub mod Holders
pub mod Exclusion
pub mod Lockout
pub mod Waiting
mod Tests
use gradido_blockchain_conne.Exec.{Exception}
use gradido_blockchain_conne.Base.{
  ℕ, zero, suc, ◌<◌, String, Bool, true, false, ◌≡◌, refl, Option, none, some, List, [], ◌∷◌, ◌++◌,
  str_eq, ltb, if◌then◌else◌, length,
}

pub member : String → List String → Bool
member u [] = false
member u (x ∷ xs) = let rest = member u xs in if str_eq x u then true else rest

pub erase : String → List String → List String
erase u [] = []
erase u (x ∷ xs) = let rest = erase u xs in if str_eq x u then xs else x ∷ rest

-- The first stretch of checkForFreeSlotAndRunEncryption; `none` is its `return false`.
pub take_slot : ℕ → String → List String → Option (List String)
unfolding member
take_slot cpu_count username running =
    if ltb (length running) cpu_count
    then if member username running then none else some (username ∷ running)
    else none

-- The second stretch, after createKey.
pub free_slot : String → List String → List String
free_slot username running = erase username running

-- A thread in checkForFreeSlotAndRunEncryption: before it has a slot, in createKey, after it has
-- given the slot back, or left by an exception of createKey.
pub data Phase : Type 0 where
  waiting encrypting finished crashed : Phase

pub record System : Type 0 where
  pub running : List String
  pub threads : List (String × Phase)

-- A thread of a list moves to another phase.
pub data Moves (u : String) (from to : Phase) (ts ts' : List (String × Phase)) : Type 0 where
  moves :
      (before behind : List (String × Phase))
      → ts ≡ before ++ (u, from) ∷ behind
      → ts' ≡ before ++ (u, to) ∷ behind
      → Moves u from to ts ts'

-- One step of one thread.
pub data Step (cpu_count : ℕ) (s s' : System) : Type 0 where
  start :
      (u : String)
      → take_slot cpu_count u s.running ≡ some s'.running
      → Moves u waiting encrypting s.threads s'.threads
      → Step cpu_count s s'
  refuse : (u : String) → take_slot cpu_count u s.running ≡ none → s' ≡ s → Step cpu_count s s'
  finish :
      (u : String)
      → s'.running ≡ free_slot u s.running
      → Moves u encrypting finished s.threads s'.threads
      → Step cpu_count s s'
  crash :
      (u : String)
      → s'.running ≡ s.running
      → Moves u encrypting crashed s.threads s'.threads
      → Step cpu_count s s'

pub data Reach (cpu_count : ℕ) (s : System) : System → Type 0 where
  here : Reach cpu_count s s
  next : {t u : System} → Reach cpu_count s t → Step cpu_count t u → Reach cpu_count s u

-- What a call of checkForFreeSlotAndRunEncryption gives: a slot and the key, no slot, or an
-- exception of createKey in a slot.
pub data Check : Type 0 where
  done no_slot : Check
  failed : Exception → Check

-- What becomes of one call of waitForFreeSlotAndRunEncryption.
pub data Wait : Type 0 where
  encrypted_at : ℕ → Wait
  failed_at : ℕ → Exception → Wait
  limit_exceeded_at : ℕ → Wait
  unknown : Wait

-- What follows the check of a round, where `rest` is what the rounds behind it give.
abbrev pub after_check : Check → ℕ → ℕ → Wait → Wait
after_check done elapsed k rest = encrypted_at k
after_check (failed e) elapsed k rest = failed_at k e
after_check no_slot elapsed k rest = if ltb 100000 elapsed then limit_exceeded_at k else rest

-- The loop, from its round `k` on: `check k` is what the check of round `k` gives, and
-- `elapsed k` the milliseconds that the profiler reads after the sleep of round `k`.
pub wait_for_free_slot : ℕ → (ℕ → Check) → (ℕ → ℕ) → ℕ → Wait
wait_for_free_slot zero check elapsed k = unknown
wait_for_free_slot (suc fuel) check elapsed k =
    after_check (check k) (elapsed k) k (wait_for_free_slot fuel check elapsed (suc k))
