-- ===== src/RateLimiter/Waiting.antt =====
-- The waiting loop ends, and how.
use gradido_blockchain_conne.Base.{
  ℕ, zero, suc, ◌+◌, ◌*◌, ◌≤◌, ◌<◌, ◌≡◌, refl, ◌⊎◌, inl, inr, Bool, true, false, arith, ltb,
  if◌then◌else◌, ltb→lt,
}
use gradido_blockchain_conne.Exec.{Exception}
use gradido_blockchain_conne.RateLimiter.{
  Check, done, no_slot, failed, Wait, encrypted_at, failed_at, limit_exceeded_at, after_check,
  wait_for_free_slot,
}

-- How the round `n` ends a wait whose outcome is `r`.
pub data EndsAt (check : ℕ → Check) (elapsed : ℕ → ℕ) (n : ℕ) : Wait → Type 0 where
  has_key : check n ≡ done → EndsAt check elapsed n (encrypted_at n)
  has_thrown : (e : Exception) → check n ≡ failed e → EndsAt check elapsed n (failed_at n e)
  gives_up : check n ≡ no_slot → 100000 < elapsed n → EndsAt check elapsed n (limit_exceeded_at n)

-- `r` is the outcome of a loop that stands before its round `k`.
abbrev pub Ends : (ℕ → Check) → (ℕ → ℕ) → ℕ → Wait → Type 0
Ends check elapsed k r =
    (n : ℕ) × (k ≤ n)
    × ((j : ℕ) → k ≤ j → j < n → (check j ≡ no_slot) × (elapsed j ≤ 100000))
    × EndsAt check elapsed n r

module _ (check : ℕ → Check) (elapsed : ℕ → ℕ) where
  waited_on :
      (k : ℕ) (r : Wait)
      → check k ≡ no_slot
      → elapsed k ≤ 100000
      → Ends check elapsed (suc k) r
      → Ends check elapsed k r
  waited_on k r busy early (n, le, before, outcome) = (n, omega arith, earlier, outcome)
    where
      earlier : (j : ℕ) → k ≤ j → j < n → (check j ≡ no_slot) × (elapsed j ≤ 100000)
      earlier j h h' = elim (first j h) [
        | inl e ↦ rw e (busy, early)
        | inr later ↦ before j later h'
      ]
        where
          first : (j : ℕ) → k ≤ j → (j ≡ k) ⊎ (suc k ≤ j)
          first j h = omega arith

  this_round : (k : ℕ) (r : Wait) → EndsAt check elapsed k r → Ends check elapsed k r
  this_round k r e = (k, omega arith, (λ j a b. absurd (omega arith)), e)

  busy-Ends :
      (k : ℕ) (rest : Wait) (b : Bool)
      → check k ≡ no_slot
      → ltb 100000 (elapsed k) ≡ b
      → (elapsed k ≤ 100000 → Ends check elapsed (suc k) rest)
      → Ends check elapsed k (if b then limit_exceeded_at k else rest)
  busy-Ends k rest true busy late later = this_round k _ (gives_up busy (ltb→lt _ _ late))
  busy-Ends k rest false busy early later =
      let in_time : elapsed k ≤ 100000 = ground arith in
      waited_on k rest busy in_time (later in_time)

  after_check-Ends :
      (k : ℕ) (rest : Wait) (c : Check)
      → check k ≡ c
      → (elapsed k ≤ 100000 → Ends check elapsed (suc k) rest)
      → Ends check elapsed k (after_check c (elapsed k) k rest)
  after_check-Ends k rest done e later = this_round k _ (has_key e)
  after_check-Ends k rest (failed x) e later = this_round k _ (has_thrown x e)
  after_check-Ends k rest no_slot e later = busy-Ends k rest (ltb 100000 (elapsed k)) e refl later

  wait_from-Ends :
      (fuel k : ℕ)
      → ((j : ℕ) → 200 * (j + 1) ≤ elapsed j)
      → 501 ≤ fuel + k
      → k < 501
      → Ends check elapsed k (wait_for_free_slot fuel check elapsed k)
  unfolding wait_for_free_slot
  wait_from-Ends zero k slept enough h = absurd (omega arith)
  wait_from-Ends (suc fuel) k slept enough h =
      after_check-Ends k (wait_for_free_slot fuel check elapsed (suc k)) (check k) refl (λ in_time.
        wait_from-Ends fuel (suc k) slept (omega arith) (omega (arith, slept k, in_time)))

  -- If each round sleeps at least its 200 milliseconds, a call ends within 501 rounds, in the first
  -- round that is not one without a slot in time: with the key, or with the exception of createKey,
  -- in the first round whose check finds a slot; or it gives up after the first round without a
  -- slot that ends later than 100 seconds after the start.
  pub wait-Ends :
      ((j : ℕ) → 200 * (j + 1) ≤ elapsed j)
      → Ends check elapsed 0 (wait_for_free_slot 501 check elapsed 0)
  wait-Ends slept = wait_from-Ends 501 0 slept (omega arith) (omega arith)
