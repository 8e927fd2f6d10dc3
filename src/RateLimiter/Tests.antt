-- ===== src/RateLimiter/Tests.antt =====
-- The rate limiter on one thread and two processors, and a wait of some rounds.
use gradido_blockchain_conne.Base.{
  ℕ, ◌+◌, ◌*◌, ◌≤◌, String, ◌≡◌, refl, none, [], ◌∷◌, arith, length, ltb, if◌then◌else◌,
}
use gradido_blockchain_conne.Exec.{rate_limit_exception}
use gradido_blockchain_conne.RateLimiter.{
  member, take_slot, waiting, encrypting, crashed, System, moves, start, crash, Reach, here, next,
  Check, done, no_slot, failed, failed_at, wait_for_free_slot,
}
use gradido_blockchain_conne.RateLimiter.Holders.{count, holders}
use gradido_blockchain_conne.RateLimiter.Exclusion.{IsIdle, Reach-exclusive}
use gradido_blockchain_conne.RateLimiter.Lockout.{crashes, crash_locks_out}
use gradido_blockchain_conne.RateLimiter.Waiting.{Ends, wait-Ends}

abbrev idle : System
idle = record { running = []; threads = ("alice", waiting) ∷ [] }

abbrev started : System
started = record { running = "alice" ∷ []; threads = ("alice", encrypting) ∷ [] }

abbrev thrown : System
thrown = record { running = "alice" ∷ []; threads = ("alice", crashed) ∷ [] }

idle-IsIdle : IsIdle idle
unfolding holders
idle-IsIdle = (refl, refl)

idle_to_started : Reach 2 idle started
unfolding take_slot member
idle_to_started = next here (start "alice" refl (moves [] [] refl refl))

idle_to_thrown : Reach 2 idle thrown
idle_to_thrown = next idle_to_started (crash "alice" refl (moves [] [] refl refl))

Reach-exclusive_example :
    (length (holders started.threads) ≤ 2)
    × ((u : String) → count u (holders started.threads) ≤ 1)
    × ((u : String) → count u started.running ≡ count u (holders started.threads))
Reach-exclusive_example = Reach-exclusive 2 idle-IsIdle idle_to_started

crash_locks_out_example : take_slot 2 "alice" ("alice" ∷ []) ≡ none
unfolding count crashes
crash_locks_out_example =
    crash_locks_out 2 "alice" {s = idle} {t = thrown} {w = thrown} idle-IsIdle idle_to_thrown
      (omega arith) here

-- A slot becomes free after three rounds.
abbrev checks : ℕ → Check
checks k = if ltb 2 k then done else no_slot

abbrev elapsed : ℕ → ℕ
elapsed k = 200 * (k + 1)

wait-Ends_example : Ends checks elapsed 0 (wait_for_free_slot 501 checks elapsed 0)
wait-Ends_example = wait-Ends checks elapsed (λ j. omega arith)

-- An exception of createKey leaves the loop.
throws :
    wait_for_free_slot 9 (λ k. failed (rate_limit_exception "")) elapsed 0
    ≡ failed_at 0 (rate_limit_exception "")
unfolding wait_for_free_slot
throws = refl
