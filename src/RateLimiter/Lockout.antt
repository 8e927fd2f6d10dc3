-- ===== src/RateLimiter/Lockout.antt =====
-- A key derivation that ends in an exception keeps its slot.
use gradido_blockchain_conne.Base.{
  ℕ, ◌+◌, ◌≤◌, ◌<◌, String, ◌≡◌, true, refl, none, List, [], ◌∷◌, ◌++◌, arith, ap,
}
use gradido_blockchain_conne.RateLimiter.{
  Phase, waiting, encrypting, finished, crashed, System, moves, Step, start, refuse, finish, crash,
  Reach, here, next, member, take_slot,
}
use gradido_blockchain_conne.RateLimiter.Holders.{count, holders, count-append, count-member}
use gradido_blockchain_conne.RateLimiter.Exclusion.{IsIdle, idle-Inv, Reach-Inv}

-- The users of the threads that createKey has left by an exception.
unfoldable pub crashes : List (String × Phase) → List String
crashes [] = []
crashes ((u, waiting) ∷ ts) = crashes ts
crashes ((u, encrypting) ∷ ts) = crashes ts
crashes ((u, finished) ∷ ts) = crashes ts
crashes ((u, crashed) ∷ ts) = u ∷ crashes ts

crashes-append : (ts ss : List (String × Phase)) → crashes (ts ++ ss) ≡ crashes ts ++ crashes ss
unfolding crashes
crashes-append [] ss = refl
crashes-append ((u, waiting) ∷ ts) ss = crashes-append ts ss
crashes-append ((u, encrypting) ∷ ts) ss = crashes-append ts ss
crashes-append ((u, finished) ∷ ts) ss = crashes-append ts ss
crashes-append ((u, crashed) ∷ ts) ss = ap (◌∷◌ u) (crashes-append ts ss)

crashes-le-holders :
    (u : String) (ts : List (String × Phase)) → count u (crashes ts) ≤ count u (holders ts)
unfolding count crashes holders
crashes-le-holders u [] = omega arith
crashes-le-holders u ((v, waiting) ∷ ts) = crashes-le-holders u ts
crashes-le-holders u ((v, encrypting) ∷ ts) = ground (arith, crashes-le-holders u ts)
crashes-le-holders u ((v, finished) ∷ ts) = crashes-le-holders u ts
crashes-le-holders u ((v, crashed) ∷ ts) = ground (arith, crashes-le-holders u ts)

-- A thread that has not crashed moves: the crashed ones stay.
module _ (u v : String) (before behind : List (String × Phase)) where
  crashes-at :
      (p : Phase)
      → count u (crashes (before ++ (v, p) ∷ behind))
        ≡ count u (crashes before) + count u (crashes ((v, p) ∷ behind))
  crashes-at p = rw (crashes-append before ((v, p) ∷ behind)) (count-append u (crashes before) _)

Step-crashes :
    (cpu_count : ℕ) (u : String) (s t : System)
    → Step cpu_count s t
    → count u (crashes s.threads) ≤ count u (crashes t.threads)
unfolding crashes count
Step-crashes cpu_count u s t (start v _ (moves b h e e')) =
    rw (e, e') (omega (arith, crashes-at u v b h waiting, crashes-at u v b h encrypting))
Step-crashes cpu_count u s t (refuse v _ same) = rw same (omega arith)
Step-crashes cpu_count u s t (finish v _ (moves b h e e')) =
    rw (e, e') (omega (arith, crashes-at u v b h encrypting, crashes-at u v b h finished))
Step-crashes cpu_count u s t (crash v _ (moves b h e e')) =
    rw (e, e') (ground (arith, crashes-at u v b h encrypting, crashes-at u v b h crashed))

Reach-crashes :
    (cpu_count : ℕ) (u : String) {s t : System}
    → Reach cpu_count s t
    → count u (crashes s.threads) ≤ count u (crashes t.threads)
Reach-crashes cpu_count u here = omega arith
Reach-crashes cpu_count u (next {t} {u = w} r st) =
    omega (arith, Reach-crashes cpu_count u r, Step-crashes cpu_count u t w st)

take_slot-member :
    (cpu_count : ℕ) (u : String) (r : List String)
    → member u r ≡ true
    → take_slot cpu_count u r ≡ none
unfolding take_slot
take_slot-member cpu_count u r h = ground arith

-- Once createKey has thrown for a user, no later check for that user gets a slot, whatever the
-- threads do.
pub crash_locks_out :
    (cpu_count : ℕ) (u : String) {s t w : System}
    → IsIdle s
    → Reach cpu_count s t
    → 0 < count u (crashes t.threads)
    → Reach cpu_count t w
    → take_slot cpu_count u w.running ≡ none
crash_locks_out cpu_count u {s} {t} {w} h r crashed_before r' =
    let v = Reach-Inv cpu_count (Reach-Inv cpu_count (idle-Inv cpu_count s h) r) r' in
    take_slot-member cpu_count u w.running (
      count-member u w.running (
        omega (
          arith,
          crashed_before,
          Reach-crashes cpu_count u r',
          crashes-le-holders u w.threads,
          v.tracked u,
        )))
