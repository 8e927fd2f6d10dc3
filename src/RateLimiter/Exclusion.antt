-- ===== src/RateLimiter/Exclusion.antt =====
-- What holds of every interleaving of the threads.
use gradido_blockchain_conne.Base.{
  ℕ, ◌+◌, ◌≤◌, ◌<◌, String, false, ◌≡◌, some, List, [], ◌∷◌, arith, eq_iff, length,
}
use gradido_blockchain_conne.RateLimiter.{
  System, Step, start, refuse, finish, crash, Reach, here, next, member, take_slot, free_slot,
}
use gradido_blockchain_conne.RateLimiter.Holders.{
  count, holders, member-count, count-erase, length-erase, Gains, start-Gains, finish-Gains,
  crash-holders,
}

-- The set tracks the holders, one slot each, within the number of processors.
pub record Inv (cpu_count : ℕ) (s : System) : Type 0 where
  pub bounded : length s.running ≤ cpu_count
  pub sized : length s.running ≡ length (holders s.threads)
  pub tracked : (v : String) → count v s.running ≡ count v (holders s.threads)
  pub single : (v : String) → count v s.running ≤ 1

take_slot-some :
    (cpu_count : ℕ) (u : String) (r r' : List String)
    → take_slot cpu_count u r ≡ some r'
    → (r' ≡ u ∷ r) × (length r < cpu_count) × (member u r ≡ false)
unfolding take_slot
take_slot-some cpu_count u r r' h = ground arith

start-single :
    (u v : String) (r : List String) → member u r ≡ false → count v r ≤ 1 → count v (u ∷ r) ≤ 1
unfolding count
start-single u v r absent h = ground (arith, eq_iff u v, member-count u r absent)

count-cons : (u v : String) (r : List String) → count v (u ∷ r) ≡ count v r + count v (u ∷ [])
unfolding count
count-cons u v r = ground arith

start-Inv :
    (cpu_count : ℕ) (u : String) (s s' : System)
    → take_slot cpu_count u s.running ≡ some s'.running
    → Gains u s.threads s'.threads
    → Inv cpu_count s
    → Inv cpu_count s'
start-Inv cpu_count u s s' taken g v =
    let (grown, room, absent) = take_slot-some cpu_count u s.running s'.running taken in
    record {
      bounded = rw grown room;
      sized = rw grown (omega (arith, v.sized, g.longer));
      tracked = λ w. rw grown (omega (arith, v.tracked w, g.counted w, count-cons u w s.running));
      single = λ w. rw grown (start-single u w s.running absent (v.single w));
    }

counts_self : (u : String) → count u (u ∷ []) ≡ 1
unfolding count
counts_self u = ground (arith, eq_iff u u)

finish-Inv :
    (cpu_count : ℕ) (u : String) (s s' : System)
    → s'.running ≡ free_slot u s.running
    → Gains u s'.threads s.threads
    → Inv cpu_count s
    → Inv cpu_count s'
unfolding free_slot
finish-Inv cpu_count u s s' freed g v =
    let held : 0 < count u s.running = omega (arith, v.tracked u, g.counted u, counts_self u) in
    record {
      bounded = rw freed (omega (arith, v.bounded, length-erase u s.running held));
      sized = rw freed (omega (arith, v.sized, g.longer, length-erase u s.running held));
      tracked =
          λ w. rw freed (omega (arith, v.tracked w, g.counted w, count-erase u w s.running held));
      single = λ w. rw freed (omega (arith, v.single w, count-erase u w s.running held));
    }

Step-Inv :
    (cpu_count : ℕ) (s s' : System) → Step cpu_count s s' → Inv cpu_count s → Inv cpu_count s'
Step-Inv cpu_count s s' (start u taken m) v =
    start-Inv cpu_count u s s' taken (start-Gains u s.threads s'.threads m) v
Step-Inv cpu_count s s' (refuse u denied same) v = rw same v
Step-Inv cpu_count s s' (finish u freed m) v =
    finish-Inv cpu_count u s s' freed (finish-Gains u s.threads s'.threads m) v
Step-Inv cpu_count s s' (crash u kept m) v =
    let same = crash-holders u s.threads s'.threads m in
    record {
      bounded = rw kept v.bounded;
      sized = rw (kept, same) v.sized;
      tracked = λ w. rw (kept, same) (v.tracked w);
      single = λ w. rw kept (v.single w);
    }

pub Reach-Inv :
    (cpu_count : ℕ) {s t : System} → Inv cpu_count s → Reach cpu_count s t → Inv cpu_count t
Reach-Inv cpu_count v here = v
Reach-Inv cpu_count v (next {t} {u} r st) = Step-Inv cpu_count t u st (Reach-Inv cpu_count v r)

-- No thread has a slot.
abbrev pub IsIdle : System → Type 0
IsIdle s = (s.running ≡ []) × (holders s.threads ≡ [])

pub idle-Inv : (cpu_count : ℕ) (s : System) → IsIdle s → Inv cpu_count s
unfolding count
idle-Inv cpu_count s h = record {
  bounded = rw h.0 (omega arith);
  sized = rw (h.0, h.1);
  tracked = λ v. rw (h.0, h.1);
  single = λ v. rw h.0 (omega arith);
}

-- However the threads interleave from an idle start: never more threads hold a slot than there are
-- processors, no two of them for one user, and the set holds exactly their users.
pub Reach-exclusive :
    (cpu_count : ℕ) {s t : System}
    → IsIdle s
    → Reach cpu_count s t
    → (length (holders t.threads) ≤ cpu_count)
      × ((u : String) → count u (holders t.threads) ≤ 1)
      × ((u : String) → count u t.running ≡ count u (holders t.threads))
Reach-exclusive cpu_count {s} h r =
    let v = Reach-Inv cpu_count (idle-Inv cpu_count s h) r in
    (omega (arith, v.bounded, v.sized), (λ u. omega (arith, v.single u, v.tracked u)), v.tracked)
