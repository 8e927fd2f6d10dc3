-- ===== src/Session/GroupId.antt =====
-- src/model/Session.cpp and Session.h: a group id is an int, and the ids of the tables have 64 bits.
use gradido_blockchain_conne.Base.{
  ℕ, ◌+◌, ◌%◌, ◌≤◌, ◌<◌, false, ◌≡◌, ◌↔◌, ◌∙◌, ◌⊎◌, inl, inr, ltb, arith, Bool-cases, ltb→lt,
  lt→ltb,
}
use gradido_blockchain_conne.Exec.{ok}
use gradido_blockchain_conne.Platform.{Library, Outside, Session, GroupRow}
use gradido_blockchain_conne.Tables.{to_int, to_uint64, load_group}
use gradido_blockchain_conne.Session.{get_group_id}

low : (r : ℕ) → r < 2147483648 → to_uint64 r ≡ r
low r h = ground (arith, lt→ltb r 2147483648 h)

high : (r : ℕ) → 2147483648 ≤ r → to_uint64 r ≡ r + 18446744069414584320
high r h = ground arith

ltb-ge : (a b : ℕ) → ltb a b ≡ false → b ≤ a
ltb-ge a b h = ground arith

to_uint64-to_int :
    (id : ℕ)
    → id < 18446744073709551616
    → (to_uint64 (to_int id) ≡ id) ↔ ((id < 2147483648) ⊎ (18446744071562067968 ≤ id))
to_uint64-to_int id h = elim (Bool-cases (ltb (id % 4294967296) 2147483648)) [
  | inl e ↦
      let below = ltb→lt (id % 4294967296) 2147483648 e in
      let same = low (id % 4294967296) below in
      (
        λ k. inl (omega (arith, below, same, k)),
        λ k.
            same
            ∙ elim k [ inl l ↦ omega (arith, l) | inr l ↦ absurd (omega (arith, l, below, h)) ],
      )
  | inr e ↦
      let above = ltb-ge (id % 4294967296) 2147483648 e in
      let same = high (id % 4294967296) above in
      (
        λ k. inr (omega (arith, above, same, k)),
        λ k. same ∙ elim k [
          | inl l ↦ absurd (omega (arith, l, above))
          | inr l ↦ omega (arith, l, above, h)
        ],
      )
]

module _ (L : Library) (O : Outside L) where
  -- A session without a group id takes the id of the group that is stored for its alias, as an int.
  -- For an id of 64 bits, the statements that look for users see the stored id again exactly if it is
  -- below 2 ^ 31, or is in the highest 2 ^ 31 numbers, which are the negative ones.
  pub get_group_id_bounds :
      (s : Session L) (row : GroupRow) (w w' : O.W)
      → s.group_id ≡ 0
      → row.id < 18446744073709551616
      → load_group L O s.group_alias w ≡ (ok row, w')
      → (group_id : ℕ) × (get_group_id L O s w ≡ (ok group_id, w'))
        × (group_id < 4294967296)
        × ((to_uint64 group_id ≡ row.id)
            ↔ ((row.id < 2147483648) ⊎ (18446744071562067968 ≤ row.id)))
  unfolding get_group_id
  get_group_id_bounds s row w w' unset bound loaded =
      (to_int row.id, rw (unset, loaded), omega arith, to_uint64-to_int row.id bound)
