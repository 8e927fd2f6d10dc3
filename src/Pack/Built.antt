-- ===== src/Pack/Built.antt =====
-- src/JSONInterface/JsonPackTransaction.cpp: what a successful answer of /packTransaction holds.
use gradido_blockchain_conne.Base.{String, List, ◌≡◌, refl, str_eq}
use gradido_blockchain_conne.Json.{Json}
use gradido_blockchain_conne.Exec.{state_success, ok, try_catch}
use gradido_blockchain_conne.Exec.Quiet.{nothing}
use gradido_blockchain_conne.Exec.Succeeds.{
  Succeeds, OnSuccess, Succeeds-pure, Succeeds-error, Succeeds-bind, Succeeds-if, Succeeds-ok,
  Succeeds-then, Succeeds-implies, Succeeds-respond,
}
use gradido_blockchain_conne.Platform.{Library, reply}
use gradido_blockchain_conne.Transaction.{or_return, or_keep}
use gradido_blockchain_conne.Transaction.Reading.{or_return-ok, or_return-Quiet}
use gradido_blockchain_conne.Pack.Quiet.{pack_rules}
use gradido_blockchain_conne.Pack.Entries.{
  Grouped, alone, HasEntries, IsPack, groups-Grouped, caught-ok, pack_entries-Quiet,
  pack_entries-Packed,
}
use gradido_blockchain_conne.Pack.{
  PackTransaction, pack, poco_error, pack_entries, result_base64_transactions, transfer, creation,
  register_address, by_type, handle,
}

module _ (L : Library) {S : Type 0} where
  result-HasEntries :
      (t : PackTransaction) (xs : List (L.Tx × String)) (s : S)
      → Grouped L xs
      → Succeeds (OnSuccess (HasEntries L t)) (result_base64_transactions L t xs) s
  unfolding result_base64_transactions
  result-HasEntries t xs s g =
      Succeeds-bind _ nothing (pack_entries L t xs) _ s (pack_entries-Quiet L t xs)
        (λ entries s₁ packed. Succeeds-pure _ _ s₁ (
          xs,
          entries,
          g,
          Succeeds-ok _ _ s s₁ entries packed (pack_entries-Packed L t xs s),
          refl,
        ))

  -- What the three kinds of request do after their checks.
  ruleset built_rules =
      (pack_rules, Succeeds-then, result-HasEntries, Succeeds-error, groups-Grouped, alone)

  transfer-HasEntries :
      (t : PackTransaction) (params : Json) (s : S)
      → Succeeds (OnSuccess (HasEntries L t)) (transfer L t params) s
  unfolding transfer
  transfer-HasEntries t params s = search built_rules depth 14

  creation-HasEntries :
      (t : PackTransaction) (params : Json) (s : S)
      → Succeeds (OnSuccess (HasEntries L t)) (creation L t params) s
  unfolding creation
  creation-HasEntries t params s = search built_rules depth 14

  register_address-HasEntries :
      (t : PackTransaction) (params : Json) (s : S)
      → Succeeds (OnSuccess (HasEntries L t)) (register_address L t params) s
  unfolding register_address
  register_address-HasEntries t params s = search built_rules depth 14

  by_type-HasEntries :
      (transaction_type : String) (t : PackTransaction) (params : Json) (s : S)
      → Succeeds (OnSuccess (HasEntries L t)) (by_type L transaction_type t params) s
  unfolding by_type
  by_type-HasEntries transaction_type t params s =
      Succeeds-if _ (str_eq transaction_type "transfer") _ _ s (λ e. transfer-HasEntries t params s)
        (λ e.
          Succeeds-if _ (str_eq transaction_type "creation") _ _ s
            (λ e. creation-HasEntries t params s)
            (λ e.
              Succeeds-if _ (str_eq transaction_type "registerAddress") _ _ s
                (λ e. register_address-HasEntries t params s) (λ e. Succeeds-error _ _ _ s)))

  pack-IsPack : (params : Json) (s : S) → Succeeds (OnSuccess (IsPack L params)) (pack L params) s
  unfolding pack
  pack-IsPack params s =
      Succeeds-then _ (or_return (L.get_string_parameter params "transactionType")) _ s
        (or_return-Quiet _ _)
        (λ transaction_type s₁.
          Succeeds-bind _ nothing (or_return (L.get_string_parameter params "created")) _ s₁
            (or_return-Quiet _ _)
            (λ date s₂ given.
              Succeeds-bind _ nothing
                (try_catch (reply (L.parse_date date)) (poco_error L "cannot parse created")) _ s₂
                (search pack_rules depth 6)
                (λ created s₃ parsed.
                  let t : PackTransaction = record {
                    memo = or_keep (L.get_string_parameter params "memo") "";
                    created = created;
                  } in
                  Succeeds-implies (HasEntries L t) (IsPack L params)
                    (by_type L transaction_type t params) s₃
                    (λ members h. (
                      t,
                      record {
                        memo = refl;
                        date = date;
                        given = or_return-ok _ s₁ s₂ date given;
                        created = caught-ok L (L.parse_date date) _ s₂ s₃ created parsed;
                      },
                      h,
                    ))
                    (by_type-HasEntries transaction_type t params s₃))))

  -- A success that /packTransaction answers has the one member `transactions`: an array with one
  -- entry, or with two for the outbound and the inbound half of a transaction between two groups.
  -- In its order, each entry shows the bytes of a transaction that has the memo and the date of
  -- the request and that is valid, and the group alias, if there are two.
  pub handle-IsPack :
      (params : Json) (members : List (String × Json)) (s s' : S)
      → handle L params s ≡ (ok (state_success members), s')
      → IsPack L params members
  unfolding handle
  handle-IsPack params members s s' h =
      Succeeds-respond (IsPack L params) (pack L params) s s' (state_success members)
        (pack-IsPack params s) h
