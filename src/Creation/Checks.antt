-- ===== src/Creation/Checks.antt =====
-- src/JSONInterface/JsonCreationTransaction.cpp: what the node has said of a creation that is sent.
use gradido_blockchain_conne.Base.{
  ℕ, String, Option, none, some, Bool, true, false, List, ◌≡◌, refl, ap, sym, ◌∙◌, false≢true,
  str_eq, eq_iff, if◌then◌else◌,
}
use gradido_blockchain_conne.Exec.{Document, ok, pure, throw, Exception, return_error}
use gradido_blockchain_conne.Exec.Rules.{Ensures, Ensures-bind, bind-ok}
use gradido_blockchain_conne.Platform.{Library, Outside, State, human, in_world}
use gradido_blockchain_conne.NodeRpc.{get_address_type, get_creation_sum_for_month}
use gradido_blockchain_conne.Transaction.{JsonTransaction, number_or}
use gradido_blockchain_conne.Creation.{address_type_human, check_creation, create}

module _ (L : Library) (O : Outside L) where
  -- The node was asked in the state `w`: the recipient's address is one of a human, and what was
  -- created for it in the month with the new amount is not above 1000.
  pub record Granted (t : JsonTransaction L) (pubkey_hex amount_string : String) (target_date : ℕ)
      (w : O.W) : Type 0 where
    pub asked : O.W
    pub answered : O.W
    pub sum_string : String
    pub sum : L.Number
    pub amount : L.Number
    pub is_human :
        get_address_type L O pubkey_hex t.session.group_alias w
        ≡ (ok (L.address_string_from_type human), asked)
    pub sum_of_month :
        get_creation_sum_for_month L O pubkey_hex
          (L.month target_date)
          (L.year target_date)
          (L.format_date t.created)
          t.session.group_alias
          asked
        ≡ (ok sum_string, answered)
    pub sum_read : L.set_str sum_string ≡ some sum
    pub amount_read : L.set_str amount_string ≡ some amount
    pub within : L.greater_than_1000 (L.add sum amount) ≡ false

  human-test :
      (b c : Bool) (m n : String) (w w' : O.W) (u : Unit {0})
      → (if b then pure tt else if c then return_error m else return_error n) w ≡ (ok u, w')
      → (b ≡ true) × (w ≡ w')
  human-test true c m n w w' u h = (refl, ap (λ r. r.1) h)
  human-test false true m n w w' u h = cc
  human-test false false m n w w' u h = cc

  human-ok :
      (a : String) (w w' : O.W) (u : Unit {0})
      → address_type_human L O a w ≡ (ok u, w')
      → (a ≡ L.address_string_from_type human) × (w ≡ w')
  unfolding address_type_human
  human-ok a w w' u h =
      let p = human-test (str_eq a (L.address_string_from_type human)) _ _ _ w w' u h in
      ((eq_iff a (L.address_string_from_type human)).0 p.0, p.1)

  number-ok :
      (o : Option L.Number) (e : Exception) (w w' : O.W) (n : L.Number)
      → number_or L O o (throw e) w ≡ (ok n, w')
      → (o ≡ some n) × (w ≡ w')
  number-ok none e w w' n h = cc
  number-ok (some m) e w w' n h = (cc h, ap (λ r. r.1) h)

  guard-ok :
      (b : Bool) (e : Exception) (w w' : O.W) (u : Unit {0})
      → (if b then throw {S = O.W} {A = Unit {0}} e else pure tt) w ≡ (ok u, w')
      → b ≡ false
  guard-ok true e w w' u h = cc
  guard-ok false e w w' u h = refl

  check_creation-Ensures :
      (t : JsonTransaction L) (pubkey_hex amount_string : String) (target_date : ℕ) (w : O.W)
      → Ensures
          (check_creation L O t pubkey_hex amount_string target_date)
          w
          (λ u. Granted t pubkey_hex amount_string target_date w)
  unfolding check_creation
  check_creation-Ensures t pubkey_hex amount_string target_date w =
      Ensures-bind (get_address_type L O pubkey_hex t.session.group_alias) _ w _ (λ a w₁ asked.
        Ensures-bind (address_type_human L O a) _ w₁ _ (λ u₁ w₂ tested.
          Ensures-bind
            (get_creation_sum_for_month L O pubkey_hex (L.month target_date) (L.year target_date)
              (L.format_date t.created) t.session.group_alias)
            _ w₂ _
            (λ s w₃ answered.
              Ensures-bind (number_or L O (L.set_str s) (throw _)) _ w₃ _ (λ sum w₄ sum_read.
                Ensures-bind (number_or L O (L.set_str amount_string) (throw _)) _ w₄ _
                  (λ amount w₅ amount_read.
                    let named = human-ok a w₁ w₂ u₁ tested in
                    record {
                      at = λ u w' h. record {
                        asked = w₂;
                        answered = w₃;
                        sum_string = s;
                        sum = sum;
                        amount = amount;
                        is_human = asked ∙ (λ i. (ok (named.0 i), named.1 i));
                        sum_of_month = answered;
                        sum_read = (number-ok _ _ w₃ w₄ sum sum_read).0;
                        amount_read = (number-ok _ _ w₄ w₅ amount amount_read).0;
                        within = guard-ok _ _ w₅ w' u h;
                      };
                    })))))

  checked-or_archived :
      (t : JsonTransaction L) (pubkey_hex amount_string : String) (target_date : ℕ)
      (archived : Bool) (s s' : State O.W) (u : Unit {0})
      → archived ≡ false
      → (if archived
            then pure tt
            else in_world (check_creation L O t pubkey_hex amount_string target_date))
          s
        ≡ (ok u, s')
      → Granted t pubkey_hex amount_string target_date s.world
  checked-or_archived t k a d true s s' u h p = absurd (false≢true (sym h))
  checked-or_archived t k a d false s s' u h p =
      (check_creation-Ensures t k a d s.world).at u s'.world (ap (λ r. (r.0, r.1.world)) p)

  -- A creation that is not archived is sent only if the node, asked at its start, has said that
  -- the recipient's address is one of a human, and a sum for the month of the target date that
  -- with the new amount is not above 1000; both amounts are numbers.
  pub create-Granted :
      (t : JsonTransaction L) (public_key : List ℕ) (amount_string : String) (target_date : ℕ)
      (s s' : State O.W) (d : Document)
      → t.archive_transaction ≡ false
      → create L O t public_key amount_string target_date s ≡ (ok d, s')
      → Granted t (L.bin_to_hex public_key) amount_string target_date s.world
  unfolding create
  create-Granted t public_key amount_string target_date s s' d live h =
      let (u, s₁, checked, rest) =
        bind-ok
          (if t.archive_transaction
            then pure tt
            else in_world
                (check_creation L O t (L.bin_to_hex public_key) amount_string target_date))
          _ s h in
      checked-or_archived t _ amount_string target_date t.archive_transaction s s₁ u live checked
