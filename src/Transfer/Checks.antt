-- ===== src/Transfer/Checks.antt =====
-- src/JSONInterface/JsonTransferTransaction.cpp: what the node has said of a transfer that is sent.
use gradido_blockchain_conne.Base.{
  ℕ, String, Option, none, some, Bool, true, false, List, ◌≡◌, ◌≢◌, refl, ap, str_eq, eq_iff,
  false≢true, sym, ◌∙◌, if◌then◌else◌,
}
use gradido_blockchain_conne.Exec.{ok, pure, return_error}
use gradido_blockchain_conne.Exec.Rules.{Ensures, Ensures-bind}
use gradido_blockchain_conne.Platform.{Library, Outside, address_none}
use gradido_blockchain_conne.NodeRpc.{get_address_type, get_address_balance}
use gradido_blockchain_conne.Transaction.{JsonTransaction, number_or}
use gradido_blockchain_conne.Transfer.{check_transfer}

module _ (L : Library) (O : Outside L) where
  -- The node was asked in the state `w`: the recipient's address is registered, and the sender's
  -- balance is not below the amount.
  pub record Covered (t : JsonTransaction L) (key : L.Key) (recipient : List ℕ)
      (recipient_group_alias created coin_group_id amount_string : String) (w : O.W) : Type 0 where
    pub asked : O.W
    pub answered : O.W
    pub address_type : String
    pub balance_string : String
    pub balance : L.Number
    pub amount : L.Number
    pub type_of_recipient :
        get_address_type L O (L.bin_to_hex recipient) recipient_group_alias w
        ≡ (ok address_type, asked)
    pub registered : address_type ≢ L.address_string_from_type address_none
    pub balance_of_sender :
        get_address_balance L O
          (L.bin_to_hex (L.public_key key))
          created
          t.session.group_alias
          coin_group_id
          asked
        ≡ (ok balance_string, answered)
    pub balance_read : L.set_str balance_string ≡ some balance
    pub amount_read : L.set_str amount_string ≡ some amount
    pub enough : L.greater amount balance ≡ false

  number-ok :
      (o : Option L.Number) (message : String) (w w' : O.W) (n : L.Number)
      → number_or L O o (return_error message) w ≡ (ok n, w')
      → o ≡ some n
  number-ok none message w w' n h = cc
  number-ok (some m) message w w' n h = cc h

  guard-ok :
      (b : Bool) (message : String) (w w' : O.W) (u : Unit {0})
      → (if b then return_error {S = O.W} {A = Unit {0}} message else pure tt) w ≡ (ok u, w')
      → (b ≡ false) × (w ≡ w')
  guard-ok true message w w' u h = cc
  guard-ok false message w w' u h = (refl, ap (λ r. r.1) h)

  check_transfer-Ensures :
      (t : JsonTransaction L) (key : L.Key) (recipient : List ℕ)
      (recipient_group_alias created coin_group_id amount_string : String) (w : O.W)
      → Ensures
          (check_transfer L O t key recipient recipient_group_alias created coin_group_id
            amount_string)
          w
          (λ u. Covered t key recipient recipient_group_alias created coin_group_id amount_string w)
  unfolding check_transfer
  check_transfer-Ensures t key recipient to created coin amount_string w =
      Ensures-bind (get_address_type L O (L.bin_to_hex recipient) to) _ w _ (λ a w₁ asked.
        Ensures-bind
          (if str_eq a (L.address_string_from_type address_none)
            then return_error {S = O.W} {A = Unit {0}} "address isn't registered on blockchain"
            else pure tt)
          _ w₁ _
          (λ u₁ w₂ tested.
            Ensures-bind
              (get_address_balance L O (L.bin_to_hex (L.public_key key)) created
                t.session.group_alias coin)
              _ w₂ _
              (λ s w₃ answered.
                Ensures-bind (number_or L O (L.set_str s) (return_error _)) _ w₃ _
                  (λ balance w₄ balance_read.
                    Ensures-bind (number_or L O (L.set_str amount_string) (return_error _)) _ w₄ _
                      (λ amount w₅ amount_read.
                        let passed = guard-ok _ _ w₁ w₂ u₁ tested in
                        record {
                          at = λ u w' h. record {
                            asked = w₂;
                            answered = w₃;
                            address_type = a;
                            balance_string = s;
                            balance = balance;
                            amount = amount;
                            type_of_recipient = asked ∙ (λ i. (ok a, passed.1 i));
                            registered = λ p. false≢true (sym passed.0 ∙ (eq_iff a _).1 p);
                            balance_of_sender = answered;
                            balance_read = number-ok _ _ w₃ w₄ balance balance_read;
                            amount_read = number-ok _ _ w₄ w₅ amount amount_read;
                            enough = (guard-ok _ _ w₅ w' u h).0;
                          };
                        })))))

  -- The check of a transfer that is not archived passes only if the node, asked at its start, has
  -- given the recipient's address a type other than none and the sender's key a balance, the
  -- balance and the amount are numbers, and the amount is not greater than the balance.
  pub transfer-Covered :
      (t : JsonTransaction L) (key : L.Key) (recipient : List ℕ)
      (recipient_group_alias created coin_group_id amount_string : String) (w w' : O.W)
      → check_transfer L O t key recipient recipient_group_alias created coin_group_id amount_string
          w
        ≡ (ok tt, w')
      → Covered t key recipient recipient_group_alias created coin_group_id amount_string w
  transfer-Covered t key recipient to created coin amount_string w w' h =
      (check_transfer-Ensures t key recipient to created coin amount_string w).at tt w' h
