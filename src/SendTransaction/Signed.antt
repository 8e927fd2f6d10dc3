-- ===== src/SendTransaction/Signed.antt =====
-- src/JSONInterface/JsonSendTransactionIota.cpp: what a success of /sendTransactionIota means.
use gradido_blockchain_conne.Base.{
  ℕ, ◌≤◌, String, Bool, true, false, Option, none, some, List, [], ◌∷◌, ◌≡◌, refl, sym, subst, ◌∙◌,
  ltb, if◌then◌else◌, arith,
}
use gradido_blockchain_conne.Json.{Items, find_member, Json, arr, items}
use gradido_blockchain_conne.Exec.{Document, state_success, ok, pure, return_error}
use gradido_blockchain_conne.Exec.Quiet.{
  Quiet, nothing, quiet_rules, Quiet-Silent, Quiet-error, Quiet-pure, Quiet-bind,
}
use gradido_blockchain_conne.Exec.Rules.{bind-ok}
use gradido_blockchain_conne.Exec.Succeeds.{Succeeds-Quiet, OnSuccess, Succeeds-respond}
use gradido_blockchain_conne.Access.{member}
use gradido_blockchain_conne.Access.Rules.{Silent-member, member-ok}
use gradido_blockchain_conne.Platform.{Library, found, answer, reply}
use gradido_blockchain_conne.Transaction.{or_return, or_keep}
use gradido_blockchain_conne.Transaction.Reading.{
  or_return-ok, reply-ok, or_return-Quiet, reply-Quiet,
}
use gradido_blockchain_conne.SendTransaction.{
  signature_pairs, add_signature, add_signatures, check_signed, send, handle,
}

module _ (L : Library) where
  -- The pairs of the request, in their order, are added to a transaction.
  pub data Signs : L.Tx → List Json → L.Tx → Type 0 where
    no_more : (tx : L.Tx) → Signs tx [] tx
    sign_by :
        {signed : L.Tx} {pairs : List Json} (tx next : L.Tx) (pair : Json)
        (pubkey signature : String)
        → L.get_string_parameter pair "pubkey" ≡ found pubkey
        → L.get_string_parameter pair "signature" ≡ found signature
        → L.add_sign (L.hex_to_bin pubkey) (L.hex_to_bin signature) tx ≡ answer next
        → Signs next pairs signed
        → Signs tx (pair ∷ pairs) signed

  -- The transaction is valid on its own and has enough signatures; the group alias is valid.
  pub record Checked (signed : L.Tx) (group_alias : String) : Type 0 where
    pub validated : (b : Bool) × (L.validate_single signed ≡ answer b)
    pub enough : L.min_signature_count signed ≤ L.sign_count signed
    pub alias : L.is_valid_group_alias group_alias ≡ true

  -- The request holds a body and signatures that make a valid transaction, with enough of them.
  pub record Accepted (params : Json) : Type 0 where
    pub body : String
    pub unsigned : L.Tx
    pub signed : L.Tx
    pub values : Items
    pub given : L.get_string_parameter params "bodyBytesBase64" ≡ found body
    pub loaded : L.load_body (L.base64_to_bin body) ≡ answer unsigned
    pub listed : find_member "signaturePairs" params ≡ some (arr values)
    pub signatures : Signs unsigned (items values) signed
    pub checked : Checked signed (or_keep (L.get_string_parameter params "groupAlias") "")

  ltb-false : (a b : ℕ) → ltb a b ≡ false → b ≤ a
  ltb-false a b h = ground arith

  module _ {S : Type 0} where
    signature_pairs-Quiet : (o : Option Json) → Quiet nothing (signature_pairs L {S = S} o)
    signature_pairs-Quiet none = Quiet-error _ _ _
    signature_pairs-Quiet (some (arr values)) = Quiet-pure _ (items values)
    signature_pairs-Quiet (some j) = Quiet-error _ _ _

    ruleset send_rules = (quiet_rules, or_return-Quiet, reply-Quiet, signature_pairs-Quiet)

    add_signature-Quiet :
        (tx : L.Tx) (pair : Json) → Quiet nothing (add_signature L {S = S} tx pair)
    unfolding add_signature
    add_signature-Quiet tx pair = search send_rules depth 8

    add_signatures-Quiet :
        (tx : L.Tx) (pairs : List Json) → Quiet nothing (add_signatures L {S = S} tx pairs)
    unfolding add_signatures
    add_signatures-Quiet tx [] = Quiet-pure _ tx
    add_signatures-Quiet tx (pair ∷ pairs) =
        Quiet-bind _ _ _ (add_signature-Quiet tx pair) (λ next. add_signatures-Quiet next pairs)

    check_signed-Quiet :
        (tx : L.Tx) (group_alias : String) → Quiet nothing (check_signed L {S = S} tx group_alias)
    unfolding check_signed
    check_signed-Quiet tx group_alias = search send_rules depth 10

    signature_pairs-ok :
        (o : Option Json) (s s' : S) (pairs : List Json)
        → signature_pairs L o s ≡ (ok pairs, s')
        → (values : Items) × (o ≡ some (arr values)) × (items values ≡ pairs)
    signature_pairs-ok none s s' pairs h = cc
    signature_pairs-ok (some (arr values)) s s' pairs h = (values, refl, cc)
    signature_pairs-ok (some j) s s' pairs h = cc

    add_signature-Signs :
        {signed : L.Tx} {pairs : List Json} (tx next : L.Tx) (pair : Json) (s s' : S)
        → add_signature L tx pair s ≡ (ok next, s')
        → Signs next pairs signed
        → Signs tx (pair ∷ pairs) signed
    unfolding add_signature
    add_signature-Signs tx next pair s s' h rest =
        let (pubkey, s₁, e₁, h₁) =
          bind-ok (or_return (L.get_string_parameter pair "pubkey")) _ s h in
        let (signature, s₂, e₂, h₂) =
          bind-ok (or_return (L.get_string_parameter pair "signature")) _ s₁ h₁ in
        sign_by tx next pair pubkey signature (or_return-ok _ s s₁ pubkey e₁)
          (or_return-ok _ s₁ s₂ signature e₂) (reply-ok _ s₂ s' next h₂) rest

    add_signatures-Signs :
        (tx signed : L.Tx) (pairs : List Json) (s s' : S)
        → add_signatures L tx pairs s ≡ (ok signed, s')
        → Signs tx pairs signed
    unfolding add_signatures
    add_signatures-Signs tx signed [] s s' h =
        let e : tx ≡ signed = cc h in subst (Signs tx []) e (no_more tx)
    add_signatures-Signs tx signed (pair ∷ pairs) s s' h =
        let (next, s₁, e₁, h₁) = bind-ok (add_signature L tx pair) _ s h in
        add_signature-Signs tx next pair s s₁ e₁ (add_signatures-Signs next signed pairs s₁ s' h₁)

    guard-ok :
        (b : Bool) (message : String) (s s' : S) (u : Unit {0})
        → (if b then pure tt else return_error message) s ≡ (ok u, s')
        → b ≡ true
    guard-ok true message s s' u h = refl
    guard-ok false message s s' u h = cc

    refusal-ok :
        (b : Bool) (message : String) (s s' : S) (u : Unit {0})
        → (if b then return_error message else pure tt) s ≡ (ok u, s')
        → b ≡ false
    refusal-ok true message s s' u h = cc
    refusal-ok false message s s' u h = refl

    pure-ok : {A : Type 0} (a b : A) (s s' : S) → pure a s ≡ (ok b, s') → a ≡ b
    pure-ok a b s s' h = cc

    check_signed-Checked :
        (tx : L.Tx) (group_alias : String) (s s' : S) (u : Unit {0})
        → check_signed L tx group_alias s ≡ (ok u, s')
        → Checked tx group_alias
    unfolding check_signed
    check_signed-Checked tx group_alias s s' u h =
        let (valid, s₁, e₁, h₁) = bind-ok (reply (L.validate_single tx)) _ s h in
        let (_, s₂, e₂, h₂) =
          bind-ok
            (if ltb (L.sign_count tx) (L.min_signature_count tx)
              then return_error "missing signatures"
              else pure tt)
            _ s₁ h₁ in
        record {
          validated = (valid, reply-ok _ s s₁ valid e₁);
          enough = ltb-false _ _ (refusal-ok _ _ s₁ s₂ _ e₂);
          alias = guard-ok _ _ s₂ s' u h₂;
        }

    send-Accepted :
        (params : Json) (d : Document) (s s' : S)
        → send L params s ≡ (ok d, s')
        → Accepted params × (d ≡ state_success [])
    unfolding send
    send-Accepted params d s s' h =
        let (body, s₁, e₁, h₁) =
          bind-ok (or_return (L.get_string_parameter params "bodyBytesBase64")) _ s h in
        let (given, s₂, e₂, h₂) = bind-ok (member "signaturePairs" params) _ s₁ h₁ in
        let (pairs, s₃, e₃, h₃) = bind-ok (signature_pairs L given) _ s₂ h₂ in
        let (values, is_array, listed) = signature_pairs-ok given s₂ s₃ pairs e₃ in
        let (tx, s₄, e₄, h₄) = bind-ok (reply (L.load_body (L.base64_to_bin body))) _ s₃ h₃ in
        let (signed, s₅, e₅, h₅) = bind-ok (add_signatures L tx pairs) _ s₄ h₄ in
        let (u, s₆, e₆, h₆) =
          bind-ok (check_signed L signed (or_keep (L.get_string_parameter params "groupAlias") ""))
            _ s₅ h₅ in
        (
          record {
            body = body;
            unsigned = tx;
            signed = signed;
            values = values;
            given = or_return-ok _ s s₁ body e₁;
            loaded = reply-ok _ s₃ s₄ tx e₄;
            listed = member-ok "signaturePairs" params s₁ s₂ given e₂ ∙ is_array;
            signatures =
                subst (λ ps. Signs tx ps signed) (sym listed)
                  (add_signatures-Signs tx signed pairs s₄ s₅ e₅);
            checked = check_signed-Checked signed _ s₅ s₆ u e₆;
          },
          sym (pure-ok (state_success []) d s₆ s' h₆),
        )

    send-OnSuccess :
        (params : Json) (d : Document) (s s' : S)
        → send L params s ≡ (ok d, s')
        → OnSuccess (λ ms. (ms ≡ []) × Accepted params) d
    send-OnSuccess params d s s' h =
        let (facts, e) = send-Accepted params d s s' h in
        subst (OnSuccess (λ ms. (ms ≡ []) × Accepted params)) (sym e) (refl, facts)

    send-Quiet : (params : Json) → Quiet nothing (send L {S = S} params)
    unfolding send
    send-Quiet params =
        search (send_rules, Quiet-Silent, Silent-member, add_signatures-Quiet, check_signed-Quiet)
          depth 14

    -- A success that /sendTransactionIota answers has no members besides its state, and the request
    -- then holds a body of a transaction and a list of signature pairs: the transaction with each of
    -- these pairs added, in their order, passed its validation without an exception and has at least
    -- as many signatures as it needs, and the group alias of the request is a valid one.
    pub handle-Accepted :
        (params : Json) (members : List (String × Json)) (s s' : S)
        → handle L params s ≡ (ok (state_success members), s')
        → (members ≡ []) × Accepted params
    unfolding handle
    handle-Accepted params members s s' h =
        Succeeds-respond (λ ms. (ms ≡ []) × Accepted params) (send L params) s s'
          (state_success members)
          (Succeeds-Quiet _ (send L params) s (send-Quiet params)
            (λ d s₁ e. send-OnSuccess params d s s₁ e))
          h
