-- ===== src/SendTransaction.antt =====
-- src/JSONInterface/JsonSendTransactionIota.cpp: the handler of /sendTransactionIota, which puts a
-- signed transaction together. Its call of iota is commented out in the source.
pub mod Signed
use gradido_blockchain_conne.Base.{
  ℕ, String, Bool, true, false, not, Option, none, some, List, [], ◌∷◌, ltb, if◌then◌else◌,
}
use gradido_blockchain_conne.Json.{Json, arr, items}
use gradido_blockchain_conne.Exec.{
  Document, state_success, Exec, ok, pure, return_error, ◌>>=◌, ◌>>◌, resume, respond,
}
use gradido_blockchain_conne.Platform.{Library, reply}
use gradido_blockchain_conne.Access.{member}
use gradido_blockchain_conne.Transaction.{or_return, or_keep}

module _ (L : Library) {S : Type 0} where
  -- The two tests of the member `signaturePairs`.
  abbrev pub signature_pairs : Option Json → Exec S (List Json)
  signature_pairs none = return_error "signaturePairs not found"
  signature_pairs (some (arr values)) = pure (items values)
  signature_pairs (some j) = return_error "signaturePairs isn't a array"

  -- The body of the loop.
  unfoldable pub add_signature : L.Tx → Json → Exec S L.Tx
  add_signature tx pair = do
    pubkey_hex ← or_return (L.get_string_parameter pair "pubkey")
    signature_hex ← or_return (L.get_string_parameter pair "signature")
    reply (L.add_sign (L.hex_to_bin pubkey_hex) (L.hex_to_bin signature_hex) tx)

  unfoldable pub add_signatures : L.Tx → List Json → Exec S L.Tx
  unfolding add_signature
  add_signatures tx [] = pure tx
  add_signatures tx (pair ∷ pairs) = do signed ← add_signature tx pair; add_signatures signed pairs

  -- What follows the loop; the serialised transaction is not used.
  unfoldable pub check_signed : L.Tx → String → Exec S (Unit {0})
  check_signed tx group_alias = do
    valid ← reply (L.validate_single tx)
    (if ltb (L.sign_count tx) (L.min_signature_count tx)
        then return_error "missing signatures"
        else pure tt)
    (if L.is_valid_group_alias group_alias then pure tt else return_error "invalid group alias")

  unfoldable pub send : Json → Exec S Document
  unfolding add_signatures check_signed
  send params = do
    body_base64 ← or_return (L.get_string_parameter params "bodyBytesBase64")
    found ← member "signaturePairs" params
    pairs ← signature_pairs found
    tx ← reply (L.load_body (L.base64_to_bin body_base64))
    signed ← add_signatures tx pairs
    check_signed signed (or_keep (L.get_string_parameter params "groupAlias") "")
    pure (state_success [])

  unfoldable pub handle : Json → Exec S Document
  unfolding send
  handle params = respond (send params)
