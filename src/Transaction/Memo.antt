-- ===== src/Transaction/Memo.antt =====
-- src/JSONInterface/JsonTransaction.cpp: an encrypted memo is read back.
use gradido_blockchain_conne.Base.{ℕ, String, some, ◌≡◌, List}
use gradido_blockchain_conne.Exec.{ok}
use gradido_blockchain_conne.Platform.{Library, answer}
use gradido_blockchain_conne.Transaction.{encrypt_memo, decrypt_memo}

-- What libsodium documents of authenticated encryption, where `Pair own other` says that `own` has
-- the private and `other` the public key of one x25519 key pair: the conversions of an ed25519 key
-- pair give the two keys of one x25519 pair; and what was encrypted with the private key of one pair
-- for the public key of another is decrypted with the private key of the other and the public key
-- of the first.
pub record Ciphers (L : Library) (Pair : L.AuthKey → L.AuthKey → Type 0) (memo : String)
    : Type 0 where
  pub converted :
      (key : L.Key)
      → Pair
          (L.auth_of_private (L.sk_to_curve25519 (L.private_key key)))
          (L.auth_of_public (L.public_key key))
  pub opens :
      (own_a other_a own_b other_b : L.AuthKey)
      → Pair own_a other_a
      → Pair own_b other_b
      → L.authenticated_decrypt own_b (some (L.authenticated_encrypt own_a memo other_b)) other_a
        ≡ answer (some memo)

-- The base64 text of these bytes is read back.
abbrev pub Base64 : Library → List ℕ → Type 0
Base64 L bytes = L.base64_to_memory (L.bin_to_base64 bytes) ≡ some bytes

module _ (L : Library) (Pair : L.AuthKey → L.AuthKey → Type 0) where
  -- The bytes that encryptMemo makes a text of.
  abbrev pub encrypted : String → L.Key → L.Key → List ℕ
  encrypted memo sender recipient =
      L.authenticated_encrypt (L.auth_of_private (L.sk_to_curve25519 (L.private_key sender))) memo
        (L.auth_of_public (L.public_key recipient))

  -- If key conversion and authenticated encryption do as libsodium documents, and the base64 of the
  -- encrypted bytes is read back, then decryptMemo with the key of the recipient and the public key
  -- of the sender gives back the memo that encryptMemo encrypted with the key of the sender for the
  -- public key of the recipient, and changes nothing.
  pub decrypt_memo-encrypt_memo :
      (sender recipient : L.Key) (memo : String) {S : Type 0} (s : S)
      → Ciphers L Pair memo
      → Base64 L (encrypted memo sender recipient)
      → decrypt_memo L
          (encrypt_memo L memo (L.public_key recipient) sender)
          (L.public_key sender)
          recipient
          s
        ≡ (ok memo, s)
  unfolding decrypt_memo encrypt_memo
  decrypt_memo-encrypt_memo sender recipient memo s c read_back =
      let opened = c.opens _ _ _ _ (c.converted sender) (c.converted recipient) in
      rw (read_back, opened)
