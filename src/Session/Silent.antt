-- ===== src/Session/Silent.antt =====
-- Signing does not end by an early return.
use gradido_blockchain_conne.Exec.{Exception, library, ed25519_sign}
use gradido_blockchain_conne.Exec.Rules.{Silent, silent_rules}
use gradido_blockchain_conne.Access.Rules.{Silent-reply, Silent-deref}
use gradido_blockchain_conne.Platform.{Library, Outside, Session}
use gradido_blockchain_conne.Session.{sign_transaction, unsigned}

module _ (L : Library) (O : Outside L) (S : Type 0) where
  Silent-unsigned : (e : Exception) → Silent {S = S} (unsigned L O e)
  Silent-unsigned (library ed25519_sign w) = record { at = λ s. tt }
  Silent-unsigned e = record { at = λ s. tt }

  pub sign_transaction-Silent :
      (s : Session L) (tx : L.Tx) → Silent {S = S} (sign_transaction L O s tx)
  unfolding sign_transaction
  sign_transaction-Silent s tx =
      search (silent_rules, Silent-deref, Silent-reply, Silent-unsigned) depth 8
