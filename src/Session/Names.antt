-- ===== src/Session/Names.antt =====
-- The member `mUserName`, which no method sets.
use gradido_blockchain_conne.Base.{ℕ, String, ◌≡◌, refl, ◌==◌}
use gradido_blockchain_conne.Exec.{ok, pure, ◌>>=◌}
use gradido_blockchain_conne.Platform.{Library, Outside, Session, call, answer}
use gradido_blockchain_conne.Session.{new_session, login_or_create, verify_password}
use gradido_blockchain_conne.Session.Login.{login-LoggedIn}

module _ (L : Library) (O : Outside L) where
  -- A session that a login leaves holds the key derived from the user's name and the password; but a
  -- later check of a password compares it with a key that is derived for the empty name.
  pub verify_password_unnamed :
      (name password alias ip : String) (n : ℕ) (s : Session L) (w w' : O.W)
      → login_or_create L O name password alias ip w ≡ (ok (n, s), w')
      → (secret : L.Secret) × ((w₁ : O.W) × (O.run_encryption name password w
            ≡ (answer secret, w₁)))
        × ((again : String) (v : O.W)
            → verify_password L O s again v
              ≡ (call (O.run_encryption "" again) >>= λ other.
                    pure (L.key_hashed secret == L.key_hashed other))
                  v)
  unfolding verify_password new_session
  verify_password_unnamed name password alias ip n s w w' h =
      let l = login-LoggedIn L O name password alias ip n s w w' h in
      (l.secret, (l.w₁, l.derived), λ again v. rw l.is refl)
