-- ===== src/Auth/SignIn.antt =====
-- `authenticate` and its methods send nothing but what may be sent.
use bifro_ssh.Common.{
  ◌≡◌, inl, refl, Bool, true, false, Option, none, some, List, [], Text, Result, ok, err, arith,
}
use bifro_ssh.Resolve.{SshAuth, password_auth, key_data, interactive_auth, agent_auth}
use bifro_ssh.SshCert.{PrivateKey, SshKeys, is_security_key}
use bifro_ssh.Auth.{
  ok_or, authenticate, key_unreadable, security_key_refused, AuthError, send_password, Request,
  success, Peers, ◌>>=◌, fail, submit, keyboard_interactive, fall_back, signed_in, try_key_data,
  try_agent,
}
use bifro_ssh.Auth.Triple.{Post, Meets, >>=-Meets}
use bifro_ssh.Auth.Secrecy.{Sent, Taken, submit-Meets}
use bifro_ssh.Auth.Prompts.{
  Good, Yes, In, keyboard_interactive-Meets, signed_in-Meets, fall_back-Meets,
}
use bifro_ssh.Auth.Keys.{try_key_data-Meets}
use bifro_ssh.Auth.Agent.{try_agent-Meets}

module _ (keys : SshKeys) (peers : Peers) (username : Text) (auth : SshAuth) where
  abbrev Ok : List Request → Type 0
  Ok = Sent keys peers username auth

  abbrev TakenWhen : Type 0 → List Request → Type 0
  TakenWhen = Good keys peers username auth

  abbrev Won : Bool → List Request → Type 0
  Won = Yes keys peers username auth

  abbrev Done : (Unit {0}) → List Request → Type 0
  Done = In keys peers username auth

  key_data-Meets :
      (key_pem : Text) (passphrase cert : Option Text)
      → auth ≡ key_data key_pem passphrase cert
      → Meets Ok Ok Done (authenticate keys peers username (key_data key_pem passphrase cert))
  unfolding authenticate fail ok_or ◌>>=◌
  key_data-Meets key_pem passphrase cert own = by_kind (is_security_key keys key_pem)
    where
      decoded-Meets :
          (found : Option PrivateKey)
          → keys.decode_secret_key key_pem passphrase ≡ found
          → Meets Ok Ok Done
              (ok_or found key_unreadable >>= λ key. try_key_data keys peers username key cert)
      decoded-Meets none e done h = h
      decoded-Meets (some key) e done h =
          try_key_data-Meets keys peers username auth key cert
            (key_pem, passphrase, key, own, e, refl) done h

      by_kind :
          (b : Bool)
          → Meets Ok Ok Done (elim b [
            | true ↦ fail security_key_refused
            | false ↦ ok_or (keys.decode_secret_key key_pem passphrase) key_unreadable >>= λ key.
                try_key_data keys peers username key cert
          ])
      by_kind true done h = h
      by_kind false done h = decoded-Meets (keys.decode_secret_key key_pem passphrase) refl done h

  authenticate-Meets :
      (a : SshAuth) → auth ≡ a → Meets Ok Ok Done (authenticate keys peers username a)
  unfolding authenticate
  authenticate-Meets (password_auth password) own =
      >>=-Meets Ok Ok (λ r. TakenWhen (r ≡ success)) Done
        (submit keys peers username (send_password username password))
        (fall_back keys peers username)
        (submit-Meets keys peers username auth (send_password username password) (λ _. (refl, own)))
        (fall_back-Meets keys peers username auth)
  authenticate-Meets (key_data key_pem passphrase cert) own =
      key_data-Meets key_pem passphrase cert own
  authenticate-Meets interactive_auth own =
      >>=-Meets Ok Ok Won Done (keyboard_interactive keys peers username)
        (signed_in keys peers username)
        (keyboard_interactive-Meets keys peers username auth (inl own))
        (signed_in-Meets keys peers username auth)
  authenticate-Meets (agent_auth want) own =
      >>=-Meets Ok Ok (λ r. TakenWhen (r ≡ success)) Done (try_agent keys peers username want)
        (fall_back keys peers username) (try_agent-Meets keys peers username auth want own)
        (fall_back-Meets keys peers username auth)

  Post-Taken :
      (run : Result AuthError (Unit {0}) × List Request)
      → Post Ok Done run
      → run.0 ≡ ok tt
      → Taken keys peers username auth run.1
  Post-Taken (err why, sent) h e = absurd (ground (arith, e))
  Post-Taken (ok _, sent) h e = h.1 tt

-- Signing in succeeds only when the server has said yes to the last request that was sent.
pub authenticate-Taken :
    (keys : SshKeys) (peers : Peers) (username : Text) (auth : SshAuth)
    → (authenticate keys peers username auth []).0 ≡ ok tt
    → Taken keys peers username auth (authenticate keys peers username auth []).1
authenticate-Taken keys peers username auth =
    Post-Taken keys peers username auth (authenticate keys peers username auth [])
      (authenticate-Meets keys peers username auth auth refl [] tt)
