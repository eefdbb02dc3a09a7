-- ===== src/Auth/Keys.antt =====
-- The methods with a key and its certificate send nothing but what may be sent.
use bifro_ssh.Common.{
  ◌≡◌, refl, Bool, true, false, Option, none, some, List, Text, Bytes, Result, ok, err,
}
use bifro_ssh.Resolve.{SshAuth}
use bifro_ssh.SshCert.{Certificate, CertError, PrivateKey, SshKeys, parse}
use bifro_ssh.Auth.{
  Request, send_certificate, AuthResult, success, failure, Peers, ◌>>=◌, pure, submit,
  certificate_auth, fall_back, try_key, try_key_data, key_unless, is_success, rsa_hash_for,
  send_key,
}
use bifro_ssh.Auth.Triple.{Meets, >>=-Meets}
use bifro_ssh.Auth.Secrecy.{IsKey, Sent, submit-Meets}
use bifro_ssh.Auth.Prompts.{Good, Yes, In, no-Yes, fall_back-Meets}

module _ (keys : SshKeys) (peers : Peers) (username : Text) (auth : SshAuth) where
  abbrev Ok : List Request → Type 0
  Ok = Sent keys peers username auth

  abbrev TakenWhen : Type 0 → List Request → Type 0
  TakenWhen = Good keys peers username auth

  abbrev Won : Bool → List Request → Type 0
  Won = Yes keys peers username auth

  abbrev Done : (Unit {0}) → List Request → Type 0
  Done = In keys peers username auth

  try_key-Meets :
      (key : PrivateKey) (cert : Option Text)
      → IsKey keys peers username auth cert key.public_key
      → Meets Ok Ok Done (try_key keys peers username key)
  unfolding try_key
  try_key-Meets key cert own =
      let request =
        send_key username key.public_key (rsa_hash_for keys peers username key.algorithm) in
      >>=-Meets Ok Ok (λ r. TakenWhen (r ≡ success)) Done (submit keys peers username request)
        (fall_back keys peers username)
        (submit-Meets keys peers username auth request (λ _. (refl, cert, own)))
        (fall_back-Meets keys peers username auth)

  key_unless-Meets :
      (key : PrivateKey) (cert : Option Text)
      → IsKey keys peers username auth cert key.public_key
      → (b : Bool) → Meets Ok (Won b) Done (key_unless keys peers username key b)
  unfolding key_unless pure
  key_unless-Meets key cert own true done h = (h.0, λ _. h.1 refl)
  key_unless-Meets key cert own false done h = try_key-Meets key cert own done h.0

  is_success-Meets :
      (r : AuthResult) → Meets Ok (TakenWhen (r ≡ success)) Won (is_success keys peers username r)
  unfolding is_success pure
  is_success-Meets success done h = (h.0, λ _. h.1 refl)
  is_success-Meets (failure offers) done h = no-Yes keys peers username auth done h.0

  certificate_auth-Meets :
      (key : Bytes) (text : Text)
      → IsKey keys peers username auth (some text) key
      → Meets Ok Ok Won (certificate_auth keys peers username key text)
  unfolding certificate_auth pure
  certificate_auth-Meets key text own = by_parse (parse keys text) refl
    where
      by_parse :
          (parsed : Result CertError Certificate)
          → parse keys text ≡ parsed
          → Meets Ok Ok Won (elim parsed [
            | err why ↦ pure false
            | ok cert ↦
                submit keys peers username (send_certificate username key cert)
                >>= is_success keys peers username
          ])
      by_parse (err why) e done h = no-Yes keys peers username auth done h
      by_parse (ok cert) e done h =
          >>=-Meets Ok Ok (λ r. TakenWhen (r ≡ success)) Won
            (submit keys peers username (send_certificate username key cert))
            (is_success keys peers username)
            (submit-Meets keys peers username auth (send_certificate username key cert)
              (λ _. (refl, text, own, e)))
            is_success-Meets done h

  pub try_key_data-Meets :
      (key : PrivateKey) (cert : Option Text)
      → IsKey keys peers username auth cert key.public_key
      → Meets Ok Ok Done (try_key_data keys peers username key cert)
  unfolding try_key_data
  try_key_data-Meets key none own = try_key-Meets key none own
  try_key_data-Meets key (some text) own =
      >>=-Meets Ok Ok Won Done (certificate_auth keys peers username key.public_key text)
        (key_unless keys peers username key) (certificate_auth-Meets key.public_key text own)
        (key_unless-Meets key (some text) own)
