-- ===== src/SshCert.antt =====
-- User certificates of keys: src-tauri/src/sshcert.rs. A public key is its bytes on the wire; what the
-- libraries ssh_key and russh::keys read is `SshKeys`.
use bifro_ssh.Common.{
  ℕ, ◌^◌, ◌-◌, Bool, true, false, Option, none, some, List, if◌then◌else◌, ◌==◌, leb, Text, Bytes,
  text_eq, trim, Result, ok, err, ◌>>=◌, ◌>>◌, ok_or,
}

pub data KeyAlgorithm : Type 0 where
  rsa sk_ed25519 sk_ecdsa_p256 other_algorithm : KeyAlgorithm

pub record Certificate : Type 0 where
  pub certified : Bytes
  pub is_user : Bool
  pub key_id : Text
  pub principals : List Text
  pub valid_after : ℕ
  pub valid_before : ℕ
  pub signature_key : Bytes
  pub algorithm : KeyAlgorithm

pub record PrivateKey : Type 0 where
  pub public_key : Bytes
  pub algorithm : KeyAlgorithm

-- `Certificate::from_openssh`, `PrivateKey::from_openssh`, `decode_secret_key` and `fingerprint`.
pub record SshKeys : Type 0 where
  pub read_certificate : Text → Option Certificate
  pub read_private_key : Text → Option PrivateKey
  pub decode_secret_key : Text → Option Text → Option PrivateKey
  pub fingerprint : Bytes → Text

pub data CertError : Type 0 where
  not_certificate host_certificate unreadable_key other_key : CertError

pub record CertInfo : Type 0 where
  pub key_id : Text
  pub principals : List Text
  pub valid_after : ℕ
  pub valid_before : Option ℕ
  pub ca_fingerprint : Text
  pub is_rsa : Bool

abbrev pub algorithm_is_rsa : KeyAlgorithm → Bool
algorithm_is_rsa rsa = true
algorithm_is_rsa sk_ed25519 = false
algorithm_is_rsa sk_ecdsa_p256 = false
algorithm_is_rsa other_algorithm = false

abbrev pub algorithm_is_security_key : KeyAlgorithm → Bool
algorithm_is_security_key sk_ed25519 = true
algorithm_is_security_key sk_ecdsa_p256 = true
algorithm_is_security_key rsa = false
algorithm_is_security_key other_algorithm = false

module _ (keys : SshKeys) where
  unfoldable pub parse : Text → Result CertError Certificate
  unfolding trim
  parse text = ok_or (keys.read_certificate (trim text)) not_certificate

  unfoldable pub inspect : Certificate → CertInfo
  inspect cert = record {
    key_id = cert.key_id;
    principals = cert.principals;
    valid_after = cert.valid_after;
    valid_before = if cert.valid_before == 2 ^ 64 - 1 then none else some cert.valid_before;
    ca_fingerprint = keys.fingerprint cert.signature_key;
    is_rsa = algorithm_is_rsa cert.algorithm;
  }

  unfoldable pub public_key_of : Text → Option Text → Option Bytes
  public_key_of key_pem passphrase = elim (keys.read_private_key key_pem) [
    | some key ↦ some key.public_key
    | none ↦ elim (keys.decode_secret_key key_pem passphrase) [
      | some key ↦ some key.public_key
      | none ↦ none
    ]
  ]

  -- Refused unless it is a certificate of a user.
  unfoldable pub user_only : Certificate → Result CertError (Unit {0})
  user_only cert = if cert.is_user then ok tt else err host_certificate

  -- Refused unless it certifies `key`.
  unfoldable pub same_key : Certificate → Bytes → Result CertError (Unit {0})
  same_key cert key = if text_eq cert.certified key then ok tt else err other_key

  unfoldable pub check_for_key : Text → Text → Option Text → Result CertError CertInfo
  unfolding parse inspect public_key_of user_only same_key
  check_for_key text key_pem passphrase = do
    cert ← parse text
    user_only cert
    key ← ok_or (public_key_of key_pem passphrase) unreadable_key
    same_key cert key
    ok (inspect cert)

  unfoldable pub is_security_key : Text → Bool
  is_security_key pem = elim (keys.read_private_key pem) [
    | some key ↦ algorithm_is_security_key key.algorithm
    | none ↦ false
  ]

abbrev pub is_expired : ℕ → Certificate → Bool
is_expired now cert = leb cert.valid_before now
