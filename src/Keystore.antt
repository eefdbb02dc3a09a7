-- ===== src/Keystore.antt =====
-- Where the master key lives: src-tauri/src/keystore.rs. The state is the two files, keystore.json and
-- .secret, and what becomes of the writes to come; a write can be cut short, since a file is emptied
-- before it is filled. `Env` holds the ciphers, the keyring's answer, and what is drawn at random.
pub mod Wrapper
pub mod Unlock
pub mod Change
pub mod Pin
pub mod Rules
pub mod Kept
pub mod Launch
pub mod Reopens
pub mod Tries
use bifro_ssh.Common.{
  ℕ, Bool, true, false, Option, none, some, List, [], ◌∷◌, Text, Bytes, Result, ok, err, ok_or,
}

-- 32 bytes.
abbrev pub Key : Type 0
Key = Bytes

pub data PassphraseForm : Type 0 where
  verbatim words : PassphraseForm

pub record PassphraseWrapper : Type 0 where
  pub salt : Text
  pub m_cost : ℕ
  pub t_cost : ℕ
  pub p_cost : ℕ
  pub blob : Text
  pub form : PassphraseForm

pub record BiometricWrapper : Type 0 where
  pub iv : Text
  pub blob : Text

pub record PinWrapper : Type 0 where
  pub salt : Text
  pub m_cost : ℕ
  pub t_cost : ℕ
  pub p_cost : ℕ
  pub blob : Text
  pub failures : ℕ

pub record KeyStore : Type 0 where
  pub version : ℕ
  pub keyring : Option Text
  pub passphrase : Option PassphraseWrapper
  pub always_ask : Bool
  pub biometric : Option BiometricWrapper
  pub pin : Option PinWrapper

-- `KeyStore { version: 1, ..Default::default() }`.
abbrev pub new_store : KeyStore
new_store = record {
  version = 1;
  keyring = none;
  passphrase = none;
  always_ask = false;
  biometric = none;
  pin = none;
}

-- `KeyringStatus`, of src-tauri/src/keyring/mod.rs.
pub data KeyringStatus : Type 0 where
  ready : Key → KeyringStatus
  locked missing unavailable : KeyringStatus

unfoldable pub keyring_kek : KeyringStatus → Option Key
keyring_kek (ready kek) = some kek
keyring_kek _ = none

-- `stretch` is Argon2id under a base64 salt and the costs; `encrypt` and `decrypt` are those of
-- src-tauri/src/crypto.rs, with the nonce that is drawn.
pub record Env : Type 0 where
  pub keyring : KeyringStatus
  pub stretch : Text → Text → ℕ → ℕ → ℕ → Option Key
  pub encrypt : Bytes → Key → Option Text
  pub decrypt : Text → Key → Option Bytes
  pub fresh_salt : Text
  pub fresh_key : Key
  pub is_alphanumeric : ℕ → Bool
  pub to_lowercase : Text → Text
  pub word_list : List Text

pub data KeyError : Type 0 where
  empty_passphrase short_passphrase costs_too_high not_derived not_wrapped not_unwrapped : KeyError
  wrong_length wrong_passphrase no_passphrase no_keyring no_master_key not_verified : KeyError
  unreadable_store not_written not_removed bad_pin no_pin : KeyError

-- keystore.json: not there, what it says, or a text that is no keystore.
pub data StoreFile : Type 0 where
  absent unreadable : StoreFile
  readable : KeyStore → StoreFile

-- .secret: not there, of another length, or a key.
pub data SecretFile : Type 0 where
  no_secret other_length : SecretFile
  secret : Key → SecretFile

-- What becomes of a write: done, refused before the file is touched, cut short, or done in full with an
-- error all the same, since the disk could not be flushed.
pub data Fate : Type 0 where
  done refused torn unflushed : Fate

-- Where no fate is left, writes are done.
pub record Folder : Type 0 where
  pub file : StoreFile
  pub secret_file : SecretFile
  pub fates : List Fate

abbrev pub Action : Type 0 → Type 0
Action A = Folder → Result KeyError A × Folder

abbrev pub pure : {A : Type 0} → A → Action A
pure a d = (ok a, d)

abbrev pub fail : {A : Type 0} → KeyError → Action A
fail e d = (err e, d)

infixl 5 ◌>>=◌ ◌>>◌
abbrev pub ◌>>=◌ : {A B : Type 0} → Action A → (A → Action B) → Action B
◌>>=◌ m k d = let (r, d') = m d in elim r [ ok a ↦ k a d' | err e ↦ (err e, d') ]

abbrev pub ◌>>◌ : {A B : Type 0} → Action A → Action B → Action B
m >> k = m >>= λ _. k

abbrev pub lift : {A : Type 0} → Result KeyError A → Action A
lift r d = (r, d)

-- `let _ = ..`, and an error that is only printed.
abbrev pub ignore : {A : Type 0} → Action A → Action (Unit {0})
ignore m d = (ok tt, (m d).1)

abbrev pub when : Bool → Action (Unit {0}) → Action (Unit {0})
when true m = m
when false m = pure tt

abbrev pub next_fate : List Fate → Fate
next_fate [] = done
next_fate (f ∷ _) = f

abbrev later_fates : List Fate → List Fate
later_fates [] = []
later_fates (_ ∷ fs) = fs

abbrev pub store_in : StoreFile → Result KeyError KeyStore
store_in absent = ok new_store
store_in unreadable = err unreadable_store
store_in (readable k) = ok k

unfoldable pub load_keystore : Action KeyStore
load_keystore d = (store_in d.file, d)

abbrev pub save_by : Fate → KeyStore → Folder → Result KeyError (Unit {0}) × Folder
save_by done k d = (ok tt, record d { file = readable k })
save_by refused k d = (err not_written, d)
save_by torn k d = (err not_written, record d { file = unreadable })
save_by unflushed k d = (err not_written, record d { file = readable k })

abbrev pub use_fate : Folder → Folder
use_fate d = record d { fates = later_fates d.fates }

unfoldable pub save_keystore : KeyStore → Action (Unit {0})
save_keystore k d = save_by (next_fate d.fates) k (use_fate d)

abbrev pub write_secret_by : Fate → Key → Folder → Result KeyError (Unit {0}) × Folder
write_secret_by done k d = (ok tt, record d { secret_file = secret k })
write_secret_by refused k d = (err not_written, d)
write_secret_by torn k d = (err not_written, record d { secret_file = other_length })
write_secret_by unflushed k d = (err not_written, record d { secret_file = secret k })

unfoldable pub write_secret : Key → Action (Unit {0})
write_secret k d = write_secret_by (next_fate d.fates) k (use_fate d)

abbrev pub remove_secret_by : Fate → SecretFile → Folder → Result KeyError (Unit {0}) × Folder
remove_secret_by f no_secret d = (ok tt, d)
remove_secret_by done _ d = (ok tt, record d { secret_file = no_secret })
remove_secret_by _ _ d = (err not_removed, d)

-- Where there is one.
unfoldable pub remove_secret : Action (Unit {0})
remove_secret d = remove_secret_by (next_fate d.fates) d.secret_file (use_fate d)

unfoldable pub read_secret_file : SecretFile → Option Key
read_secret_file (secret k) = some k
read_secret_file _ = none
