-- ===== src/Tests/Keystore.antt =====
-- Runs of src-tauri/src/keystore.rs, with a cipher that puts the key's first byte before the text.
use bifro_ssh.Common.{
  ◌≡◌, ◌↔◌, refl, true, false, Option, none, some, List, [], ◌∷◌, ◌++◌, Text, Bytes, codes, ok,
  arith, text_eq, if◌then◌else◌, drop, take,
}
use bifro_ssh.Keystore.{
  Key, verbatim, load_keystore, read_secret_file, keyring_kek, PassphraseWrapper, PinWrapper,
  KeyStore, new_store, missing, ready, unavailable, Env, not_unwrapped, absent, readable, no_secret,
  secret, Folder, torn,
}
use bifro_ssh.Keystore.Unlock.{
  Unlocked, zero_key, file_source, unlock, unlock_by, keyring_key, unlock_with_passphrase,
}
use bifro_ssh.Keystore.Launch.{IsFrom, unlock_iff}
use bifro_ssh.Keystore.Change.{set_passphrase}
use bifro_ssh.Keystore.Rules.{OnFile}
use bifro_ssh.Keystore.Kept.{IsKept}
use bifro_ssh.Keystore.Kept.Requests.{
  Step, launch, type_passphrase, change_passphrase, perform_all, perform_all-IsKept,
}
use bifro_ssh.Keystore.Reopens.{later, set_passphrase-reopens}
use bifro_ssh.Keystore.Pin.{open_pin}
use bifro_ssh.Keystore.Tries.{Attempt, type_all, pin_folder, type_all-counts}

abbrev kek_of : Text → Key
kek_of typed = take 32 (typed ++ zero_key)

abbrev open_with : Text → Bytes → Option Bytes
open_with blob kek = if text_eq (take 32 blob) kek then some (drop 32 blob) else none

abbrev plain_env : Env
plain_env = record {
  keyring = missing;
  stretch = λ typed salt m t p. some (kek_of typed);
  encrypt = λ master kek. some (kek ++ master);
  decrypt = open_with;
  fresh_salt = codes "salt";
  fresh_key = zero_key;
  is_alphanumeric = λ c. true;
  to_lowercase = λ t. t;
  word_list = [];
}

abbrev empty_folder : Folder
empty_folder = record { file = absent; secret_file = secret zero_key; fates = [] }

abbrev long_one : Text
long_one = codes "correct horse"

abbrev set_up : List Step
set_up =
    (plain_env, (λ k. none), change_passphrase zero_key long_one true verbatim)
    ∷ (plain_env, (λ k. none), launch)
    ∷ (plain_env, (λ k. none), type_passphrase long_one)
    ∷ []

empty_folder-IsKept : IsKept new_store
empty_folder-IsKept = ((λ e. (refl, refl, refl)), λ e. refl)

perform_all-IsKept_example : OnFile IsKept (perform_all set_up empty_folder).file
perform_all-IsKept_example = perform_all-IsKept set_up empty_folder empty_folder-IsKept

abbrev wrapper : PassphraseWrapper
wrapper = record {
  salt = codes "salt";
  m_cost = 65536;
  t_cost = 3;
  p_cost = 1;
  blob = kek_of long_one ++ zero_key;
  form = verbatim;
}

abbrev pin_wrapper : PinWrapper
pin_wrapper = record {
  salt = codes "salt";
  m_cost = 65536;
  t_cost = 3;
  p_cost = 1;
  blob = kek_of (codes "123456") ++ zero_key;
  failures = 1;
}

abbrev asking_store : KeyStore
asking_store = record new_store { passphrase = some wrapper; always_ask = true }

abbrev asking_folder : Folder
asking_folder = record { file = readable asking_store; secret_file = no_secret; fates = [] }

-- A keyring that opens to one key, and a .secret that holds another.
abbrev keyring_env : Env
keyring_env = record plain_env { keyring = ready zero_key }

abbrev other_key : Key
other_key = 1 ∷ drop 1 zero_key

abbrev keyring_store : KeyStore
keyring_store = record new_store { keyring = some (zero_key ++ zero_key) }

abbrev two_keys : Folder
two_keys = record { file = readable keyring_store; secret_file = secret other_key; fates = [] }

abbrev by_file : Unlocked
by_file = record { key = other_key; source = file_source; needs_passphrase = false }

file_wins : (unlock keyring_env two_keys).0 ≡ ok by_file
unfolding unlock unlock_by text_eq keyring_key
file_wins = refl

unlock_iff_example :
    ((unlock keyring_env two_keys).0 ≡ ok by_file)
    ↔ IsFrom
        (keyring_key keyring_env (some (zero_key ++ zero_key)) (some zero_key))
        (some other_key)
        false
        file_source
        false
        other_key
unfolding load_keystore read_secret_file keyring_kek
unlock_iff_example = unlock_iff keyring_env two_keys keyring_store by_file refl

set_passphrase-reopens_example :
    let d' = (set_passphrase plain_env zero_key long_one true verbatim empty_folder).1 in
    (d'.secret_file ≡ no_secret)
    × ((unlock_with_passphrase
          (later plain_env unavailable (codes "other") zero_key)
          long_one
          (record d' { fates = torn ∷ [] })).0
        ≡ ok zero_key)
unfolding set_passphrase text_eq
set_passphrase-reopens_example =
    set_passphrase-reopens plain_env unavailable (codes "other") zero_key zero_key long_one true
      verbatim empty_folder (torn ∷ []) refl (λ e. cc)

abbrev wrong_pin : Attempt
wrong_pin = (plain_env, (λ k. some k), codes "000000")

abbrev wrong_pins : List Attempt
wrong_pins = wrong_pin ∷ wrong_pin ∷ wrong_pin ∷ wrong_pin ∷ []

-- Any PIN at all, typed after the four that use up the tries.
abbrev right_pin : Attempt
right_pin = (plain_env, (λ k. some k), codes "123456")

type_all-counts_example :
    let folder = pin_folder no_secret asking_store (some pin_wrapper) in
    let gone = pin_folder no_secret asking_store none in
    (type_all wrong_pins folder ≡ gone) × (type_all (wrong_pins ++ right_pin ∷ []) folder ≡ gone)
unfolding open_pin text_eq
type_all-counts_example =
    type_all-counts wrong_pins (right_pin ∷ []) no_secret asking_store pin_wrapper (omega arith) (
      (not_unwrapped, refl),
      ((not_unwrapped, refl), ((not_unwrapped, refl), ((not_unwrapped, refl), tt))),
    )
