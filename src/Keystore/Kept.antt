-- ===== src/Keystore/Kept.antt =====
-- What never happens to keystore.json: a PIN, a fingerprint or a demand for a passphrase where no
-- passphrase is set, and a keyring wrapper beside the demand for the passphrase.
pub mod Changes
pub mod Pins
pub mod Requests
use bifro_ssh.Common.{
  ◌-◌, Bool, true, false, ◌≡◌, refl, Option, none, some, List, [], ◌∷◌, Text, Result, ok, err,
  arith, if◌then◌else◌, ok_or, ltb, leb, ◌&&◌, ◌||◌, not, is_empty, is_some, text_eq,
}
use bifro_ssh.Keystore.{
  Key, PinWrapper, PassphraseForm, PassphraseWrapper, BiometricWrapper, KeyStore, new_store,
  keyring_kek, Env, Folder, Action, pure, fail, lift, ignore, when, ◌>>=◌, ◌>>◌, load_keystore,
  save_keystore, write_secret, remove_secret, no_passphrase, no_pin, missing, not_verified,
  empty_passphrase, read_secret_file,
}
use bifro_ssh.Keystore.Wrapper.{
  wrap, Fallible, new_passphrase_wrapper, detect_form, verified_wrapper, check_passphrase,
  below_profile,
}
use bifro_ssh.Keystore.Unlock.{
  Unlocked, unlock, put_keyring_wrapper, store_keyring_wrapper, upgrade_passphrase_wrapper,
  should_repair_keyring, wrapper_opens, unlock_by, keyring_key, repair, key_of,
  unlock_with_passphrase,
}
use bifro_ssh.Keystore.Change.{
  InitMode, secret_file, passphrase_only, keyring_and_passphrase, require, require_passphrase,
  first_store, keyring_wrapper, store_from, needs_passphrase, try_passphrase, try_unlock,
  initialize, set_passphrase, set_always_ask, clear_passphrase, set_biometric, clear_biometric,
}
use bifro_ssh.Keystore.Pin.{
  check_pin, new_pin_wrapper, not_verified_else, set_pin, clear_pin, after_success, settle,
  unlock_with_pin, counted, opened, wrong, disabled, pin_tries, open_pin,
}
use bifro_ssh.Keystore.Rules.{
  Ensures, Keeps, Anything, OnFile, >>=-Ensures, then-Keeps, >>-Keeps, lift-Keeps, ignore-Keeps,
  when-Keeps, load_then-Keeps, lift_then-Keeps, save_keystore-Keeps, write_secret-Keeps,
  remove_secret-Keeps, load_keystore-Ensures, pure-Keeps, save_then-Keeps, if-Keeps,
}
use bifro_ssh.Keystore.Rules.Operations.{
  store_keyring_wrapper-Keeps, require-Keeps, require_passphrase_then-Keeps,
}

abbrev pub IsKept : KeyStore → Type 0
IsKept k =
    ((k.passphrase ≡ none) → (k.pin ≡ none) × (k.biometric ≡ none) × (k.always_ask ≡ false))
    × ((k.always_ask ≡ true) → k.keyring ≡ none)

with_keyring :
    (store : KeyStore) (blob : Text)
    → IsKept store
    → store.always_ask ≡ false
    → IsKept (record store { version = 1; keyring = some blob })
with_keyring store blob (h, h') e = (h, cc)

with_passphrase :
    (store : KeyStore) (w : PassphraseWrapper)
    → IsKept store
    → IsKept (record store { passphrase = some w })
with_passphrase store w (h, h') = (cc, h')

module _ (env : Env) where
  pub adds-Keeps : (master : Key) → Keeps IsKept (store_keyring_wrapper env master)
  adds-Keeps = store_keyring_wrapper-Keeps IsKept with_keyring env

  upgrade-Keeps :
      (typed : Text) (master : Key) (form : PassphraseForm)
      → Keeps IsKept (upgrade_passphrase_wrapper env typed master form)
  unfolding upgrade_passphrase_wrapper
  upgrade-Keeps typed master form =
      lift_then-Keeps IsKept (verified_wrapper env typed master form) _ λ w _.
        load_then-Keeps IsKept _ λ store g.
          save_keystore-Keeps IsKept (record store { passphrase = some w })
            (with_passphrase store w g)

  repair-Keeps :
      (typed : Text) (master : Key) (store : KeyStore) (w : PassphraseWrapper)
      → Keeps IsKept (repair env typed master store w)
  unfolding repair
  repair-Keeps typed master store w =
      let upgrade = ignore (upgrade_passphrase_wrapper env typed master w.form) in
      let add = ignore (store_keyring_wrapper env master) in
      let old = below_profile w.m_cost w.t_cost in
      let status = if store.always_ask then missing else env.keyring in
      let dead =
        should_repair_keyring env status store.always_ask
          (wrapper_opens env store.keyring status) in
      >>-Keeps IsKept (when old upgrade) (when dead add)
        (when-Keeps IsKept old upgrade (
          ignore-Keeps IsKept (upgrade_passphrase_wrapper env typed master w.form)
            (upgrade-Keeps typed master w.form)))
        (when-Keeps IsKept dead add
          (ignore-Keeps IsKept (store_keyring_wrapper env master) (adds-Keeps master)))

  pub unlock_with_passphrase-Keeps :
      (typed : Text) → Keeps IsKept (unlock_with_passphrase env typed)
  unfolding unlock_with_passphrase
  unlock_with_passphrase-Keeps typed = load_then-Keeps IsKept _ λ store g.
      lift_then-Keeps IsKept (ok_or store.passphrase no_passphrase) _ λ w _.
        lift_then-Keeps IsKept (key_of env typed w) _ λ master _.
          >>-Keeps IsKept (repair env typed master store w) (pure master)
            (repair-Keeps typed master store w) (pure-Keeps IsKept master)

  pub unlock-Keeps : Keeps IsKept (unlock env)
  unfolding unlock
  unlock-Keeps = load_then-Keeps IsKept _ λ store g d i.
      lift-Keeps IsKept
        (unlock_by env store (keyring_key env store.keyring (keyring_kek env.keyring))
          (read_secret_file d.secret_file))
        d i
