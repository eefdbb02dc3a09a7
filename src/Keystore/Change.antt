-- ===== src/Keystore/Change.antt =====
-- Setting the keystore up and changing it: `initialize`, `set_passphrase`, `set_always_ask`,
-- `clear_passphrase`, `set_biometric` and `clear_biometric`, in src-tauri/src/keystore.rs.
use bifro_ssh.Common.{
  Bool, true, false, ◌&&◌, ◌||◌, not, is_some, Option, none, some, if◌then◌else◌, Text, is_empty,
  text_eq, ok, err, ◌>>=◌ as bind,
}
use bifro_ssh.Keystore.{
  Key, PassphraseForm, PassphraseWrapper, BiometricWrapper, KeyStore, new_store, keyring_kek, Env,
  KeyError, empty_passphrase, not_verified, no_passphrase, no_keyring, Action, pure, fail, lift,
  ignore, when, ◌>>=◌, ◌>>◌, load_keystore, save_keystore, write_secret, remove_secret,
}
use bifro_ssh.Keystore.Wrapper.{
  Fallible, wrap, check_passphrase, detect_form, new_passphrase_wrapper, verified_wrapper,
}
use bifro_ssh.Keystore.Unlock.{unlock, unlock_with_passphrase, store_keyring_wrapper}

pub data InitMode : Type 0 where
  secret_file passphrase_only keyring_and_passphrase : InitMode

abbrev pub needs_passphrase : InitMode → Bool
needs_passphrase secret_file = false
needs_passphrase _ = true

abbrev pub demands_passphrase : InitMode → Bool
demands_passphrase passphrase_only = true
demands_passphrase _ = false

abbrev pub needs_keyring : InitMode → Bool
needs_keyring keyring_and_passphrase = true
needs_keyring _ = false

abbrev pub require : Bool → KeyError → Action (Unit {0})
require true _ = pure tt
require false e = fail e

abbrev when_needed : {A : Type 0} → Bool → Fallible A → Fallible (Option A)
when_needed false _ = ok none
when_needed true (ok a) = ok (some a)
when_needed true (err e) = err e

unfoldable pub require_passphrase : KeyStore → Action (Unit {0})
require_passphrase store = elim store.passphrase [ none ↦ fail no_passphrase | some _ ↦ pure tt ]

-- Of the two wrappers, those that a mode asks for.
abbrev pub store_from : InitMode → Fallible Text → Fallible PassphraseWrapper → Fallible KeyStore
store_from mode keyring wrapper = bind (when_needed (needs_keyring mode) keyring) λ k.
    bind (when_needed (needs_passphrase mode) wrapper) λ w.
      ok (record new_store { keyring = k; passphrase = w; always_ask = demands_passphrase mode })

module _ (env : Env) where
  abbrev pub keyring_wrapper : Key → Fallible Text
  keyring_wrapper master = elim (keyring_kek env.keyring) [
    | none ↦ err no_keyring
    | some kek ↦ wrap env master kek
  ]

  -- The keystore that a mode asks for.
  unfoldable pub first_store : InitMode → Text → Key → PassphraseForm → Fallible KeyStore
  unfolding keyring_kek wrap new_passphrase_wrapper
  first_store mode passphrase master form =
      store_from mode (keyring_wrapper master) (new_passphrase_wrapper env passphrase master form)

  -- Every route that was written is tried.
  unfoldable pub try_passphrase : Text → Key → Action (Unit {0})
  unfolding unlock_with_passphrase
  try_passphrase passphrase master = unlock_with_passphrase env passphrase >>= λ opened.
      require (text_eq opened master) not_verified

  unfoldable pub try_unlock : Key → Action (Unit {0})
  unfolding unlock
  try_unlock master = unlock env >>= λ reopened.
      require (reopened.needs_passphrase || text_eq reopened.key master) not_verified

  unfoldable pub initialize : InitMode → Text → Action Key
  unfolding check_passphrase detect_form first_store save_keystore write_secret try_passphrase
      try_unlock
  initialize mode passphrase = do
    require (not (needs_passphrase mode && is_empty passphrase)) empty_passphrase
    when (needs_passphrase mode) (lift (check_passphrase passphrase (detect_form env passphrase)))
    store ← lift (first_store mode passphrase env.fresh_key (detect_form env passphrase))
    save_keystore store
    when (not (needs_passphrase mode)) (write_secret env.fresh_key)
    when (needs_passphrase mode) (try_passphrase passphrase env.fresh_key)
    try_unlock env.fresh_key
    pure env.fresh_key

  unfoldable pub set_passphrase : Key → Text → Bool → PassphraseForm → Action (Unit {0})
  unfolding check_passphrase verified_wrapper load_keystore save_keystore store_keyring_wrapper
      remove_secret
  set_passphrase master passphrase always_ask form = do
    lift (check_passphrase passphrase form)
    wrapper ← lift (verified_wrapper env passphrase master form)
    store ← load_keystore
    save_keystore (record store {
      version = 1;
      passphrase = some wrapper;
      always_ask = always_ask;
      keyring = if always_ask then none else store.keyring;
    })
    when (not always_ask && not (is_some store.keyring)) (ignore (store_keyring_wrapper env master))
    remove_secret

  unfoldable pub set_always_ask : Key → Bool → Action (Unit {0})
  unfolding load_keystore require_passphrase save_keystore store_keyring_wrapper
  set_always_ask master always_ask = do
    store ← load_keystore
    require_passphrase store
    save_keystore (record store { always_ask = always_ask; keyring = none })
    when (not always_ask) (ignore (store_keyring_wrapper env master))

  unfoldable pub clear_passphrase : Key → Action (Unit {0})
  unfolding write_secret load_keystore save_keystore store_keyring_wrapper
  clear_passphrase master = do
    write_secret master
    store ← load_keystore
    save_keystore
        (record store { passphrase = none; always_ask = false; biometric = none; pin = none })
    ignore (store_keyring_wrapper env master)

unfoldable pub set_biometric : BiometricWrapper → Action (Unit {0})
unfolding load_keystore require_passphrase save_keystore
set_biometric wrapper = do
  store ← load_keystore
  require_passphrase store
  save_keystore (record store { biometric = some wrapper })

unfoldable pub clear_biometric : Action (Unit {0})
unfolding load_keystore save_keystore
clear_biometric = load_keystore >>= λ store. save_keystore (record store { biometric = none })
