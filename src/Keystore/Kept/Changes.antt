-- ===== src/Keystore/Kept/Changes.antt =====
-- The changes that src-tauri/src/keystore.rs makes keep that rule.
use bifro_ssh.Common.{
  Bool, false, ◌≡◌, refl, none, some, Text, ok, err, arith, if◌then◌else◌, ◌&&◌, ◌||◌, not,
  is_empty, is_some, text_eq,
}
use bifro_ssh.Keystore.{
  Key, PassphraseForm, PassphraseWrapper, BiometricWrapper, KeyStore, Env, pure, lift, ignore, when,
  ◌>>=◌, ◌>>◌, load_keystore, save_keystore, write_secret, remove_secret, not_verified,
  empty_passphrase,
}
use bifro_ssh.Keystore.Wrapper.{
  Fallible, new_passphrase_wrapper, detect_form, verified_wrapper, check_passphrase,
}
use bifro_ssh.Keystore.Unlock.{Unlocked, unlock, store_keyring_wrapper, unlock_with_passphrase}
use bifro_ssh.Keystore.Change.{
  InitMode, secret_file, passphrase_only, keyring_and_passphrase, require, first_store,
  keyring_wrapper, store_from, needs_passphrase, try_passphrase, try_unlock, initialize,
  set_passphrase, set_always_ask, clear_passphrase, set_biometric, clear_biometric,
}
use bifro_ssh.Keystore.Rules.{
  Keeps, then-Keeps, >>-Keeps, lift-Keeps, ignore-Keeps, when-Keeps, load_then-Keeps,
  lift_then-Keeps, save_keystore-Keeps, write_secret-Keeps, remove_secret-Keeps, pure-Keeps,
  save_then-Keeps,
}
use bifro_ssh.Keystore.Rules.Operations.{require-Keeps, require_passphrase_then-Keeps}
use bifro_ssh.Keystore.Kept.{IsKept, adds-Keeps, unlock_with_passphrase-Keeps, unlock-Keeps}

store_from-IsKept :
    (mode : InitMode) (keyring : Fallible Text) (wrapper : Fallible PassphraseWrapper)
    (store : KeyStore)
    → store_from mode keyring wrapper ≡ ok store
    → IsKept store
store_from-IsKept secret_file _ _ store e = ground arith
store_from-IsKept passphrase_only _ (ok w) store e = ground arith
store_from-IsKept passphrase_only _ (err _) store e = ground arith
store_from-IsKept keyring_and_passphrase (ok _) (ok w) store e = ground arith
store_from-IsKept keyring_and_passphrase (err _) (ok w) store e = ground arith
store_from-IsKept keyring_and_passphrase (ok _) (err w) store e = ground arith
store_from-IsKept keyring_and_passphrase (err _) (err w) store e = ground arith

module _ (env : Env) where
  try_passphrase-Keeps :
      (typed : Text) (master : Key) → Keeps IsKept (try_passphrase env typed master)
  unfolding try_passphrase
  try_passphrase-Keeps typed master =
      let check = λ (opened : Key). require (text_eq opened master) not_verified in
      then-Keeps IsKept (unlock_with_passphrase env typed) check
        (unlock_with_passphrase-Keeps env typed)
        λ opened. require-Keeps IsKept (text_eq opened master) not_verified

  try_unlock-Keeps : (master : Key) → Keeps IsKept (try_unlock env master)
  unfolding try_unlock
  try_unlock-Keeps master =
      let check =
        λ (r : Unlocked). require (r.needs_passphrase || text_eq r.key master) not_verified in
      then-Keeps IsKept (unlock env) check (unlock-Keeps env)
        λ r. require-Keeps IsKept (r.needs_passphrase || text_eq r.key master) not_verified

  first_store-IsKept :
      (mode : InitMode) (typed : Text) (master : Key) (form : PassphraseForm) (store : KeyStore)
      → first_store env mode typed master form ≡ ok store
      → IsKept store
  unfolding first_store
  first_store-IsKept mode typed master form store e =
      store_from-IsKept mode (keyring_wrapper env master)
        (new_passphrase_wrapper env typed master form) store e

  pub initialize-Keeps : (mode : InitMode) (typed : Text) → Keeps IsKept (initialize env mode typed)
  unfolding initialize
  initialize-Keeps mode typed =
      let form = detect_form env typed in
      let asks = needs_passphrase mode in
      let r = require (not (asks && is_empty typed)) empty_passphrase in
      let c = when asks (lift (check_passphrase typed form)) in
      let w = when (not asks) (write_secret env.fresh_key) in
      let t = when asks (try_passphrase env typed env.fresh_key) in
      let u = try_unlock env env.fresh_key >> pure env.fresh_key in
      let made = λ (store : KeyStore). save_keystore store >> (w >> (t >> u)) in
      let u_keeps =
        >>-Keeps IsKept (try_unlock env env.fresh_key) (pure env.fresh_key)
          (try_unlock-Keeps env.fresh_key) (pure-Keeps IsKept env.fresh_key) in
      let t_keeps =
        when-Keeps IsKept asks (try_passphrase env typed env.fresh_key)
          (try_passphrase-Keeps typed env.fresh_key) in
      let w_keeps =
        when-Keeps IsKept (not asks) (write_secret env.fresh_key)
          (write_secret-Keeps IsKept env.fresh_key) in
      let c_keeps =
        when-Keeps IsKept asks (lift (check_passphrase typed form))
          (lift-Keeps IsKept (check_passphrase typed form)) in
      >>-Keeps IsKept r (c >> (lift (first_store env mode typed env.fresh_key form) >>= made))
        (require-Keeps IsKept (not (asks && is_empty typed)) empty_passphrase)
        (>>-Keeps IsKept c (lift (first_store env mode typed env.fresh_key form) >>= made) c_keeps (
          lift_then-Keeps IsKept (first_store env mode typed env.fresh_key form) made λ store e.
            save_then-Keeps IsKept store (w >> (t >> u))
              (first_store-IsKept mode typed env.fresh_key form store e)
              (>>-Keeps IsKept w (t >> u) w_keeps (>>-Keeps IsKept t u t_keeps u_keeps))))

  pub set_passphrase-Keeps :
      (master : Key) (typed : Text) (always_ask : Bool) (form : PassphraseForm)
      → Keeps IsKept (set_passphrase env master typed always_ask form)
  unfolding set_passphrase
  set_passphrase-Keeps master typed always_ask form =
      lift_then-Keeps IsKept (check_passphrase typed form) _ λ _ _.
        lift_then-Keeps IsKept (verified_wrapper env typed master form) _ λ w _.
          load_then-Keeps IsKept _ λ store g.
            let b = not always_ask && not (is_some store.keyring) in
            let add = ignore (store_keyring_wrapper env master) in
            let k = record store {
              version = 1;
              passphrase = some w;
              always_ask = always_ask;
              keyring = if always_ask then none else store.keyring;
            } in
            let rest = when b add >> remove_secret in
            save_then-Keeps IsKept k rest (λ e. cc, λ e. rw e refl)
              (>>-Keeps IsKept (when b add) remove_secret
                (when-Keeps IsKept b add
                  (ignore-Keeps IsKept (store_keyring_wrapper env master) (adds-Keeps env master)))
                (remove_secret-Keeps IsKept))

  pub set_always_ask-Keeps :
      (master : Key) (always_ask : Bool) → Keeps IsKept (set_always_ask env master always_ask)
  unfolding set_always_ask
  set_always_ask-Keeps master always_ask = load_then-Keeps IsKept _ λ store g.
      let add = when (not always_ask) (ignore (store_keyring_wrapper env master)) in
      let k = record store { always_ask = always_ask; keyring = none } in
      require_passphrase_then-Keeps IsKept store (save_keystore k >> add) λ w e.
        save_then-Keeps IsKept k add (λ e'. cc, λ _. refl)
          (when-Keeps IsKept (not always_ask) (ignore (store_keyring_wrapper env master))
            (ignore-Keeps IsKept (store_keyring_wrapper env master) (adds-Keeps env master)))

  pub clear_passphrase-Keeps : (master : Key) → Keeps IsKept (clear_passphrase env master)
  unfolding clear_passphrase
  clear_passphrase-Keeps master =
      let add = ignore (store_keyring_wrapper env master) in
      let drop = λ (store : KeyStore).
        save_keystore
          (record store { passphrase = none; always_ask = false; biometric = none; pin = none })
        >> add in
      >>-Keeps IsKept (write_secret master) (load_keystore >>= drop)
        (write_secret-Keeps IsKept master)
        (load_then-Keeps IsKept drop λ store g.
          save_then-Keeps IsKept
            (record store { passphrase = none; always_ask = false; biometric = none; pin = none })
            add ((λ _. (refl, refl, refl)), λ e. cc)
            (ignore-Keeps IsKept (store_keyring_wrapper env master) (adds-Keeps env master)))

pub set_biometric-Keeps : (w : BiometricWrapper) → Keeps IsKept (set_biometric w)
unfolding set_biometric
set_biometric-Keeps w = load_then-Keeps IsKept _ λ store g.
    require_passphrase_then-Keeps IsKept store (save_keystore (record store { biometric = some w }))
      λ p e. save_keystore-Keeps IsKept (record store { biometric = some w }) (λ e'. cc, g.1)

pub clear_biometric-Keeps : Keeps IsKept clear_biometric
unfolding clear_biometric
clear_biometric-Keeps = load_then-Keeps IsKept _ λ store g.
    save_keystore-Keeps IsKept (record store { biometric = none })
      (λ e. ((g.0 e).0, refl, (g.0 e).2), g.1)
