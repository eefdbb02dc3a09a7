-- ===== src/Keystore/Rules/Operations.antt =====
-- What the steps that several operations take do to a keystore on disk.
use bifro_ssh.Common.{Bool, true, false, ◌≡◌, refl, none, some, Text}
use bifro_ssh.Keystore.{
  Key, PassphraseWrapper, KeyStore, keyring_kek, Env, Action, pure, fail, ◌>>◌, no_passphrase,
  KeyError,
}
use bifro_ssh.Keystore.Wrapper.{wrap}
use bifro_ssh.Keystore.Unlock.{put_keyring_wrapper, store_keyring_wrapper}
use bifro_ssh.Keystore.Change.{require, require_passphrase}
use bifro_ssh.Keystore.Rules.{
  Keeps, save_then-Keeps, load_then-Keeps, lift_then-Keeps, if-Keeps, option-Keeps, pure-Keeps,
}

module _ (G : KeyStore → Type 0) where
  pub require_passphrase_then-Keeps :
      {A : Type 0} (store : KeyStore) (m : Action A)
      → ((w : PassphraseWrapper) → store.passphrase ≡ some w → Keeps G m)
      → Keeps G (require_passphrase store >> m)
  unfolding require_passphrase
  require_passphrase_then-Keeps store m h d i =
      elim store.passphrase
          as (λ o.
            ((w : PassphraseWrapper) → o ≡ some w → Keeps G m)
            → Keeps G ((elim o [ none ↦ fail no_passphrase | some _ ↦ pure tt ]) >> m)) [
              | none ↦ λ _ _ i. i
              | some w ↦ λ h. h w refl
            ]
        h d i

  pub require-Keeps : (b : Bool) (e : KeyError) → Keeps G (require b e)
  require-Keeps true e d i = (i, tt)
  require-Keeps false e d i = i

  module _
      (can_add : (store : KeyStore) (blob : Text)
        → G store
        → store.always_ask ≡ false
        → G (record store { version = 1; keyring = some blob })) where
    put_keyring_wrapper-Keeps :
        (env : Env) (master kek : Key) (store : KeyStore)
        → G store
        → store.always_ask ≡ false
        → Keeps G (put_keyring_wrapper env master store kek)
    unfolding put_keyring_wrapper
    put_keyring_wrapper-Keeps env master kek store g e =
        lift_then-Keeps G (wrap env master kek) _ λ blob _.
          save_then-Keeps G (record store { version = 1; keyring = some blob }) (pure true)
            (can_add store blob g e) (pure-Keeps G true)

    pub store_keyring_wrapper-Keeps :
        (env : Env) (master : Key) → Keeps G (store_keyring_wrapper env master)
    unfolding store_keyring_wrapper
    store_keyring_wrapper-Keeps env master = load_then-Keeps G _ λ store g.
        if-Keeps G store.always_ask (pure false) _ (λ _. pure-Keeps G false)
          λ e.
            option-Keeps G (keyring_kek env.keyring) (pure false) _ (λ _. pure-Keeps G false)
              λ kek _. put_keyring_wrapper-Keeps env master kek store g e
