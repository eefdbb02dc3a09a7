-- ===== src/Keystore/Reopens.antt =====
-- A passphrase that was set opens the keystore: `set_passphrase` and `unlock_with_passphrase`, of
-- src-tauri/src/keystore.rs.
use bifro_ssh.Common.{
  Bool, ◌≡◌, ◌≢◌, refl, ap, ◌∙◌, none, some, List, Text, text_eq, text_eq_iff, ok, err, >>=-eq-ok,
  ok_or, arith, if◌then◌else◌, is_some, not, ◌&&◌,
}
use bifro_ssh.Keystore.{
  Key, PassphraseForm, verbatim, words, PassphraseWrapper, KeyStore, KeyringStatus, missing, Env,
  no_passphrase, StoreFile, absent, unreadable, readable, no_secret, Fate, Folder, pure, lift,
  ignore, when, ◌>>=◌, ◌>>◌, load_keystore, save_keystore, remove_secret, not_verified,
}
use bifro_ssh.Keystore.Wrapper.{
  check_passphrase, unwrap_key, argon2_kek, prepare, canonical_words, derive_passphrase_kek,
  new_passphrase_wrapper, open_wrapper, verified_wrapper, below_profile,
}
use bifro_ssh.Keystore.Unlock.{
  store_keyring_wrapper, repair, key_of, unlock_with_passphrase, upgrade_passphrase_wrapper,
  should_repair_keyring, wrapper_opens,
}
use bifro_ssh.Keystore.Change.{set_passphrase}
use bifro_ssh.Keystore.Rules.{
  OnFile, Keeps, ignore-Keeps, when-Keeps, >>-Keeps, remove_secret-Keeps,
}
use bifro_ssh.Keystore.Rules.Operations.{store_keyring_wrapper-Keeps}
use bifro_ssh.Keystore.Rules.Makes.{
  Makes, InFile, NoSecret, made_of, last-Makes, lift_then-Makes, save_then-Makes,
  remove_secret-Makes, first-eq-ok, both-ok,
}

module _ (env : Env) (passphrase : Text) (master : Key) where
  -- The keystore has a wrapper that the passphrase opens.
  abbrev Opens : KeyStore → Type 0
  Opens store =
      (w : PassphraseWrapper) × (store.passphrase ≡ some w) × (key_of env passphrase w ≡ ok master)

  key_of-ok :
      (w : PassphraseWrapper) (key : Key)
      → open_wrapper env passphrase w ≡ ok key
      → key_of env passphrase w ≡ ok key
  unfolding key_of open_wrapper
  key_of-ok w key e =
      let (kek, h, h') =
        >>=-eq-ok (derive_passphrase_kek env passphrase w) (λ kek. unwrap_key env w.blob kek) e in
      rw (h, h') refl

  same_wrapper :
      (opened : Key) (w w' : PassphraseWrapper)
      → (if text_eq opened master then ok w' else err not_verified) ≡ ok w
      → (w' ≡ w) × (opened ≡ master)
  same_wrapper opened w w' e = ground (arith, text_eq_iff opened master)

  verified_wrapper-opens :
      (form : PassphraseForm) (w : PassphraseWrapper)
      → verified_wrapper env passphrase master form ≡ ok w
      → key_of env passphrase w ≡ ok master
  unfolding verified_wrapper
  verified_wrapper-opens form w e =
      let (w', h, h') = >>=-eq-ok (new_passphrase_wrapper env passphrase master form) _ e in
      let (opened, k, k') = >>=-eq-ok (open_wrapper env passphrase w') _ h' in
      let (same, same') = same_wrapper opened w w' k' in
      key_of-ok w master (rw (← same) (k ∙ ap ok same'))

  keyring-Keeps : (env' : Env) (key : Key) → Keeps Opens (store_keyring_wrapper env' key)
  keyring-Keeps env' key =
      store_keyring_wrapper-Keeps Opens (λ store blob (w, h, h') e. (w, h, h')) env' key

  set_passphrase-Makes :
      (always_ask : Bool) (form : PassphraseForm)
      → Makes (InFile Opens) (set_passphrase env master passphrase always_ask form)
  unfolding set_passphrase
  set_passphrase-Makes always_ask form =
      lift_then-Makes (InFile Opens) (check_passphrase passphrase form) _ λ _ _.
        lift_then-Makes (InFile Opens) (verified_wrapper env passphrase master form) _ λ w e.
          last-Makes (InFile Opens) load_keystore _ λ store.
            let b = not always_ask && not (is_some store.keyring) in
            let add = ignore (store_keyring_wrapper env master) in
            let k = record store {
              version = 1;
              passphrase = some w;
              always_ask = always_ask;
              keyring = if always_ask then none else store.keyring;
            } in
            save_then-Makes Opens k (when b add >> remove_secret)
              (w, refl, verified_wrapper-opens form w e)
              (>>-Keeps Opens (when b add) remove_secret
                (when-Keeps Opens b add (
                  ignore-Keeps Opens (store_keyring_wrapper env master) (keyring-Keeps env master)))
                (remove_secret-Keeps Opens))

  set_passphrase-removes :
      (always_ask : Bool) (form : PassphraseForm)
      → Makes NoSecret (set_passphrase env master passphrase always_ask form)
  unfolding set_passphrase
  set_passphrase-removes always_ask form =
      last-Makes NoSecret (lift (check_passphrase passphrase form)) _ λ _.
        last-Makes NoSecret (lift (verified_wrapper env passphrase master form)) _ λ w.
          last-Makes NoSecret load_keystore _ λ store.
            let b = not always_ask && not (is_some store.keyring) in
            let add = ignore (store_keyring_wrapper env master) in
            let k = record store {
              version = 1;
              passphrase = some w;
              always_ask = always_ask;
              keyring = if always_ask then none else store.keyring;
            } in
            last-Makes NoSecret (save_keystore k) (λ _. when b add >> remove_secret)
              λ _. last-Makes NoSecret (when b add) (λ _. remove_secret) λ _. remove_secret-Makes

  repair-ok :
      (store : KeyStore) (w : PassphraseWrapper) (d : Folder)
      → (repair env passphrase master store w d).0 ≡ ok tt
  unfolding repair
  repair-ok store w d =
      let status = if store.always_ask then missing else env.keyring in
      both-ok (below_profile w.m_cost w.t_cost)
        (should_repair_keyring env status store.always_ask (wrapper_opens env store.keyring status))
        (upgrade_passphrase_wrapper env passphrase master w.form) (store_keyring_wrapper env master)
        d

  unlock-Opens :
      (d : Folder) (store : KeyStore)
      → d.file ≡ readable store
      → Opens store
      → (unlock_with_passphrase env passphrase d).0 ≡ ok master
  unfolding unlock_with_passphrase load_keystore
  unlock-Opens d store e (w, h, h') =
      let finish = λ (m : Key). repair env passphrase m store w >> pure m in
      let start = λ (s : KeyStore). lift (ok_or s.passphrase no_passphrase) >>= λ u.
      lift (key_of env passphrase u) >>= λ m. repair env passphrase m s u >> pure m in
      let open_it = λ (u : PassphraseWrapper).
        lift (key_of env passphrase u) >>= λ m. repair env passphrase m store u >> pure m in
      first-eq-ok load_keystore start d store (rw e refl)
      ∙ first-eq-ok (lift (ok_or store.passphrase no_passphrase)) open_it d w (rw h refl)
      ∙ first-eq-ok (lift (key_of env passphrase w)) finish d master h'
      ∙ first-eq-ok (repair env passphrase master store w) (λ _. pure master) d tt
          (repair-ok store w d)

reopens :
    (env : Env) (passphrase : Text) (master : Key) (d : Folder) (file : StoreFile)
    → d.file ≡ file
    → OnFile (Opens env passphrase master) file
    → file ≢ unreadable
    → (unlock_with_passphrase env passphrase d).0 ≡ ok master
reopens env passphrase master d absent e (w, h, h') can_read = ground arith
reopens env passphrase master d unreadable e i can_read = absurd (can_read refl)
reopens env passphrase master d (readable store) e i can_read =
    unlock-Opens env passphrase master d store e i

-- At another launch, when the keyring answers otherwise and other salts and keys are drawn.
abbrev pub later : Env → KeyringStatus → Text → Key → Env
later env status salt key = record env { keyring = status; fresh_salt = salt; fresh_key = key }

prepare-later :
    (env : Env) (status : KeyringStatus) (salt : Text) (key : Key) (passphrase : Text)
    (form : PassphraseForm)
    → prepare (later env status salt key) passphrase form ≡ prepare env passphrase form
unfolding prepare canonical_words
prepare-later env status salt key passphrase verbatim = refl
prepare-later env status salt key passphrase words = refl

key_of-later :
    (env : Env) (status : KeyringStatus) (salt : Text) (key : Key) (passphrase : Text)
    (w : PassphraseWrapper)
    → key_of (later env status salt key) passphrase w ≡ key_of env passphrase w
unfolding key_of derive_passphrase_kek argon2_kek unwrap_key
key_of-later env status salt key passphrase w =
    rw (prepare-later env status salt key passphrase w.form) refl

Opens-later :
    (env : Env) (status : KeyringStatus) (salt : Text) (key : Key) (passphrase : Text)
    (master : Key) (file : StoreFile)
    → OnFile (Opens env passphrase master) file
    → OnFile (Opens (later env status salt key) passphrase master) file
Opens-later env status salt key passphrase master absent (w, h, h') =
    (w, h, key_of-later env status salt key passphrase w ∙ h')
Opens-later env status salt key passphrase master unreadable i = tt
Opens-later env status salt key passphrase master (readable k) (w, h, h') =
    (w, h, key_of-later env status salt key passphrase w ∙ h')

-- Once `set_passphrase` has succeeded, and if keystore.json can still be read: .secret is gone, and
-- the same passphrase gives the master key back at any later launch, whatever the keyring then
-- answers and whatever becomes of the writes that launch makes.
pub set_passphrase-reopens :
    (env : Env) (status : KeyringStatus) (salt : Text) (key : Key) (master : Key)
    (passphrase : Text) (always_ask : Bool) (form : PassphraseForm) (d : Folder) (fates : List Fate)
    → let (r, d') = set_passphrase env master passphrase always_ask form d in
      r ≡ ok tt
      → d'.file ≢ unreadable
      → (d'.secret_file ≡ no_secret)
        × ((unlock_with_passphrase
              (later env status salt key)
              passphrase
              (record d' { fates = fates })).0
            ≡ ok master)
set_passphrase-reopens env status salt key master passphrase always_ask form d fates e can_read =
    let run = set_passphrase env master passphrase always_ask form d in
    let gone =
      made_of NoSecret run.0 run.1 (set_passphrase-removes env passphrase master always_ask form d)
        e in
    let opens =
      made_of (InFile (Opens env passphrase master)) run.0 run.1
        (set_passphrase-Makes env passphrase master always_ask form d) e in
    (
      gone,
      reopens (later env status salt key) passphrase master (record run.1 { fates = fates })
          run.1.file refl (Opens-later env status salt key passphrase master run.1.file opens)
          can_read,
    )
