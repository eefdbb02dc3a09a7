-- ===== src/Keystore/Unlock.antt =====
-- Opening the keystore: `unlock`, `unlock_with_passphrase` and what they repair, in
-- src-tauri/src/keystore.rs.
use bifro_ssh.Common.{
  Bool, true, false, ◌&&◌, ◌||◌, not, Option, none, some, [], ◌∷◌, if◌then◌else◌, Text, text_eq,
  is_some, Result, ok, err, ok_or, ◌>>=◌ as bind,
}
use bifro_ssh.Keystore.{
  Key, PassphraseForm, PassphraseWrapper, KeyStore, new_store, KeyringStatus, ready, locked,
  missing, unavailable, keyring_kek, Env, KeyError, wrong_passphrase, no_passphrase, no_master_key,
  SecretFile, no_secret, other_length, secret, Folder, Action, pure, lift, ignore, when, ◌>>=◌,
  ◌>>◌, load_keystore, save_keystore, read_secret_file,
}
use bifro_ssh.Keystore.Wrapper.{
  Fallible, below_profile, wrap, unwrap_key, derive_passphrase_kek, verified_wrapper,
}

pub data KeySource : Type 0 where
  keyring_source file_source passphrase_source : KeySource

pub record Unlocked : Type 0 where
  pub key : Key
  pub source : KeySource
  pub needs_passphrase : Bool

abbrev pub zero_key : Key
zero_key =
    0 ∷ 0 ∷ 0 ∷ 0 ∷ 0 ∷ 0 ∷ 0 ∷ 0 ∷ 0 ∷ 0 ∷ 0 ∷ 0 ∷ 0 ∷ 0 ∷ 0 ∷ 0 ∷ 0 ∷ 0 ∷ 0 ∷ 0 ∷ 0 ∷ 0 ∷ 0 ∷ 0
    ∷ 0 ∷ 0 ∷ 0 ∷ 0 ∷ 0 ∷ 0 ∷ 0 ∷ 0 ∷ []

abbrev pub exists : SecretFile → Bool
exists no_secret = false
exists other_length = true
exists (secret _) = true

abbrev ok_key : Fallible Key → Option Key
ok_key (ok k) = some k
ok_key (err _) = none

abbrev pub is_ok : {A : Type 0} → Result KeyError A → Bool
is_ok (ok _) = true
is_ok (err _) = false

module _ (env : Env) where
  -- What a wrapped key gives, where there is one and the keyring answers.
  unfoldable pub keyring_key : Option Text → Option Key → Option Key
  unfolding unwrap_key
  keyring_key (some blob) (some kek) = ok_key (unwrap_key env blob kek)
  keyring_key (some _) none = none
  keyring_key none _ = none

  abbrev agrees : Option Key → Key → Bool
  agrees none _ = true
  agrees (some f) key = text_eq f key

  -- Without the keyring.
  unfoldable pub unlock_without : KeyStore → Option Key → Fallible Unlocked
  unlock_without store (some key) =
      ok (record { key = key; source = file_source; needs_passphrase = false })
  unlock_without store none =
      if is_some store.passphrase
      then ok (record { key = zero_key; source = passphrase_source; needs_passphrase = true })
      else err no_master_key

  unfoldable pub unlock_by : KeyStore → Option Key → Option Key → Fallible Unlocked
  unfolding unlock_without
  unlock_by store none file_key = unlock_without store file_key
  unlock_by store (some key) file_key =
      if agrees file_key key
      then ok (record { key = key; source = keyring_source; needs_passphrase = false })
      else unlock_without store file_key

  unfoldable pub unlock : Action Unlocked
  unfolding load_keystore keyring_key keyring_kek unlock_by read_secret_file
  unlock = do
    store ← load_keystore
    λ d.
        lift
          (unlock_by store (keyring_key store.keyring (keyring_kek env.keyring))
            (read_secret_file d.secret_file))
          d

  unfoldable pub put_keyring_wrapper : Key → KeyStore → Key → Action Bool
  unfolding save_keystore wrap
  put_keyring_wrapper master store kek = do
    blob ← lift (wrap env master kek)
    save_keystore (record store { version = 1; keyring = some blob })
    pure true

  unfoldable pub store_keyring_wrapper : Key → Action Bool
  unfolding load_keystore keyring_kek put_keyring_wrapper
  store_keyring_wrapper master = load_keystore >>= λ store.
      if store.always_ask then pure false else elim (keyring_kek env.keyring) [
        | none ↦ pure false
        | some kek ↦ put_keyring_wrapper master store kek
      ]

  unfoldable pub upgrade_passphrase_wrapper : Text → Key → PassphraseForm → Action (Unit {0})
  unfolding load_keystore save_keystore verified_wrapper
  upgrade_passphrase_wrapper passphrase master form = do
    wrapper ← lift (verified_wrapper env passphrase master form)
    store ← load_keystore
    save_keystore (record store { passphrase = some wrapper })

  abbrev pub wrapper_opens : Option Text → KeyringStatus → Bool
  wrapper_opens (some blob) (ready kek) = is_ok (unwrap_key env blob kek)
  wrapper_opens _ _ = false

  unfoldable pub should_repair_keyring : KeyringStatus → Bool → Bool → Bool
  should_repair_keyring status always_ask opens =
      if always_ask || opens
      then false
      else elim status [ ready _ ↦ true | missing ↦ true | locked ↦ false | unavailable ↦ false ]

  -- What is put right once the passphrase has given the key.
  unfoldable pub repair : Text → Key → KeyStore → PassphraseWrapper → Action (Unit {0})
  unfolding upgrade_passphrase_wrapper should_repair_keyring store_keyring_wrapper below_profile
      unwrap_key
  repair passphrase master store wrapper =
      let status = if store.always_ask then missing else env.keyring in
      when (below_profile wrapper.m_cost wrapper.t_cost)
        (ignore (upgrade_passphrase_wrapper passphrase master wrapper.form))
      >> when (should_repair_keyring status store.always_ask (wrapper_opens store.keyring status))
          (ignore (store_keyring_wrapper master))

  -- The key of a wrapper, where an error after its costs are accepted is a wrong passphrase.
  unfoldable pub key_of : Text → PassphraseWrapper → Fallible Key
  unfolding derive_passphrase_kek unwrap_key
  key_of passphrase wrapper =
      bind (derive_passphrase_kek env passphrase wrapper)
        λ kek. ok_or (ok_key (unwrap_key env wrapper.blob kek)) wrong_passphrase

  unfoldable pub unlock_with_passphrase : Text → Action Key
  unfolding load_keystore key_of repair
  unlock_with_passphrase passphrase = do
    store ← load_keystore
    wrapper ← lift (ok_or store.passphrase no_passphrase)
    master ← lift (key_of passphrase wrapper)
    repair passphrase master store wrapper
    pure master

-- `unwrap_or_default`, of which the version is 0.
abbrev store_or_default : Result KeyError KeyStore → KeyStore
store_or_default (ok k) = k
store_or_default (err _) = record new_store { version = 0 }

unfoldable pub current_source : Folder → Bool → KeySource
unfolding load_keystore
current_source d keyring_available =
    let store = store_or_default (load_keystore d).0 in
    if exists d.secret_file
    then file_source
    else if is_some store.keyring && keyring_available
    then keyring_source
    else if is_some store.passphrase
    then passphrase_source
    else file_source

-- With whether there is a data file.
unfoldable pub is_first_run : Folder → Bool → Bool
unfolding load_keystore
is_first_run d has_data = not (exists d.secret_file) && not has_data && elim (load_keystore d).0 [
  | ok s ↦ not (is_some s.keyring) && not (is_some s.passphrase)
  | err _ ↦ false
]
