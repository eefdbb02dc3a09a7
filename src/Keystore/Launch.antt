-- ===== src/Keystore/Launch.antt =====
-- Which key a launch comes by: `unlock` of src-tauri/src/keystore.rs.
use bifro_ssh.Common.{
  ◌≡◌, ◌≢◌, ◌↔◌, ◌⊎◌, inl, inr, refl, sym, ap, ◌∙◌, Bool, true, false, Option, none, some, Result,
  ok, err, is_some, text_eq, text_eq_iff, if◌then◌else◌,
}
use bifro_ssh.Keystore.{
  Key, KeyStore, keyring_kek, Env, KeyError, no_master_key, Folder, load_keystore, lift,
  read_secret_file,
}
use bifro_ssh.Keystore.Unlock.{
  KeySource, keyring_source, file_source, passphrase_source, Unlocked, zero_key, unlock, unlock_by,
  unlock_without, keyring_key,
}
use mathlib.Core.Path.{subst}

-- Where a key comes from, when the keyring and .secret hold these and there is a passphrase or not.
abbrev pub IsFrom : Option Key → Option Key → Bool → KeySource → Bool → Key → Type 0
IsFrom keyring file passphrase keyring_source needs key =
    (needs ≡ false) × (keyring ≡ some key) × ((file ≡ none) ⊎ (file ≡ some key))
IsFrom keyring file passphrase file_source needs key =
    (needs ≡ false) × (file ≡ some key) × (keyring ≢ some key)
IsFrom keyring file passphrase passphrase_source needs key =
    (needs ≡ true) × (key ≡ zero_key) × (file ≡ none) × (keyring ≡ none) × (passphrase ≡ true)

abbrev OpensBy : Option Key → Option Key → Bool → Unlocked → Type 0
OpensBy keyring file passphrase u = IsFrom keyring file passphrase u.source u.needs_passphrase u.key

abbrev gives : KeySource → Bool → Key → Result KeyError Unlocked
gives source needs key = ok (record { key = key; source = source; needs_passphrase = needs })

abbrev value_or : Unlocked → Result KeyError Unlocked → Unlocked
value_or u (ok v) = v
value_or u (err _) = u

module _ (env : Env) (store : KeyStore) where
  -- `OpensBy` is of the value that is given.
  given :
      (keyring file : Option Key) (p : Bool) (r u : Unlocked)
      → OpensBy keyring file p r
      → gives r.source r.needs_passphrase r.key ≡ ok u
      → OpensBy keyring file p u
  given keyring file p r u h e = subst (OpensBy keyring file p) (ap (value_or r) e) h

  without :
      (p : Bool) (u : Unlocked)
      → (if p then gives passphrase_source true zero_key else err no_master_key) ≡ ok u
      → OpensBy none none p u
  without true u = given none none true _ u (refl, refl, refl, refl, refl)
  without false u = λ e. absurd (cc)

  from_both :
      (key file : Key) (u : Unlocked) (b : Bool)
      → text_eq file key ≡ b
      → (if b then gives keyring_source false key else gives file_source false file) ≡ ok u
      → OpensBy (some key) (some file) (is_some store.passphrase) u
  from_both key file u true t =
      given (some key) (some file) (is_some store.passphrase) _ u
        (refl, refl, inr (ap some ((text_eq_iff file key).0 t)))
  from_both key file u false t =
      given (some key) (some file) (is_some store.passphrase) _ u
        (refl, refl, λ e. let same = (text_eq_iff file key).1 (cc) in absurd (cc))

  unlock_by-OpensBy :
      (keyring file : Option Key) (u : Unlocked)
      → unlock_by env store keyring file ≡ ok u
      → OpensBy keyring file (is_some store.passphrase) u
  unfolding unlock_by unlock_without
  unlock_by-OpensBy none none u = without (is_some store.passphrase) u
  unlock_by-OpensBy none (some f) u =
      given none (some f) (is_some store.passphrase) _ u (refl, refl, λ e. cc)
  unlock_by-OpensBy (some k) none u =
      given (some k) none (is_some store.passphrase) _ u (refl, refl, inl refl)
  unlock_by-OpensBy (some k) (some f) u = from_both k f u (text_eq f k) refl

  differ : (key file : Key) → some key ≢ some file → text_eq file key ≡ false
  differ key file h = by_test (text_eq file key) refl
    where
      by_test : (b : Bool) → text_eq file key ≡ b → b ≡ false
      by_test false t = refl
      by_test true t = absurd (h (ap some (sym ((text_eq_iff file key).0 t))))

  OpensBy-unlock_by :
      (keyring file : Option Key) (source : KeySource) (needs : Bool) (key : Key)
      → IsFrom keyring file (is_some store.passphrase) source needs key
      → unlock_by env store keyring file ≡ gives source needs key
  unfolding unlock_by unlock_without
  OpensBy-unlock_by keyring file keyring_source needs key (n, k, inl f) = rw (n, k, f) refl
  OpensBy-unlock_by keyring file keyring_source needs key (n, k, inr f) =
      rw (n, k, f) (rw ((text_eq_iff key key).1 refl) refl)
  OpensBy-unlock_by none file file_source needs key (n, f, k) = rw (n, f) refl
  OpensBy-unlock_by (some k') file file_source needs key (n, f, k) =
      rw (n, f) (rw (differ k' key k) refl)
  OpensBy-unlock_by keyring file passphrase_source needs key (n, z, f, k, p) =
      rw (n, z, f, k, p) refl

unlock-unlock_by :
    (env : Env) (d : Folder) (store : KeyStore)
    → (load_keystore d).0 ≡ ok store
    → (unlock env d).0
      ≡ unlock_by env store
          (keyring_key env store.keyring (keyring_kek env.keyring))
          (read_secret_file d.secret_file)
unfolding unlock load_keystore
unlock-unlock_by env d store e = ap (λ r. (opened r).0) e
  where
    opened : Result KeyError KeyStore → Result KeyError Unlocked × Folder
    opened (ok found) =
        lift
          (unlock_by env found (keyring_key env found.keyring (keyring_kek env.keyring))
            (read_secret_file d.secret_file))
          d
    opened (err why) = (err why, d)

-- A launch with a keystore.json that can be read gives exactly this. The keyring's key, if the keyring
-- wrapper opens and .secret does not hold another key. The key in .secret, if the keyring gives none or
-- another. No key, and the word that the passphrase is needed, if neither gives one and there is a
-- passphrase. In any other case the launch fails.
pub unlock_iff :
    (env : Env) (d : Folder) (store : KeyStore) (u : Unlocked)
    → (load_keystore d).0 ≡ ok store
    → ((unlock env d).0 ≡ ok u)
      ↔ IsFrom
          (keyring_key env store.keyring (keyring_kek env.keyring))
          (read_secret_file d.secret_file)
          (is_some store.passphrase)
          u.source
          u.needs_passphrase
          u.key
unlock_iff env d store u e =
    let keyring = keyring_key env store.keyring (keyring_kek env.keyring) in
    let file = read_secret_file d.secret_file in
    let same = unlock-unlock_by env d store e in
    (
      λ h. unlock_by-OpensBy env store keyring file u (sym same ∙ h),
      λ h. same ∙ OpensBy-unlock_by env store keyring file u.source u.needs_passphrase u.key h,
    )
