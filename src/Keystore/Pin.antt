-- ===== src/Keystore/Pin.antt =====
-- The PIN: `check_pin`, `set_pin`, `clear_pin` and `unlock_with_pin` of src-tauri/src/keystore.rs.
-- `hw_mac`, the HMAC of the phone's hardware, is a parameter there too.
use bifro_ssh.Common.{
  ℕ, ◌+◌, ◌-◌, ◌%◌, ◌^◌, ◌||◌, not, Option, none, some, [], if◌then◌else◌, all, length, ltb, leb,
  is_digit, Text, text_eq, ok, err, ok_or, ◌>>=◌ as bind,
}
use bifro_ssh.Keystore.{
  Key, PinWrapper, KeyStore, Env, bad_pin, no_pin, not_derived, not_verified, Action, pure, lift,
  ◌>>=◌, ◌>>◌, load_keystore, save_keystore,
}
use bifro_ssh.Keystore.Wrapper.{
  Fallible, argon_m_cost, argon_t_cost, argon_p_cost, below_profile, wrap, unwrap_key, argon2_kek,
}
use bifro_ssh.Keystore.Change.{require_passphrase}

abbrev pub pin_tries : ℕ
pin_tries = 5

abbrev pub pin_min_digits : ℕ
pin_min_digits = 6

pub data PinOutcome : Type 0 where
  opened : Key → PinOutcome
  wrong : ℕ → PinOutcome
  disabled : PinOutcome

-- The length of a text of digits is that of its bytes.
unfoldable pub check_pin : Text → Fallible (Unit {0})
check_pin pin =
    if ltb (length pin) pin_min_digits || not (all is_digit pin) then err bad_pin else ok tt

module _ (env : Env) (hw_mac : Key → Option Key) where
  unfoldable pub pin_kek : Text → PinWrapper → Fallible Key
  unfolding argon2_kek
  pin_kek pin w =
      bind (argon2_kek env pin w.salt w.m_cost w.t_cost w.p_cost)
        λ stretched. ok_or (hw_mac stretched) not_derived

  abbrev pub blank_pin : PinWrapper
  blank_pin = record {
    salt = env.fresh_salt;
    m_cost = argon_m_cost;
    t_cost = argon_t_cost;
    p_cost = argon_p_cost;
    blob = [];
    failures = 0;
  }

  -- The key that a wrapper gives up to a PIN.
  unfoldable pub open_pin : Text → PinWrapper → Fallible Key
  unfolding pin_kek unwrap_key
  open_pin pin w = bind (pin_kek pin w) λ kek. unwrap_key env w.blob kek

  unfoldable pub new_pin_wrapper : Text → Key → Fallible PinWrapper
  unfolding pin_kek wrap open_pin
  new_pin_wrapper pin master = bind (pin_kek pin blank_pin) λ kek.
      bind (wrap env master kek) λ blob.
        bind (open_pin pin (record blank_pin { blob = blob })) λ key.
          if text_eq key master then ok (record blank_pin { blob = blob }) else err not_verified

  abbrev pub not_verified_else : {A : Type 0} → Fallible A → Fallible A
  not_verified_else (ok a) = ok a
  not_verified_else (err _) = err not_verified

  unfoldable pub set_pin : Key → Text → Action (Unit {0})
  unfolding check_pin load_keystore require_passphrase new_pin_wrapper save_keystore
  set_pin master pin = do
    lift (check_pin pin)
    store ← load_keystore
    require_passphrase store
    wrapper ← lift (not_verified_else (new_pin_wrapper pin master))
    save_keystore (record store { pin = some wrapper })

  -- `failures += 1` on 32 bits.
  abbrev pub counted : PinWrapper → PinWrapper
  counted w = record w { failures = (w.failures + 1) % 2 ^ 32 }

  abbrev upgraded : Fallible PinWrapper → PinWrapper → PinWrapper
  upgraded (ok w) _ = w
  upgraded (err _) old = old

  -- The wrapper that is kept after the right PIN.
  unfoldable pub after_success : Text → Key → PinWrapper → PinWrapper
  unfolding below_profile new_pin_wrapper
  after_success pin master w =
      let kept = record w { failures = 0 } in
      if below_profile w.m_cost w.t_cost then upgraded (new_pin_wrapper pin master) kept else kept

  unfoldable pub settle : Text → KeyStore → PinWrapper → Fallible Key → Action PinOutcome
  unfolding after_success save_keystore
  settle pin store w (ok master) =
      save_keystore (record store { pin = some (after_success pin master w) })
      >> pure (opened master)
  settle pin store w (err _) =
      if leb pin_tries w.failures
      then save_keystore (record store { pin = none }) >> pure disabled
      else pure (wrong (pin_tries - w.failures))

  unfoldable pub unlock_with_pin : Text → Action PinOutcome
  unfolding load_keystore save_keystore open_pin settle
  unlock_with_pin pin = do
    store ← load_keystore
    wrapper ← lift (ok_or store.pin no_pin)
    save_keystore (record store { pin = some (counted wrapper) })
    settle pin store (counted wrapper) (open_pin pin (counted wrapper))

unfoldable pub clear_pin : Action (Unit {0})
unfolding load_keystore save_keystore
clear_pin = load_keystore >>= λ store. save_keystore (record store { pin = none })
