-- ===== src/Keystore/Kept/Pins.antt =====
-- And so does the PIN.
use bifro_ssh.Common.{◌-◌, ◌≡◌, refl, Option, none, some, Text, ok, err, arith, ok_or, leb}
use bifro_ssh.Keystore.{
  Key, PinWrapper, KeyStore, Env, pure, lift, ◌>>=◌, ◌>>◌, save_keystore, KeyError, no_pin,
}
use bifro_ssh.Keystore.Wrapper.{Fallible}
use bifro_ssh.Keystore.Pin.{
  check_pin, new_pin_wrapper, not_verified_else, set_pin, clear_pin, after_success, settle,
  unlock_with_pin, counted, opened, wrong, disabled, pin_tries, open_pin,
}
use bifro_ssh.Keystore.Rules.{
  Keeps, load_then-Keeps, lift_then-Keeps, save_keystore-Keeps, pure-Keeps, save_then-Keeps,
  if-Keeps,
}
use bifro_ssh.Keystore.Rules.Operations.{require_passphrase_then-Keeps}
use bifro_ssh.Keystore.Kept.{IsKept}

some_of : {A : Type 0} (o : Option A) (e : KeyError) (a : A) → ok_or o e ≡ ok a → o ≡ some a
some_of none e a h = cc
some_of (some b) e a h = ground arith

pub clear_pin-Keeps : Keeps IsKept clear_pin
unfolding clear_pin
clear_pin-Keeps = load_then-Keeps IsKept _ λ store g.
    save_keystore-Keeps IsKept (record store { pin = none })
      (λ e. (refl, (g.0 e).1, (g.0 e).2), g.1)

-- A PIN that stands, stands beside a passphrase.
with_pin :
    (store : KeyStore) (w w' : PinWrapper)
    → IsKept store
    → store.pin ≡ some w
    → IsKept (record store { pin = some w' })
with_pin store w w' g e = (λ e'. ground arith, g.1)

without_pin : (store : KeyStore) → IsKept store → IsKept (record store { pin = none })
without_pin store g = (λ e. (refl, (g.0 e).1, (g.0 e).2), g.1)

module _ (env : Env) (hw_mac : Key → Option Key) where
  pub set_pin-Keeps : (master : Key) (pin : Text) → Keeps IsKept (set_pin env hw_mac master pin)
  unfolding set_pin
  set_pin-Keeps master pin = lift_then-Keeps IsKept (check_pin pin) _ λ _ _.
      load_then-Keeps IsKept _ λ store g.
        let made = not_verified_else env hw_mac (new_pin_wrapper env hw_mac pin master) in
        let keep = λ (w : PinWrapper). save_keystore (record store { pin = some w }) in
        require_passphrase_then-Keeps IsKept store (lift made >>= keep) λ p e.
          lift_then-Keeps IsKept made keep
            λ w _. save_keystore-Keeps IsKept (record store { pin = some w }) (λ e'. cc, g.1)

  settle-Keeps :
      (pin : Text) (store : KeyStore) (w old : PinWrapper) (r : Fallible Key)
      → IsKept store
      → store.pin ≡ some old
      → Keeps IsKept (settle env hw_mac pin store w r)
  unfolding settle
  settle-Keeps pin store w old (ok master) g e =
      let kept = record store { pin = some (after_success env hw_mac pin master w) } in
      save_then-Keeps IsKept kept (pure (opened master))
        (with_pin store old (after_success env hw_mac pin master w) g e)
        (pure-Keeps IsKept (opened master))
  settle-Keeps pin store w old (err _) g e =
      let gone = record store { pin = none } in
      if-Keeps IsKept (leb pin_tries w.failures) (save_keystore gone >> pure disabled)
        (pure (wrong (pin_tries - w.failures)))
        (λ _.
          save_then-Keeps IsKept gone (pure disabled) (without_pin store g)
            (pure-Keeps IsKept disabled))
        λ _. pure-Keeps IsKept (wrong (pin_tries - w.failures))

  pub unlock_with_pin-Keeps : (pin : Text) → Keeps IsKept (unlock_with_pin env hw_mac pin)
  unfolding unlock_with_pin
  unlock_with_pin-Keeps pin = load_then-Keeps IsKept _ λ store g.
      lift_then-Keeps IsKept (ok_or store.pin no_pin) _ λ w e.
        let next =
          settle env hw_mac pin store (counted env hw_mac w)
            (open_pin env hw_mac pin (counted env hw_mac w)) in
        let e' = some_of store.pin no_pin w e in
        save_then-Keeps IsKept (record store { pin = some (counted env hw_mac w) }) next
          (with_pin store w (counted env hw_mac w) g e')
          (settle-Keeps pin store (counted env hw_mac w) w
            (open_pin env hw_mac pin (counted env hw_mac w)) g e')
