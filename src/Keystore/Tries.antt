-- ===== src/Keystore/Tries.antt =====
-- How many wrong PINs there are: `unlock_with_pin` of src-tauri/src/keystore.rs, time after time.
use bifro_ssh.Common.{
  ℕ, ◌+◌, ◌-◌, ◌<◌, suc, ◌%◌, ◌^◌, ◌≡◌, refl, ap, ◌∙◌, Bool, true, false, Option, none, some, List,
  [], ◌∷◌, ◌++◌, if◌then◌else◌, leb, length, All, Text, err, arith,
}
use bifro_ssh.Keystore.{
  Key, PinWrapper, KeyStore, Env, KeyError, readable, SecretFile, Folder, pure, ◌>>◌, load_keystore,
  save_keystore,
}
use bifro_ssh.Keystore.Pin.{
  pin_tries, PinOutcome, wrong, disabled, open_pin, pin_kek, counted, settle, unlock_with_pin,
}

abbrev pub Attempt : Type 0
Attempt = Env × (Key → Option Key) × Text

unfoldable pub type_all : List Attempt → Folder → Folder
unfolding unlock_with_pin
type_all [] d = d
type_all ((env, hw_mac, pin) ∷ rest) d = type_all rest (unlock_with_pin env hw_mac pin d).1

-- The PIN does not open the wrapper.
abbrev pub IsWrong : PinWrapper → Attempt → Type 0
IsWrong w (env, hw_mac, pin) = (e : KeyError) × (open_pin env hw_mac pin w ≡ err e)

-- Where writes are done, with a keystore that has this PIN.
abbrev pub pin_folder : SecretFile → KeyStore → Option PinWrapper → Folder
pin_folder s store o = record {
  file = readable (record store { pin = o });
  secret_file = s;
  fates = [];
}

abbrev pub with_failures : ℕ → PinWrapper → PinWrapper
with_failures n w = record w { failures = n }

abbrev pub left_after : PinWrapper → ℕ → Option PinWrapper
left_after w n = if leb pin_tries n then none else some (with_failures n w)

counted-eq :
    (env : Env) (hw_mac : Key → Option Key) (n : ℕ) (w : PinWrapper)
    → n < 5
    → (counted env hw_mac (with_failures n w)) ≡ with_failures (n + 1) w
counted-eq env hw_mac n w few =
    let small : (n + 1) % 2 ^ 32 ≡ n + 1 = omega arith in ap (λ m. with_failures m w) small

module _ (env : Env) (hw_mac : Key → Option Key) (pin : Text) where
  open_pin-with_failures :
      (n : ℕ) (w : PinWrapper)
      → open_pin env hw_mac pin (with_failures n w) ≡ open_pin env hw_mac pin w
  unfolding open_pin pin_kek
  open_pin-with_failures n w = refl

  removes :
      (b : Bool) (s : SecretFile) (store : KeyStore) (w : PinWrapper) (o : PinOutcome)
      → ((if b then save_keystore (record store { pin = none }) >> pure disabled else pure o)
          (pin_folder s store (some w))).1
        ≡ pin_folder s store (if b then none else some w)
  unfolding save_keystore
  removes true s store w o = refl
  removes false s store w o = refl

  after_wrong :
      (s : SecretFile) (store : KeyStore) (w : PinWrapper) (n : ℕ)
      → n < 5
      → IsWrong w (env, hw_mac, pin)
      → (unlock_with_pin env hw_mac pin (pin_folder s store (some (with_failures n w)))).1
        ≡ pin_folder s store (left_after w (n + 1))
  unfolding unlock_with_pin settle load_keystore save_keystore
  after_wrong s store w n few (e, h) =
      rw (counted-eq env hw_mac n w few, open_pin-with_failures (n + 1) w, h)
        (removes (leb pin_tries (n + 1)) s store (with_failures (n + 1) w)
          (wrong (pin_tries - (n + 1))))

after_none :
    (attempts : List Attempt) (s : SecretFile) (store : KeyStore)
    → type_all attempts (pin_folder s store none) ≡ pin_folder s store none
unfolding type_all unlock_with_pin load_keystore
after_none [] s store = refl
after_none (_ ∷ rest) s store = after_none rest s store

module _ (s : SecretFile) (store : KeyStore) (w : PinWrapper) where
  goes_on :
      (rest : List Attempt) (n : ℕ) (b : Bool)
      → leb pin_tries (n + 1) ≡ b
      → (n + 1 < 5
          → type_all rest (pin_folder s store (some (with_failures (n + 1) w)))
            ≡ pin_folder s store (left_after w (n + 1 + length rest)))
      → type_all rest (pin_folder s store (if b then none else some (with_failures (n + 1) w)))
        ≡ pin_folder s store (left_after w (n + suc (length rest)))
  goes_on rest n true e next =
      let over : leb pin_tries (n + suc (length rest)) ≡ true = ground arith in
      rw over (after_none rest s store)
  goes_on rest n false e next =
      let same : n + 1 + length rest ≡ n + suc (length rest) = omega arith in
      rw (← same) (next (ground arith))

  counts_from :
      (attempts : List Attempt) (n : ℕ)
      → n < 5
      → All (IsWrong w) attempts
      → type_all attempts (pin_folder s store (some (with_failures n w)))
        ≡ pin_folder s store (left_after w (n + length attempts))
  unfolding type_all
  counts_from [] n few h =
      let under : leb pin_tries (n + 0) ≡ false = ground arith in
      let same : n + 0 ≡ n = omega arith in rw (under, same) refl
  counts_from ((env, hw_mac, pin) ∷ rest) n few (h, hs) =
      ap (type_all rest) (after_wrong env hw_mac pin s store w n few h)
      ∙ goes_on rest n (leb pin_tries (n + 1)) refl (λ few'. counts_from rest (n + 1) few' hs)

type_all-append :
    (attempts later : List Attempt) (d : Folder)
    → type_all (attempts ++ later) d ≡ type_all later (type_all attempts d)
unfolding type_all
type_all-append [] later d = refl
type_all-append ((env, hw_mac, pin) ∷ rest) later d =
    type_all-append rest later (unlock_with_pin env hw_mac pin d).1

stays_gone :
    (later : List Attempt) (s : SecretFile) (store : KeyStore) (b : Bool) (w : PinWrapper)
    → type_all later (pin_folder s store (if b then none else some w))
      ≡ (if b then pin_folder s store none else type_all later (pin_folder s store (some w)))
stays_gone later s store true w = after_none later s store
stays_gone later s store false w = refl

-- Each wrong PIN counts. Where all writes are done and only wrong PINs are typed, from a count below
-- five on: the PIN is gone as soon as there have been five, and until then it stands, with the count
-- of those that were typed. Nothing else in keystore.json changes. Whatever is typed later, the right
-- PIN included, leaves everything as it is once the PIN is gone, and before that goes on from the count.
pub type_all-counts :
    (attempts later : List Attempt) (s : SecretFile) (store : KeyStore) (w : PinWrapper)
    → w.failures < 5
    → All (IsWrong w) attempts
    → (type_all attempts (pin_folder s store (some w))
        ≡ pin_folder s store (left_after w (w.failures + length attempts)))
      × (type_all (attempts ++ later) (pin_folder s store (some w)) ≡ (
          if leb pin_tries (w.failures + length attempts)
          then pin_folder s store none
          else type_all later
              (pin_folder s store (some (with_failures (w.failures + length attempts) w)))))
type_all-counts attempts later s store w few h =
    let counted = counts_from s store w attempts w.failures few h in
    let n = w.failures + length attempts in
    (
      counted,
      type_all-append attempts later (pin_folder s store (some w))
          ∙ ap (type_all later) counted
          ∙ stays_gone later s store (leb pin_tries n) (with_failures n w),
    )
