-- ===== src/Keystore/Kept/Requests.antt =====
-- Everything that the app does with its keystore, in any order and with any write failing.
use bifro_ssh.Common.{Bool, Option, List, [], ◌∷◌, Text}
use bifro_ssh.Keystore.{Key, PassphraseForm, BiometricWrapper, Env, Folder, Action, ignore}
use bifro_ssh.Keystore.Unlock.{unlock, store_keyring_wrapper, unlock_with_passphrase}
use bifro_ssh.Keystore.Change.{
  InitMode, initialize, set_passphrase, set_always_ask, clear_passphrase, set_biometric,
  clear_biometric,
}
use bifro_ssh.Keystore.Pin.{set_pin, clear_pin, unlock_with_pin}
use bifro_ssh.Keystore.Rules.{OnFile, Keeps, ignore-Ends, ignore-Keeps}
use bifro_ssh.Keystore.Kept.{IsKept, adds-Keeps, unlock_with_passphrase-Keeps, unlock-Keeps}
use bifro_ssh.Keystore.Kept.Changes.{
  initialize-Keeps, set_passphrase-Keeps, set_always_ask-Keeps, clear_passphrase-Keeps,
  set_biometric-Keeps, clear_biometric-Keeps,
}
use bifro_ssh.Keystore.Kept.Pins.{set_pin-Keeps, clear_pin-Keeps, unlock_with_pin-Keeps}

pub data Request : Type 0 where
  launch clear_fingerprint drop_pin : Request
  first_run : InitMode → Text → Request
  type_passphrase type_pin : Text → Request
  change_passphrase : Key → Text → Bool → PassphraseForm → Request
  change_always_ask : Key → Bool → Request
  drop_passphrase refresh_keyring : Key → Request
  add_fingerprint : BiometricWrapper → Request
  change_pin : Key → Text → Request

-- A request with what its operation draws at random and is answered.
abbrev pub Step : Type 0
Step = Env × (Key → Option Key) × Request

unfoldable pub perform : Env → (Key → Option Key) → Request → Action (Unit {0})
unfolding unlock initialize unlock_with_passphrase set_passphrase set_always_ask clear_passphrase
    store_keyring_wrapper set_biometric clear_biometric set_pin clear_pin unlock_with_pin
perform env hw_mac launch = ignore (unlock env)
perform env hw_mac (first_run mode passphrase) = ignore (initialize env mode passphrase)
perform env hw_mac (type_passphrase passphrase) = ignore (unlock_with_passphrase env passphrase)
perform env hw_mac (change_passphrase master passphrase always_ask form) =
    ignore (set_passphrase env master passphrase always_ask form)
perform env hw_mac (change_always_ask master always_ask) =
    ignore (set_always_ask env master always_ask)
perform env hw_mac (drop_passphrase master) = ignore (clear_passphrase env master)
perform env hw_mac (refresh_keyring master) = ignore (store_keyring_wrapper env master)
perform env hw_mac (add_fingerprint wrapper) = ignore (set_biometric wrapper)
perform env hw_mac clear_fingerprint = ignore clear_biometric
perform env hw_mac (change_pin master pin) = ignore (set_pin env hw_mac master pin)
perform env hw_mac (type_pin pin) = ignore (unlock_with_pin env hw_mac pin)
perform env hw_mac drop_pin = ignore clear_pin

unfoldable pub perform_all : List Step → Folder → Folder
unfolding perform
perform_all [] d = d
perform_all ((env, hw_mac, request) ∷ steps) d = perform_all steps (perform env hw_mac request d).1

perform-Keeps :
    (env : Env) (hw_mac : Key → Option Key) (request : Request)
    → Keeps IsKept (perform env hw_mac request)
unfolding perform
perform-Keeps env hw_mac launch d = ignore-Keeps IsKept (unlock env) (unlock-Keeps env) d
perform-Keeps env hw_mac (first_run mode p) d =
    ignore-Keeps IsKept (initialize env mode p) (initialize-Keeps env mode p) d
perform-Keeps env hw_mac (type_passphrase p) d =
    ignore-Keeps IsKept (unlock_with_passphrase env p) (unlock_with_passphrase-Keeps env p) d
perform-Keeps env hw_mac (change_passphrase m p b f) d =
    ignore-Keeps IsKept (set_passphrase env m p b f) (set_passphrase-Keeps env m p b f) d
perform-Keeps env hw_mac (change_always_ask m b) d =
    ignore-Keeps IsKept (set_always_ask env m b) (set_always_ask-Keeps env m b) d
perform-Keeps env hw_mac (drop_passphrase m) d =
    ignore-Keeps IsKept (clear_passphrase env m) (clear_passphrase-Keeps env m) d
perform-Keeps env hw_mac (refresh_keyring m) d =
    ignore-Keeps IsKept (store_keyring_wrapper env m) (adds-Keeps env m) d
perform-Keeps env hw_mac (add_fingerprint w) d =
    ignore-Keeps IsKept (set_biometric w) (set_biometric-Keeps w) d
perform-Keeps env hw_mac clear_fingerprint d =
    ignore-Keeps IsKept clear_biometric clear_biometric-Keeps d
perform-Keeps env hw_mac (change_pin m p) d =
    ignore-Keeps IsKept (set_pin env hw_mac m p) (set_pin-Keeps env hw_mac m p) d
perform-Keeps env hw_mac (type_pin p) d =
    ignore-Keeps IsKept (unlock_with_pin env hw_mac p) (unlock_with_pin-Keeps env hw_mac p) d
perform-Keeps env hw_mac drop_pin d = ignore-Keeps IsKept clear_pin clear_pin-Keeps d

-- Whatever is asked of the keystore, in any order, with any answers of the keyring and any writes
-- failing or cut short: a keystore.json that can be read keeps the rule, if it kept it before. Where
-- no passphrase is set there is no PIN, no fingerprint and no demand for the passphrase, and where
-- the passphrase is demanded there is no keyring wrapper.
pub perform_all-IsKept :
    (steps : List Step) (d : Folder)
    → OnFile IsKept d.file
    → OnFile IsKept (perform_all steps d).file
unfolding perform_all
perform_all-IsKept [] d i = i
perform_all-IsKept ((env, hw_mac, request) ∷ steps) d i =
    perform_all-IsKept steps (perform env hw_mac request d).1 (
      ignore-Ends IsKept (perform env hw_mac request d).0 (perform env hw_mac request d).1
        (perform-Keeps env hw_mac request d i))
