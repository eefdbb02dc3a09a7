-- ===== src/Store.antt =====
-- The data file: `read_file`, `load_app_data_in` and `save_app_data_in` of src-tauri/src/store.rs. A
-- file is absent or holds a text. A run keeps every state that the directory passes through, one for
-- each character that is written, since the app can be stopped at any of them. Modes and flushes of
-- the directory are not modelled.
pub mod Atomic
pub mod Recovery
use bifro_ssh.Common.{
  ℕ, zero, suc, Bool, true, false, Option, none, some, List, [], ◌∷◌, ◌++◌, map, if◌then◌else◌,
  take, Text, Bytes, Result, ok, err, ◌>>=◌ as bind, ok_or,
}
use bifro_ssh.Models.Saved.{AppData, empty_data}

-- serde_json, and `encrypt` and `decrypt` under the master key with the nonce that is drawn.
-- `envelope` writes an `Envelope` of version 1, of which `read_envelope` gives the ciphertext.
pub record Sealing : Type 0 where
  pub to_json : AppData → Option Bytes
  pub from_json : Bytes → Option AppData
  pub encrypt : Bytes → Option Text
  pub decrypt : Text → Option Bytes
  pub envelope : Text → Option Text
  pub read_envelope : Text → Option Text
  pub read_plain : Text → Option AppData

pub data StoreError : Type 0 where
  not_decrypted not_parsed : StoreError
  both_unreadable not_serialized not_encrypted not_written not_flushed not_renamed : StoreError

unfoldable pub read_file : Sealing → Text → Result StoreError AppData
read_file s content = elim (s.read_envelope content) [
  | none ↦ ok_or (s.read_plain content) not_parsed
  | some c ↦
      bind (ok_or (s.decrypt c) not_decrypted) (λ plain. ok_or (s.from_json plain) not_parsed)
]

pub record Folder : Type 0 where
  pub main : Option Text
  pub backup : Option Text
  pub corrupt : Option Text
  pub temp : Option Text

-- How far a write gets: to its end, to a number of characters, or not to opening the file.
pub data Extent : Type 0 where
  whole : Extent
  stops_at : ℕ → Extent
  unopened : Extent

-- What becomes of a save.
pub record Faults : Type 0 where
  pub temp_write : Extent
  pub can_flush : Bool
  pub backup_write : Extent
  pub can_rename : Bool

-- What becomes of a recovery.
pub record LoadFaults : Type 0 where
  pub can_set_aside : Bool
  pub restore : Extent

pub record Run (A : Type 0) : Type 0 where
  pub result : Result StoreError A
  pub folder : Folder
  pub passed : List Folder

abbrev pub Action : Type 0 → Type 0
Action A = Folder → Run A

abbrev pub give : {A : Type 0} → Result StoreError A → Action A
give r d = record { result = r; folder = d; passed = [] }

abbrev pub then_run : {A B : Type 0} → Run A → (A → Action B) → Run B
then_run r k = elim r.result [
  | err e ↦ record { result = err e; folder = r.folder; passed = r.passed }
  | ok a ↦
      let next = k a r.folder in
      record { result = next.result; folder = next.folder; passed = r.passed ++ next.passed }
]

infixl 5 ◌>>=◌ ◌>>◌
abbrev pub ◌>>=◌ : {A B : Type 0} → Action A → (A → Action B) → Action B
◌>>=◌ m k d = then_run (m d) k

abbrev pub ◌>>◌ : {B : Type 0} → Action (Unit {0}) → Action B → Action B
m >> k = m >>= λ _. k

abbrev pub attempt : {A : Type 0} → Option A → StoreError → Action A
attempt o e = give (ok_or o e)

abbrev pub require : Bool → StoreError → Action (Unit {0})
require b e = give (if b then ok tt else err e)

-- Every text that a write passes through, from the empty one on.
abbrev pub prefixes : Text → List Text
prefixes [] = [] ∷ []
prefixes (c ∷ s) = [] ∷ map (◌∷◌ c) (prefixes s)

-- The places that are written to.
abbrev pub set_temp : Text → Folder → Folder
set_temp t d = record d { temp = some t }

abbrev pub set_backup : Text → Folder → Folder
set_backup t d = record d { backup = some t }

abbrev pub set_main : Text → Folder → Folder
set_main t d = record d { main = some t }

-- Opening a file for writing empties it; then the text is written.
unfoldable pub put : (Text → Folder → Folder) → Text → Extent → Action (Unit {0})
put place t whole d = record {
  result = ok tt;
  folder = place t d;
  passed = map (λ p. place p d) (prefixes t);
}
put place t (stops_at n) d = record {
  result = err not_written;
  folder = place (take n t) d;
  passed = map (λ p. place p d) (prefixes (take n t));
}
put place t unopened d = record { result = err not_written; folder = d; passed = [] }

-- An error is reported and passed over.
abbrev pub best_effort : Action (Unit {0}) → Action (Unit {0})
best_effort m d = record { result = ok tt; folder = (m d).folder; passed = (m d).passed }

-- `fs::copy` of the data file to its backup, where there is one.
unfoldable pub refresh_backup : Extent → Option Text → Action (Unit {0})
unfolding put
refresh_backup extent none = give (ok tt)
refresh_backup extent (some old) = best_effort (put set_backup old extent)

abbrev pub replace_main : Folder → Folder
replace_main d = record d { main = d.temp; temp = none }

-- A rename happens at once.
unfoldable pub rename_temp : Bool → Action (Unit {0})
rename_temp true d = record {
  result = ok tt;
  folder = replace_main d;
  passed = replace_main d ∷ [];
}
rename_temp false d = record { result = err not_renamed; folder = d; passed = [] }

-- The text of the new file.
unfoldable pub sealed : Sealing → AppData → Result StoreError Text
sealed s app =
    bind (ok_or (s.to_json app) not_serialized)
      λ json. bind (ok_or (s.encrypt json) not_encrypted) λ c. ok_or (s.envelope c) not_serialized

unfoldable pub save_app_data : Sealing → Faults → AppData → Action (Unit {0})
unfolding put refresh_backup rename_temp sealed
save_app_data s f app = do
  content ← give (sealed s app)
  put set_temp content f.temp_write
  require f.can_flush not_flushed
  (λ d. refresh_backup f.backup_write d.main d)
  rename_temp f.can_rename

abbrev pub set_aside : Folder → Folder
set_aside d = record d { main = none; corrupt = d.main }

unfoldable pub move_aside : Bool → Action (Unit {0})
move_aside true d = record { result = ok tt; folder = set_aside d; passed = set_aside d ∷ [] }
move_aside false d = record { result = ok tt; folder = d; passed = [] }

-- The recovery from a backup that can be read.
unfoldable pub recover : LoadFaults → Text → AppData → Action AppData
unfolding put move_aside
recover f text recovered = do
  move_aside f.can_set_aside
  best_effort (put set_main text f.restore)
  give (ok recovered)

unfoldable pub from_backup : Sealing → LoadFaults → StoreError → Option Text → Action AppData
unfolding recover
from_backup s f e none = give (err e)
from_backup s f e (some text) = elim (read_file s text) [
  | err _ ↦ give (err both_unreadable)
  | ok recovered ↦ recover f text recovered
]

unfoldable pub load_main : Sealing → LoadFaults → Option Text → Action AppData
unfolding from_backup
load_main s f none d = give (ok empty_data) d
load_main s f (some content) d = elim (read_file s content) [
  | ok app ↦ give (ok app) d
  | err e ↦ from_backup s f e d.backup d
]

unfoldable pub load_app_data : Sealing → LoadFaults → Action AppData
unfolding load_main
load_app_data s f d = load_main s f d.main d
