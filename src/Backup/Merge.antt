-- ===== src/Backup/Merge.antt =====
-- Merging one collection of an import into the vault: `merge_into`, `duplicates` and `same_*` of
-- src-tauri/src/backup.rs. A map from id to id is a list, of which the first entry for an id counts.
pub mod Into
pub mod Fresh
use bifro_ssh.Common.{
  ℕ, zero, suc, ◌+◌, Bool, true, false, ◌&&◌, ◌||◌, not, Option, none, some, List, [], ◌∷◌, ◌++◌,
  map, any, find, if◌then◌else◌, length, is_some, is_empty, Text, Bytes, codes, text_eq, ◌==◌,
  Result, ok, err,
}
use bifro_ssh.Models.Saved.{
  Server, Identity, KeyEntry, PfKind, local, remote, dynamic, PortForwarding, Codeprint, AppData,
  Identified,
}

abbrev pub option_eq : {A : Type 0} → (A → A → Bool) → Option A → Option A → Bool
option_eq eq none none = true
option_eq eq (some a) (some b) = eq a b
option_eq eq _ _ = false

abbrev kind_eq : PfKind → PfKind → Bool
kind_eq local local = true
kind_eq remote remote = true
kind_eq dynamic dynamic = true
kind_eq _ _ = false

unfoldable pub same_identity : Identity → Identity → Bool
same_identity a b = text_eq a.id b.id || (text_eq a.name b.name && text_eq a.username b.username)

abbrev same_key_by : Option Text → Option Text → Bool → Bool
same_key_by (some x) (some y) _ = text_eq x y
same_key_by _ _ same_name = same_name

unfoldable pub same_key : KeyEntry → KeyEntry → Bool
same_key a b = text_eq a.id b.id || same_key_by a.key_path b.key_path (text_eq a.name b.name)

unfoldable pub same_server : Server → Server → Bool
same_server a b =
    text_eq a.id b.id
    || (text_eq a.host b.host && a.port == b.port && option_eq text_eq a.username b.username)

unfoldable pub same_forwarding : PortForwarding → PortForwarding → Bool
same_forwarding a b =
    text_eq a.id b.id
    || (text_eq a.label b.label
        && kind_eq a.kind b.kind
        && option_eq (◌==◌) a.local_port b.local_port
        && text_eq a.dest_address b.dest_address
        && option_eq (◌==◌) a.dest_port b.dest_port)

unfoldable pub same_codeprint : Codeprint → Codeprint → Bool
same_codeprint a b = text_eq a.id b.id || (text_eq a.name b.name && text_eq a.command b.command)

abbrev pub count_if : {A : Type 0} → (A → Bool) → List A → ℕ
count_if p [] = 0
count_if p (x ∷ xs) = let rest = count_if p xs in if p x then suc rest else rest

unfoldable pub duplicates : {T : Type 0} → List T → List T → (T → T → Bool) → ℕ
duplicates incoming current same = count_if (λ i. any (same i) current) incoming

abbrev pub member : Text → List Text → Bool
member t ts = any (text_eq t) ts

abbrev pub IdMap : Type 0
IdMap = List (Text × Text)

abbrev pub get : Text → IdMap → Option Text
get id [] = none
get id ((from, to) ∷ m) = let rest = get id m in if text_eq from id then some to else rest

-- With the collection that the source changes in place.
pub record Merged (T : Type 0) : Type 0 where
  pub ids : IdMap
  pub added : List Text
  pub skipped : ℕ
  pub current : List T

abbrev pub nothing_merged : {T : Type 0} → List T → Merged T
nothing_merged current = record { ids = []; added = []; skipped = 0; current = current }

module _ {T : Type 0} ⦃i : Identified T⦄ (same : T → T → Bool) where
  abbrev pub merge_found : T → Merged T → Option T → Merged T
  merge_found item out (some existing) = record out {
    ids = (i.id_of item, i.id_of existing) ∷ out.ids;
    skipped = suc out.skipped;
  }
  merge_found item out none = record out {
    ids = (i.id_of item, i.id_of item) ∷ out.ids;
    added = out.added ++ i.id_of item ∷ [];
    current = out.current ++ item ∷ [];
  }

  unfoldable pub merge_item : T → Merged T → Merged T
  merge_item item out = merge_found item out (find (same item) out.current)

  unfoldable pub merge_onto : List T → Merged T → Merged T
  unfolding merge_item
  merge_onto [] out = out
  merge_onto (item ∷ incoming) out = merge_onto incoming (merge_item item out)

  unfoldable pub merge_into : List T → List T → Merged T
  unfolding merge_onto
  merge_into incoming current = merge_onto incoming (nothing_merged current)

  -- Where the option for the collection is off, it is left alone.
  abbrev pub merge_if : Bool → List T → List T → Merged T
  merge_if wanted incoming current =
      let merged = merge_into incoming current in if wanted then merged else nothing_merged current
