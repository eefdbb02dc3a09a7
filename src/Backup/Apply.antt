-- ===== src/Backup/Apply.antt =====
-- `apply_merge` of src-tauri/src/backup.rs, which also changes BifroSSH's own known_hosts file. The
-- custom themes, a hash map there, are a list with the name of each.
pub mod Kept
use bifro_ssh.Common.{
  ℕ, zero, suc, ◌+◌, Bool, true, false, ◌&&◌, not, Option, none, some, List, [], ◌∷◌, ◌++◌, any,
  if◌then◌else◌, length, ◌==◌, Text, Bytes, codes, text_eq, Result, ok, err,
}
use bifro_ssh.Models.Settings.{Settings}
use bifro_ssh.Models.Saved.{
  Server, Identity, KeyEntry, PortForwarding, Codeprint, AppData, server_identified,
  identity_identified, key_identified, forwarding_identified, codeprint_identified,
}
use bifro_ssh.KnownHosts.Line.{Codec}
use bifro_ssh.KnownHosts.Check.{Disk, HostError}
use bifro_ssh.KnownHosts.Import.{import_lines, ImportedHosts}
use bifro_ssh.Backup.{Payload, Counts, Crypto, rekey_all}
use bifro_ssh.Backup.Merge.{
  same_identity, same_key, same_server, same_forwarding, same_codeprint, member, IdMap, get, Merged,
  merge_if, merge_into,
}

pub record ImportOptions : Type 0 where
  pub servers : Bool
  pub identities : Bool
  pub keys : Bool
  pub port_forwardings : Bool
  pub codeprints : Bool
  pub custom_themes : Bool
  pub settings : Bool
  pub known_hosts : Bool

pub record ImportReport : Type 0 where
  pub added : Counts
  pub skipped : Counts
  pub unresolved_refs : ℕ
  pub settings_replaced : Bool
  pub host_key_conflicts : List Text

-- What a reference becomes, with the number of those missed so far.
unfoldable pub resolve : Option Text → IdMap → ℕ → Option Text × ℕ
resolve none m missed = (none, missed)
resolve (some old) m missed = elim (get old m) [
  | some new ↦ (some new, missed)
  | none ↦ (none, suc missed)
]

-- No host is its own jump host.
abbrev pub unless_self : Text → Option Text → Option Text
unless_self id none = none
unless_self id (some jump) = if text_eq jump id then none else some jump

unfoldable pub relink_server : IdMap → IdMap → IdMap → Server → ℕ → Server × ℕ
unfolding resolve
relink_server identity_ids key_ids server_ids s missed =
    let (identity_id, n) = resolve s.identity_id identity_ids missed in
    let (key_id, n') = resolve s.key_id key_ids n in
    let (jump, n'') = resolve s.proxy_jump server_ids n' in
    (
      record s { identity_id = identity_id; key_id = key_id; proxy_jump = unless_self s.id jump },
      n'',
    )

unfoldable pub relink_forwarding : IdMap → PortForwarding → ℕ → PortForwarding × ℕ
unfolding resolve
relink_forwarding server_ids p missed =
    let (intermediate, n) = resolve p.intermediate_host_id server_ids missed in
    let (remote, n') = resolve p.remote_host_id server_ids n in
    (record p { intermediate_host_id = intermediate; remote_host_id = remote }, n')

-- The records that a test picks are changed in order, with the count passed on.
unfoldable pub change_where : {T : Type 0} → (T → Bool) → (T → ℕ → T × ℕ) → List T → ℕ → List T × ℕ
change_where p f [] n = ([], n)
change_where p f (x ∷ xs) n =
    let changed = (f x n).0 ∷ (change_where p f xs (f x n).1).0 in
    let changed_n = (change_where p f xs (f x n).1).1 in
    let kept = change_where p f xs n in if p x then (changed, changed_n) else (x ∷ kept.0, kept.1)

abbrev pub theme_of : Text → List (Text × Text) → Option Text
theme_of = get

-- The themes, and how many were added and skipped.
unfoldable pub add_themes : List (Text × Text) → List (Text × Text) → List (Text × Text) × ℕ × ℕ
add_themes [] current = (current, 0, 0)
add_themes ((name, theme) ∷ more) current =
    let (after, added, skipped) = add_themes more (current ++ (name, theme) ∷ []) in
    let (after', added', skipped') = add_themes more current in
    if any (λ t. text_eq name t.0) current
    then (after', added', suc skipped')
    else (after, suc added, skipped)

abbrev pub themes_if : Bool → List (Text × Text) → List (Text × Text) → List (Text × Text) × ℕ × ℕ
themes_if wanted incoming current =
    let merged = add_themes incoming current in if wanted then merged else (current, 0, 0)

abbrev pub settings_if : Bool → Option Settings → Settings → Settings × Bool
settings_if true (some incoming) _ = (incoming, true)
settings_if true none current = (current, false)
settings_if false _ current = (current, false)

-- The added and skipped hosts, and the conflicts; of a failure to write, without its reason.
abbrev hosts_report : Result HostError ImportedHosts → ImportedHosts
hosts_report (ok hosts) = hosts
hosts_report (err _) = record {
  added = 0;
  skipped = 0;
  conflicts = codes "known_hosts could not be written" ∷ [];
}

abbrev no_hosts : ImportedHosts
no_hosts = record { added = 0; skipped = 0; conflicts = [] }

unfoldable pub hosts_if : Codec → Bool → List Text → Disk → ImportedHosts × Disk
unfolding import_lines
hosts_if codec wanted incoming disk =
    let (r, disk') = import_lines codec incoming disk in
    if wanted && not (length incoming == 0) then (hosts_report r, disk') else (no_hosts, disk)

module _ (crypto : Crypto) (codec : Codec) where
  -- What becomes of the document, once the secrets are under the master key.
  unfoldable pub merge_all :
      Payload → AppData → ImportOptions → Disk → ImportReport × AppData × Disk
  unfolding merge_into change_where relink_server relink_forwarding add_themes hosts_if
  merge_all payload current opts disk =
      let identities =
        merge_if same_identity opts.identities payload.identities current.identities in
      let keys = merge_if same_key opts.keys payload.keys current.keys in
      let servers = merge_if same_server opts.servers payload.servers current.servers in
      let forwardings =
        merge_if same_forwarding opts.port_forwardings payload.port_forwardings
          current.port_forwardings in
      let codeprints =
        merge_if same_codeprint opts.codeprints payload.codeprints current.codeprints in
      let (themes, themes_added, themes_skipped) =
        themes_if opts.custom_themes payload.custom_themes current.custom_themes in
      let (linked, missed) =
        change_where (λ s. member s.id servers.added)
          (relink_server identities.ids keys.ids servers.ids) servers.current 0 in
      let (linked', missed') =
        change_where (λ p. member p.id forwardings.added) (relink_forwarding servers.ids)
          forwardings.current missed in
      let (settings, replaced) = settings_if opts.settings payload.settings current.settings in
      let (hosts, disk') = hosts_if codec opts.known_hosts payload.known_hosts disk in
      (
        record {
          added = record {
            servers = length servers.added;
            identities = length identities.added;
            keys = length keys.added;
            port_forwardings = length forwardings.added;
            codeprints = length codeprints.added;
            custom_themes = themes_added;
            known_hosts = hosts.added;
          };
          skipped = record {
            servers = servers.skipped;
            identities = identities.skipped;
            keys = keys.skipped;
            port_forwardings = forwardings.skipped;
            codeprints = codeprints.skipped;
            custom_themes = themes_skipped;
            known_hosts = hosts.skipped;
          };
          unresolved_refs = missed';
          settings_replaced = replaced;
          host_key_conflicts = hosts.conflicts;
        },
        record current {
          identities = identities.current;
          keys = keys.current;
          servers = linked;
          port_forwardings = linked';
          codeprints = codeprints.current;
          custom_themes = themes;
          settings = settings;
        },
        disk',
      )

  unfoldable pub apply_merge :
      Payload → Bytes → Bytes → AppData → ImportOptions → Disk → ImportReport × AppData × Disk
  unfolding rekey_all merge_all
  apply_merge payload export_key master current opts disk =
      merge_all (rekey_all crypto payload export_key master) current opts disk
