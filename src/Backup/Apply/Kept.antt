-- ===== src/Backup/Apply/Kept.antt =====
-- An import never changes what is there: `apply_merge` of src-tauri/src/backup.rs.
use bifro_ssh.Common.{
  ℕ, suc, ◌≡◌, refl, sym, ap, ◌∙◌, Bool, true, false, List, [], ◌∷◌, ◌++◌, append-nil, append_assoc,
  any, if◌then◌else◌, All, Text, Bytes, text_eq,
}
use bifro_ssh.Models.Saved.{
  Server, PortForwarding, AppData, Identified, server_identified, identity_identified,
  key_identified, forwarding_identified, codeprint_identified,
}
use bifro_ssh.KnownHosts.Line.{Codec}
use bifro_ssh.KnownHosts.Check.{Disk}
use bifro_ssh.Backup.{Payload, Crypto, rekey_all}
use bifro_ssh.Backup.Merge.{
  same_identity, same_key, same_server, same_forwarding, same_codeprint, member, merge_if,
}
use bifro_ssh.Backup.Merge.Fresh.{merge_into-fresh}
use bifro_ssh.Backup.Merge.Into.{merge_into-Extends}
use bifro_ssh.Backup.Apply.{
  ImportOptions, relink_server, relink_forwarding, change_where, add_themes, themes_if, merge_all,
  apply_merge,
}

-- The old list is the front of the new.
abbrev pub Keeps : {T : Type 0} → List T → List T → Type 0
Keeps {T = T} before after = (extra : List T) × (after ≡ before ++ extra)

module _ {T : Type 0} ⦃i : Identified T⦄ (same : T → T → Bool) where
  merge_if-Keeps :
      (wanted : Bool) (incoming current : List T)
      → Keeps current (merge_if same wanted incoming current).current
  merge_if-Keeps true incoming current = merge_into-Extends same incoming current
  merge_if-Keeps false incoming current = ([], sym (append-nil current))

module _ {T : Type 0} ⦃i : Identified T⦄ (same : T → T → Bool)
    (by_id : (a b : T) → text_eq (i.id_of a) (i.id_of b) ≡ true → same a b ≡ true) where
  no_added : (xs : List T) → All (λ s. member (i.id_of s) [] ≡ false) xs
  no_added [] = tt
  no_added (x ∷ xs) = (refl, no_added xs)

  merge_if-fresh :
      (wanted : Bool) (incoming current : List T)
      → All (λ s. member (i.id_of s) (merge_if same wanted incoming current).added ≡ false) current
  merge_if-fresh true incoming current = merge_into-fresh same by_id incoming current
  merge_if-fresh false incoming current = no_added current

module _ {T : Type 0} (p : T → Bool) (f : T → ℕ → T × ℕ) where
  change_where-front :
      (before extra : List T) (n : ℕ)
      → All (λ x. p x ≡ false) before
      → Keeps before (change_where p f (before ++ extra) n).0
  unfolding change_where
  change_where-front [] extra n h = ((change_where p f extra n).0, refl)
  change_where-front (x ∷ before) extra n (h, hs) =
      let (more, e) = change_where-front before extra n hs in (more, rw h (ap (λ l. x ∷ l) e))

  change_where-Keeps :
      (before after : List T) (n : ℕ)
      → Keeps before after
      → All (λ x. p x ≡ false) before
      → Keeps before (change_where p f after n).0
  change_where-Keeps before after n (extra, e) h = rw e (change_where-front before extra n h)

either-Keeps :
    {T : Type 0} (before : List T) (b : Bool) (x y : List T × ℕ × ℕ)
    → Keeps before x.0
    → Keeps before y.0
    → Keeps before (if b then x else y).0
either-Keeps before true x y h h' = h
either-Keeps before false x y h h' = h'

add_themes-Keeps :
    (incoming current : List (Text × Text)) → Keeps current (add_themes incoming current).0
unfolding add_themes
add_themes-Keeps [] current = ([], sym (append-nil current))
add_themes-Keeps ((name, theme) ∷ more) current =
    let (extra, e) = add_themes-Keeps more (current ++ (name, theme) ∷ []) in
    let one = (name, theme) ∷ [] in
    let skipped = add_themes more current in
    let added = add_themes more (current ++ one) in
    let front : Keeps current added.0 = (one ++ extra, e ∙ append_assoc current one extra) in
    either-Keeps current (any (λ t. text_eq name t.0) current) (skipped.0, skipped.1, suc skipped.2)
      (added.0, suc added.1, added.2) (add_themes-Keeps more current) front

themes_if-Keeps :
    (wanted : Bool) (incoming current : List (Text × Text))
    → Keeps current (themes_if wanted incoming current).0
themes_if-Keeps true incoming current = add_themes-Keeps incoming current
themes_if-Keeps false incoming current = ([], sym (append-nil current))

same_server-id : (a b : Server) → text_eq a.id b.id ≡ true → same_server a b ≡ true
unfolding same_server
same_server-id a b h = rw h refl

same_forwarding-id : (a b : PortForwarding) → text_eq a.id b.id ≡ true → same_forwarding a b ≡ true
unfolding same_forwarding
same_forwarding-id a b h = rw h refl

-- What is there stays, and stays as it is: every import leaves each saved host, identity, key,
-- forwarding, command and theme in its place, unchanged, and only adds behind them. Open tabs,
-- bookmarks and histories stay.
pub apply_merge-Keeps :
    (crypto : Crypto) (codec : Codec) (payload : Payload) (export_key master : Bytes)
    (current : AppData) (opts : ImportOptions) (disk : Disk)
    → let (_, after, _) = apply_merge crypto codec payload export_key master current opts disk in
      Keeps current.servers after.servers
      × Keeps current.identities after.identities
      × Keeps current.keys after.keys
      × Keeps current.port_forwardings after.port_forwardings
      × Keeps current.codeprints after.codeprints
      × Keeps current.custom_themes after.custom_themes
      × (after.open_tabs ≡ current.open_tabs)
      × (after.sftp_bookmarks ≡ current.sftp_bookmarks)
      × (after.command_history ≡ current.command_history)
      × (after.recent_hosts ≡ current.recent_hosts)
unfolding apply_merge merge_all
apply_merge-Keeps crypto codec payload export_key master current opts disk =
    let p = rekey_all crypto payload export_key master in
    let identities = merge_if same_identity opts.identities p.identities current.identities in
    let keys = merge_if same_key opts.keys p.keys current.keys in
    let servers = merge_if same_server opts.servers p.servers current.servers in
    let forwardings =
      merge_if same_forwarding opts.port_forwardings p.port_forwardings current.port_forwardings in
    let new_server = λ (s : Server). member s.id servers.added in
    let new_forwarding = λ (f : PortForwarding). member f.id forwardings.added in
    let link = relink_server identities.ids keys.ids servers.ids in
    (
      change_where-Keeps new_server link current.servers servers.current 0
          (merge_if-Keeps same_server opts.servers p.servers current.servers)
          (merge_if-fresh same_server same_server-id opts.servers p.servers current.servers),
      merge_if-Keeps same_identity opts.identities p.identities current.identities,
      merge_if-Keeps same_key opts.keys p.keys current.keys,
      change_where-Keeps new_forwarding (relink_forwarding servers.ids) current.port_forwardings
          forwardings.current (change_where new_server link servers.current 0).1
          (merge_if-Keeps same_forwarding opts.port_forwardings p.port_forwardings
            current.port_forwardings)
          (merge_if-fresh same_forwarding same_forwarding-id opts.port_forwardings
            p.port_forwardings current.port_forwardings),
      merge_if-Keeps same_codeprint opts.codeprints p.codeprints current.codeprints,
      themes_if-Keeps opts.custom_themes p.custom_themes current.custom_themes,
      refl,
      refl,
      refl,
      refl,
    )
