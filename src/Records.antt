-- ===== src/Records.antt =====
-- The saved records as they are changed and shown: src-tauri/src/commands/records.rs.
pub mod Forgets
use bifro_ssh.Common.{
  ℕ, Bool, true, false, ◌&&◌, not, Option, none, some, List, [], ◌∷◌, ◌++◌, map, any, if◌then◌else◌,
  Text, codes, text_eq, trim,
}
use bifro_ssh.Models.Saved.{
  Server, Identity, KeyEntry, PortForwarding, SftpBookmark, AppData, Identified,
}
use bifro_ssh.Models.History.{normalize_tags}

abbrev pub stored : Text
stored = codes "[stored]"

abbrev hide : Option Text → Option Text
hide none = none
hide (some _) = some stored

unfoldable pub redacted_server : Server → Server
redacted_server s = record s { encrypted_password = hide s.encrypted_password }

unfoldable pub redacted_identity : Identity → Identity
redacted_identity i = record i { encrypted_password = hide i.encrypted_password }

unfoldable pub redacted_key : KeyEntry → KeyEntry
redacted_key k = record k {
  encrypted_key = hide k.encrypted_key;
  encrypted_passphrase = hide k.encrypted_passphrase;
}

-- The first record with the id is replaced; where there is none, the new one goes last.
unfoldable pub upsert_by_id : {T : Type 0} ⦃i : Identified T⦄ → List T → T → List T
upsert_by_id [] item = item ∷ []
upsert_by_id ⦃i⦄ (x ∷ xs) item =
    let rest = upsert_by_id xs item in
    if text_eq (i.id_of x) (i.id_of item) then item ∷ xs else x ∷ rest

abbrev pub filter : {A : Type 0} → (A → Bool) → List A → List A
filter p [] = []
filter p (x ∷ xs) = let rest = filter p xs in if p x then x ∷ rest else rest

-- `gone`.
abbrev pub cleared : Text → Option Text → Option Text
cleared id none = none
cleared id (some t) = if text_eq t id then none else some t

abbrev pub forget_in_server : Text → Server → Server
forget_in_server id s = record s {
  identity_id = cleared id s.identity_id;
  key_id = cleared id s.key_id;
  proxy_jump = cleared id s.proxy_jump;
}

abbrev pub forget_in_identity : Text → Identity → Identity
forget_in_identity id i = record i { key_id = cleared id i.key_id }

abbrev pub forget_in_forwarding : Text → PortForwarding → PortForwarding
forget_in_forwarding id p = record p {
  intermediate_host_id = cleared id p.intermediate_host_id;
  remote_host_id = cleared id p.remote_host_id;
}

unfoldable pub forget_references_to : AppData → Text → AppData
forget_references_to doc id = record doc {
  servers = map (forget_in_server id) doc.servers;
  identities = map (forget_in_identity id) doc.identities;
  port_forwardings = map (forget_in_forwarding id) doc.port_forwardings;
}

abbrev pub among : List Text → Text → Bool
among ids id = any (text_eq id) ids

unfoldable pub forget_all : List Text → AppData → AppData
unfolding forget_references_to
forget_all [] doc = doc
forget_all (id ∷ ids) doc = forget_all ids (forget_references_to doc id)

abbrev pub is_kept : List Text → Option Text → Bool
is_kept ids none = true
is_kept ids (some id) = not (among ids id)

unfoldable pub remove_servers : AppData → List Text → AppData
unfolding forget_all
remove_servers doc ids =
    let kept = record doc { servers = filter (λ s. not (among ids s.id)) doc.servers } in
    let forgotten = forget_all ids kept in
    record forgotten {
      sftp_bookmarks = filter (λ b. is_kept ids b.server_id) forgotten.sftp_bookmarks;
      command_history = filter (λ h. not (among ids h.0)) forgotten.command_history;
    }

module _ (to_lowercase : Text → Text) where
  abbrev retag : Text → Bool → List Text → List Text
  retag tag true tags = normalize_tags to_lowercase (tags ++ tag ∷ [])
  retag tag false tags =
      normalize_tags to_lowercase
        (filter (λ t. not (text_eq (to_lowercase t) (to_lowercase tag))) tags)

  abbrev tag_server : Text → Bool → List Text → Server → Server
  tag_server tag add ids s = if among ids s.id then record s { tags = retag tag add s.tags } else s

  unfoldable pub tag_servers : List Server → List Text → Text → Bool → List Server
  unfolding normalize_tags
  tag_servers servers ids tag add = map (tag_server (trim tag) add ids) servers
