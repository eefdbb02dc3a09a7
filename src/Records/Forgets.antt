-- ===== src/Records/Forgets.antt =====
-- Nothing points at a host that was removed: `forget_references_to` and `remove_servers` of
-- src-tauri/src/commands/records.rs.
use bifro_ssh.Common.{
  ◌≡◌, refl, sym, ap, ◌∙◌, not, Bool-cases, Option, none, some, inl, inr, List, [], ◌∷◌, map,
  if◌then◌else◌, Text, text_eq,
}
use bifro_ssh.Models.Saved.{Server, Identity, PortForwarding, AppData}
use bifro_ssh.Records.{
  filter, cleared, forget_in_server, forget_in_identity, forget_in_forwarding, forget_references_to,
  among, forget_all, is_kept, remove_servers,
}

-- What should become of a reference, said at once for all ids.
abbrev pub unless_among : List Text → Option Text → Option Text
unless_among ids none = none
unless_among ids (some t) = if among ids t then none else some t

abbrev pub unlinked_server : List Text → Server → Server
unlinked_server ids s = record s {
  identity_id = unless_among ids s.identity_id;
  key_id = unless_among ids s.key_id;
  proxy_jump = unless_among ids s.proxy_jump;
}

abbrev pub unlinked_identity : List Text → Identity → Identity
unlinked_identity ids i = record i { key_id = unless_among ids i.key_id }

abbrev pub unlinked_forwarding : List Text → PortForwarding → PortForwarding
unlinked_forwarding ids p = record p {
  intermediate_host_id = unless_among ids p.intermediate_host_id;
  remote_host_id = unless_among ids p.remote_host_id;
}

abbrev pub unlinked : List Text → AppData → AppData
unlinked ids doc = record doc {
  servers = map (unlinked_server ids) doc.servers;
  identities = map (unlinked_identity ids) doc.identities;
  port_forwardings = map (unlinked_forwarding ids) doc.port_forwardings;
}

unless_among-cleared :
    (id : Text) (ids : List Text) (o : Option Text)
    → unless_among ids (cleared id o) ≡ unless_among (id ∷ ids) o
unless_among-cleared id ids none = refl
unless_among-cleared id ids (some t) = elim (Bool-cases (text_eq t id)) [
  | inl e ↦ rw e refl
  | inr e ↦ rw e refl
]

unless_among-nil : (o : Option Text) → unless_among [] o ≡ o
unless_among-nil none = refl
unless_among-nil (some t) = refl

map-map :
    {A B C : Type 0} (f : B → C) (g : A → B) (h : A → C) (xs : List A)
    → ((x : A) → f (g x) ≡ h x)
    → map f (map g xs) ≡ map h xs
map-map f g h [] e = refl
map-map f g h (x ∷ xs) e = rw (e x, map-map f g h xs e) refl

map-same : {A : Type 0} (f : A → A) (xs : List A) → ((x : A) → f x ≡ x) → map f xs ≡ xs
map-same f [] e = refl
map-same f (x ∷ xs) e = rw (e x, map-same f xs e) refl

forget_all-unlinked : (ids : List Text) (doc : AppData) → forget_all ids doc ≡ unlinked ids doc
unfolding forget_all forget_references_to
forget_all-unlinked [] doc =
    let servers = map-same (unlinked_server []) doc.servers (λ s k. record s {
      identity_id = unless_among-nil s.identity_id k;
      key_id = unless_among-nil s.key_id k;
      proxy_jump = unless_among-nil s.proxy_jump k;
    }) in
    let identities =
      map-same (unlinked_identity []) doc.identities
        (λ i k. record i { key_id = unless_among-nil i.key_id k }) in
    let forwardings = map-same (unlinked_forwarding []) doc.port_forwardings (λ p k. record p {
      intermediate_host_id = unless_among-nil p.intermediate_host_id k;
      remote_host_id = unless_among-nil p.remote_host_id k;
    }) in
    λ k. record doc {
      servers = sym servers k;
      identities = sym identities k;
      port_forwardings = sym forwardings k;
    }
forget_all-unlinked (id ∷ ids) doc =
    let step = unless_among-cleared id ids in
    let servers =
      map-map (unlinked_server ids) (forget_in_server id) (unlinked_server (id ∷ ids)) doc.servers
        (λ s k. record s {
          identity_id = step s.identity_id k;
          key_id = step s.key_id k;
          proxy_jump = step s.proxy_jump k;
        }) in
    let identities =
      map-map (unlinked_identity ids) (forget_in_identity id) (unlinked_identity (id ∷ ids))
        doc.identities (λ i k. record i { key_id = step i.key_id k }) in
    let forwardings =
      map-map (unlinked_forwarding ids) (forget_in_forwarding id) (unlinked_forwarding (id ∷ ids))
        doc.port_forwardings
        (λ p k. record p {
          intermediate_host_id = step p.intermediate_host_id k;
          remote_host_id = step p.remote_host_id k;
        }) in
    forget_all-unlinked ids (forget_references_to doc id) ∙ λ k. record doc {
      servers = servers k;
      identities = identities k;
      port_forwardings = forwardings k;
    }

-- Removing hosts is one pass: the hosts that are named go, with their bookmarks and histories, and of
-- the references that stay, in hosts, identities and forwardings, exactly those to a named id are
-- cleared.
pub remove_servers-unlinked :
    (doc : AppData) (ids : List Text)
    → let kept = record doc {
      servers = filter (λ s. not (among ids s.id)) doc.servers;
      sftp_bookmarks = filter (λ b. is_kept ids b.server_id) doc.sftp_bookmarks;
      command_history = filter (λ h. not (among ids h.0)) doc.command_history;
    } in
      remove_servers doc ids ≡ unlinked ids kept
unfolding remove_servers
remove_servers-unlinked doc ids =
    let kept = record doc { servers = filter (λ s. not (among ids s.id)) doc.servers } in
    let e = forget_all-unlinked ids kept in
    ap
      (λ (d : AppData). record d {
        sftp_bookmarks = filter (λ b. is_kept ids b.server_id) d.sftp_bookmarks;
        command_history = filter (λ h. not (among ids h.0)) d.command_history;
      })
      e
