-- ===== src/Resolve.antt =====
-- A saved server into what connects to it: src-tauri/src/commands/resolve.rs, with `find_by_id` and
-- `key_pem` of src-tauri/src/commands/records.rs. The master key is part of `Secrets`, which also holds what is read from key files.
pub mod Secrecy
use bifro_ssh.Common.{
  ℕ, Bool, true, false, Option, none, some, List, [], ◌∷◌, if◌then◌else◌, find, is_empty, Text,
  Bytes, text_eq, trim, from_utf8, Result, ok, err, ◌>>=◌, ok_or,
}
use bifro_ssh.Models.Saved.{Server, Identity, KeyEntry, AppData}
use bifro_ssh.ProxyCommand.{ProxyCommand}

pub data AuthMethod : Type 0 where
  key password keyboard_interactive agent server_password identity_password : AuthMethod

pub data SshAuth : Type 0 where
  password_auth : Text → SshAuth
  key_data : Text → Option Text → Option Text → SshAuth
  interactive_auth : SshAuth
  agent_auth : Option Text → SshAuth

pub data ResolveError : Type 0 where
  only_own_host server_not_found identity_not_found key_not_found : ResolveError
  no_password decrypt_failed not_utf8 key_unreadable no_key_material : ResolveError
  jump_host : Text → ResolveError → ResolveError

-- `crypto::decrypt` under the master key, reading a file, and `sshcert::beside`.
pub record Secrets : Type 0 where
  pub decrypt : Text → Option Bytes
  pub read_file : Text → Option Text
  pub beside : Text → Option Text

abbrev pub Resolved : Type 0 → Type 0
Resolved A = Result ResolveError A

pub record JumpHopRequest : Type 0 where
  pub host : Text
  pub port : ℕ
  pub username : Text
  pub auth_type : AuthMethod
  pub auth_value : Text
  pub server_id : Option Text

pub record JumpHop : Type 0 where
  pub host : Text
  pub port : ℕ
  pub username : Text
  pub auth : SshAuth

-- `find_by_id`.
abbrev pub find_server : List Server → Text → Option Server
find_server servers id = find (λ s. text_eq s.id id) servers

abbrev pub find_identity : List Identity → Text → Option Identity
find_identity identities id = find (λ s. text_eq s.id id) identities

abbrev pub find_key : List KeyEntry → Text → Option KeyEntry
find_key keys id = find (λ k. text_eq k.id id) keys

abbrev pub is_same_id : Option Text → Text → Bool
is_same_id none b = false
is_same_id (some a) b = text_eq a b

module _ (secrets : Secrets) where
  -- `String::from_utf8(decrypt(..)?)?`
  unfoldable pub decrypted : Text → Resolved Text
  unfolding from_utf8
  decrypted enc = do
    bytes ← ok_or (secrets.decrypt enc) decrypt_failed
    ok_or (from_utf8 bytes) not_utf8

  unfoldable pub saved_password : Option Text → Resolved SshAuth
  unfolding decrypted
  saved_password encrypted = do
    enc ← ok_or encrypted no_password
    text ← decrypted enc
    ok (password_auth text)

  -- The material: the entry's own, else its file.
  unfoldable pub key_pem_of : Option Text → Option Text → Resolved Text
  unfolding decrypted
  key_pem_of (some enc) path = decrypted enc
  key_pem_of none (some path) = ok_or (secrets.read_file path) key_unreadable
  key_pem_of none none = err no_key_material

  unfoldable pub key_pem : KeyEntry → Resolved Text
  unfolding key_pem_of
  key_pem k = key_pem_of k.encrypted_key k.key_path

  unfoldable pub passphrase_of : Option Text → Resolved (Option Text)
  unfolding decrypted
  passphrase_of none = ok none
  passphrase_of (some enc) = do p ← decrypted enc; ok (some p)

  -- `certificate.or_else(|| key_path.and_then(beside))`
  abbrev certificate_of : Option Text → Option Text → Option Text
  certificate_of (some c) path = some c
  certificate_of none (some path) = secrets.beside path
  certificate_of none none = none

  unfoldable pub resolve_auth : AppData → AuthMethod → Text → Option Text → Resolved SshAuth
  unfolding saved_password key_pem passphrase_of
  resolve_auth app server_password value for_server =
      if is_same_id for_server value
      then (do
        server ← ok_or (find_server app.servers value) server_not_found
        saved_password server.encrypted_password)
      else err only_own_host
  resolve_auth app identity_password value for_server = do
    identity ← ok_or (find_identity app.identities value) identity_not_found
    saved_password identity.encrypted_password
  resolve_auth app keyboard_interactive value for_server = ok interactive_auth
  resolve_auth app agent value for_server =
      ok (agent_auth (if is_empty value then none else some value))
  resolve_auth app password value for_server = ok (password_auth value)
  resolve_auth app key value for_server = do
    k ← ok_or (find_key app.keys value) key_not_found
    pem ← key_pem k
    passphrase ← passphrase_of k.encrypted_passphrase
    ok (key_data pem passphrase (certificate_of k.certificate k.key_path))

  -- An error names the hop that it is about.
  abbrev at_hop : {A : Type 0} → JumpHopRequest → Resolved A → Resolved A
  at_hop hop (ok a) = ok a
  at_hop hop (err e) = err (jump_host hop.host e)

  unfoldable pub resolve_jump : AppData → JumpHopRequest → Resolved JumpHop
  unfolding resolve_auth
  resolve_jump app hop = do
    auth ← at_hop hop (resolve_auth app hop.auth_type hop.auth_value hop.server_id)
    ok (record { host = hop.host; port = hop.port; username = hop.username; auth = auth })

  unfoldable pub resolve_jumps : AppData → List JumpHopRequest → Resolved (List JumpHop)
  unfolding resolve_jump
  resolve_jumps app [] = ok []
  resolve_jumps app (hop ∷ hops) = do
    h ← resolve_jump app hop
    hs ← resolve_jumps app hops
    ok (h ∷ hs)

-- The server that is dialled first, and the user there.
unfoldable pub dialled_first :
    AppData → Option (Server × Text) → List JumpHopRequest → Option (Server × Text)
dialled_first app target [] = target
dialled_first app target (hop ∷ _) = elim hop.server_id [
  | none ↦ none
  | some id ↦ elim (find_server app.servers id) [
    | none ↦ none
    | some server ↦ some (server, hop.username)
  ]
]

unfoldable pub first_proxy :
    AppData → Option (Server × Text) → List JumpHopRequest → Option ProxyCommand
unfolding dialled_first trim
first_proxy app target jumps = elim (dialled_first app target jumps) [
  | none ↦ none
  | some (server, user) ↦ elim server.proxy_command [
    | none ↦ none
    | some command ↦
        if is_empty (trim command)
        then none
        else some
            (record { command = trim command; host = server.host; port = server.port; user = user })
  ]
]

pub record ServerTarget : Type 0 where
  pub host : Text
  pub port : ℕ
  pub auth : SshAuth
  pub jumps : List JumpHop
  pub proxy : Option ProxyCommand

unfoldable pub server_target :
    Secrets
    → AppData
    → Text
    → Text
    → AuthMethod
    → Text
    → List JumpHopRequest
    → Resolved ServerTarget
unfolding resolve_auth resolve_jumps first_proxy
server_target secrets app server_id username auth_type auth_value jumps = do
  server ← ok_or (find_server app.servers server_id) server_not_found
  auth ← resolve_auth secrets app auth_type auth_value (some server_id)
  hops ← resolve_jumps secrets app jumps
  ok (record {
    host = server.host;
    port = server.port;
    auth = auth;
    jumps = hops;
    proxy = first_proxy app (some (server, username)) jumps;
  })
