-- ===== src/Backup.antt =====
-- Exports and imports of the saved records: src-tauri/src/backup.rs. Here is what travels, and what
-- becomes of its secrets.
pub mod Merge
pub mod Apply
pub mod Secrets
use bifro_ssh.Common.{
  ℕ, Bool, true, false, ◌||◌, Option, none, some, List, map, any, is_some, length, Text, Bytes,
}
use bifro_ssh.Models.Settings.{Settings}
use bifro_ssh.Models.Saved.{Server, Identity, KeyEntry, PortForwarding, Codeprint, AppData}

pub record Payload : Type 0 where
  pub servers : List Server
  pub identities : List Identity
  pub keys : List KeyEntry
  pub settings : Option Settings
  pub port_forwardings : List PortForwarding
  pub codeprints : List Codeprint
  pub custom_themes : List (Text × Text)
  pub known_hosts : List Text

pub record Counts : Type 0 where
  pub servers : ℕ
  pub identities : ℕ
  pub keys : ℕ
  pub port_forwardings : ℕ
  pub codeprints : ℕ
  pub custom_themes : ℕ
  pub known_hosts : ℕ

-- `encrypt` and `decrypt` of src-tauri/src/crypto.rs, with the nonces that are drawn.
pub record Crypto : Type 0 where
  pub encrypt : Bytes → Bytes → Option Text
  pub decrypt : Text → Bytes → Option Bytes

module _ (crypto : Crypto) where
  unfoldable pub rekey : Option Text → Bytes → Bytes → Option Text
  rekey none from to = none
  rekey (some blob) from to = elim (crypto.decrypt blob from) [
    | none ↦ none
    | some plain ↦ crypto.encrypt plain to
  ]

  abbrev pub rekey_server : Bytes → Bytes → Server → Server
  rekey_server from to s = record s { encrypted_password = rekey s.encrypted_password from to }

  abbrev pub rekey_identity : Bytes → Bytes → Identity → Identity
  rekey_identity from to i = record i { encrypted_password = rekey i.encrypted_password from to }

  abbrev pub rekey_key : Bytes → Bytes → KeyEntry → KeyEntry
  rekey_key from to k = record k {
    encrypted_key = rekey k.encrypted_key from to;
    encrypted_passphrase = rekey k.encrypted_passphrase from to;
  }

  unfoldable pub rekey_all : Payload → Bytes → Bytes → Payload
  unfolding rekey
  rekey_all payload from to = record payload {
    servers = map (rekey_server from to) payload.servers;
    identities = map (rekey_identity from to) payload.identities;
    keys = map (rekey_key from to) payload.keys;
  }

abbrev pub strip_server : Server → Server
strip_server s = record s { encrypted_password = none }

abbrev pub strip_identity : Identity → Identity
strip_identity i = record i { encrypted_password = none }

abbrev pub strip_key : KeyEntry → KeyEntry
strip_key k = record k { encrypted_key = none; encrypted_passphrase = none }

unfoldable pub strip_secrets : Payload → Payload
strip_secrets payload = record payload {
  servers = map strip_server payload.servers;
  identities = map strip_identity payload.identities;
  keys = map strip_key payload.keys;
}

unfoldable pub has_secrets : Payload → Bool
has_secrets payload =
    any (λ s. is_some s.encrypted_password) payload.servers
    || any (λ i. is_some i.encrypted_password) payload.identities
    || any (λ k. is_some k.encrypted_key || is_some k.encrypted_passphrase) payload.keys

unfoldable pub counts_of : Payload → Counts
counts_of payload = record {
  servers = length payload.servers;
  identities = length payload.identities;
  keys = length payload.keys;
  port_forwardings = length payload.port_forwardings;
  codeprints = length payload.codeprints;
  custom_themes = length payload.custom_themes;
  known_hosts = length payload.known_hosts;
}
