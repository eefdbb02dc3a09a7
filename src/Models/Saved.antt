-- ===== src/Models/Saved.antt =====
-- The records of the saved document, in src-tauri/src/models.rs.
use bifro_ssh.Common.{ℕ, Bool, Option, List, [], Text, text_eq, find}
use bifro_ssh.Models.Settings.{Settings, default_settings}

pub data AuthKind : Type 0 where
  keyboard_interactive agent : AuthKind

pub data PfKind : Type 0 where
  local remote dynamic : PfKind

pub record Server : Type 0 where
  pub id : Text
  pub name : Text
  pub host : Text
  pub port : ℕ
  pub identity_id : Option Text
  pub username : Option Text
  pub encrypted_password : Option Text
  pub key_id : Option Text
  pub theme : Option Text
  pub os : Text
  pub connection_timeout : Option ℕ
  pub auth_kind : Option AuthKind
  pub proxy_jump : Option Text
  pub proxy_command : Option Text
  pub forward_agent : Bool
  pub forward_x11 : Bool
  pub log_sessions : Bool
  pub group : Option Text
  pub run_on_connect : Option Text
  pub hide_run_on_connect : Bool
  pub notes : Option Text
  pub term : Option Text
  pub env : Option Text
  pub monitor : Option Bool
  pub tags : List Text

pub record Identity : Type 0 where
  pub id : Text
  pub name : Text
  pub username : Text
  pub key_id : Option Text
  pub encrypted_password : Option Text
  pub auth_kind : Option AuthKind
  pub agent_fingerprint : Option Text

pub record KeyEntry : Type 0 where
  pub id : Text
  pub name : Text
  pub key_path : Option Text
  pub encrypted_key : Option Text
  pub encrypted_passphrase : Option Text
  pub algorithm : Option Text
  pub certificate : Option Text

pub record PortForwarding : Type 0 where
  pub id : Text
  pub label : Text
  pub kind : PfKind
  pub bind_address : Text
  pub local_port : Option ℕ
  pub intermediate_host_id : Option Text
  pub remote_host_id : Option Text
  pub remote_port : Option ℕ
  pub dest_address : Text
  pub dest_port : Option ℕ
  pub autostart_on_launch : Bool
  pub autostart_on_connect : Bool
  pub socks_username : Option Text
  pub socks_password : Option Text

pub record OpenTab : Type 0 where
  pub server_id : Text
  pub title : Option Text

pub record Codeprint : Type 0 where
  pub id : Text
  pub name : Text
  pub command : Text

pub record SftpBookmark : Type 0 where
  pub id : Text
  pub server_id : Option Text
  pub label : Text
  pub path : Text

pub record AppData : Type 0 where
  pub servers : List Server
  pub identities : List Identity
  pub keys : List KeyEntry
  pub settings : Settings
  pub port_forwardings : List PortForwarding
  pub codeprints : List Codeprint
  pub sftp_bookmarks : List SftpBookmark
  pub open_tabs : List OpenTab
  pub custom_themes : List (Text × Text)
  pub command_history : List (Text × List Text)
  pub recent_hosts : List Text

-- `AppData::default`.
abbrev pub empty_data : AppData
empty_data = record {
  servers = [];
  identities = [];
  keys = [];
  settings = default_settings;
  port_forwardings = [];
  codeprints = [];
  sftp_bookmarks = [];
  open_tabs = [];
  custom_themes = [];
  command_history = [];
  recent_hosts = [];
}

-- `Identified`.
pub record Identified (T : Type 0) : Type 0 where
  pub id_of : T → Text

instance abbrev pub server_identified : Identified Server
server_identified = record { id_of = λ s. s.id }

instance abbrev pub identity_identified : Identified Identity
identity_identified = record { id_of = λ i. i.id }

instance abbrev pub key_identified : Identified KeyEntry
key_identified = record { id_of = λ k. k.id }

instance abbrev pub forwarding_identified : Identified PortForwarding
forwarding_identified = record { id_of = λ p. p.id }

instance abbrev pub codeprint_identified : Identified Codeprint
codeprint_identified = record { id_of = λ c. c.id }

-- `find_by_id` of src-tauri/src/commands/records.rs.
abbrev pub find_by_id : {T : Type 0} ⦃i : Identified T⦄ → List T → Text → Option T
find_by_id ⦃i⦄ items id = find (λ t. text_eq (i.id_of t) id) items
