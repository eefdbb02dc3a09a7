-- ===== src/Tests/Backup.antt =====
-- Runs of src-tauri/src/backup.rs.
use bifro_ssh.Common.{◌≡◌, refl, true, false, none, some, List, [], ◌∷◌, codes, text_eq_refl}
use bifro_ssh.Models.Saved.{Server, AppData, empty_data, server_identified}
use bifro_ssh.KnownHosts.Check.{Disk}
use bifro_ssh.Backup.{Payload, Crypto}
use bifro_ssh.Backup.Merge.{same_server, merge_into}
use bifro_ssh.Backup.Merge.Into.{merge_into-again}
use bifro_ssh.Backup.Apply.{ImportOptions, apply_merge}
use bifro_ssh.Backup.Apply.Kept.{Keeps, apply_merge-Keeps}
use bifro_ssh.Tests.Records.{blank_server}
use bifro_ssh.Tests.HostKeys.{plain_codec}

same_server_refl : (a : Server) → same_server a a ≡ true
unfolding same_server
same_server_refl a = rw (text_eq_refl a.id) refl

abbrev host_a : Server
host_a = record blank_server { id = codes "a"; host = codes "a.example" }

abbrev host_b : Server
host_b = record blank_server {
  id = codes "b";
  host = codes "b.example";
  proxy_jump = some (codes "a");
}

-- The same place as `host_a`, under another id.
abbrev host_c : Server
host_c = record host_a { id = codes "c" }

abbrev incoming_hosts : List Server
incoming_hosts = host_c ∷ host_b ∷ []

merge_into-again_example :
    let after = (merge_into same_server incoming_hosts (host_a ∷ [])).current in
    let again = merge_into same_server incoming_hosts after in
    (again.current ≡ after) × (again.added ≡ []) × (again.skipped ≡ 2)
merge_into-again_example =
    merge_into-again same_server same_server_refl incoming_hosts (host_a ∷ [])

abbrev no_crypto : Crypto
no_crypto = record { encrypt = λ b k. none; decrypt = λ t k. none }

abbrev incoming_file : Payload
incoming_file = record {
  servers = incoming_hosts;
  identities = [];
  keys = [];
  settings = none;
  port_forwardings = [];
  codeprints = [];
  custom_themes = [];
  known_hosts = [];
}

abbrev only_servers : ImportOptions
only_servers = record {
  servers = true;
  identities = false;
  keys = false;
  port_forwardings = false;
  codeprints = false;
  custom_themes = false;
  settings = false;
  known_hosts = false;
}

abbrev vault : AppData
vault = record empty_data { servers = host_a ∷ [] }

abbrev no_files : Disk
no_files = record {
  own = none;
  openssh = none;
  has_dir = true;
  can_write = true;
  can_protect = true;
  can_rename = true;
}

apply_merge-Keeps_example :
    let (_, after, _) =
      apply_merge no_crypto plain_codec incoming_file [] [] vault only_servers no_files in
    Keeps vault.servers after.servers
    × Keeps vault.identities after.identities
    × Keeps vault.keys after.keys
    × Keeps vault.port_forwardings after.port_forwardings
    × Keeps vault.codeprints after.codeprints
    × Keeps vault.custom_themes after.custom_themes
    × (after.open_tabs ≡ vault.open_tabs)
    × (after.sftp_bookmarks ≡ vault.sftp_bookmarks)
    × (after.command_history ≡ vault.command_history)
    × (after.recent_hosts ≡ vault.recent_hosts)
apply_merge-Keeps_example =
    apply_merge-Keeps no_crypto plain_codec incoming_file [] [] vault only_servers no_files
