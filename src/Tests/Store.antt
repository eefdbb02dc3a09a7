-- ===== src/Tests/Store.antt =====
-- Runs of src-tauri/src/store.rs, with a sealing that opens to one document, and of
-- src-tauri/src/commands/records.rs.
use bifro_ssh.Common.{
  ◌≤◌, length, get_elem?, ◌++◌, ◌≡◌, refl, true, false, Option, none, some, List, [], ◌∷◌, Text,
  codes, ok, arith, not, if◌then◌else◌, ◌==◌,
}
use bifro_ssh.Models.Saved.{AppData, empty_data}
use bifro_ssh.Store.{
  Sealing, not_parsed, read_file, Folder, whole, stops_at, unopened, Faults, LoadFaults,
  save_app_data, load_app_data, set_main, put, refresh_backup, rename_temp, sealed,
}
use bifro_ssh.Store.Atomic.{IsFaithful, Safe, Loads, Both, save_app_data-Safe}
use bifro_ssh.Store.Recovery.{load_all, load_app_data-save_damaged}
use bifro_ssh.Records.{filter, among, is_kept, remove_servers}
use bifro_ssh.Records.Forgets.{unlinked, remove_servers-unlinked}
use bifro_ssh.Models.History.{history_cap, remember_commands}
use bifro_ssh.Models.History.Recent.{remember_commands-Distinct}
use bifro_ssh.SshConfig.Chain.Linked.{Distinct}
use bifro_ssh.Tests.Records.{blank_server}

abbrev document : AppData
document = record empty_data { recent_hosts = codes "a" ∷ [] }

-- Of a text that starts with a brace, the rest is the ciphertext; that of `x` is never one.
abbrev opened : Text → Option Text
opened [] = none
opened (b ∷ c) = if b == 0x7b then some c else none

abbrev one_document : Sealing
one_document = record {
  to_json = λ app. some (codes "doc");
  from_json = λ b. some document;
  encrypt = λ b. some b;
  decrypt = λ c. some c;
  envelope = λ c. some (0x7b ∷ c);
  read_envelope = opened;
  read_plain = λ t. none;
}

one_document-IsFaithful : IsFaithful one_document document
one_document-IsFaithful = record {
  json = λ b e. refl;
  cipher = λ b c e. ground arith;
  boxed = λ c t e. ground arith;
}

abbrev cut_short : Faults
cut_short = record {
  temp_write = stops_at 2;
  can_flush = true;
  backup_write = whole;
  can_rename = true;
}

abbrev no_faults : Faults
no_faults = record { temp_write = whole; can_flush = true; backup_write = whole; can_rename = true }

abbrev no_load_faults : LoadFaults
no_load_faults = record { can_set_aside = true; restore = whole }

abbrev first_folder : Folder
first_folder = record { main = none; backup = none; corrupt = none; temp = none }

save_app_data-Safe_example :
    Safe
      (Both one_document document one_document-IsFaithful no_load_faults empty_data)
      (Loads one_document no_load_faults empty_data)
      (λ _ d'. Loads one_document no_load_faults document d')
      (save_app_data one_document cut_short document first_folder)
save_app_data-Safe_example =
    save_app_data-Safe one_document document one_document-IsFaithful cut_short no_load_faults
      empty_data first_folder refl

abbrev saved_folder : Folder
saved_folder = record first_folder { main = some (codes "{old") }

-- Two starts that can neither rename nor write.
abbrev stuck_starts : List LoadFaults
stuck_starts =
    record { can_set_aside = false; restore = unopened }
    ∷ record { can_set_aside = false; restore = stops_at 1 }
    ∷ []

load_app_data-save_damaged_example :
    let damaged =
      set_main (codes "junk") (save_app_data one_document no_faults document saved_folder).folder in
    let r = load_app_data one_document no_load_faults damaged in
    (r.result ≡ ok document)
    × ((load_app_data one_document no_load_faults
          (load_all one_document stuck_starts r.folder)).result
        ≡ ok document)
unfolding read_file save_app_data put refresh_backup rename_temp sealed
load_app_data-save_damaged_example =
    load_app_data-save_damaged one_document no_faults no_load_faults no_load_faults stuck_starts
      document document (codes "{old") (codes "junk") not_parsed saved_folder refl refl refl refl
      refl refl

abbrev two_hosts : AppData
two_hosts = record empty_data {
  servers =
      record blank_server { id = codes "a" }
      ∷ record blank_server { id = codes "b"; proxy_jump = some (codes "a") }
      ∷ [];
}

remove_servers-unlinked_example :
    let ids = codes "a" ∷ [] in
    let kept = record two_hosts {
      servers = filter (λ s. not (among ids s.id)) two_hosts.servers;
      sftp_bookmarks = filter (λ b. is_kept ids b.server_id) two_hosts.sftp_bookmarks;
      command_history = filter (λ h. not (among ids h.0)) two_hosts.command_history;
    } in
    remove_servers two_hosts ids ≡ unlinked ids kept
remove_servers-unlinked_example = remove_servers-unlinked two_hosts (codes "a" ∷ [])

abbrev df : Text
df = codes "df -h"

remember_commands-Distinct_example :
    let after = remember_commands (codes "ls" ∷ []) ((codes "ls" ∷ []) ++ df ∷ []) in
    Distinct after × (length after ≤ history_cap) × (get_elem? after 0 ≡ some df)
remember_commands-Distinct_example =
    remember_commands-Distinct (codes "ls" ∷ []) (codes "ls" ∷ []) df (tt, tt)
