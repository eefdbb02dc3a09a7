-- ===== src/Tests/Policy.antt =====
-- Runs of src-tauri/src/hostverify.rs, with the codec and the files of the runs of known hosts.
use bifro_ssh.Common.{◌≡◌, refl, true, false, none, from_utf8}
use bifro_ssh.KnownHosts.Line.{blob, algo_from_blob, scan}
use bifro_ssh.KnownHosts.Check.{
  check_host, learn_host, format_line, append_lines, sources, check_lines,
}
use bifro_ssh.Models.Settings.{HostKeyPolicy, accept_new, strict}
use bifro_ssh.HostVerify.{Setting, verify}
use bifro_ssh.HostVerify.Policy.{MayEnter, verify-MayEnter, verify-unattended}
use bifro_ssh.Tests.HostKeys.{plain_codec, ed_key, host, disk_of}

-- A new host, with nobody to be asked.
abbrev unattended : HostKeyPolicy → Setting
unattended policy = record {
  codec = plain_codec;
  policy = policy;
  interactive = false;
  host = host;
  port = 22;
  answer = none;
  meanwhile = λ disk. disk;
}

accepted : (verify (unattended accept_new) ed_key none (disk_of none)).accepted ≡ true
unfolding verify check_host check_lines sources scan learn_host format_line algo_from_blob blob
    from_utf8 append_lines
accepted = refl

verify-MayEnter_example :
    MayEnter
      (unattended accept_new)
      ed_key
      (check_host plain_codec host 22 ed_key (disk_of none)).0
      (check_host plain_codec host 22 ed_key (disk_of none)).1
verify-MayEnter_example =
    verify-MayEnter (unattended accept_new) ed_key none (disk_of none) accepted

verify-unattended_example :
    ((verify (unattended strict) ed_key none (disk_of none)).asked ≡ false)
    × ((verify (unattended strict) ed_key none (disk_of none)).disk
        ≡ (check_host plain_codec host 22 ed_key (disk_of none)).1)
verify-unattended_example =
    verify-unattended (unattended strict) ed_key none (disk_of none) refl (λ e. cc)
