-- ===== src/Tests/HostKeys.antt =====
-- Runs of src-tauri/src/hostkeys.rs and src-tauri/src/hostverify.rs. The codec keeps each byte as a
-- character that is no white space; the keys are of the type `ed`.
use bifro_ssh.Common.{
  ◌+◌, ◌-◌, ◌≡◌, ◌≢◌, ◌↔◌, refl, ap, Bool, true, false, Option, none, some, List, [], ◌∷◌, ◌++◌,
  map, arith, Text, Bytes, codes, ok, All, is_whitespace, lines, unlines, split, length, text_eq,
  strip_prefix, trim, split_whitespace, from_utf8, newline, any, ◌==◌,
}
use bifro_ssh.Common.Split.Laws.{HasNo, IsWord}
use bifro_ssh.KnownHosts.Wildcard.{takes, glob_match, glob_loop, glob_fuel, Matches}
use bifro_ssh.KnownHosts.Wildcard.Decides.{IsPlain, glob_loop_total, glob_match_iff}
use bifro_ssh.KnownHosts.Line.{
  Codec, PublicKey, HostLine, host_spec, host_matches, split_line, scan, key_algo, blob,
  algo_from_blob,
}
use bifro_ssh.KnownHosts.Line.Matching.{host_matches-eq-names}
use bifro_ssh.KnownHosts.Line.Written.{IsHostName}
use bifro_ssh.KnownHosts.Check.{
  format_line, append_lines, bifrossh, matched, unknown, revoked, Disk, Found, check_lines,
  check_line, compare_key, nothing_seen, learn_host, check_host,
}
use bifro_ssh.KnownHosts.Check.Verdict.{
  Any, Vouches, first_some, check_lines-eq-verdict, check_lines-Vouches,
}
use bifro_ssh.KnownHosts.Check.Append.{entries}
use bifro_ssh.KnownHosts.Check.Learned.{IsFaithful, IsNamed, own_verdict, learn_host-matched}
use bifro_ssh.KnownHosts.Edit.{keep_lines, forget_host, Algorithm}
use bifro_ssh.KnownHosts.Edit.Forget.{StaysBehind, marked, forget_host-StaysBehind}
use bifro_ssh.KnownHosts.Import.{
  ImportedHosts, HostEntry, import_lines, finish_import, merge_lines, merge_onto, merge_line,
  merge_entry, parse_lines, parse_line, same_slot,
}
use bifro_ssh.KnownHosts.Import.Merged.{TakesFreeSlots, counted}
use bifro_ssh.KnownHosts.Import.Held.{held_in, import_lines-TakesFreeSlots}

-- The codec, which is faithful.
abbrev pub plain_codec : Codec
plain_codec = record {
  b64_encode = λ b. map (λ n. n + 0x4000) b;
  b64_decode = λ t. some (map (λ c. c - 0x4000) t);
  hmac_verify = λ salt text hash. false;
  sha256_b64 = λ b. codes "digest";
}

map_back : (b : Bytes) → map (λ c. c - 0x4000) (map (λ n. n + 0x4000) b) ≡ b
map_back [] = refl
map_back (n ∷ b) = ground (arith, map_back b)

encoded-IsWord : (b : Bytes) → IsWord (map (λ n. n + 0x4000) b)
unfolding is_whitespace
encoded-IsWord [] = tt
encoded-IsWord (n ∷ b) = (ground arith, encoded-IsWord b)

encoded-ne-nil : (b : Bytes) → b ≢ [] → map (λ n. n + 0x4000) b ≢ []
encoded-ne-nil [] h = h
encoded-ne-nil (n ∷ b) h = λ e. cc

plain_codec-IsFaithful : IsFaithful plain_codec
plain_codec-IsFaithful = record {
  decode_encode = λ b. ap some (map_back b);
  encode_word = encoded-IsWord;
  encode_ne_nil = encoded-ne-nil;
}

abbrev pub ed_key : PublicKey
ed_key = record { bytes = some (0 ∷ 0 ∷ 0 ∷ 2 ∷ codes "ed" ++ 7 ∷ []); algorithm = codes "ed" }

abbrev pub host : Text
host = codes "h"

abbrev host_line : Text
host_line = codes "h ed " ++ map (λ n. n + 0x4000) (0 ∷ 0 ∷ 0 ∷ 2 ∷ codes "ed" ++ 7 ∷ [])

abbrev revoked_line : Text
revoked_line = codes "@revoked g ed " ++ 0x4007 ∷ []

abbrev pub disk_of : Option Text → Disk
disk_of own = record {
  own = own;
  openssh = none;
  has_dir = true;
  can_write = true;
  can_protect = true;
  can_rename = true;
}

abbrev learned_entry : HostLine
learned_entry = record {
  marker = none;
  hosts = host;
  b64 = map (λ n. n + 0x4000) (0 ∷ 0 ∷ 0 ∷ 2 ∷ codes "ed" ++ 7 ∷ []);
}

abbrev found : List Found
found = record { source = bifrossh; raw = record { line_no = 1; entry = learned_entry } } ∷ []

found_matched : check_lines plain_codec host ed_key found nothing_seen ≡ matched bifrossh
unfolding check_lines check_line compare_key host_matches text_eq blob algo_from_blob takes
    from_utf8 key_algo
found_matched = refl

check_lines-Vouches_example : Any (Vouches plain_codec host ed_key bifrossh) found
check_lines-Vouches_example = check_lines-Vouches plain_codec host ed_key found found_matched

-- Nothing is stored, and nothing is known.
check_lines-eq-verdict_example : check_lines plain_codec host ed_key [] nothing_seen ≡ unknown
check_lines-eq-verdict_example = check_lines-eq-verdict plain_codec host ed_key []

host-IsHostName : IsHostName host
unfolding is_whitespace
host-IsHostName = (λ e. cc, (refl, tt))

-- The file of a host that was learned into no file.
abbrev learned_disk : Disk
learned_disk = (learn_host plain_codec host 22 ed_key (disk_of none)).1

learned_ok : learn_host plain_codec host 22 ed_key (disk_of none) ≡ (ok tt, learned_disk)
unfolding learn_host blob algo_from_blob format_line from_utf8 scan append_lines
learned_ok = refl

named : IsNamed plain_codec plain_codec-IsFaithful host 22 ed_key (codes "ed")
unfolding algo_from_blob blob is_whitespace from_utf8
named = (refl, λ e. cc, (refl, (refl, tt)))

none_revoked :
    first_some (own_verdict plain_codec (host_spec host 22) ed_key) (entries none) ≢ some revoked
unfolding entries
none_revoked = λ e. cc

learn_host-matched_example :
    (check_host plain_codec host 22 ed_key learned_disk).0 ≡ matched bifrossh
learn_host-matched_example =
    learn_host-matched plain_codec plain_codec-IsFaithful host 22 ed_key (codes "ed") (disk_of none)
      learned_disk host-IsHostName named none_revoked learned_ok

-- A host, and a revocation, which stays when the host is forgotten.
abbrev full_disk : Disk
full_disk = disk_of (some (unlines (host_line ∷ revoked_line ∷ [])))

abbrev forgot_disk : Disk
forgot_disk = (forget_host plain_codec host 22 full_disk).1

forgot_one : forget_host plain_codec host 22 full_disk ≡ (ok 1, forgot_disk)
unfolding forget_host host_matches lines unlines split_line glob_match trim split_whitespace
    keep_lines host_spec takes
forgot_one = refl

forget_host-StaysBehind_example :
    All (StaysBehind plain_codec host 22) (entries forgot_disk.own)
    × (marked (entries forgot_disk.own) ≡ marked (entries full_disk.own))
forget_host-StaysBehind_example =
    forget_host-StaysBehind plain_codec host 22 full_disk forgot_disk 1 forgot_one

-- A pattern, and a host that it leaves out.
host_matches-eq-names_example : host_matches plain_codec (codes "!h,*") host ≡ false
unfolding split glob_match takes strip_prefix
host_matches-eq-names_example = host_matches-eq-names plain_codec (codes "!h,*") host refl

glob_loop_total_example :
    (b : Bool) × (glob_loop (glob_fuel (codes "a*c") (codes "abc")) (codes "a*c") (codes "abc") none
      ≡ some b)
glob_loop_total_example = glob_loop_total (codes "a*c") (codes "abc")

glob_match_iff_example :
    (glob_match (codes "a*c") (codes "abc") ≡ true) ↔ Matches (codes "a*c") (codes "abc")
glob_match_iff_example = glob_match_iff (codes "a*c") (codes "abc") plain
  where
    plain : IsPlain (codes "abc")
    plain = (λ e. cc, (λ e. cc, (λ e. cc, tt)))

-- Two algorithms, of which the second is known.
abbrev two_algorithms : List Algorithm
two_algorithms =
    record { name = codes "ed"; rsa_sha1 = false }
    ∷ record { name = codes "rsa-sha2-256"; rsa_sha1 = false }
    ∷ []

-- Another key for the host that is held, and a host that is not.
abbrev clashing_line : Text
clashing_line = codes "h ed " ++ map (λ n. n + 0x4000) (0 ∷ 0 ∷ 0 ∷ 2 ∷ codes "ed" ++ 8 ∷ [])

abbrev new_line : Text
new_line = codes "g ed " ++ map (λ n. n + 0x4000) (0 ∷ 0 ∷ 0 ∷ 2 ∷ codes "ed" ++ 8 ∷ [])

abbrev imported : List Text
imported = host_line ∷ clashing_line ∷ new_line ∷ []

-- The last line of the file is not ended.
abbrev import_disk : Disk
import_disk = disk_of (some host_line)

abbrev import_report : ImportedHosts
import_report = record { added = 1; skipped = 1; conflicts = host ∷ [] }

imports : (import_lines plain_codec imported import_disk).0 ≡ ok import_report
unfolding import_lines finish_import merge_lines merge_onto merge_line merge_entry parse_lines
    parse_line split_line same_slot lines text_eq strip_prefix trim split_whitespace from_utf8
    algo_from_blob append_lines
imports = refl

unbroken : (s : Text) → any (λ c. c == newline) s ≡ false → HasNo newline s
unbroken [] h = tt
unbroken (c ∷ s) h = (ground arith, unbroken s (ground arith))

import_lines-TakesFreeSlots_example :
    (added : List HostEntry) × (held_in plain_codec
        (import_lines plain_codec imported import_disk).1.own
      ≡ held_in plain_codec import_disk.own ++ added)
    × TakesFreeSlots (held_in plain_codec import_disk.own) added
    × (1 ≡ length added)
    × (3 ≡ counted plain_codec imported)
import_lines-TakesFreeSlots_example =
    import_lines-TakesFreeSlots plain_codec imported import_disk import_report
      (unbroken host_line refl, (unbroken clashing_line refl, (unbroken new_line refl, tt))) imports
