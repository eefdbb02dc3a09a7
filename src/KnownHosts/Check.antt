-- ===== src/KnownHosts/Check.antt =====
-- `check_host` of src-tauri/src/hostkeys.rs, as the loop over the lines of both files, and the
-- names that it shares with the writers: the files, `sources`, `format_line`, `append_lines`,
-- `learn_host`. A file is absent or holds text; `own` is BifroSSH's, `openssh` is the user's.
pub mod Verdict
pub mod Append
pub mod Learned
use bifro_ssh.Common.{
  ℕ, suc, Bool, true, false, ◌&&◌, ◌||◌, not, Option, none, some, List, [], ◌∷◌, ◌++◌, map,
  if◌then◌else◌, any, is_some, ◌==◌, Text, Bytes, codes, text_eq, newline, unlines, Result, ok, err,
}
use bifro_ssh.KnownHosts.Line.{
  Codec, PublicKey, blob, algo_from_blob, key_algo, fingerprint_from_blob, host_spec, HostLine,
  RawLine, scan, host_matches,
}

pub data HostKeySource : Type 0 where
  bifrossh open_ssh : HostKeySource

pub record StoredKey : Type 0 where
  pub source : HostKeySource
  pub line : ℕ
  pub key_type : Text
  pub fingerprint : Text

-- `matched` is `Match`.
pub data KnownHostStatus : Type 0 where
  matched : HostKeySource → KnownHostStatus
  unknown : KnownHostStatus
  mismatch : StoredKey → KnownHostStatus
  other_type : StoredKey → KnownHostStatus
  revoked : KnownHostStatus

-- `has_dir`: the data directory is known. `can_write`: opening and writing succeed, whole.
-- `can_protect`: `make_private` succeeds. `can_rename`: so does renaming the rewritten file.
pub record Disk : Type 0 where
  pub own : Option Text
  pub openssh : Option Text
  pub has_dir : Bool
  pub can_write : Bool
  pub can_protect : Bool
  pub can_rename : Bool

pub data HostError : Type 0 where
  no_data_dir unsupported_key write_failed protect_failed : HostError

pub record Found : Type 0 where
  pub source : HostKeySource
  pub raw : RawLine

abbrev pub found_in : HostKeySource → List RawLine → List Found
found_in source raws = map (λ r. record { source = source; raw = r }) raws

-- BifroSSH's own file, where there is a data directory.
abbrev pub own_content : Disk → Option Text
own_content disk = if disk.has_dir then disk.own else none

-- `sources`, and the lines of the files that it names, in order.
unfoldable pub sources : Disk → List Found
sources disk = found_in bifrossh (scan (own_content disk)) ++ found_in open_ssh (scan disk.openssh)

abbrev pub marker_is : Text → Option Text → Bool
marker_is name none = false
marker_is name (some m) = text_eq m name

-- A line's key with its algorithm, where both can be read.
abbrev line_key : Codec → HostLine → Option (Bytes × Text)
line_key codec l = elim (codec.b64_decode l.b64) [
  | none ↦ none
  | some b ↦ elim (algo_from_blob b) [ none ↦ none | some a ↦ some (b, a) ]
]

abbrev pub stored_key : Codec → Found → Bytes → Text → StoredKey
stored_key codec f b a = record {
  source = f.source;
  line = f.raw.line_no;
  key_type = a;
  fingerprint = fingerprint_from_blob codec b;
}

-- `mismatch` and `other_type`.
pub record Seen : Type 0 where
  pub mismatch : Option StoredKey
  pub other_type : Option StoredKey

-- One round of the loop goes on, or returns.
pub data Round : Type 0 where
  go_on : Seen → Round
  return : KnownHostStatus → Round

abbrev first_of_two : Option StoredKey → StoredKey → Option StoredKey
first_of_two none k = some k
first_of_two (some j) k = some j

module _ (codec : Codec) (target : Text) (key : PublicKey) where
  -- The rest of the round, at a line whose host matches and whose key can be read.
  unfoldable pub compare_key : Found → Bytes → Text → Seen → Round
  compare_key f b a seen =
      let entry = f.raw.entry in
      let stored = stored_key codec f b a in
      if not (text_eq a (key_algo key))
      then go_on (
          if is_some entry.marker
          then seen
          else record seen { other_type = first_of_two seen.other_type stored })
      else if text_eq b (blob key)
      then (if marker_is (codes "@revoked") entry.marker
          then return revoked
          else if marker_is (codes "@cert-authority") entry.marker
          then go_on seen
          else return (matched f.source))
      else go_on (
          if is_some entry.marker
          then seen
          else record seen { mismatch = first_of_two seen.mismatch stored })

  unfoldable pub check_line : Found → Seen → Round
  unfolding compare_key
  check_line f seen =
      if host_matches codec f.raw.entry.hosts target
      then elim (line_key codec f.raw.entry) [
        | none ↦ go_on seen
        | some (b, a) ↦ compare_key f b a seen
      ]
      else go_on seen

  -- `mismatch.or(other_type).unwrap_or(Unknown)`
  abbrev pub conclude : Seen → KnownHostStatus
  conclude seen = elim seen.mismatch [
    | some k ↦ mismatch k
    | none ↦ elim seen.other_type [ some k ↦ other_type k | none ↦ unknown ]
  ]

  unfoldable pub check_lines : List Found → Seen → KnownHostStatus
  check_lines [] seen = conclude seen
  check_lines (f ∷ fs) seen = elim (check_line f seen) [
    | return status ↦ status
    | go_on seen' ↦ check_lines fs seen'
  ]

abbrev pub nothing_seen : Seen
nothing_seen = record { mismatch = none; other_type = none }

unfoldable pub format_line : Codec → Text → ℕ → PublicKey → Option Text
format_line codec host port key = elim (algo_from_blob (blob key)) [
  | none ↦ none
  | some algo ↦
      some (host_spec host port ++ (b' ' ∷ (algo ++ (b' ' ∷ codec.b64_encode (blob key)))))
]

abbrev ends_open : Text → Bool
ends_open [] = false
ends_open (c ∷ []) = not (c == newline)
ends_open (c ∷ d ∷ s) = ends_open (d ∷ s)

-- What is in the file once `lines` are appended.
unfoldable pub appended : Option Text → List Text → Text
appended none added = unlines added
appended (some body) added =
    (if ends_open body then body ++ newline ∷ [] else body) ++ unlines added

unfoldable pub append_lines : Disk → List Text → Result HostError (Unit {0}) × Disk
unfolding appended
append_lines disk added =
    let disk' = record disk { own = some (appended disk.own added) } in
    if not disk.can_write
    then (err write_failed, disk)
    else if disk.can_protect
    then (ok tt, disk')
    else (err protect_failed, disk')

abbrev pub holds_line : Codec → Text → PublicKey → RawLine → Bool
holds_line codec target key r =
    not (is_some r.entry.marker)
    && host_matches codec r.entry.hosts target
    && text_eq r.entry.b64 (codec.b64_encode (blob key))

unfoldable pub learn_host : Codec → Text → ℕ → PublicKey → Disk → Result HostError (Unit {0}) × Disk
learn_host codec host port key disk = elim (format_line codec host port key) [
  | none ↦ (err unsupported_key, disk)
  | some line ↦
      if not disk.has_dir
      then (err no_data_dir, disk)
      else if any (holds_line codec (host_spec host port) key) (scan disk.own)
      then (ok tt, disk)
      else append_lines disk (line ∷ [])
]

-- A match in OpenSSH's file is copied into BifroSSH's own, whatever becomes of that.
abbrev pub mirror : Codec → Text → ℕ → PublicKey → KnownHostStatus → Disk → Disk
mirror codec host port key (matched open_ssh) disk = (learn_host codec host port key disk).1
mirror codec host port key _ disk = disk

unfoldable pub check_host : Codec → Text → ℕ → PublicKey → Disk → KnownHostStatus × Disk
check_host codec host port key disk =
    let status = check_lines codec (host_spec host port) key (sources disk) nothing_seen in
    (status, mirror codec host port key status disk)
