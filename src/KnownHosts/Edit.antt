-- ===== src/KnownHosts/Edit.antt =====
-- What else reads and rewrites the files, in src-tauri/src/hostkeys.rs: `remove_lines` and its
-- callers, `known_key_types`, `key_order`, `list_known_hosts` and `export_lines`.
pub mod Forget
pub mod Order
use bifro_ssh.Common.{
  ℕ, zero, ◌+◌, Bool, true, false, ◌&&◌, ◌||◌, not, Option, none, some, List, [], ◌∷◌, ◌++◌,
  if◌then◌else◌, any, is_some, is_empty, ◌==◌, Text, codes, text_eq, newline, trim, lines, join,
  length, Result, ok, err, ◌>>=◌,
}
use bifro_ssh.KnownHosts.Line.{
  Codec, PublicKey, blob, algo_from_blob, fingerprint_from_blob, host_spec, HostLine, split_line,
  RawLine, scan, host_matches, split_host_spec, is_passed_over,
}
use bifro_ssh.KnownHosts.Check.{
  HostKeySource, bifrossh, open_ssh, Disk, HostError, no_data_dir, write_failed, protect_failed,
  Found, sources, learn_host,
}

-- The algorithm of the key in base64 text.
abbrev pub line_algo : Codec → Text → Option Text
line_algo codec b64 = elim (codec.b64_decode b64) [ none ↦ none | some b ↦ algo_from_blob b ]

abbrev algo_fits : Codec → Option Text → HostLine → Bool
algo_fits codec none l = true
algo_fits codec (some want) l = elim (line_algo codec l.b64) [
  | none ↦ false
  | some a ↦ text_eq a want
]

-- `drop_it`, on the fields of the trimmed line.
unfoldable pub drops_entry : Codec → Text → Option Text → Option HostLine → Bool
drops_entry codec target algo none = false
drops_entry codec target algo (some l) =
    if is_some l.marker
    then false
    else if not (host_matches codec l.hosts target)
    then false
    else algo_fits codec algo l

abbrev pub drops : Codec → Text → Option Text → Text → Bool
drops codec target algo raw = drops_entry codec target algo (split_line (trim raw))

-- The lines that stay, and how many do not.
unfoldable pub keep_lines : Codec → Text → Option Text → List Text → List Text × ℕ
unfolding drops_entry
keep_lines codec target algo [] = ([], 0)
keep_lines codec target algo (raw ∷ raws) =
    let rest = keep_lines codec target algo raws in
    if drops codec target algo raw then (rest.0, rest.1 + 1) else (raw ∷ rest.0, rest.1)

abbrev pub end_line : Text → Text
end_line body = if is_empty body then body else body ++ newline ∷ []

abbrev rewrite : Disk → Text → ℕ → Result HostError ℕ × Disk
rewrite disk body removed =
    if not disk.can_write
    then (err write_failed, disk)
    else if not disk.can_protect
    then (err protect_failed, disk)
    else if not disk.can_rename
    then (err write_failed, disk)
    else (ok removed, record disk { own = some body })

unfoldable pub remove_lines : Codec → Text → ℕ → Option Text → Disk → Result HostError ℕ × Disk
remove_lines codec host port algo disk =
    if not disk.has_dir then (err no_data_dir, disk) else elim disk.own [
      | none ↦ (ok 0, disk)
      | some content ↦
          let (kept, removed) = keep_lines codec (host_spec host port) algo (lines content) in
          if removed == 0
          then (ok 0, disk)
          else rewrite disk (end_line (join (newline ∷ []) kept)) removed
    ]

unfoldable pub forget_host : Codec → Text → ℕ → Disk → Result HostError ℕ × Disk
unfolding remove_lines
forget_host codec host port = remove_lines codec host port none

unfoldable pub replace_host :
    Codec → Text → ℕ → PublicKey → Disk → Result HostError (Unit {0}) × Disk
unfolding remove_lines learn_host
replace_host codec host port key disk =
    let removal = remove_lines codec host port (algo_from_blob (blob key)) disk in
    elim removal.0 [ err e ↦ (err e, removal.1) | ok _ ↦ learn_host codec host port key removal.1 ]

-- `Vec::contains`.
abbrev pub has_text : Text → List Text → Bool
has_text a = any (λ b. text_eq b a)

abbrev add_type : Option Text → List Text → List Text
add_type none types = types
add_type (some a) types = if has_text a types then types else types ++ a ∷ []

unfoldable pub types_onto : Codec → Text → List Text → List Found → List Text
types_onto codec target types [] = types
types_onto codec target types (f ∷ fs) =
    let l = f.raw.entry in
    let skip = is_some l.marker || not (host_matches codec l.hosts target) in
    types_onto codec target (if skip then types else add_type (line_algo codec l.b64) types) fs

unfoldable pub known_key_types : Codec → Text → ℕ → Disk → List Text
unfolding types_onto sources
known_key_types codec host port disk = types_onto codec (host_spec host port) [] (sources disk)

-- A russh host key algorithm: its name, and whether it is RSA signed with SHA-1.
pub record Algorithm : Type 0 where
  pub name : Text
  pub rsa_sha1 : Bool

unfoldable pub line_type : Text → Text
line_type algorithm =
    if text_eq algorithm (codes "rsa-sha2-256") || text_eq algorithm (codes "rsa-sha2-512")
    then codes "ssh-rsa"
    else algorithm

abbrev pub is_known : List Text → Algorithm → Bool
is_known known alg = has_text (line_type alg.name) known

abbrev pub only : (Algorithm → Bool) → List Algorithm → List Algorithm
only p [] = []
only p (a ∷ as') = if p a then a ∷ only p as' else only p as'

-- `filter`, `partition` and `extend`, over russh's own list.
unfoldable pub key_order : List Algorithm → List Text → List Algorithm
unfolding line_type
key_order defaults known =
    let offered = only (λ a. not a.rsa_sha1) defaults in
    only (is_known known) offered ++ only (λ a. not (is_known known a)) offered

pub record KnownHostEntry : Type 0 where
  pub host : Text
  pub port : ℕ
  pub key_type : Text
  pub fingerprint : Text
  pub source : HostKeySource
  pub line : ℕ

abbrev pub same_entry : KnownHostEntry → KnownHostEntry → Bool
same_entry e n = text_eq e.host n.host && e.port == n.port && text_eq e.fingerprint n.fingerprint

abbrev listed : Codec → Found → Option KnownHostEntry
listed codec f = elim (codec.b64_decode f.raw.entry.b64) [
  | none ↦ none
  | some b ↦ elim (algo_from_blob b) [
    | none ↦ none
    | some algo ↦ some (record {
      host = (split_host_spec f.raw.entry.hosts).0;
      port = (split_host_spec f.raw.entry.hosts).1;
      key_type = algo;
      fingerprint = fingerprint_from_blob codec b;
      source = f.source;
      line = f.raw.line_no;
    })
  ]
]

abbrev pub add_entry : Option KnownHostEntry → List KnownHostEntry → List KnownHostEntry
add_entry none out = out
add_entry (some n) out = if any (λ e. same_entry e n) out then out else out ++ n ∷ []

unfoldable pub list_onto : Codec → List KnownHostEntry → List Found → List KnownHostEntry
list_onto codec out [] = out
list_onto codec out (f ∷ fs) = list_onto codec (add_entry (listed codec f) out) fs

unfoldable pub list_known_hosts : Codec → Disk → List KnownHostEntry
unfolding list_onto sources
list_known_hosts codec disk = list_onto codec [] (sources disk)

abbrev kept_for_export : List Text → List Text
kept_for_export [] = []
kept_for_export (raw ∷ raws) =
    let line = trim raw in
    if is_passed_over line then kept_for_export raws else line ∷ kept_for_export raws

unfoldable pub export_lines : Disk → Result HostError (List Text)
export_lines disk =
    if not disk.has_dir
    then err no_data_dir
    else elim disk.own [ none ↦ ok [] | some content ↦ ok (kept_for_export (lines content)) ]
