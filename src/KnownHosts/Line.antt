-- ===== src/KnownHosts/Line.antt =====
-- The lines of a known_hosts file, in src-tauri/src/hostkeys.rs: keys and their names, `host_spec`,
-- `split_line`, `scan`, `host_matches` and `split_host_spec`.
pub mod Matching
pub mod RoundTrip
pub mod Written
use bifro_ssh.Common.{
  ℕ, suc, ◌+◌, ◌*◌, Bool, true, false, ◌||◌, Option, none, some, List, [], ◌∷◌, ◌++◌, ltb, ◌==◌,
  if◌then◌else◌, length, take, Text, Bytes, codes, is_empty, strip_prefix, starts_with, trim, show,
  parse_u16, from_utf8, lines, split_whitespace, split, split_once,
}
use bifro_ssh.KnownHosts.Wildcard.{glob_match}

-- The crates `base64`, `hmac` with `sha1`, and `sha2`. `hmac_verify` is keyed by its first
-- argument, reads the bytes of the text, and is false where no key can be made.
pub record Codec : Type 0 where
  pub b64_encode : Bytes → Text
  pub b64_decode : Text → Option Bytes
  pub hmac_verify : Bytes → Text → Bytes → Bool
  pub sha256_b64 : Bytes → Text

-- A russh key: its encoding, where that does not fail, and its algorithm's name.
pub record PublicKey : Type 0 where
  pub bytes : Option Bytes
  pub algorithm : Text

abbrev or_empty : Option (List ℕ) → List ℕ
or_empty none = []
or_empty (some b) = b

unfoldable pub blob : PublicKey → Bytes
blob key = or_empty key.bytes

unfoldable pub algo_from_blob : Bytes → Option Text
algo_from_blob (a ∷ b ∷ c ∷ d ∷ rest) =
    let n = ((a * 256 + b) * 256 + c) * 256 + d in
    if ltb 64 n || ltb (length rest) n then none else from_utf8 (take n rest)
algo_from_blob _ = none

unfoldable pub fingerprint_from_blob : Codec → Bytes → Text
fingerprint_from_blob codec b = codes "SHA256:" ++ codec.sha256_b64 b

unfoldable pub fingerprint : Codec → PublicKey → Text
unfolding fingerprint_from_blob blob
fingerprint codec key = fingerprint_from_blob codec (blob key)

abbrev or_else : Option Text → Text → Text
or_else none d = d
or_else (some t) d = t

unfoldable pub key_type : PublicKey → Text
unfolding algo_from_blob blob
key_type key = or_else (algo_from_blob (blob key)) key.algorithm

-- `unwrap_or_default` on the name.
unfoldable pub key_algo : PublicKey → Text
unfolding algo_from_blob blob
key_algo key = or_empty (algo_from_blob (blob key))

unfoldable pub host_spec : Text → ℕ → Text
host_spec host port = if port == 22 then host else b'[' ∷ (host ++ (b']' ∷ b':' ∷ show port))

pub record HostLine : Type 0 where
  pub marker : Option Text
  pub hosts : Text
  pub b64 : Text

-- What follows the marker: the hosts, the stated algorithm, which is passed over, and the key.
unfoldable pub entry_fields : Option Text → List Text → Option HostLine
entry_fields marker (hosts ∷ _ ∷ b64 ∷ _) =
    some (record { marker = marker; hosts = hosts; b64 = b64 })
entry_fields marker _ = none

unfoldable pub line_fields : List Text → Option HostLine
unfolding entry_fields
line_fields [] = none
line_fields (first ∷ rest) =
    if starts_with (codes "@") first
    then entry_fields (some first) rest
    else entry_fields none (first ∷ rest)

-- A blank line, or a comment.
abbrev pub is_passed_over : Text → Bool
is_passed_over line = is_empty line || starts_with (codes "#") line

unfoldable pub split_line : Text → Option HostLine
unfolding line_fields split_whitespace strip_prefix
split_line raw =
    let line = trim raw in if is_passed_over line then none else line_fields (split_whitespace line)

pub record RawLine : Type 0 where
  pub line_no : ℕ
  pub entry : HostLine

abbrev keep_entry : ℕ → Option HostLine → List RawLine → List RawLine
keep_entry n none rest = rest
keep_entry n (some e) rest = record { line_no = n; entry = e } ∷ rest

unfoldable pub scan_from : ℕ → List Text → List RawLine
unfolding split_line
scan_from n [] = []
scan_from n (raw ∷ raws) = keep_entry n (split_line raw) (scan_from (suc n) raws)

-- `scan`, on the content of the file, or `none` where it cannot be read.
unfoldable pub scan : Option Text → List RawLine
unfolding scan_from lines
scan none = []
scan (some content) = scan_from 1 (lines content)

-- A hashed host: `|1|salt|hash`.
unfoldable pub hashed_matches : Codec → Text → Text → Bool
unfolding split_once
hashed_matches codec rest target = elim (split_once b'|' rest) [
  | none ↦ false
  | some (salt, hash) ↦ elim (codec.b64_decode salt) [
    | none ↦ false
    | some s ↦ elim (codec.b64_decode hash) [ none ↦ false | some h ↦ codec.hmac_verify s target h ]
  ]
]

-- The loop over the patterns; the flag is `matched`.
unfoldable pub pattern_loop : Text → Bool → List Text → Bool
unfolding glob_match strip_prefix
pattern_loop target matched [] = matched
pattern_loop target matched (pat ∷ pats) = elim (strip_prefix (codes "!") pat) [
  | some negated ↦ if glob_match negated target then false else pattern_loop target matched pats
  | none ↦ pattern_loop target (if glob_match pat target then true else matched) pats
]

unfoldable pub host_matches : Codec → Text → Text → Bool
unfolding hashed_matches pattern_loop split strip_prefix
host_matches codec field target = elim (strip_prefix (codes "|1|") field) [
  | some rest ↦ hashed_matches codec rest target
  | none ↦ pattern_loop target false (split b',' field)
]

-- `rsplit_once` at the two characters of `]:`.
unfoldable pub rsplit_bracket : Text → Option (Text × Text)
rsplit_bracket [] = none
rsplit_bracket (c ∷ s) = elim (rsplit_bracket s) [
  | some (a, b) ↦ some (c ∷ a, b)
  | none ↦ elim (strip_prefix (codes "]:") (c ∷ s)) [ some rest ↦ some ([], rest) | none ↦ none ]
]

abbrev bracketed : Text → Text → Text × ℕ
bracketed spec rest = elim (rsplit_bracket rest) [
  | none ↦ (spec, 22)
  | some (host, port) ↦ elim (parse_u16 port) [ none ↦ (spec, 22) | some n ↦ (host, n) ]
]

unfoldable pub split_host_spec : Text → Text × ℕ
unfolding rsplit_bracket strip_prefix
split_host_spec spec = elim (strip_prefix (codes "[") spec) [
  | none ↦ (spec, 22)
  | some rest ↦ bracketed spec rest
]
