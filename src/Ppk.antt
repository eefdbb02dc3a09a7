-- ===== src/Ppk.antt =====
-- PuTTY's key files: src-tauri/src/ppk.rs. Here is the reading of a file; Ppk.Wire is the format of the
-- numbers and strings, Ppk.Open the decryption and the check, and Ppk.Build the key that is written.
pub mod Wire
pub mod Open
pub mod Build
pub mod Checked
use bifro_ssh.Common.{
  hex_pair, ℕ, zero, suc, ◌+◌, ◌-◌, ◌*◌, ◌/◌, ◌%◌, ◌^◌, Bool, true, false, ◌&&◌, ◌||◌, Option, none,
  some, List, [], ◌∷◌, ◌++◌, if◌then◌else◌, ◌==◌, leb, ltb, length, drop, Text, Bytes, codes,
  text_eq, strip_prefix, starts_with, trim, parse_below, lines, split_once, is_digit, Result, ok,
  err, ◌>>=◌, ok_or,
}

-- `is_ppk`.
abbrev pub file_prefix : Text
file_prefix = codes "PuTTY-User-Key-File-"

unfoldable pub is_ppk : Text → Bool
unfolding strip_prefix
is_ppk content = starts_with file_prefix content

pub data PpkVersion : Type 0 where
  v2 v3 : PpkVersion

-- `panicked` is no error of the program's own: a slice of a text that ends inside a character.
pub data PpkError : Type 0 where
  empty_file unsupported_version not_ppk bad_number unexpected_eof bad_base64 : PpkError
  odd_hex bad_hex panicked : PpkError
  no_passphrase no_mac wrong_mac decrypt_failed : PpkError
  missing_parameter too_much_memory too_many_passes unknown_variant bad_parameters : PpkError
  short_data wrong_length unsupported_algorithm : PpkError

pub record PpkData : Type 0 where
  pub version : PpkVersion
  pub algorithm : Text
  pub encryption : Text
  pub comment : Text
  pub public_data : Bytes
  pub private_data : Bytes
  pub key_derivation : Option Text
  pub argon2_memory : Option ℕ
  pub argon2_passes : Option ℕ
  pub argon2_parallelism : Option ℕ
  pub argon2_salt : Option Bytes
  pub private_mac : Option Text

-- How many bytes a character takes in a `str`.
abbrev pub utf8_len : ℕ → ℕ
utf8_len c = if leb c 0x7f then 1 else if leb c 0x7ff then 2 else if leb c 0xffff then 3 else 4

abbrev pub str_len : Text → ℕ
str_len [] = 0
str_len (c ∷ s) = utf8_len c + str_len s

-- The slices of two bytes each. A character of two bytes is one of them, and no hex.
unfoldable pub hex_pairs : Text → Result PpkError Bytes
hex_pairs [] = ok []
hex_pairs (a ∷ []) = if utf8_len a == 2 then err bad_hex else err panicked
hex_pairs (a ∷ b ∷ s) =
    let rest = hex_pairs s in
    if utf8_len a == 1 && utf8_len b == 1
    then elim (hex_pair a b) [
      | none ↦ err bad_hex
      | some byte ↦ elim rest [ err why ↦ err why | ok bytes ↦ ok (byte ∷ bytes) ]
    ]
    else if utf8_len a == 2
    then err bad_hex
    else err panicked

unfoldable pub from_hex : Text → Result PpkError Bytes
unfolding hex_pairs
from_hex s = if str_len s % 2 == 0 then hex_pairs s else err odd_hex

-- `split_once(": ")`.
unfoldable pub split_field : Text → Option (Text × Text)
unfolding strip_prefix
split_field [] = none
split_field (c ∷ s) =
    let later = split_field s in
    elim (strip_prefix (codes ": ") (c ∷ s)) [
      | some value ↦ some ([], value)
      | none ↦ elim later [ none ↦ none | some (key, value) ↦ some (c ∷ key, value) ]
    ]

-- The version and the algorithm, from the first line.
unfoldable pub parse_first : Text → Result PpkError (PpkVersion × Text)
unfolding strip_prefix trim
parse_first first = elim (strip_prefix (codes "PuTTY-User-Key-File-3: ") first) [
  | some a ↦ ok (v3, trim a)
  | none ↦ elim (strip_prefix (codes "PuTTY-User-Key-File-2: ") first) [
    | some a ↦ ok (v2, trim a)
    | none ↦ if starts_with file_prefix first then err unsupported_version else err not_ppk
  ]
]

abbrev pub usize : Text → Option ℕ
usize = parse_below (2 ^ 64)

abbrev pub parse_u32 : Text → Option ℕ
parse_u32 = parse_below (2 ^ 32)

-- What stands behind `base64` and the crates of hashes and ciphers.
pub record Crypto : Type 0 where
  pub base64_decode : Text → Option Bytes
  pub base64_encode : Bytes → Text
  pub sha1 : Bytes → Bytes
  pub hmac_sha1 : Bytes → Bytes → Bytes → Bool
  pub hmac_sha256 : Bytes → Bytes → Bytes → Bool
  pub aes_cbc : Bytes → Bytes → Bytes → Option Bytes
  pub argon2 : Text → ℕ → ℕ → ℕ → Bytes → Bytes → Option Bytes

-- The next `n` lines, joined.
unfoldable pub take_lines : ℕ → List Text → Result PpkError Text
take_lines zero ls = ok []
take_lines (suc n) [] = err unexpected_eof
take_lines (suc n) (l ∷ ls) = do b64 ← take_lines n ls; ok (l ++ b64)

unfoldable pub read_base64_lines : Crypto → ℕ → List Text → Result PpkError Bytes
unfolding take_lines
read_base64_lines crypto n ls = do
  b64 ← take_lines n ls
  ok_or (crypto.base64_decode b64) bad_base64

abbrev ok_of : Result PpkError Bytes → Result PpkError (Option Bytes)
ok_of (ok bytes) = ok (some bytes)
ok_of (err panicked) = err panicked
ok_of (err _) = ok none

-- What a line sets, and how many of the lines after it were read with it.
abbrev Step : Type 0
Step = Result PpkError (PpkData × ℕ)

abbrev set_public : PpkData → ℕ → Bytes → Step
set_public ppk n bytes = ok (record ppk { public_data = bytes }, n)

abbrev set_private : PpkData → ℕ → Bytes → Step
set_private ppk n bytes = ok (record ppk { private_data = bytes }, n)

abbrev set_salt : PpkData → Option Bytes → Step
set_salt ppk salt = ok (record ppk { argon2_salt = salt }, 0)

unfoldable pub set_field : Crypto → PpkData → Text → Text → List Text → Step
unfolding text_eq trim parse_below from_hex read_base64_lines
set_field crypto ppk key val rest =
    if text_eq key (codes "Encryption")
    then ok (record ppk { encryption = trim val }, 0)
    else if text_eq key (codes "Comment")
    then ok (record ppk { comment = val }, 0)
    else if text_eq key (codes "Key-Derivation")
    then ok (record ppk { key_derivation = some (trim val) }, 0)
    else if text_eq key (codes "Argon2-Memory")
    then ok (record ppk { argon2_memory = parse_u32 (trim val) }, 0)
    else if text_eq key (codes "Argon2-Passes")
    then ok (record ppk { argon2_passes = parse_u32 (trim val) }, 0)
    else if text_eq key (codes "Argon2-Parallelism")
    then ok (record ppk { argon2_parallelism = parse_u32 (trim val) }, 0)
    else if text_eq key (codes "Argon2-Salt")
    then (ok_of (from_hex (trim val)) >>= set_salt ppk)
    else if text_eq key (codes "Private-MAC")
    then ok (record ppk { private_mac = some (trim val) }, 0)
    else if text_eq key (codes "Public-Lines")
    then (ok_or (usize (trim val)) bad_number >>= λ n.
        read_base64_lines crypto n rest >>= set_public ppk n)
    else if text_eq key (codes "Private-Lines")
    then (ok_or (usize (trim val)) bad_number >>= λ n.
        read_base64_lines crypto n rest >>= set_private ppk n)
    else ok (ppk, 0)

unfoldable pub parse_line : Crypto → PpkData → Text → List Text → Step
unfolding split_field set_field
parse_line crypto ppk line rest = elim (split_field line) [
  | none ↦ ok (ppk, 0)
  | some (key, val) ↦ set_field crypto ppk key val rest
]

-- The loop over the lines, past the `skip` that were read already.
unfoldable pub parse_lines : Crypto → ℕ → PpkData → List Text → Result PpkError PpkData
unfolding parse_line
parse_lines crypto skip ppk [] = ok ppk
parse_lines crypto (suc skip) ppk (l ∷ ls) = parse_lines crypto skip ppk ls
parse_lines crypto zero ppk (l ∷ ls) =
    parse_line crypto ppk l ls >>= λ ((next, skip) : PpkData × ℕ). parse_lines crypto skip next ls

abbrev no_fields : PpkVersion × Text → PpkData
no_fields (version, algorithm) = record {
  version = version;
  algorithm = algorithm;
  encryption = codes "none";
  comment = [];
  public_data = [];
  private_data = [];
  key_derivation = none;
  argon2_memory = none;
  argon2_passes = none;
  argon2_parallelism = none;
  argon2_salt = none;
  private_mac = none;
}

unfoldable pub parse_ppk : Crypto → Text → Result PpkError PpkData
unfolding lines parse_first parse_lines
parse_ppk crypto content = elim (lines content) [
  | [] ↦ err empty_file
  | first ∷ rest ↦ parse_first first >>= λ head. parse_lines crypto zero (no_fields head) rest
]

abbrev algorithm_names : List (Text × Text)
algorithm_names =
    (codes "ssh-ed25519", codes "ED25519")
    ∷ (codes "ssh-rsa", codes "RSA")
    ∷ (codes "ecdsa-sha2-nistp256", codes "ECDSA P-256")
    ∷ (codes "ecdsa-sha2-nistp384", codes "ECDSA P-384")
    ∷ (codes "ecdsa-sha2-nistp521", codes "ECDSA P-521")
    ∷ []

abbrev named : List (Text × Text) → Text → Text
named [] other = other
named ((algorithm, name) ∷ more) other = if text_eq algorithm other then name else named more other

unfoldable pub ppk_detect_algorithm : Crypto → Text → Option Text
unfolding parse_ppk text_eq
ppk_detect_algorithm crypto content = elim (parse_ppk crypto content) [
  | err why ↦ none
  | ok ppk ↦ some (named algorithm_names ppk.algorithm)
]
