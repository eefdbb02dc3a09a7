-- ===== src/Tests/Ppk.antt =====
-- Runs of src-tauri/src/ppk.rs, with a hash that is the length of what it is taken over.
use bifro_ssh.Common.{
  as_bytes, ◌≡◌, ◌%◌, refl, none, some, [], ◌∷◌, ◌++◌, Text, Bytes, codes, text_eq, length, ok, err,
  arith,
}
use bifro_ssh.Ppk.{Crypto, PpkData, v3, parse_ppk, from_hex, panicked}
use bifro_ssh.Ppk.Open.{mac_input, open_private}
use bifro_ssh.Ppk.Build.{build, build_openssh_pem, ed25519_fields, ppk_to_openssh}
use bifro_ssh.Ppk.Checked.{HasMac, Short, ppk_to_openssh-HasMac, mac_input-injective}

-- Base64 is the bytes themselves, and the MAC is the length.
abbrev lengths : Crypto
lengths = record {
  base64_decode = λ t. some t;
  base64_encode = λ b. b;
  sha1 = λ b. b;
  hmac_sha1 = λ k d m. text_eq m (length d % 256 ∷ []);
  hmac_sha256 = λ k d m. text_eq m (length d % 256 ∷ []);
  aes_cbc = λ k iv b. some b;
  argon2 = λ f m p l pass salt. none;
}

abbrev seed : Bytes
seed = codes "abcdefghijklmnopqrstuvwxyzabcdef"

abbrev point : Bytes
point = codes "ABCDEFGHIJKLMNOPQRSTUVWXYZABCDEF"

abbrev a_key : PpkData
a_key = record {
  version = v3;
  algorithm = codes "ssh-ed25519";
  encryption = codes "none";
  comment = codes "k";
  public_data = 0 ∷ 0 ∷ 0 ∷ 11 ∷ codes "ssh-ed25519" ++ 0 ∷ 0 ∷ 0 ∷ 32 ∷ point;
  private_data = 0 ∷ 0 ∷ 0 ∷ 32 ∷ seed;
  key_derivation = none;
  argon2_memory = none;
  argon2_passes = none;
  argon2_parallelism = none;
  argon2_salt = none;
  private_mac = some (codes "7b");
}

abbrev a_file : Text
a_file =
    codes "PuTTY-User-Key-File-3: ssh-ed25519\nEncryption: none\nComment: k\nPublic-Lines: 1\n"
    ++ a_key.public_data
    ++ codes "\nPrivate-Lines: 1\n"
    ++ a_key.private_data
    ++ codes "\nPrivate-MAC: 7b\n"

file_is_read : parse_ppk lengths a_file ≡ ok a_key
unfolding parse_ppk text_eq
file_is_read = refl

mac_is_right : length (mac_input a_key a_key.private_data) ≡ 123
unfolding mac_input
mac_is_right = refl

abbrev a_pem : Text
a_pem = build_openssh_pem lengths a_key.public_data (ed25519_fields lengths point seed) (codes "k")

file_is_converted : ppk_to_openssh lengths a_file none ≡ ok a_pem
unfolding ppk_to_openssh text_eq
file_is_converted = refl

ppk_to_openssh-HasMac_example :
    (ppk : PpkData) × (plain : Bytes) × (key : Bytes) × (parse_ppk lengths a_file ≡ ok ppk)
    × (open_private lengths ppk none ≡ ok (plain, key))
    × HasMac lengths ppk plain key
    × (build lengths ppk plain ≡ ok a_pem)
ppk_to_openssh-HasMac_example = ppk_to_openssh-HasMac lengths a_file none a_pem file_is_converted

a_key-Short : Short a_key a_key.private_data
unfolding as_bytes
a_key-Short = (omega arith, omega arith, omega arith, omega arith, omega arith)

mac_input-injective_example :
    (as_bytes a_key.algorithm ≡ as_bytes a_key.algorithm)
    × (as_bytes a_key.encryption ≡ as_bytes a_key.encryption)
    × (as_bytes a_key.comment ≡ as_bytes a_key.comment)
    × (a_key.public_data ≡ a_key.public_data)
    × (a_key.private_data ≡ a_key.private_data)
mac_input-injective_example =
    mac_input-injective a_key a_key a_key.private_data a_key.private_data a_key-Short a_key-Short
      refl

slice_inside_a_character : from_hex (b'a' ∷ 233 ∷ b'b' ∷ []) ≡ err panicked
unfolding from_hex
slice_inside_a_character = refl
