-- ===== src/Ppk/Open.antt =====
-- The decryption of a PuTTY key and the check of its integrity, of src-tauri/src/ppk.rs. The hashes and the
-- cipher are parameters.
use bifro_ssh.Common.{
  as_bytes, ℕ, zero, suc, ◌-◌, ◌*◌, ◌%◌, Bool, Option, none, some, [], ◌∷◌, ◌++◌, if◌then◌else◌,
  ◌==◌, ltb, length, take, drop, Text, Bytes, codes, text_eq, Result, ok, err, ◌>>=◌, ◌>>◌, ok_or,
}
use bifro_ssh.Ppk.{
  PpkVersion, v2, v3, PpkData, PpkError, no_passphrase, no_mac, wrong_mac, decrypt_failed,
  missing_parameter, too_much_memory, too_many_passes, unknown_variant, bad_parameters, Crypto,
  from_hex,
}
use bifro_ssh.Ppk.Wire.{ssh_write_bytes}

abbrev pub max_argon2_memory_kib : ℕ
max_argon2_memory_kib = 1024 * 1024

abbrev pub max_argon2_passes : ℕ
max_argon2_passes = 64

-- The bytes that `Private-MAC` is taken over.
unfoldable pub mac_input : PpkData → Bytes → Bytes
unfolding ssh_write_bytes as_bytes
mac_input ppk private_plain = ssh_write_bytes (as_bytes ppk.algorithm) (
    ssh_write_bytes (as_bytes ppk.encryption) (
      ssh_write_bytes (as_bytes ppk.comment)
        (ssh_write_bytes ppk.public_data (ssh_write_bytes private_plain []))))

abbrev zeros : ℕ → Bytes
zeros zero = []
zeros (suc n) = 0 ∷ zeros n

-- Up to a multiple of the cipher's block.
abbrev pub to_blocks : Bytes → Bytes
to_blocks bytes = if length bytes % 16 == 0 then bytes else bytes ++ zeros (16 - length bytes % 16)

abbrev or_argon2id : Option Text → Text
or_argon2id none = codes "Argon2id"
or_argon2id (some flavor) = flavor

abbrev pub check_limits : ℕ → ℕ → Result PpkError (Unit {0})
check_limits memory passes =
    if ltb max_argon2_memory_kib memory
    then err too_much_memory
    else if ltb max_argon2_passes passes
    then err too_many_passes
    else ok tt

abbrev pub check_flavor : Text → Result PpkError (Unit {0})
check_flavor flavor =
    if text_eq flavor (codes "Argon2id")
    then ok tt
    else if text_eq flavor (codes "Argon2i")
    then ok tt
    else if text_eq flavor (codes "Argon2d")
    then ok tt
    else err unknown_variant

module _ (crypto : Crypto) where
  unfoldable pub v2_mac_key : Text → Bytes
  unfolding as_bytes
  v2_mac_key passphrase =
      crypto.sha1 (codes "putty-private-key-file-mac-key" ++ as_bytes passphrase)

  abbrev pub hmac_for : PpkVersion → Bytes → Bytes → Bytes → Bool
  hmac_for v2 = crypto.hmac_sha1
  hmac_for v3 = crypto.hmac_sha256

  unfoldable pub verify_mac : PpkData → Bytes → Bytes → Result PpkError (Unit {0})
  unfolding mac_input from_hex
  verify_mac ppk private_plain mac_key = do
    mac ← ok_or ppk.private_mac no_mac
    expected ← from_hex mac
    if hmac_for ppk.version mac_key (mac_input ppk private_plain) expected
        then ok tt
        else err wrong_mac

  -- The cipher on whole blocks, and as many bytes as went in.
  unfoldable pub decrypted : Bytes → Bytes → Bytes → Result PpkError Bytes
  decrypted key iv bytes =
      ok_or (crypto.aes_cbc key iv (to_blocks bytes)) decrypt_failed >>= λ plain.
      ok (take (length bytes) plain)

  unfoldable pub decrypt_ppk_v2 : Bytes → Text → Result PpkError Bytes
  unfolding decrypted as_bytes
  decrypt_ppk_v2 bytes passphrase =
      let h0 = crypto.sha1 (0 ∷ 0 ∷ 0 ∷ 0 ∷ as_bytes passphrase) in
      let h1 = crypto.sha1 (0 ∷ 0 ∷ 0 ∷ 1 ∷ as_bytes passphrase) in
      decrypted (h0 ++ take 12 h1) (zeros 16) bytes

  -- The derived eighty bytes: a key, the first block and the key of the MAC.
  unfoldable pub decrypt_ppk_v3 : PpkData → Text → Result PpkError (Bytes × Bytes)
  unfolding decrypted as_bytes text_eq
  decrypt_ppk_v3 ppk passphrase = do
    memory ← ok_or ppk.argon2_memory missing_parameter
    passes ← ok_or ppk.argon2_passes missing_parameter
    parallel ← ok_or ppk.argon2_parallelism missing_parameter
    salt ← ok_or ppk.argon2_salt missing_parameter
    check_limits memory passes
    check_flavor (or_argon2id ppk.key_derivation)
    material ←
        ok_or
          (crypto.argon2 (or_argon2id ppk.key_derivation) memory passes parallel
            (as_bytes passphrase) salt)
          bad_parameters
    plain ← decrypted (take 32 material) (take 16 (drop 32 material)) ppk.private_data
    ok (plain, drop 48 material)

  -- The private part and the key of its MAC, by the encryption and the version.
  unfoldable pub open_private : PpkData → Option Text → Result PpkError (Bytes × Bytes)
  unfolding v2_mac_key decrypt_ppk_v2 decrypt_ppk_v3 text_eq
  open_private ppk passphrase =
      if text_eq ppk.encryption (codes "none")
      then (elim ppk.version [
        | v2 ↦ ok (ppk.private_data, v2_mac_key [])
        | v3 ↦ ok (ppk.private_data, [])
      ])
      else ok_or passphrase no_passphrase >>= λ pass. elim ppk.version [
        | v2 ↦ decrypt_ppk_v2 ppk.private_data pass >>= λ plain. ok (plain, v2_mac_key pass)
        | v3 ↦ decrypt_ppk_v3 ppk pass
      ]
