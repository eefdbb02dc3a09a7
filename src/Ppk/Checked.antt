-- ===== src/Ppk/Checked.antt =====
-- What a converted PuTTY key has passed, and what its MAC covers.
use bifro_ssh.Common.{
  as_bytes, ℕ, zero, suc, ◌+◌, ◌*◌, ◌/◌, ◌%◌, ◌^◌, ◌≤◌, ◌<◌, ◌≡◌, sym, ap, ◌∙◌, true, Option, none,
  some, Text, Bytes, length, length-append, ok, ok_or, >>=-eq-ok, >>-eq-ok, arith,
}
use native.Mathlib.Decide.{dec_le}
use bifro_ssh.Ppk.{PpkData, PpkError, Crypto, from_hex, no_mac, missing_parameter, parse_ppk}
use bifro_ssh.Ppk.Wire.{ssh_read_bytes, ssh_write_bytes, ssh_read_bytes-write}
use bifro_ssh.Ppk.Open.{
  mac_input, hmac_for, verify_mac, open_private, decrypt_ppk_v3, check_limits,
  max_argon2_memory_kib, max_argon2_passes,
}
use bifro_ssh.Ppk.Build.{padding, pad8, build, ppk_to_openssh}

module _ (crypto : Crypto) where
  -- The file's MAC is right for this private part under this key.
  abbrev pub HasMac : PpkData → Bytes → Bytes → Type 0
  HasMac ppk plain key =
      (mac : Text) × (expected : Bytes) × (ppk.private_mac ≡ some mac)
      × (from_hex mac ≡ ok expected)
      × (hmac_for crypto ppk.version key (mac_input ppk plain) expected ≡ true)

  ok_or-ok : {A : Type 0} (o : Option A) (why : PpkError) (a : A) → ok_or o why ≡ ok a → o ≡ some a
  ok_or-ok none why a e = absurd (ground (arith, e))
  ok_or-ok (some b) why a e = ground (arith, e)

  verify_mac-HasMac :
      (ppk : PpkData) (plain key : Bytes)
      → verify_mac crypto ppk plain key ≡ ok tt
      → HasMac ppk plain key
  unfolding verify_mac
  verify_mac-HasMac ppk plain key e =
      let (mac, m, rest) = >>=-eq-ok (ok_or ppk.private_mac no_mac) _ e in
      let (expected, x, checked) = >>=-eq-ok (from_hex mac) _ rest in
      (mac, expected, ok_or-ok ppk.private_mac no_mac mac m, x, ground (arith, checked))

-- A key is converted only when the file has a MAC that is right, under the key that goes with what was
-- decrypted, for the algorithm, the encryption, the comment, the public part and the decrypted part; what
-- is written is made of these.
pub ppk_to_openssh-HasMac :
    (crypto : Crypto) (content : Text) (passphrase : Option Text) (pem : Text)
    → ppk_to_openssh crypto content passphrase ≡ ok pem
    → (ppk : PpkData) × (plain : Bytes) × (key : Bytes) × (parse_ppk crypto content ≡ ok ppk)
      × (open_private crypto ppk passphrase ≡ ok (plain, key))
      × HasMac crypto ppk plain key
      × (build crypto ppk plain ≡ ok pem)
unfolding ppk_to_openssh
ppk_to_openssh-HasMac crypto content passphrase pem e =
    let (ppk, p, rest) = >>=-eq-ok (parse_ppk crypto content) _ e in
    let (opened, o, checked) = >>=-eq-ok (open_private crypto ppk passphrase) _ rest in
    let (v, b) =
      >>-eq-ok (verify_mac crypto ppk opened.0 opened.1) (build crypto ppk opened.0) checked in
    (ppk, opened.0, opened.1, p, o, verify_mac-HasMac crypto ppk opened.0 opened.1 v, b)

write-injective :
    (a b r s : Bytes)
    → length a < 2 ^ 32
    → length b < 2 ^ 32
    → ssh_write_bytes a r ≡ ssh_write_bytes b s
    → (a ≡ b) × (r ≡ s)
write-injective a b r s la lb e =
    let both : ok (a, r) ≡ ok (b, s) =
      sym (ssh_read_bytes-write a r la) ∙ ap ssh_read_bytes e ∙ ssh_read_bytes-write b s lb in
    (ground (arith, both), ground (arith, both))

-- The fields of a file whose lengths a MAC can cover.
abbrev pub Short : PpkData → Bytes → Type 0
Short ppk plain =
    (length (as_bytes ppk.algorithm) < 2 ^ 32)
    × (length (as_bytes ppk.encryption) < 2 ^ 32)
    × (length (as_bytes ppk.comment) < 2 ^ 32)
    × (length ppk.public_data < 2 ^ 32)
    × (length plain < 2 ^ 32)

-- Two files have the same input to their MACs only when they agree in each of the five parts: none of the
-- algorithm, the encryption, the comment, the public and the private part can be changed, nor bytes moved
-- from one to the next, where each is shorter than 2^32 bytes.
pub mac_input-injective :
    (a b : PpkData) (p q : Bytes)
    → Short a p
    → Short b q
    → mac_input a p ≡ mac_input b q
    → (as_bytes a.algorithm ≡ as_bytes b.algorithm)
      × (as_bytes a.encryption ≡ as_bytes b.encryption)
      × (as_bytes a.comment ≡ as_bytes b.comment)
      × (a.public_data ≡ b.public_data)
      × (p ≡ q)
unfolding mac_input
mac_input-injective a b p q (a1, a2, a3, a4, a5) (b1, b2, b3, b4, b5) e =
    let (e1, r1) = write-injective (as_bytes a.algorithm) (as_bytes b.algorithm) _ _ a1 b1 e in
    let (e2, r2) = write-injective (as_bytes a.encryption) (as_bytes b.encryption) _ _ a2 b2 r1 in
    let (e3, r3) = write-injective (as_bytes a.comment) (as_bytes b.comment) _ _ a3 b3 r2 in
    let (e4, r4) = write-injective a.public_data b.public_data _ _ a4 b4 r3 in
    let (e5, r5) = write-injective p q _ _ a5 b5 r4 in (e1, e2, e3, e4, e5)

check_limits-ok :
    (memory passes : ℕ)
    → check_limits memory passes ≡ ok tt
    → (memory ≤ max_argon2_memory_kib) × (passes ≤ max_argon2_passes)
check_limits-ok memory passes e = ground (arith, e)

-- A version 3 key is decrypted only when the file's cost is within the limits: at most 1 GiB of memory
-- and 64 passes.
pub decrypt_ppk_v3-limits :
    (crypto : Crypto) (ppk : PpkData) (passphrase : Text) (out : Bytes × Bytes)
    → decrypt_ppk_v3 crypto ppk passphrase ≡ ok out
    → (memory : ℕ) × (passes : ℕ) × (ppk.argon2_memory ≡ some memory)
      × (ppk.argon2_passes ≡ some passes)
      × (memory ≤ 1048576)
      × (passes ≤ 64)
unfolding decrypt_ppk_v3
decrypt_ppk_v3-limits crypto ppk passphrase out e =
    let (memory, m, e1) = >>=-eq-ok (ok_or ppk.argon2_memory missing_parameter) _ e in
    let (passes, n, e2) = >>=-eq-ok (ok_or ppk.argon2_passes missing_parameter) _ e1 in
    let (parallel, _, e3) = >>=-eq-ok (ok_or ppk.argon2_parallelism missing_parameter) _ e2 in
    let (salt, _, e4) = >>=-eq-ok (ok_or ppk.argon2_salt missing_parameter) _ e3 in
    let (c, _) = >>-eq-ok (check_limits memory passes) _ e4 in
    let (lm, ln) = check_limits-ok memory passes c in
    (
      memory,
      passes,
      ok_or-ok crypto ppk.argon2_memory missing_parameter memory m,
      ok_or-ok crypto ppk.argon2_passes missing_parameter passes n,
      lm,
      ln,
    )

padding-length :
    (room pad len : ℕ)
    → (len + 7) / 8 * 8 ≤ len + room
    → (length (padding room pad len) + len) % 8 ≡ 0
padding-length zero pad len h = omega arith
padding-length (suc room) pad len h = elim (dec_le (len % 8) 0) [
  | yes z ↦ ground arith
  | no n ↦ ground (arith, padding-length room ((pad + 1) % 256) (len + 1) (omega arith))
]

-- The private section of the key that is written fills whole blocks of eight bytes.
pub length-pad8 : (section : Bytes) → length (pad8 section) % 8 ≡ 0
unfolding pad8
length-pad8 section = omega (
  arith,
  length-append section (padding 7 1 (length section)),
  padding-length 7 1 (length section) (omega arith),
)
