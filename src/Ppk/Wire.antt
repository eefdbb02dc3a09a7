-- ===== src/Ppk/Wire.antt =====
-- The numbers and strings of SSH, of src-tauri/src/ppk.rs. A reader takes what is left of the data and
-- gives what is left after it; a writer puts its bytes in front of `rest`.
use bifro_ssh.Common.{
  ℕ, zero, suc, ◌+◌, ◌-◌, ◌*◌, ◌/◌, ◌%◌, ◌^◌, ◌≤◌, ◌<◌, ◌≡◌, refl, ap, ◌∙◌, Bool, true, false, [],
  ◌∷◌, ◌++◌, if◌then◌else◌, leb, length, take, drop, Bytes, Result, ok, err, ◌>>=◌, length-append,
  take-append, drop-append, arith,
}
use bifro_ssh.Ppk.{PpkError, short_data}

abbrev pub Read : Type 0 → Type 0
Read A = Bytes → Result PpkError (A × Bytes)

unfoldable pub ssh_read_u32 : Read ℕ
ssh_read_u32 (a ∷ b ∷ c ∷ d ∷ rest) = ok (((a * 256 + b) * 256 + c) * 256 + d, rest)
ssh_read_u32 _ = err short_data

unfoldable pub read_n : ℕ → Read Bytes
read_n n data_left =
    if leb n (length data_left) then ok (take n data_left, drop n data_left) else err short_data

unfoldable pub ssh_read_bytes : Read Bytes
unfolding ssh_read_u32 read_n
ssh_read_bytes bytes = ssh_read_u32 bytes >>= λ ((n, rest) : ℕ × Bytes). read_n n rest

-- Without its leading zeros.
unfoldable pub strip_zeros : Bytes → Bytes
strip_zeros [] = []
strip_zeros (zero ∷ bytes) = strip_zeros bytes
strip_zeros (suc b ∷ bytes) = suc b ∷ bytes

unfoldable pub ssh_read_mpint : Read Bytes
unfolding ssh_read_bytes strip_zeros
ssh_read_mpint bytes =
    ssh_read_bytes bytes >>= λ ((n, rest) : Bytes × Bytes). ok (strip_zeros n, rest)

-- `v as u32`, big-endian.
unfoldable pub ssh_write_u32 : ℕ → Bytes → Bytes
ssh_write_u32 v rest = (v / 16777216 % 256) ∷ (v / 65536 % 256) ∷ (v / 256 % 256) ∷ (v % 256) ∷ rest

unfoldable pub ssh_write_bytes : Bytes → Bytes → Bytes
unfolding ssh_write_u32
ssh_write_bytes bytes rest = ssh_write_u32 (length bytes) (bytes ++ rest)

-- A number that has no leading zeros; one whose first bit is set gets a zero in front.
unfoldable pub write_stripped : Bytes → Bytes → Bytes
unfolding ssh_write_u32 ssh_write_bytes
write_stripped [] rest = ssh_write_u32 0 rest
write_stripped (b ∷ bytes) rest =
    if leb 128 b
    then ssh_write_u32 (length (b ∷ bytes) + 1) (0 ∷ (b ∷ bytes) ++ rest)
    else ssh_write_bytes (b ∷ bytes) rest

unfoldable pub ssh_write_mpint : Bytes → Bytes → Bytes
unfolding write_stripped strip_zeros
ssh_write_mpint number rest = write_stripped (strip_zeros number) rest

u32_bytes :
    (v : ℕ)
    → v < 2 ^ 32
    → ((v / 16777216 % 256 * 256 + v / 65536 % 256) * 256 + v / 256 % 256) * 256 + v % 256 ≡ v
u32_bytes v l = omega arith

pub ssh_read_u32-write :
    (v : ℕ) (rest : Bytes) → v < 2 ^ 32 → ssh_read_u32 (ssh_write_u32 v rest) ≡ ok (v, rest)
unfolding ssh_read_u32 ssh_write_u32
ssh_read_u32-write v rest l = ap (λ n. ok (n, rest)) (u32_bytes v l)

read_n-append : (bytes rest : Bytes) → read_n (length bytes) (bytes ++ rest) ≡ ok (bytes, rest)
unfolding read_n
read_n-append bytes rest =
    rw (take-append bytes rest)
      (rw (drop-append bytes rest) (ground (arith, length-append bytes rest)))

-- A string of less than 2^32 bytes is read back, and what follows it is left.
pub ssh_read_bytes-write :
    (bytes rest : Bytes)
    → length bytes < 2 ^ 32
    → ssh_read_bytes (ssh_write_bytes bytes rest) ≡ ok (bytes, rest)
unfolding ssh_read_bytes ssh_write_bytes
ssh_read_bytes-write bytes rest l =
    ap (λ r. r >>= λ ((n, rest) : ℕ × Bytes). read_n n rest)
      (ssh_read_u32-write (length bytes) (bytes ++ rest) l)
    ∙ read_n-append bytes rest

pub strip_zeros_idem : (bytes : Bytes) → strip_zeros (strip_zeros bytes) ≡ strip_zeros bytes
unfolding strip_zeros
strip_zeros_idem [] = refl
strip_zeros_idem (zero ∷ bytes) = strip_zeros_idem bytes
strip_zeros_idem (suc b ∷ bytes) = refl

length-strip_zeros : (bytes : Bytes) → length (strip_zeros bytes) ≤ length bytes
unfolding strip_zeros
length-strip_zeros [] = omega arith
length-strip_zeros (zero ∷ bytes) = omega (arith, length-strip_zeros bytes)
length-strip_zeros (suc b ∷ bytes) = omega arith

mpint_of :
    (bytes written rest : Bytes)
    → ssh_read_bytes written ≡ ok (bytes, rest)
    → ssh_read_mpint written ≡ ok (strip_zeros bytes, rest)
unfolding ssh_read_mpint
mpint_of bytes written rest e =
    ap (λ r. r >>= λ ((n, rest) : Bytes × Bytes). ok (strip_zeros n, rest)) e

write_stripped-read :
    (bytes rest : Bytes)
    → length bytes < 2 ^ 32 - 1
    → ssh_read_mpint (write_stripped bytes rest) ≡ ok (strip_zeros bytes, rest)
unfolding write_stripped strip_zeros ssh_write_bytes
write_stripped-read [] rest l =
    mpint_of [] (ssh_write_u32 0 rest) rest (ssh_read_bytes-write [] rest (omega arith))
write_stripped-read (b ∷ bytes) rest l = by_bit (leb 128 b)
  where
    padded : Bytes
    padded = ssh_write_u32 (length (b ∷ bytes) + 1) (0 ∷ (b ∷ bytes) ++ rest)

    with_zero : ssh_read_bytes padded ≡ ok (0 ∷ b ∷ bytes, rest)
    with_zero =
        ap (λ n. ssh_read_bytes (ssh_write_u32 n (0 ∷ (b ∷ bytes) ++ rest))) (omega arith)
        ∙ ssh_read_bytes-write (0 ∷ b ∷ bytes) rest (omega arith)

    by_bit :
        (q : Bool)
        → ssh_read_mpint (if q then padded else ssh_write_bytes (b ∷ bytes) rest)
          ≡ ok (strip_zeros (b ∷ bytes), rest)
    by_bit true = mpint_of (0 ∷ b ∷ bytes) padded rest with_zero
    by_bit false =
        mpint_of (b ∷ bytes) (ssh_write_bytes (b ∷ bytes) rest) rest
          (ssh_read_bytes-write (b ∷ bytes) rest (omega arith))

-- A number of less than 2^32 - 1 bytes is read back without its leading zeros, and what follows it is left.
pub ssh_read_mpint-write :
    (number rest : Bytes)
    → length number < 2 ^ 32 - 1
    → ssh_read_mpint (ssh_write_mpint number rest) ≡ ok (strip_zeros number, rest)
unfolding ssh_write_mpint
ssh_read_mpint-write number rest l =
    write_stripped-read (strip_zeros number) rest (omega (arith, length-strip_zeros number))
    ∙ ap (λ n. ok (n, rest)) (strip_zeros_idem number)
