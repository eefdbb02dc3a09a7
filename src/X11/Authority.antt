-- ===== src/X11/Authority.antt =====
-- Xauthority files: what is written in their format is read back.
use bifro_ssh.Common.{
  ℕ, zero, suc, ◌+◌, ◌*◌, ◌/◌, ◌%◌, ◌≤◌, ◌<◌, ◌≡◌, refl, ap, none, some, List, [], ◌∷◌, ◌++◌, arith,
  length, map, Text, Bytes, All, length-append, take-append, drop-append,
}
use bifro_ssh.X11.{XauthEntry, field, parse_entry, parse_entries, parse_xauthority}

-- An entry as its file has it, all fields in bytes.
pub record WrittenEntry : Type 0 where
  pub family : ℕ
  pub address : Bytes
  pub number : Bytes
  pub name : Bytes
  pub cookie : Bytes

-- The format, in front of `rest`.
abbrev pub write16 : ℕ → Bytes → Bytes
write16 n rest = (n / 256 % 256) ∷ (n % 256) ∷ rest

abbrev pub write_field : Bytes → Bytes → Bytes
write_field value rest = write16 (length value) (value ++ rest)

abbrev pub write_entry : WrittenEntry → Bytes → Bytes
write_entry e rest =
    write16 e.family (
      write_field e.address (write_field e.number (write_field e.name (write_field e.cookie rest))))

abbrev pub write_entries : List WrittenEntry → Bytes → Bytes
write_entries [] rest = rest
write_entries (e ∷ es) rest = write_entry e (write_entries es rest)

-- The numbers that two bytes hold.
abbrev pub Fits : WrittenEntry → Type 0
Fits e =
    (e.family < 65536)
    × (length e.address < 65536)
    × (length e.number < 65536)
    × (length e.name < 65536)
    × (length e.cookie < 65536)

read16-write16 : (n : ℕ) → n < 65536 → n / 256 % 256 * 256 + n % 256 ≡ n
read16-write16 n l = omega arith

field-write_field :
    (value rest : Bytes)
    → length value < 65536
    → field (write_field value rest) ≡ some (value, rest)
unfolding field
field-write_field value rest l = rw (read16-write16 (length value) l) (
    rw (take-append value rest)
      (rw (drop-append value rest) (ground (arith, length-append value rest))))

length-write_field : (value rest : Bytes) → length rest < length (write_field value rest)
length-write_field value rest = omega (arith, length-append value rest)

length-write_entry : (e : WrittenEntry) (rest : Bytes) → length rest < length (write_entry e rest)
length-write_entry e rest =
    let b = write_field e.cookie rest in
    let c = write_field e.name b in
    let d = write_field e.number c in
    omega (
      arith,
      length-write_field e.cookie rest,
      length-write_field e.name b,
      length-write_field e.number c,
      length-write_field e.address d,
    )

module _ (lossy : Bytes → Text) where
  abbrev pub decoded : WrittenEntry → XauthEntry
  decoded e = record {
    family = e.family;
    address = e.address;
    number = lossy e.number;
    name = lossy e.name;
    cookie = e.cookie;
  }

  parse_entry-write_entry :
      (e : WrittenEntry) (rest : Bytes)
      → Fits e
      → parse_entry lossy (write_entry e rest) ≡ some (decoded e, rest)
  unfolding parse_entry
  parse_entry-write_entry e rest (f, a, m, n, c) =
      rw
        (field-write_field e.address
          (write_field e.number (write_field e.name (write_field e.cookie rest))) a)
        (rw (field-write_field e.number (write_field e.name (write_field e.cookie rest)) m) (
          rw (field-write_field e.name (write_field e.cookie rest) n)
            (rw (field-write_field e.cookie rest c) (rw (read16-write16 e.family f) refl))))

  parse_entries-write_entries :
      (fuel : ℕ) (es : List WrittenEntry) (rest : Bytes)
      → length (write_entries es rest) ≤ fuel
      → All Fits es
      → parse_entry lossy rest ≡ none
      → parse_entries lossy fuel (write_entries es rest) ≡ map decoded es
  unfolding parse_entries
  parse_entries-write_entries zero [] rest l h e = refl
  parse_entries-write_entries zero (e ∷ es) rest l h k = absurd (omega arith)
  parse_entries-write_entries (suc fuel) [] rest l h e = rw (e, parse_entries) refl
  parse_entries-write_entries (suc fuel) (e ∷ es) rest l h k =
      rw (parse_entry-write_entry e (write_entries es rest) h.0, parse_entries)
        (ap (λ t. decoded e ∷ t)
          (parse_entries-write_entries fuel es rest
            (omega (arith, length-write_entry e (write_entries es rest))) h.1 k))

  -- A file of entries whose family and lengths fit in two bytes, and then nothing or part of another entry,
  -- is read as these entries, all of them and in their order: the family, the address and the cookie as they
  -- were written, the number and the name as the texts that the decoding makes of their bytes.
  pub parse_xauthority-write_entries :
      (es : List WrittenEntry) (rest : Bytes)
      → All Fits es
      → parse_entry lossy rest ≡ none
      → parse_xauthority lossy (write_entries es rest) ≡ map decoded es
  unfolding parse_xauthority
  parse_xauthority-write_entries es rest =
      parse_entries-write_entries (length (write_entries es rest)) es rest (omega arith)
