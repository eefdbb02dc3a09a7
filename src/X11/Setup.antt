-- ===== src/X11/Setup.antt =====
-- The first bytes of a forwarded connection: `rewrite_setup` of src-tauri/src/x11_forward.rs.
pub mod Genuine
pub mod Settled
pub mod Written
use bifro_ssh.Common.{
  ℕ, zero, suc, ◌+◌, ◌-◌, ◌*◌, ◌/◌, ◌%◌, Bool, true, false, ◌&&◌, Option, none, some, [], ◌∷◌, ◌++◌,
  if◌then◌else◌, ◌==◌, ltb, length, take, drop, Bytes, text_eq,
}
use bifro_ssh.X11.{protocol}

pub data Refusal : Type 0 where
  not_x11 no_cookie : Refusal

pub data Setup : Type 0 where
  incomplete : Setup
  refused : Refusal → Setup
  ready : Bytes → ℕ → Setup

-- `(n + 3) & !3`.
abbrev pub pad4 : ℕ → ℕ
pad4 n = (n + 3) / 4 * 4

-- The first twelve bytes: the mark of the byte order, five that are passed on, the two lengths, and two
-- more that are passed on.
pub record Header : Type 0 where
  pub mark : ℕ
  pub v1 : ℕ
  pub v2 : ℕ
  pub v3 : ℕ
  pub v4 : ℕ
  pub v5 : ℕ
  pub n0 : ℕ
  pub n1 : ℕ
  pub d0 : ℕ
  pub d1 : ℕ
  pub u0 : ℕ
  pub u1 : ℕ

unfoldable pub header : Bytes → Option (Header × Bytes)
header (mark ∷ v1 ∷ v2 ∷ v3 ∷ v4 ∷ v5 ∷ n0 ∷ n1 ∷ d0 ∷ d1 ∷ u0 ∷ u1 ∷ body) = some (
  record {
    mark = mark;
    v1 = v1;
    v2 = v2;
    v3 = v3;
    v4 = v4;
    v5 = v5;
    n0 = n0;
    n1 = n1;
    d0 = d0;
    d1 = d1;
    u0 = u0;
    u1 = u1;
  },
  body,
)
header _ = none

abbrev pub header_bytes : Header → Bytes → Bytes
header_bytes h body =
    h.mark ∷ h.v1 ∷ h.v2 ∷ h.v3 ∷ h.v4 ∷ h.v5 ∷ h.n0 ∷ h.n1 ∷ h.d0 ∷ h.d1 ∷ h.u0 ∷ h.u1 ∷ body

-- Whether the first byte of a number is its high one.
abbrev pub byte_order : ℕ → Option Bool
byte_order mark = if mark == b'B' then some true else if mark == b'l' then some false else none

abbrev pub read16 : Bool → ℕ → ℕ → ℕ
read16 true a b = a * 256 + b
read16 false a b = b * 256 + a

-- The first and the second byte of `v as u16`.
abbrev pub first16 : Bool → ℕ → ℕ
first16 true v = v / 256 % 256
first16 false v = v % 256

abbrev pub second16 : Bool → ℕ → ℕ
second16 true v = v % 256
second16 false v = v / 256 % 256

abbrev pub zeros : ℕ → Bytes
zeros zero = []
zeros (suc n) = 0 ∷ zeros n

abbrev pub padded : Bytes → Bytes
padded xs = xs ++ zeros (pad4 (length xs) - length xs)

abbrev pub name_for : Option Bytes → Bytes
name_for none = []
name_for (some _) = protocol

abbrev pub cookie_for : Option Bytes → Bytes
cookie_for none = []
cookie_for (some cookie) = cookie

-- The setup with another name and cookie.
unfoldable pub new_setup : Bool → Header → Option Bytes → Bytes
new_setup msb h real =
    let name = name_for real in
    let cookie = cookie_for real in
    header_bytes
      (record h {
        n0 = first16 msb (length name);
        n1 = second16 msb (length name);
        d0 = first16 msb (length cookie);
        d1 = second16 msb (length cookie);
      })
      (padded name ++ padded cookie)

unfoldable pub check_body : Bool → Header → Bytes → Bytes → Option Bytes → Setup
unfolding new_setup
check_body msb h body fake real =
    let name_len = read16 msb h.n0 h.n1 in
    let data_len = read16 msb h.d0 h.d1 in
    if ltb (length body) (pad4 name_len + pad4 data_len)
    then incomplete
    else if text_eq (take name_len body) protocol
        && text_eq (take data_len (drop (pad4 name_len) body)) fake
    then ready (new_setup msb h real) (12 + pad4 name_len + pad4 data_len)
    else refused no_cookie

-- By the order that the first byte names.
unfoldable pub check_order : Option Bool → Header → Bytes → Bytes → Option Bytes → Setup
unfolding check_body
check_order none h body fake real = refused not_x11
check_order (some msb) h body fake real = check_body msb h body fake real

unfoldable pub check_header : Option (Header × Bytes) → Bytes → Option Bytes → Setup
unfolding check_order
check_header none fake real = incomplete
check_header (some (h, body)) fake real = check_order (byte_order h.mark) h body fake real

unfoldable pub rewrite_setup : Bytes → Bytes → Option Bytes → Setup
unfolding header check_header
rewrite_setup buf fake real = check_header (header buf) fake real
