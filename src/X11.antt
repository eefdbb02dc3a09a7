-- ===== src/X11.antt =====
-- X11 forwarding: src-tauri/src/x11_forward.rs. Here are the display, the Xauthority file and the
-- cookie; X11.Setup checks a connection's first bytes, and X11.Serve reads them off a channel.
pub mod Setup
pub mod Serve
pub mod Authority
use bifro_ssh.Common.{
  ℕ, ◌+◌, ◌*◌, ◌^◌, Bool, true, false, ◌&&◌, ◌||◌, Option, none, some, List, [], ◌∷◌, ◌++◌, find,
  if◌then◌else◌, ◌==◌, leb, length, take, drop, Text, Bytes, codes, text_eq, is_empty, starts_with,
  trim, split_once, rsplit_once, show, parse_below, parse_u16, strip_prefix, zero, suc,
}

abbrev pub protocol : Bytes
protocol = codes "MIT-MAGIC-COOKIE-1"

pub record Display : Type 0 where
  pub host : Option Text
  pub number : ℕ
  pub screen : ℕ

abbrev pub parse_u32 : Text → Option ℕ
parse_u32 = parse_below (2 ^ 32)

abbrev pub both : {A B : Type 0} → Option A → Option B → Option (A × B)
both (some a) (some b) = some (a, b)
both _ _ = none

-- The number and the screen.
abbrev pub parse_numbers : Text → Option (ℕ × ℕ)
parse_numbers rest = elim (split_once b'.' rest) [
  | none ↦ both (parse_u16 rest) (some 0)
  | some (n, sc) ↦ both (parse_u16 n) (parse_u32 sc)
]

-- `unix`, and a path, mean the socket of this machine.
abbrev display_of : Option Text → Option (ℕ × ℕ) → Option Display
display_of host none = none
display_of host (some (number, screen)) =
    some (record { host = host; number = number; screen = screen })

abbrev pub parse_host : Text → Option Text
parse_host host =
    if is_empty host || text_eq host (codes "unix") || starts_with (codes "/") host
    then none
    else some host

unfoldable pub parse_display : Text → Option Display
unfolding split_once rsplit_once strip_prefix parse_below trim
parse_display s = elim (rsplit_once b':' (trim s)) [
  | none ↦ none
  | some (host, rest) ↦ display_of (parse_host host) (parse_numbers rest)
]

abbrev pub or_empty : Option Text → Text
or_empty none = []
or_empty (some t) = t

-- `Display::name`.
unfoldable pub name_of : Display → Text
unfolding show
name_of d = or_empty d.host ++ (b':' ∷ (show d.number ++ (b'.' ∷ show d.screen)))

pub record XauthEntry : Type 0 where
  pub family : ℕ
  pub address : Bytes
  pub number : Text
  pub name : Text
  pub cookie : Bytes

abbrev family_local : ℕ
family_local = 256

abbrev family_wild : ℕ
family_wild = 65535

abbrev first_of : {A : Type 0} → Option A → Option A → Option A
first_of (some a) _ = some a
first_of none o = o

abbrev is_usable : Text → XauthEntry → Bool
is_usable number e = text_eq e.name protocol && (text_eq e.number number || e.family == family_wild)

abbrev is_for : Option Bytes → XauthEntry → Bool
is_for none e = false
is_for (some hostname) e = e.family == family_local && text_eq e.address hostname

abbrev filter : {A : Type 0} → (A → Bool) → List A → List A
filter p [] = []
filter p (x ∷ xs) = let rest = filter p xs in if p x then x ∷ rest else rest

abbrev cookie_of : Option XauthEntry → Option Bytes
cookie_of none = none
cookie_of (some e) = some e.cookie

unfoldable pub find_cookie : List XauthEntry → Display → Option Bytes → Option Bytes
unfolding show
find_cookie entries display hostname =
    let usable = filter (is_usable (show display.number)) entries in
    cookie_of (
      first_of (find (is_for hostname) usable) (
        first_of (find (λ e. e.family == family_wild) usable)
          (first_of (find (λ e. e.family == family_local) usable) (find (λ e. true) usable))))

-- A big-endian length, and as many bytes.
unfoldable pub field : Bytes → Option (Bytes × Bytes)
field (hi ∷ lo ∷ rest) =
    let n = hi * 256 + lo in if leb n (length rest) then some (take n rest, drop n rest) else none
field _ = none

infixl 5 ◌>>=◌
abbrev pub ◌>>=◌ : {A B : Type 0} → Option A → (A → Option B) → Option B
none >>= f = none
some a >>= f = f a

-- `lossy` is `String::from_utf8_lossy`.
module _ (lossy : Bytes → Text) where
  unfoldable pub parse_entry : Bytes → Option (XauthEntry × Bytes)
  unfolding field
  parse_entry (hi ∷ lo ∷ b) = do
    (address, b) ← field b
    (number, b) ← field b
    (name, b) ← field b
    (cookie, b) ← field b
    some (
      record {
        family = hi * 256 + lo;
        address = address;
        number = lossy number;
        name = lossy name;
        cookie = cookie;
      },
      b,
    )
  parse_entry _ = none

  -- An entry takes ten bytes at least, so as many rounds as there are bytes are enough.
  unfoldable pub parse_entries : ℕ → Bytes → List XauthEntry
  unfolding parse_entry
  parse_entries zero bytes = []
  parse_entries (suc fuel) bytes = elim (parse_entry bytes) [
    | none ↦ []
    | some (e, rest) ↦ e ∷ parse_entries fuel rest
  ]

  unfoldable pub parse_xauthority : Bytes → List XauthEntry
  unfolding parse_entries
  parse_xauthority bytes = parse_entries (length bytes) bytes
