-- ===== src/X11/Setup/Settled.antt =====
-- A setup that is decided stays so, whatever follows.
use bifro_ssh.Common.{
  ℕ, ◌<◌, ◌≡◌, ◌⊎◌, inl, inr, refl, ap, Bool, Option, none, some, ◌++◌, arith, length, Bytes,
}
use native.Mathlib.Decide.{dec_le}
use bifro_ssh.X11.Setup.{
  incomplete, ready, Header, header, header_bytes, byte_order, check_body, check_order,
  check_header, rewrite_setup,
}
use bifro_ssh.X11.Setup.Genuine.{
  by_header, taken, check_body-short, check_body-append, check_body-ready, rewrite_setup-Carries,
}

-- Either more is needed, and then what is there is less than a setup takes that begins so; or more bytes
-- change nothing.
abbrev pub Settles : Bytes → Option Bytes → Bytes → Bytes → Type 0
Settles fake real more buf =
    ((rewrite_setup buf fake real ≡ incomplete)
      × ((s : Bytes) (c : ℕ) → rewrite_setup (buf ++ more) fake real ≡ ready s c → length buf < c))
    ⊎ (rewrite_setup (buf ++ more) fake real ≡ rewrite_setup buf fake real)

short-Settles :
    (fake : Bytes) (real : Option Bytes) (more buf : Bytes)
    → length buf < 12
    → header buf ≡ none
    → Settles fake real more buf
unfolding rewrite_setup check_header
short-Settles fake real more buf l n = inl (
  ap (λ o. check_header o fake real) n,
  λ s c e. omega (arith, (rewrite_setup-Carries (buf ++ more) fake real s c e).2),
)

check_body-Settles :
    (msb : Bool) (fake : Bytes) (real : Option Bytes) (more : Bytes) (h : Header) (body : Bytes)
    → ((check_body msb h body fake real ≡ incomplete)
        × ((s : Bytes) (c : ℕ)
            → check_body msb h (body ++ more) fake real ≡ ready s c
            → length (header_bytes h body) < c))
      ⊎ (check_body msb h (body ++ more) fake real ≡ check_body msb h body fake real)
check_body-Settles msb fake real more h body = elim (dec_le (taken msb h) (length body)) [
  | yes l ↦ inr (check_body-append msb h body more fake real l)
  | no n ↦ inl (
    check_body-short msb h body fake real (omega arith),
    λ s c e. omega (arith, (check_body-ready msb h (body ++ more) fake real s c e).4),
  )
]

check_order-Settles :
    (o : Option Bool) (fake : Bytes) (real : Option Bytes) (more : Bytes) (h : Header)
    (body : Bytes)
    → ((check_order o h body fake real ≡ incomplete)
        × ((s : Bytes) (c : ℕ)
            → check_order o h (body ++ more) fake real ≡ ready s c
            → length (header_bytes h body) < c))
      ⊎ (check_order o h (body ++ more) fake real ≡ check_order o h body fake real)
unfolding check_order
check_order-Settles none fake real more h body = inr refl
check_order-Settles (some msb) fake real more h body = check_body-Settles msb fake real more h body

whole-Settles :
    (fake : Bytes) (real : Option Bytes) (more : Bytes) (h : Header) (body : Bytes)
    → Settles fake real more (header_bytes h body)
unfolding rewrite_setup header check_header
whole-Settles fake real more h body = check_order-Settles (byte_order h.mark) fake real more h body

pub rewrite_setup-Settles :
    (fake : Bytes) (real : Option Bytes) (more buf : Bytes) → Settles fake real more buf
rewrite_setup-Settles fake real more =
    by_header (Settles fake real more) (short-Settles fake real more) (whole-Settles fake real more)
