-- ===== src/X11/Setup/Genuine.antt =====
-- What a setup that is accepted has carried, and what more bytes change.
use bifro_ssh.Common.{
  ℕ, ◌+◌, ◌≤◌, ◌<◌, ◌≡◌, refl, sym, ap, ◌∙◌, Bool, true, false, Option, none, ◌++◌, ◌∷◌, [], arith,
  length, take, drop, Bytes, text_eq_iff, take-append_le, drop-append_le, length-take_le,
  length-append, length-drop,
}
use bifro_ssh.X11.{protocol}
use bifro_ssh.X11.Setup.{
  incomplete, ready, pad4, Header, header, header_bytes, read16, new_setup, check_body, check_order,
  check_header, rewrite_setup,
}

-- Every list of bytes is too short for a header, or is one with a body.
pub by_header :
    (P : Bytes → Type 0)
    → ((buf : Bytes) → length buf < 12 → header buf ≡ none → P buf)
    → ((h : Header) (body : Bytes) → P (header_bytes h body))
    → (buf : Bytes) → P buf
unfolding header
by_header P short whole [] = short [] (omega arith) refl
by_header P short whole (mark ∷ []) = short (mark ∷ []) (omega arith) refl
by_header P short whole (mark ∷ v1 ∷ []) = short (mark ∷ v1 ∷ []) (omega arith) refl
by_header P short whole (mark ∷ v1 ∷ v2 ∷ []) = short (mark ∷ v1 ∷ v2 ∷ []) (omega arith) refl
by_header P short whole (mark ∷ v1 ∷ v2 ∷ v3 ∷ []) =
    short (mark ∷ v1 ∷ v2 ∷ v3 ∷ []) (omega arith) refl
by_header P short whole (mark ∷ v1 ∷ v2 ∷ v3 ∷ v4 ∷ []) =
    short (mark ∷ v1 ∷ v2 ∷ v3 ∷ v4 ∷ []) (omega arith) refl
by_header P short whole (mark ∷ v1 ∷ v2 ∷ v3 ∷ v4 ∷ v5 ∷ []) =
    short (mark ∷ v1 ∷ v2 ∷ v3 ∷ v4 ∷ v5 ∷ []) (omega arith) refl
by_header P short whole (mark ∷ v1 ∷ v2 ∷ v3 ∷ v4 ∷ v5 ∷ n0 ∷ []) =
    short (mark ∷ v1 ∷ v2 ∷ v3 ∷ v4 ∷ v5 ∷ n0 ∷ []) (omega arith) refl
by_header P short whole (mark ∷ v1 ∷ v2 ∷ v3 ∷ v4 ∷ v5 ∷ n0 ∷ n1 ∷ []) =
    short (mark ∷ v1 ∷ v2 ∷ v3 ∷ v4 ∷ v5 ∷ n0 ∷ n1 ∷ []) (omega arith) refl
by_header P short whole (mark ∷ v1 ∷ v2 ∷ v3 ∷ v4 ∷ v5 ∷ n0 ∷ n1 ∷ d0 ∷ []) =
    short (mark ∷ v1 ∷ v2 ∷ v3 ∷ v4 ∷ v5 ∷ n0 ∷ n1 ∷ d0 ∷ []) (omega arith) refl
by_header P short whole (mark ∷ v1 ∷ v2 ∷ v3 ∷ v4 ∷ v5 ∷ n0 ∷ n1 ∷ d0 ∷ d1 ∷ []) =
    short (mark ∷ v1 ∷ v2 ∷ v3 ∷ v4 ∷ v5 ∷ n0 ∷ n1 ∷ d0 ∷ d1 ∷ []) (omega arith) refl
by_header P short whole (mark ∷ v1 ∷ v2 ∷ v3 ∷ v4 ∷ v5 ∷ n0 ∷ n1 ∷ d0 ∷ d1 ∷ u0 ∷ []) =
    short (mark ∷ v1 ∷ v2 ∷ v3 ∷ v4 ∷ v5 ∷ n0 ∷ n1 ∷ d0 ∷ d1 ∷ u0 ∷ []) (omega arith) refl
by_header P short whole (mark ∷ v1 ∷ v2 ∷ v3 ∷ v4 ∷ v5 ∷ n0 ∷ n1 ∷ d0 ∷ d1 ∷ u0 ∷ u1 ∷ body) =
    whole
      (record {
        mark = mark;
        v1 = v1;
        v2 = v2;
        v3 = v3;
        v4 = v4;
        v5 = v5;
        n0 = n0;
        n1 = n1;
        d0 = d0;
        d1 = d1;
        u0 = u0;
        u1 = u1;
      })
      body

abbrev pub name_len : Bool → Header → ℕ
name_len msb h = read16 msb h.n0 h.n1

abbrev pub data_len : Bool → Header → ℕ
data_len msb h = read16 msb h.d0 h.d1

-- How many bytes of the body the setup takes.
abbrev pub taken : Bool → Header → ℕ
taken msb h = pad4 (name_len msb h) + pad4 (data_len msb h)

abbrev pub name_part : Bool → Header → Bytes → Bytes
name_part msb h body = take (name_len msb h) body

abbrev pub cookie_part : Bool → Header → Bytes → Bytes
cookie_part msb h body = take (data_len msb h) (drop (pad4 (name_len msb h)) body)

name_part-append :
    (msb : Bool) (h : Header) (body more : Bytes)
    → taken msb h ≤ length body
    → name_part msb h (body ++ more) ≡ name_part msb h body
name_part-append msb h body more l = take-append_le (name_len msb h) body more (omega arith)

cookie_part-append :
    (msb : Bool) (h : Header) (body more : Bytes)
    → taken msb h ≤ length body
    → cookie_part msb h (body ++ more) ≡ cookie_part msb h body
cookie_part-append msb h body more l =
    let at = pad4 (name_len msb h) in
    rw (drop-append_le at body more (omega arith))
      (take-append_le (data_len msb h) (drop at body) more (omega (arith, length-drop at body)))

pub check_body-short :
    (msb : Bool) (h : Header) (body fake : Bytes) (real : Option Bytes)
    → length body < taken msb h
    → check_body msb h body fake real ≡ incomplete
unfolding check_body
check_body-short msb h body fake real l = ground arith

pub check_body-append :
    (msb : Bool) (h : Header) (body more fake : Bytes) (real : Option Bytes)
    → taken msb h ≤ length body
    → check_body msb h (body ++ more) fake real ≡ check_body msb h body fake real
unfolding check_body
check_body-append msb h body more fake real l =
    rw (name_part-append msb h body more l)
      (rw (cookie_part-append msb h body more l) (ground (arith, length-append body more)))

pub check_body-ready :
    (msb : Bool) (h : Header) (body fake : Bytes) (real : Option Bytes) (s : Bytes) (c : ℕ)
    → check_body msb h body fake real ≡ ready s c
    → (taken msb h ≤ length body)
      × (name_part msb h body ≡ protocol)
      × (cookie_part msb h body ≡ fake)
      × (new_setup msb h real ≡ s)
      × (12 + taken msb h ≡ c)
unfolding check_body
check_body-ready msb h body fake real s c e = ground (
  arith,
  (text_eq_iff (name_part msb h body) protocol).0,
  (text_eq_iff (cookie_part msb h body) fake).0,
)

pub check_body_of :
    (msb : Bool) (h : Header) (body fake : Bytes) (real : Option Bytes)
    → taken msb h ≤ length body
    → name_part msb h body ≡ protocol
    → cookie_part msb h body ≡ fake
    → check_body msb h body fake real ≡ ready (new_setup msb h real) (12 + taken msb h)
unfolding check_body
check_body_of msb h body fake real l n d = ground (
  arith,
  (text_eq_iff (name_part msb h body) protocol).1 n,
  (text_eq_iff (cookie_part msb h body) fake).1 d,
)

-- What a connection has carried whose setup takes `c` of its bytes.
abbrev pub Carries : Bytes → ℕ → Bytes → Type 0
Carries fake c buf =
    (take 18 (drop 12 buf) ≡ protocol)
    × (take (length fake) (drop 32 buf) ≡ fake)
    × (c ≡ 32 + pad4 (length fake))
    × (c ≤ length buf)

check_body-Carries :
    (msb : Bool) (h : Header) (body fake : Bytes) (real : Option Bytes) (s : Bytes) (c : ℕ)
    → check_body msb h body fake real ≡ ready s c
    → Carries fake c (header_bytes h body)
check_body-Carries msb h body fake real s c e =
    let (l, n, d, _, k) = check_body-ready msb h body fake real s c e in
    let nl : name_len msb h ≡ 18 =
      sym (length-take_le (name_len msb h) body (omega arith)) ∙ ap length n in
    let room : data_len msb h ≤ length (drop (pad4 (name_len msb h)) body) =
      omega (arith, length-drop (pad4 (name_len msb h)) body) in
    let dl : data_len msb h ≡ length fake =
      sym (length-take_le (data_len msb h) (drop (pad4 (name_len msb h)) body) room)
      ∙ ap length d in
    (
      rw (sym nl) n,
      rw (sym dl) (ap (λ (m : ℕ). take (data_len msb h) (drop (pad4 m) body)) (sym nl) ∙ d),
      omega arith,
      omega arith,
    )

-- A setup is passed on only when the connection has carried the name of the protocol and the cookie that
-- the session handed out, in full and where the protocol puts them, and no more than it has carried is
-- taken away.
pub rewrite_setup-Carries :
    (buf fake : Bytes) (real : Option Bytes) (s : Bytes) (c : ℕ)
    → rewrite_setup buf fake real ≡ ready s c
    → Carries fake c buf
unfolding rewrite_setup header check_header check_order
rewrite_setup-Carries buf fake real s c =
    by_header (λ (b : Bytes). rewrite_setup b fake real ≡ ready s c → Carries fake c b)
      (λ b l n e. ground (arith, n))
      (λ h body e. ground (
        arith,
        check_body-Carries true h body fake real s c,
        check_body-Carries false h body fake real s c,
      ))
      buf
