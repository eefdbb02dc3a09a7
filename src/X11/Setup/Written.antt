-- ===== src/X11/Setup/Written.antt =====
-- The setup that a client writes is the one that is accepted.
use bifro_ssh.Common.{
  ℕ, zero, suc, ◌+◌, ◌-◌, ◌<◌, ◌≡◌, refl, ap, ◌∙◌, Bool, true, false, Option, some, ◌++◌, arith,
  length, take, drop, Bytes, length-append, append_assoc, take-append,
}
use bifro_ssh.X11.{protocol}
use bifro_ssh.X11.Setup.{
  ready, pad4, Header, header, byte_order, read16, first16, second16, zeros, padded, new_setup,
  check_body, check_order, check_header, rewrite_setup,
}
use bifro_ssh.X11.Setup.Genuine.{check_body_of, taken, name_len, data_len}

read16-first16 : (msb : Bool) (n : ℕ) → n < 65536 → read16 msb (first16 msb n) (second16 msb n) ≡ n
read16-first16 true n l = omega arith
read16-first16 false n l = omega arith

length-zeros : (n : ℕ) → length (zeros n) ≡ n
length-zeros zero = refl
length-zeros (suc n) = ap suc (length-zeros n)

length-padded : (xs : Bytes) → length (padded xs) ≡ pad4 (length xs)
length-padded xs =
    let gap = pad4 (length xs) - length xs in
    omega (arith, length-append xs (zeros gap), length-zeros gap)

-- The header of a setup that carries `cookie`.
abbrev pub with_cookie : Bool → Header → Bytes → Header
with_cookie msb h cookie = record h {
  n0 = first16 msb (length protocol);
  n1 = second16 msb (length protocol);
  d0 = first16 msb (length cookie);
  d1 = second16 msb (length cookie);
}

check_body-written :
    (msb : Bool) (h : Header) (cookie rest : Bytes) (real : Option Bytes)
    → length cookie < 65536
    → check_body msb
        (with_cookie msb h cookie)
        (padded protocol ++ (padded cookie ++ rest))
        cookie
        real
      ≡ ready (new_setup msb h real) (32 + pad4 (length cookie))
unfolding new_setup
check_body-written msb h cookie rest real l =
    let gap = zeros (pad4 (length cookie) - length cookie) in
    let h' = with_cookie msb h cookie in
    let body = padded protocol ++ (padded cookie ++ rest) in
    let nl : name_len msb h' ≡ 18 = read16-first16 msb 18 (omega arith) in
    let dl : data_len msb h' ≡ length cookie = read16-first16 msb (length cookie) l in
    let end : 12 + taken msb h' ≡ 32 + pad4 (length cookie) = omega arith in
    check_body_of msb h' body cookie real
      (omega (arith, length-append (padded cookie) rest, length-padded cookie))
      (ap (λ m. take m body) nl)
      (ap (λ (m : ℕ). take (data_len msb h') (drop (pad4 m) body)) nl
        ∙ ap (λ m. take m (padded cookie ++ rest)) dl
        ∙ ap (take (length cookie)) (append_assoc cookie gap rest)
        ∙ take-append cookie (gap ++ rest))
    ∙ ap (ready (new_setup msb h real)) end

-- What is made for a cookie of less than 65536 bytes is accepted by the session that handed this cookie
-- out, in either byte order: the setup with the real cookie takes its place, exactly, and what follows is
-- left for the relay.
pub rewrite_setup-new_setup :
    (msb : Bool) (h : Header) (cookie rest : Bytes) (real : Option Bytes)
    → byte_order h.mark ≡ some msb
    → length cookie < 65536
    → rewrite_setup (new_setup msb h (some cookie) ++ rest) cookie real
      ≡ ready (new_setup msb h real) (length (new_setup msb h (some cookie)))
unfolding rewrite_setup header check_header check_order new_setup
rewrite_setup-new_setup msb h cookie rest real o l =
    ap
      (λ m.
        check_order m (with_cookie msb h cookie) (padded protocol ++ (padded cookie ++ rest)) cookie
          real)
      o
    ∙ check_body-written msb h cookie rest real l
    ∙ ap (ready (new_setup msb h real)) (omega (arith, length-padded cookie))
