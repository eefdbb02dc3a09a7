-- ===== src/Socks5/Same.antt =====
-- The comparison that looks at every byte is equality.
use Prim.Native.Nat.{bit_or, bit_xor, digits, differ, max, bit_or-bitwise, bit_xor-bitwise}
use bifro_ssh.Common.{
  ℕ, zero, suc, ◌/◌, ◌%◌, ◌≤◌, ◌≡◌, ◌↔◌, refl, sym, ap, ◌∙◌, true, [], ◌∷◌, arith, length, Bytes,
}
use bifro_ssh.Socks5.{differences, same}

differ-zero : (x y : ℕ) → differ x y ≡ 0 → x ≡ y
differ-zero zero y h = sym h
differ-zero (suc x) zero h = absurd (omega arith)
differ-zero (suc x) (suc y) h = ap suc (differ-zero x y h)

differ_self : (x : ℕ) → differ x x ≡ 0
differ_self zero = refl
differ_self (suc x) = differ_self x

xor_digits-zero : (n a b : ℕ) → a ≤ n → digits (λ d. d) differ n a b ≡ 0 → a ≡ b
xor_digits-zero zero zero b h e = sym e
xor_digits-zero zero (suc a) b h e = absurd (omega arith)
xor_digits-zero (suc n) zero b h e = sym e
xor_digits-zero (suc n) (suc a) b h e = omega (
  arith,
  xor_digits-zero n (suc a / 2) (b / 2) (omega arith) (omega arith),
  differ-zero (suc a % 2) (b % 2) (omega arith),
)

xor_digits_self : (n a : ℕ) → a ≤ n → digits (λ d. d) differ n a a ≡ 0
xor_digits_self zero zero h = refl
xor_digits_self zero (suc a) h = absurd (omega arith)
xor_digits_self (suc n) zero h = refl
xor_digits_self (suc n) (suc a) h =
    omega (arith, xor_digits_self n (suc a / 2) (omega arith), differ_self (suc a % 2))

or_digits-zero : (n a b : ℕ) → a ≤ n → digits (λ d. d) max n a b ≡ 0 → (a ≡ 0) × (b ≡ 0)
or_digits-zero zero zero b h e = (refl, e)
or_digits-zero zero (suc a) b h e = absurd (omega arith)
or_digits-zero (suc n) zero b h e = (refl, e)
or_digits-zero (suc n) (suc a) b h e =
    let (p, q) = or_digits-zero n (suc a / 2) (b / 2) (omega arith) (omega arith) in
    absurd (omega arith)

bit_xor-zero_iff : (a b : ℕ) → (bit_xor a b ≡ 0) ↔ (a ≡ b)
bit_xor-zero_iff a b = (
  λ h. xor_digits-zero a a b (omega arith) (sym (bit_xor-bitwise a b) ∙ h),
  λ e. ap (bit_xor a) (sym e) ∙ bit_xor-bitwise a a ∙ xor_digits_self a a (omega arith),
)

bit_or-zero : (a b : ℕ) → bit_or a b ≡ 0 → (a ≡ 0) × (b ≡ 0)
bit_or-zero a b h = or_digits-zero a a b (omega arith) (sym (bit_or-bitwise a b) ∙ h)

zero-bit_or : (b : ℕ) → bit_or 0 b ≡ b
zero-bit_or b = bit_or-bitwise 0 b

differences-acc : (acc : ℕ) (a b : Bytes) → differences acc a b ≡ 0 → acc ≡ 0
unfolding differences
differences-acc acc [] b h = h
differences-acc acc (x ∷ a) [] h = h
differences-acc acc (x ∷ a) (y ∷ b) h =
    (bit_or-zero acc (bit_xor x y) (differences-acc (bit_or acc (bit_xor x y)) a b h)).0

differences-eq : (acc : ℕ) (a b : Bytes) → length a ≡ length b → differences acc a b ≡ 0 → a ≡ b
unfolding differences
differences-eq acc [] [] l h = refl
differences-eq acc [] (y ∷ b) l h = absurd (omega arith)
differences-eq acc (x ∷ a) [] l h = absurd (omega arith)
differences-eq acc (x ∷ a) (y ∷ b) l h =
    let acc' = bit_or acc (bit_xor x y) in
    let (_, e) = bit_or-zero acc (bit_xor x y) (differences-acc acc' a b h) in
    cc ((bit_xor-zero_iff x y).0 e, differences-eq acc' a b (omega arith) h)

differences_self : (a : Bytes) → differences 0 a a ≡ 0
unfolding differences
differences_self [] = refl
differences_self (x ∷ a) =
    ap (λ n. differences n a a) (zero-bit_or (bit_xor x x) ∙ (bit_xor-zero_iff x x).1 refl)
    ∙ differences_self a

-- `same` answers true exactly on equal strings of bytes: going on past a difference loses nothing.
pub same_iff : (a b : Bytes) → (same a b ≡ true) ↔ (a ≡ b)
unfolding same
same_iff a b = (λ h. differences-eq 0 a b (ground arith) (ground arith), λ e. same_of_eq (sym e))
  where
    same_of_eq : b ≡ a → same a b ≡ true
    same_of_eq e = rw e (ground (arith, differences_self a))
