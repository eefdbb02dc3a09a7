-- ===== src/Common/Trim.antt =====
-- Laws of `trim`.
use Prim.Native.Nat.{ℕ}
use mathlib.Core.Path.{◌≡◌, refl, sym, ap, ◌∙◌}
use mathlib.Core.Logic.{◌⊎◌, inl, inr}
use mathlib.Core.Bool.{Bool, true, false}
use mathlib.Core.List.{[], ◌∷◌, ◌++◌, reverse, reverse-append, reverse-reverse, append_assoc}
use native.Mathlib.Omega.{arith}
use bifro_ssh.Common.Tests.{◌==◌, Bool-cases}
use bifro_ssh.Common.Lists.{All}
use bifro_ssh.Common.Str.{Text, is_whitespace, trim_start_by, trim_end_by, trim_by, trim}
use bifro_ssh.Common.Split.{carriage_return, strip_cr}

module _ (p : ℕ → Bool) where
  trim_start_by_idem : (s : Text) → trim_start_by p (trim_start_by p s) ≡ trim_start_by p s
  unfolding trim_start_by
  trim_start_by_idem [] = refl
  trim_start_by_idem (c ∷ s) = ground (arith, trim_start_by_idem s)

  trim_start_by_concat :
      (c : ℕ) (s : Text)
      → ((trim_start_by p s ≡ []) × (p c ≡ true) × (trim_start_by p (s ++ c ∷ []) ≡ []))
        ⊎ (trim_start_by p (s ++ c ∷ []) ≡ trim_start_by p s ++ c ∷ [])
  unfolding trim_start_by
  trim_start_by_concat c [] = elim (Bool-cases (p c)) [
    | inl e ↦ inl (refl, e, rw e)
    | inr e ↦ inr (rw e)
  ]
  trim_start_by_concat c (d ∷ s) = ground (arith, trim_start_by_concat c s)

  trim_start_by-keep : (c : ℕ) (s : Text) → p c ≡ false → trim_start_by p (c ∷ s) ≡ c ∷ s
  unfolding trim_start_by
  trim_start_by-keep c s e = rw e

  trim_start_by-skip : (c : ℕ) (s : Text) → p c ≡ true → trim_start_by p (c ∷ s) ≡ trim_start_by p s
  unfolding trim_start_by
  trim_start_by-skip c s e = rw e

  pub trim_by_concat : (c : ℕ) (s : Text) → p c ≡ true → trim_by p (s ++ c ∷ []) ≡ trim_by p s
  unfolding trim_by
  trim_by_concat c s e = elim (trim_start_by_concat c s) [
    | inl (e1, _, e2) ↦ rw (e1, e2)
    | inr e1 ↦ rw (
      e1,
      reverse-append (trim_start_by p s) (c ∷ []),
      trim_start_by-skip c (reverse (trim_start_by p s)) e,
    )
  ]

  trim_end_by-cons : (c : ℕ) (s : Text) → p c ≡ false → trim_end_by p (c ∷ s) ≡ c ∷ trim_end_by p s
  trim_end_by-cons c s e = elim (trim_start_by_concat c (reverse s)) [
    | inl (_, h, _) ↦ absurd (ground arith)
    | inr h ↦
        rw (reverse-append (c ∷ []) s, h, reverse-append (trim_start_by p (reverse s)) (c ∷ []))
  ]

  trim_start_by_cases :
      (s : Text)
      → (trim_start_by p s ≡ [])
        ⊎ ((c : ℕ) × (t : Text) × (trim_start_by p s ≡ c ∷ t) × (p c ≡ false))
  unfolding trim_start_by
  trim_start_by_cases [] = inl refl
  trim_start_by_cases (c ∷ s) = elim (Bool-cases (p c)) [
    | inl e ↦ rw e (trim_start_by_cases s)
    | inr e ↦ inr (c, s, rw e, e)
  ]

  trim_end_by_idem : (s : Text) → trim_end_by p (trim_end_by p s) ≡ trim_end_by p s
  trim_end_by_idem s =
      rw (reverse-reverse (trim_start_by p (reverse s)), trim_start_by_idem (reverse s))

  pub trim_by_idem : (s : Text) → trim_by p (trim_by p s) ≡ trim_by p s
  unfolding trim_by
  trim_by_idem s = elim (trim_start_by_cases s) [
    | inl e ↦ rw e (unfold trim_start_by in refl)
    | inr (c, t, e, h) ↦ rw (
      e,
      trim_end_by-cons c t h,
      trim_start_by-keep c (trim_end_by p t) h,
      trim_end_by-cons c (trim_end_by p t) h,
      trim_end_by_idem t,
    )
  ]

pub trim_idem : (s : Text) → trim (trim s) ≡ trim s
unfolding trim
trim_idem = trim_by_idem is_whitespace

strip_cr_cases :
    (s : Text)
    → (strip_cr s ≡ s) ⊎ ((t : Text) × (s ≡ t ++ carriage_return ∷ []) × (strip_cr s ≡ t))
unfolding strip_cr
strip_cr_cases [] = inl refl
strip_cr_cases (c ∷ []) = elim (Bool-cases (c == carriage_return)) [
  | inl e ↦ inr ([], ground arith, rw e)
  | inr e ↦ inl (rw e)
]
strip_cr_cases (c ∷ d ∷ s) = elim (strip_cr_cases (d ∷ s)) [
  | inl e ↦ inl (rw e)
  | inr (t, e, h) ↦ inr (c ∷ t, rw e, rw h)
]

-- A carriage return at the end is white space, so trimming makes no difference of it.
pub trim-strip_cr : (s : Text) → trim (strip_cr s) ≡ trim s
unfolding trim is_whitespace
trim-strip_cr s = elim (strip_cr_cases s) [
  | inl e ↦ rw e
  | inr (t, e, h) ↦
      rw h
        (sym (ap (trim_by is_whitespace) e ∙ trim_by_concat is_whitespace carriage_return t refl))
]

-- A text whose first and last characters are no white space is left whole.
module _ (p : ℕ → Bool) where
  All-concat_last :
      (c : ℕ) (w : Text)
      → All (λ d. p d ≡ false) (c ∷ w)
      → (v : Text) × (d : ℕ) × (c ∷ w ≡ v ++ d ∷ []) × (p d ≡ false)
  All-concat_last c [] (h, _) = ([], c, refl, h)
  All-concat_last c (d ∷ w) (h, k) = let (v, e, q, r) = All-concat_last d w k in (c ∷ v, e, rw q, r)

  trim_end_by_concat : (c : ℕ) (s : Text) → p c ≡ false → trim_end_by p (s ++ c ∷ []) ≡ s ++ c ∷ []
  trim_end_by_concat c s h = rw (
    reverse-append s (c ∷ []),
    trim_start_by-keep p c (reverse s) h,
    reverse-append (c ∷ []) (reverse s),
    reverse-reverse s,
  )

  pub trim_by_keep :
      (a c : ℕ) (s w : Text)
      → p a ≡ false
      → All (λ d. p d ≡ false) (c ∷ w)
      → trim_by p (a ∷ (s ++ (c ∷ w))) ≡ a ∷ (s ++ (c ∷ w))
  unfolding trim_by
  trim_by_keep a c s w h k =
      let (v, d, e, r) = All-concat_last c w k in
      rw (trim_start_by-keep p a (s ++ (c ∷ w)) h) (
        ap (trim_end_by p) (ap (λ t. a ∷ (s ++ t)) e ∙ sym (ap (◌∷◌ a) (append_assoc s v (d ∷ []))))
        ∙ trim_end_by_concat d (a ∷ (s ++ v)) r
        ∙ ap (◌∷◌ a) (append_assoc s v (d ∷ []))
        ∙ sym (ap (λ t. a ∷ (s ++ t)) e))
