-- ===== src/KnownHosts/Edit/Order.antt =====
-- The order in which host key algorithms are asked for.
use mathlib.Core.List.{Perm, perm_middle}
use mathlib.Core.List.Perm
use bifro_ssh.Common.{
  ◌≡◌, refl, inl, inr, Bool, true, not, List, [], ◌∷◌, ◌++◌, Bool-cases, All, Text,
}
use bifro_ssh.KnownHosts.Edit.{Algorithm, is_known, only, key_order}

only-All : (p : Algorithm → Bool) (xs : List Algorithm) → All (λ a. p a ≡ true) (only p xs)
only-All p [] = tt
only-All p (x ∷ xs) = elim (Bool-cases (p x)) [
  | inl e ↦ rw e (e, only-All p xs)
  | inr e ↦ rw e (only-All p xs)
]

only-perm :
    (p : Algorithm → Bool) (xs : List Algorithm) → Perm (only p xs ++ only (λ a. not (p a)) xs) xs
only-perm p [] = Perm.refl []
only-perm p (x ∷ xs) = elim (Bool-cases (p x)) [
  | inl e ↦ rw e (Perm.cons x (only-perm p xs))
  | inr e ↦ rw e (
      Perm.trans (perm_middle (only p xs) (only (λ a. not (p a)) xs))
        (Perm.cons x (only-perm p xs)))
]

-- The algorithms asked for are those of russh but SHA-1, each as often as there; the ones of a key
-- type that is already stored for the host come first.
pub key_order-first :
    (defaults : List Algorithm) (known : List Text)
    → (first rest : List Algorithm) × (key_order defaults known ≡ first ++ rest)
      × All (λ a. is_known known a ≡ true) first
      × All (λ a. not (is_known known a) ≡ true) rest
      × Perm (first ++ rest) (only (λ a. not a.rsa_sha1) defaults)
unfolding key_order
key_order-first defaults known =
    let offered = only (λ a. not a.rsa_sha1) defaults in
    let p = is_known known in
    (
      only p offered,
      only (λ a. not (p a)) offered,
      refl,
      only-All p offered,
      only-All (λ a. not (p a)) offered,
      only-perm p offered,
    )
