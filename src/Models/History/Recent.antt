-- ===== src/Models/History/Recent.antt =====
-- What a host's history is after `remember_commands` of src-tauri/src/models.rs.
use bifro_ssh.Common.{
  ℕ, zero, suc, ◌≤◌, ◌≡◌, ◌≢◌, refl, Bool, true, false, some, List, [], ◌∷◌, ◌++◌, length, take,
  get_elem?, if◌then◌else◌, All, Text, text_eq, text_eq_iff, arith,
}
use bifro_ssh.SshConfig.Chain.Linked.{Distinct}
use bifro_ssh.Models.History.{history_cap, without, remember_onto, remember_commands}

-- What holds of all commands holds of those that stay.
without-All : (P : Text → Type 0) (c : Text) (cs : List Text) → All P cs → All P (without c cs)
unfolding without
without-All P c [] h = tt
without-All P c (d ∷ cs) (h, hs) =
    elim (text_eq d c) as (λ b. All P (if b then without c cs else d ∷ without c cs)) [
      | true ↦ without-All P c cs hs
      | false ↦ (h, without-All P c cs hs)
    ]

without-gone : (c : Text) (cs : List Text) → All (λ y. y ≢ c) (without c cs)
unfolding without
without-gone c [] = tt
without-gone c (d ∷ cs) = by_test (text_eq d c) refl (without-gone c cs)
  where
    by_test :
        (b : Bool)
        → text_eq d c ≡ b
        → All (λ y. y ≢ c) (without c cs)
        → All (λ y. y ≢ c) (if b then without c cs else d ∷ without c cs)
    by_test true e h = h
    by_test false e h = (λ q. cc (e, (text_eq_iff d c).1 q), h)

without-Distinct : (c : Text) (cs : List Text) → Distinct cs → Distinct (without c cs)
unfolding without
without-Distinct c [] h = tt
without-Distinct c (d ∷ cs) (h, hs) =
    elim (text_eq d c) as (λ b. Distinct (if b then without c cs else d ∷ without c cs)) [
      | true ↦ without-Distinct c cs hs
      | false ↦ (without-All (λ y. y ≢ d) c cs h, without-Distinct c cs hs)
    ]

onto-Distinct :
    (commands history : List Text) → Distinct history → Distinct (remember_onto history commands)
unfolding remember_onto
onto-Distinct [] history h = h
onto-Distinct (c ∷ commands) history h =
    onto-Distinct commands (c ∷ without c history)
      (without-gone c history, without-Distinct c history h)

take-All : (P : Text → Type 0) (n : ℕ) (xs : List Text) → All P xs → All P (take n xs)
take-All P zero xs h = tt
take-All P (suc n) [] h = tt
take-All P (suc n) (x ∷ xs) (h, hs) = (h, take-All P n xs hs)

take-Distinct : (n : ℕ) (xs : List Text) → Distinct xs → Distinct (take n xs)
take-Distinct zero xs h = tt
take-Distinct (suc n) [] h = tt
take-Distinct (suc n) (x ∷ xs) (h, hs) = (take-All (λ y. y ≢ x) n xs h, take-Distinct n xs hs)

length-take_le : (n : ℕ) (xs : List Text) → length (take n xs) ≤ n
length-take_le zero xs = omega arith
length-take_le (suc n) [] = omega arith
length-take_le (suc n) (x ∷ xs) = omega (arith, length-take_le n xs)

-- The last command that was run stands in front.
onto-last :
    (commands history : List Text) (c : Text)
    → get_elem? (remember_onto history (commands ++ c ∷ [])) 0 ≡ some c
unfolding remember_onto
onto-last [] history c = refl
onto-last (d ∷ commands) history c = onto-last commands (d ∷ without d history) c

take-first :
    (n : ℕ) (xs : List Text) (c : Text)
    → get_elem? xs 0 ≡ some c
    → get_elem? (take (suc n) xs) 0 ≡ some c
take-first n [] c h = h
take-first n (x ∷ xs) c h = h

-- However many commands are remembered, for a history without repeats: it still has none, it holds at
-- most 500, and the command that was run last stands first.
pub remember_commands-Distinct :
    (history commands : List Text) (c : Text)
    → Distinct history
    → let after = remember_commands history (commands ++ c ∷ []) in
      Distinct after × (length after ≤ history_cap) × (get_elem? after 0 ≡ some c)
unfolding remember_commands
remember_commands-Distinct history commands c h =
    let all = remember_onto history (commands ++ c ∷ []) in
    (
      take-Distinct history_cap all (onto-Distinct (commands ++ c ∷ []) history h),
      length-take_le history_cap all,
      take-first 499 all c (onto-last commands history c),
    )
