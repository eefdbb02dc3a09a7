-- ===== src/KnownHosts/Wildcard.antt =====
-- `glob_match` of src-tauri/src/hostkeys.rs, and `wildcard_match` of src-tauri/src/sshconfig.rs.
-- The indices into the pattern and the text are the parts of the two lists that are still unread.
pub mod Decides
use bifro_ssh.Common.{
  ℕ, zero, suc, ◌+◌, ◌*◌, ◌≡◌, Bool, true, false, ◌&&◌, ◌||◌, not, Option, none, some, [], ◌∷◌,
  ◌==◌, if◌then◌else◌, length, all, Text,
}

abbrev pub star : ℕ
star = b'*'

-- One character of the pattern takes one of the text, before stars are looked at.
unfoldable pub takes : ℕ → ℕ → Bool
takes c d = c == b'?' || c == d

-- `star` and `back`: the pattern behind the last star, and the text at which it was tried.
abbrev pub Back : Type 0
Back = Option (Text × Text)

-- The backtracking branches: the last star takes one more character.
unfoldable pub retry : Back → (Text → Text → Back → Option Bool) → Option Bool
retry none next = some false
retry (some (p, [])) next = none
retry (some (p, d ∷ t)) next = next p t (some (p, t))

-- The loop, with fuel: `none` is out of fuel, or a slice past the end, and does not happen.
unfoldable pub glob_loop : ℕ → Text → Text → Back → Option Bool
unfolding retry
glob_loop zero p t back = none
glob_loop (suc f) p [] back = some (all (λ c. c == star) p)
glob_loop (suc f) [] (d ∷ t) back = retry back (glob_loop f)
glob_loop (suc f) (c ∷ p) (d ∷ t) back =
    let one = glob_loop f p t back in
    let run = glob_loop f p (d ∷ t) (some (p, d ∷ t)) in
    let again = retry back (glob_loop f) in
    if takes c d then one else if c == star then run else again

abbrev pub glob_fuel : Text → Text → ℕ
glob_fuel p t = (length t + 1) * (length p + 1)

abbrev pub answer : Option Bool → Bool
answer none = false
answer (some b) = b

unfoldable pub glob_match : Text → Text → Bool
unfolding glob_loop
glob_match p t = answer (glob_loop (glob_fuel p t) p t none)

-- What the wildcards mean, with no search order in it.
pub data Matches : Text → Text → Type 0 where
  stop : Matches [] []
  char : {c d : ℕ} {p t : Text} → takes c d ≡ true → Matches p t → Matches (c ∷ p) (d ∷ t)
  skip : {c : ℕ} {p t : Text} → c ≡ b'*' → Matches p t → Matches (c ∷ p) t
  more : {c d : ℕ} {p t : Text} → c ≡ b'*' → Matches (c ∷ p) t → Matches (c ∷ p) (d ∷ t)
