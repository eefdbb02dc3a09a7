-- ===== src/KnownHosts/Line/Written.antt =====
-- `format_line` is read back by `split_line`, and its host field names its own host.
use bifro_ssh.Common.{
  ℕ, ◌≡◌, ◌≢◌, refl, sym, ap, ◌∙◌, inl, inr, Bool, true, false, ◌&&◌, not, none, some, [], ◌∷◌,
  ◌++◌, append_assoc, arith, ◌==◌, Bool-cases, Text, codes, is_whitespace, strip_prefix, trim,
  words_onto, show, show-IsDigit, IsDigit, All, All-append,
}
use bifro_ssh.Common.Trim.{trim_by_keep}
use bifro_ssh.Common.Split.Laws.{IsWord, words_onto-word, words_onto-last, split_single}
use bifro_ssh.KnownHosts.Wildcard.{glob_match, takes, Matches, stop, char, star}
use bifro_ssh.KnownHosts.Wildcard.Decides.{glob_match_iff}
use bifro_ssh.KnownHosts.Line.Matching.{host_matches-eq-names}
use bifro_ssh.KnownHosts.Line.{Codec, host_spec, split_line, host_matches}

-- A character with no meaning in a known_hosts line.
abbrev pub is_plain : ℕ → Bool
is_plain c =
    not (is_whitespace c)
    && not (c == b'#')
    && not (c == b'@')
    && not (c == b'!')
    && not (c == b'|')
    && not (c == b',')
    && not (c == b'*')

abbrev pub IsHostName : Text → Type 0
IsHostName host = (host ≢ []) × All (λ c. is_plain c ≡ true) host

module _ (P Q : ℕ → Type 0) (imp : (c : ℕ) → P c → Q c) where
  All-weaken : (s : Text) → All P s → All Q s
  All-weaken [] h = tt
  All-weaken (c ∷ s) (h, k) = (imp c h, All-weaken s k)

digit-is_plain : (c : ℕ) → IsDigit c → is_plain c ≡ true
unfolding is_whitespace
digit-is_plain c h = ground arith

bracket_plain : (is_plain b'[' ≡ true) × (is_plain b']' ≡ true) × (is_plain b':' ≡ true)
unfolding is_whitespace
bracket_plain = (refl, refl, refl)

pub host_spec-IsHostName :
    (host : Text) (port : ℕ) → IsHostName host → IsHostName (host_spec host port)
unfolding host_spec
host_spec-IsHostName host port (ne, h) = elim (Bool-cases (port == 22)) [
  | inl e ↦ rw e (ne, h)
  | inr e ↦ rw e (
    λ x. cc,
    (
      bracket_plain.0,
      All-append (λ c. is_plain c ≡ true) host (b']' ∷ b':' ∷ show port) h
          (
            bracket_plain.1,
            (
              bracket_plain.2,
              All-weaken IsDigit (λ c. is_plain c ≡ true) digit-is_plain (show port)
                  (show-IsDigit port),
            ),
          ),
    ),
  )
]

plain-word : (c : ℕ) → is_plain c ≡ true → is_whitespace c ≡ false
plain-word c h = ground arith

plain-no_star : (c : ℕ) → is_plain c ≡ true → c ≢ star
plain-no_star c h = ground arith

plain-no_comma : (c : ℕ) → is_plain c ≡ true → c ≢ b','
plain-no_comma c h = ground arith

takes_self : (c : ℕ) → takes c c ≡ true
unfolding takes
takes_self c = ground arith

Matches_self : (s : Text) → Matches s s
Matches_self [] = stop
Matches_self (c ∷ s) = char {c = c} {d = c} (takes_self c) (Matches_self s)

first_plain :
    (c : ℕ) (s : Text)
    → is_plain c ≡ true
    → (strip_prefix (codes "|1|") (c ∷ s) ≡ none)
      × (strip_prefix (codes "!") (c ∷ s) ≡ none)
      × (strip_prefix (codes "#") (c ∷ s) ≡ none)
      × (strip_prefix (codes "@") (c ∷ s) ≡ none)
unfolding strip_prefix
first_plain c s h = (ground arith, ground arith, ground arith, ground arith)

glob_match_self : (s : Text) → All (λ c. is_plain c ≡ true) s → glob_match s s ≡ true
glob_match_self s h =
    (glob_match_iff s s (All-weaken (λ c. is_plain c ≡ true) (λ c. c ≢ star) plain-no_star s h)).1
      (Matches_self s)

-- A field that is one plain name names that host.
pub host_matches_self : (codec : Codec) (s : Text) → IsHostName s → host_matches codec s s ≡ true
host_matches_self codec [] (ne, h) = absurd (ne refl)
host_matches_self codec (c ∷ s) (ne, h) =
    let (hashed, negated, _, _) = first_plain c s h.0 in
    let whole =
      split_single b',' (c ∷ s)
        (All-weaken (λ d. is_plain d ≡ true) (λ d. d ≢ b',') plain-no_comma (c ∷ s) h) in
    let same = glob_match_self (c ∷ s) h in
    host_matches-eq-names codec (c ∷ s) (c ∷ s) hashed ∙ rw whole (ground arith)

-- A line as it is written: three words with a space between them.
abbrev pub three_words : Text → Text → Text → Text
three_words a b c = a ++ (b' ' ∷ (b ++ (b' ' ∷ c)))

IsFullWord : Text → Type 0
IsFullWord w = (w ≢ []) × IsWord w

words_onto-three :
    (a c e : ℕ) (b d f : Text)
    → IsWord (a ∷ b)
    → IsWord (c ∷ d)
    → IsWord (e ∷ f)
    → words_onto [] (three_words (a ∷ b) (c ∷ d) (e ∷ f)) ≡ (a ∷ b) ∷ (c ∷ d) ∷ (e ∷ f) ∷ []
words_onto-three a c e b d f h k l =
    words_onto-word a b ((c ∷ d) ++ (b' ' ∷ (e ∷ f))) h
    ∙ ap (◌∷◌ (a ∷ b)) (words_onto-word c d (e ∷ f) k ∙ ap (◌∷◌ (c ∷ d)) (words_onto-last e f l))

trim-three :
    (a c e : ℕ) (b d f : Text)
    → IsWord (a ∷ b)
    → IsWord (e ∷ f)
    → trim (three_words (a ∷ b) (c ∷ d) (e ∷ f)) ≡ three_words (a ∷ b) (c ∷ d) (e ∷ f)
trim-three a c e b d f h l =
    let front = b ++ (b' ' ∷ ((c ∷ d) ++ (b' ' ∷ []))) in
    let e1 = shape b (c ∷ d) (e ∷ f) in
    ap (λ t. trim (a ∷ t)) e1
    ∙ unfold trim in trim_by_keep is_whitespace a e front f h.0 l ∙ ap (◌∷◌ a) (sym e1)
  where
    shape :
        (x y z : Text) → x ++ (b' ' ∷ (y ++ (b' ' ∷ z))) ≡ (x ++ (b' ' ∷ (y ++ (b' ' ∷ [])))) ++ z
    shape x y z = sym (
        append_assoc x (b' ' ∷ (y ++ (b' ' ∷ []))) z
        ∙ ap (λ t. x ++ (b' ' ∷ t)) (append_assoc y (b' ' ∷ []) z))

-- The line of a host is read back: no marker, its host, and the key's text.
pub split_line-three_words :
    (host algo b64 : Text)
    → IsHostName host
    → algo ≢ []
    → IsWord algo
    → b64 ≢ []
    → IsWord b64
    → split_line (three_words host algo b64)
      ≡ some (record { marker = none; hosts = host; b64 = b64 })
split_line-three_words [] algo b64 (ne, h) ka k la l = absurd (ne refl)
split_line-three_words (a ∷ b) [] b64 (ne, h) ka k la l = absurd (ka refl)
split_line-three_words (a ∷ b) (c ∷ d) [] (ne, h) ka k la l = absurd (la refl)
split_line-three_words (a ∷ b) (c ∷ d) (e ∷ f) (ne, h) ka k la l =
    let host_word =
      All-weaken (λ x. is_plain x ≡ true) (λ x. is_whitespace x ≡ false) plain-word (a ∷ b) h in
    let (_, _, comment, marker) = first_plain a (b ++ (b' ' ∷ ((c ∷ d) ++ (b' ' ∷ (e ∷ f))))) h.0 in
    let (_, _, _, unmarked) = first_plain a b h.0 in
    let words = words_onto-three a c e b d f host_word k l in
    unfold split_line in rw (trim-three a c e b d f host_word l, comment) (rw words (rw unmarked))
