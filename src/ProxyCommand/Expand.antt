-- ===== src/ProxyCommand/Expand.antt =====
-- What reaches the shell: the template with plain words in it.
use bifro_ssh.Common.{
  ℕ, ◌≡◌, ◌≢◌, ◌↔◌, refl, sym, ap, ◌∙◌, ◌⊎◌, inl, inr, Bool, false, ◌||◌, none, Option-cases, List,
  [], ◌∷◌, ◌++◌, append-nil, append_assoc, arith, Bool-cases, ◌==◌, ==_iff, find, All, Text, codes,
  starts_with, show, Result, ok, >>=-eq-ok,
}
use bifro_ssh.ProxyCommand.{
  Word, host_word, user_word, ExpandError, plain_word, is_unsafe, token, expand_onto, expand,
}

-- One word, which no shell reads anything into and no program takes for an option.
abbrev pub IsPlainWord : Text → Type 0
IsPlainWord w = (starts_with (codes "-") w ≡ false) × All (λ c. is_unsafe c ≡ false) w

find-none : (p : ℕ → Bool) (s : Text) → find p s ≡ none → All (λ c. p c ≡ false) s
find-none p [] h = tt
find-none p (c ∷ s) h = elim (Bool-cases (p c)) [
  | inl e ↦ absurd (ground arith)
  | inr e ↦ (e, find-none p s (ground arith))
]

find-none_of : (p : ℕ → Bool) (s : Text) → All (λ c. p c ≡ false) s → find p s ≡ none
find-none_of p [] h = refl
find-none_of p (c ∷ s) (h, k) = ground (arith, find-none_of p s k)

plain_word-ok :
    (what : Word) (value w : Text) → plain_word what value ≡ ok w → IsPlainWord value × (w ≡ value)
unfolding plain_word
plain_word-ok what value w h = elim (Option-cases (find is_unsafe value)) [
  | inl e ↦ ((ground arith, find-none is_unsafe value e), ground arith)
  | inr (c, e) ↦ absurd (ground arith)
]

plain_word-of : (what : Word) (value : Text) → IsPlainWord value → plain_word what value ≡ ok value
unfolding plain_word
plain_word-of what value (d, h) = ground (arith, find-none_of is_unsafe value h)

-- The template read as what it is made of.
pub data Piece : Type 0 where
  copy : ℕ → Piece
  host_token port_token user_token : Piece

module _ (host : Text) (port : ℕ) (user : Text) where
  abbrev pub piece_text : Piece → Text
  piece_text (copy c) = c ∷ []
  piece_text host_token = host
  piece_text port_token = show port
  piece_text user_token = user

  abbrev pub pieces_text : List Piece → Text
  pieces_text [] = []
  pieces_text (p ∷ ps) = piece_text p ++ pieces_text ps

  -- Where a piece brings in the host or the user, that is a plain word.
  abbrev pub IsSafe : Piece → Type 0
  IsSafe (copy c) = Unit
  IsSafe host_token = IsPlainWord host
  IsSafe port_token = Unit
  IsSafe user_token = IsPlainWord user

-- `template` is spelled by these pieces: each token as its letter, a percent sign doubled.
pub data Spells : Text → List Piece → Type 0 where
  end : Spells [] []
  char :
      {c : ℕ} {s : Text} {ps : List Piece} → c ≢ b'%' → Spells s ps → Spells (c ∷ s) (copy c ∷ ps)
  percent :
      {c d : ℕ} {s : Text} {ps : List Piece}
      → c ≡ b'%'
      → d ≡ b'%'
      → Spells s ps
      → Spells (c ∷ d ∷ s) (copy d ∷ ps)
  host :
      {c d : ℕ} {s : Text} {ps : List Piece}
      → c ≡ b'%'
      → (d ≡ b'h') ⊎ (d ≡ b'n')
      → Spells s ps
      → Spells (c ∷ d ∷ s) (host_token ∷ ps)
  port :
      {c d : ℕ} {s : Text} {ps : List Piece}
      → c ≡ b'%'
      → d ≡ b'p'
      → Spells s ps
      → Spells (c ∷ d ∷ s) (port_token ∷ ps)
  user :
      {c d : ℕ} {s : Text} {ps : List Piece}
      → c ≡ b'%'
      → d ≡ b'r'
      → Spells s ps
      → Spells (c ∷ d ∷ s) (user_token ∷ ps)

module _ (host_name : Text) (port_number : ℕ) (user_name : Text) where
  abbrev run : Text → Text → Result ExpandError Text
  run = expand_onto host_name port_number user_name

  abbrev text : List Piece → Text
  text = pieces_text host_name port_number user_name

  abbrev Safe : Piece → Type 0
  Safe = IsSafe host_name port_number user_name

  abbrev Read : Text → Text → Text → Type 0
  Read out s r = (ps : List Piece) × Spells s ps × All Safe ps × (r ≡ out ++ text ps)

  -- What a token puts in, and the piece that it is.
  token-ok :
      (c t : ℕ) (w : Text)
      → c ≡ b'%'
      → token host_name port_number user_name t ≡ ok w
      → (p : Piece) × (w ≡ piece_text host_name port_number user_name p)
        × Safe p
        × ((s : Text) (ps : List Piece) → Spells s ps → Spells (c ∷ t ∷ s) (p ∷ ps))
  unfolding token
  token-ok c t w e h = elim (Bool-cases (t == b'h' || t == b'n')) [
    | inl a ↦
        let (safe, same) = plain_word-ok host_word host_name w (rw a at h) in
        (host_token, same, safe, λ s ps d. host e (ground arith) d)
    | inr a ↦ elim (Bool-cases (t == b'p')) [
      | inl b ↦ (port_token, ground arith, tt, λ s ps d. port e (ground arith) d)
      | inr b ↦ elim (Bool-cases (t == b'r')) [
        | inl f ↦
            let (safe, same) = plain_word-ok user_word user_name w (rw (a, b, f) at h) in
            (user_token, same, safe, λ s ps d. user e (ground arith) d)
        | inr f ↦ elim (Bool-cases (t == b'%')) [
          | inl g ↦ (copy t, ground arith, tt, λ s ps d. percent e (ground arith) d)
          | inr g ↦ absurd (ground arith)
        ]
      ]
    ]
  ]

  expand_onto-Read : (s out r : Text) → run out s ≡ ok r → Read out s r
  unfolding expand_onto
  expand_onto-Read [] out r h = ([], end, tt, ground (arith, append-nil out))
  expand_onto-Read (c ∷ []) out r h = (copy c ∷ [], char (ground arith) end, (tt, tt), ground arith)
  expand_onto-Read (c ∷ t ∷ s) out r h = elim (Bool-cases (c == b'%')) [
    | inl e ↦
        let (w, h1, h2) =
          >>=-eq-ok (token host_name port_number user_name t) (λ w. run (out ++ w) s) (rw e at h) in
        let (p, pe, safe, spell) = token-ok c t w (ground arith) h1 in
        let (ps, d, k, q) = expand_onto-Read s (out ++ w) r h2 in
        (
          p ∷ ps,
          spell s ps d,
          (safe, k),
          q ∙ append_assoc out w (text ps) ∙ ap (λ x. out ++ (x ++ text ps)) pe,
        )
    | inr e ↦
        let (ps, d, k, q) = expand_onto-Read (t ∷ s) (out ++ c ∷ []) r (rw e at h) in
        (copy c ∷ ps, char (ground arith) d, (tt, k), q ∙ append_assoc out (c ∷ []) (text ps))
  ]

  -- What a token is replaced by, the other way round.
  expand_onto-token :
      (c t : ℕ) (s out w : Text)
      → c ≡ b'%'
      → token host_name port_number user_name t ≡ ok w
      → run out (c ∷ t ∷ s) ≡ run (out ++ w) s
  unfolding expand_onto
  expand_onto-token c t s out w e h = rw ((==_iff c b'%').1 e, h)

  expand_onto-char : (c : ℕ) (s out : Text) → c ≢ b'%' → run out (c ∷ s) ≡ run (out ++ c ∷ []) s
  unfolding expand_onto
  expand_onto-char c [] out ne = ground arith
  expand_onto-char c (t ∷ s) out ne = ground arith

  host_lem :
      (t : ℕ)
      → (t ≡ b'h') ⊎ (t ≡ b'n')
      → IsPlainWord host_name
      → token host_name port_number user_name t ≡ ok host_name
  unfolding token
  host_lem t e h = ground (arith, plain_word-of host_word host_name h)

  port_lem : (t : ℕ) → t ≡ b'p' → token host_name port_number user_name t ≡ ok (show port_number)
  unfolding token
  port_lem t e = ground arith

  user_lem :
      (t : ℕ)
      → t ≡ b'r'
      → IsPlainWord user_name
      → token host_name port_number user_name t ≡ ok user_name
  unfolding token
  user_lem t e h = ground (arith, plain_word-of user_word user_name h)

  percent_lem : (t : ℕ) → t ≡ b'%' → token host_name port_number user_name t ≡ ok (t ∷ [])
  unfolding token
  percent_lem t e = ground arith

  Read-expand_onto :
      {s : Text} {ps : List Piece} (out : Text)
      → Spells s ps
      → All Safe ps
      → run out s ≡ ok (out ++ text ps)
  Read-expand_onto out end k = unfold expand_onto in rw append-nil
  Read-expand_onto out (char {c} {s} {ps} ne d) (_, k) =
      expand_onto-char c s out ne
      ∙ Read-expand_onto (out ++ c ∷ []) d k
      ∙ ap ok (append_assoc out (c ∷ []) (text ps))
  Read-expand_onto out (percent {c} {d = t} {s} {ps} e e' d) (_, k) =
      expand_onto-token c t s out (t ∷ []) e (percent_lem t e')
      ∙ Read-expand_onto (out ++ t ∷ []) d k
      ∙ ap ok (append_assoc out (t ∷ []) (text ps))
  Read-expand_onto out (host {c} {d = t} {s} {ps} e e' d) (h, k) =
      expand_onto-token c t s out host_name e (host_lem t e' h)
      ∙ Read-expand_onto (out ++ host_name) d k
      ∙ ap ok (append_assoc out host_name (text ps))
  Read-expand_onto out (port {c} {d = t} {s} {ps} e e' d) (h, k) =
      expand_onto-token c t s out (show port_number) e (port_lem t e')
      ∙ Read-expand_onto (out ++ show port_number) d k
      ∙ ap ok (append_assoc out (show port_number) (text ps))
  Read-expand_onto out (user {c} {d = t} {s} {ps} e e' d) (h, k) =
      expand_onto-token c t s out user_name e (user_lem t e' h)
      ∙ Read-expand_onto (out ++ user_name) d k
      ∙ ap ok (append_assoc out user_name (text ps))

  -- `expand` succeeds exactly on a template that is spelled by pieces, with plain words wherever one
  -- brings in the host or the user, and the result is the texts of the pieces, one after the other.
  pub expand_iff :
      (command r : Text)
      → (expand command host_name port_number user_name ≡ ok r) ↔ (
          (ps : List Piece) × Spells command ps
          × All (IsSafe host_name port_number user_name) ps
          × (r ≡ pieces_text host_name port_number user_name ps))
  unfolding expand
  expand_iff command r =
      (expand_onto-Read command [] r, λ q. Read-expand_onto [] q.1 q.2 ∙ ap ok (sym q.3))
