-- ===== src/SshConfig/Hosts.antt =====
-- What `parse` collects, and that it stays in range.
use bifro_ssh.Common.{
  ℕ, zero, suc, ◌<◌, ◌≤◌, ◌≡◌, refl, inl, inr, false, Option-cases, List, [], ◌∷◌, ◌++◌, Bool-cases,
  Text, length, length-append, All, All-append, arith, split_whitespace, text_eq, codes,
}
use bifro_ssh.SshConfig.{
  World, SshConfigHost, is_pattern, split_directive, Parse, new_host, update_at, update_all,
  set_directive, add_aliases, apply_directive, parse_onto,
}

-- A host is named, not a pattern.
abbrev pub IsNamed : SshConfigHost → Type 0
IsNamed h = is_pattern h.alias ≡ false

-- The hosts are named, and the places are places of hosts.
abbrev pub IsParse : Parse → Type 0
IsParse s = All IsNamed s.hosts × All (λ i. i < length s.hosts) s.current

grow : (n m : ℕ) (is : List ℕ) → n ≤ m → All (λ i. i < n) is → All (λ i. i < m) is
grow n m [] h k = tt
grow n m (i ∷ is) h (k, l) = (omega arith, grow n m is h l)

-- What changes one host changes no name.
module _ (f : SshConfigHost → SshConfigHost)
    (keeps : (h : SshConfigHost) → (f h).alias ≡ h.alias) where
  update_at-keeps :
      (i : ℕ) (hs : List SshConfigHost)
      → All IsNamed hs
      → All IsNamed (update_at i f hs) × (length (update_at i f hs) ≡ length hs)
  unfolding update_at
  update_at-keeps i [] h = (tt, refl)
  update_at-keeps zero (x ∷ hs) (h, k) = ((rw (keeps x) h, k), refl)
  update_at-keeps (suc i) (x ∷ hs) (h, k) =
      let (a, b) = update_at-keeps i hs k in ((h, a), omega arith)

  update_all-keeps :
      (is : List ℕ) (hs : List SshConfigHost)
      → All IsNamed hs
      → All IsNamed (update_all f is hs) × (length (update_all f is hs) ≡ length hs)
  unfolding update_all
  update_all-keeps [] hs h = (h, refl)
  update_all-keeps (i ∷ is) hs h =
      let (a, b) = update_at-keeps i hs h in
      let (c, d) = update_all-keeps is (update_at i f hs) a in (c, omega arith)

set_directive-alias :
    (world : World) (key value : Text) (h : SshConfigHost)
    → (set_directive world key value h).alias ≡ h.alias
unfolding set_directive
set_directive-alias world key value h = ground arith

add_alias-IsParse :
    (alias : Text) (s : Parse)
    → is_pattern alias ≡ false
    → IsParse s
    → IsParse (record {
      hosts = s.hosts ++ new_host alias ∷ [];
      current = s.current ++ length s.hosts ∷ [];
    })
add_alias-IsParse alias s n (h, c) =
    let len = length-append s.hosts (new_host alias ∷ []) in
    (
      All-append IsNamed s.hosts (new_host alias ∷ []) h (n, tt),
      All-append (λ i. i < length (s.hosts ++ new_host alias ∷ [])) s.current (length s.hosts ∷ [])
          (grow (length s.hosts) (length (s.hosts ++ new_host alias ∷ [])) s.current (omega arith)
            c)
          (omega arith, tt),
    )

add_aliases-IsParse : (names : List Text) (s : Parse) → IsParse s → IsParse (add_aliases names s)
unfolding add_aliases
add_aliases-IsParse [] s p = p
add_aliases-IsParse (alias ∷ rest) s p = elim (Bool-cases (is_pattern alias)) [
  | inl e ↦ rw (e, add_aliases) (add_aliases-IsParse rest s p)
  | inr e ↦ rw (e, add_aliases) (add_aliases-IsParse rest _ (add_alias-IsParse alias s e p))
]

apply_directive-IsParse :
    (world : World) (key value : Text) (s : Parse)
    → IsParse s
    → IsParse (apply_directive world key value s)
unfolding apply_directive
apply_directive-IsParse world key value s (h, c) =
    elim (Bool-cases (text_eq key (codes "include"))) [
      | inl a ↦ rw a (h, c)
      | inr a ↦ elim (Bool-cases (text_eq key (codes "host"))) [
        | inl b ↦ rw (a, b) (add_aliases-IsParse (split_whitespace value) _ (h, tt))
        | inr b ↦ elim (Bool-cases (text_eq key (codes "match"))) [
          | inl d ↦ rw (a, b, d) (h, tt)
          | inr d ↦
              let (x, y) =
                update_all-keeps (set_directive world key value)
                  (set_directive-alias world key value) s.current s.hosts h in
              rw (a, b, d)
                (
                  x,
                  grow (length s.hosts)
                      (length (update_all (set_directive world key value) s.current s.hosts))
                      s.current (omega arith) c,
                )
        ]
      ]
    ]

-- Where it was so before, then however far a config is read on, each place that the next directive
-- is written to is the place of a host, so no index is out of range, and no host's name is a
-- pattern.
pub parse_onto-IsParse :
    (world : World) (raws : List Text) (s : Parse) → IsParse s → IsParse (parse_onto world raws s)
unfolding parse_onto
parse_onto-IsParse world [] s p = p
parse_onto-IsParse world (line ∷ rest) s p = elim (Option-cases (split_directive world line)) [
  | inl e ↦ rw (e, parse_onto) (parse_onto-IsParse world rest s p)
  | inr ((key, value), e) ↦
      rw (e, parse_onto)
        (parse_onto-IsParse world rest (apply_directive world key value s)
          (apply_directive-IsParse world key value s p))
]
