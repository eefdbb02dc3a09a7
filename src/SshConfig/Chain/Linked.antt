-- ===== src/SshConfig/Chain/Linked.antt =====
-- Which chains are linked, and how.
use mathlib.Core.List.{reverse, reverse-append}
use mathlib.Core.Path.{subst}
use bifro_ssh.Common.{
  ◌≡◌, ◌≢◌, refl, sym, ap, ◌∙◌, inl, inr, true, false, Bool-cases, Option, some, Option-cases, List,
  [], ◌∷◌, ◌++◌, map, append_assoc, append-nil, arith, Text, text_eq, text_eq_iff, All, All-append,
}
use bifro_ssh.SshConfig.Chain.{has_id, hop_ids, none_twice, links_from, chain_links}

some_inj : {A : Type 0} {a b : A} → some a ≡ some b → a ≡ b
some_inj h = cc

-- No two are equal.
abbrev pub Distinct : List Text → Type 0
Distinct [] = Unit
Distinct (x ∷ xs) = All (λ y. y ≢ x) xs × Distinct xs

has_id-All : (x : Text) (xs : List Text) → has_id x xs ≡ false → All (λ y. y ≢ x) xs
has_id-All x [] h = tt
has_id-All x (y ∷ xs) h = elim (Bool-cases (text_eq y x)) [
  | inl e ↦ absurd (ground arith)
  | inr e ↦ (λ q. cc (e, (text_eq_iff y x).1 q), has_id-All x xs (ground arith))
]

has_id-of_All : (x : Text) (xs : List Text) → All (λ y. y ≢ x) xs → has_id x xs ≡ false
has_id-of_All x [] h = refl
has_id-of_All x (y ∷ xs) (h, k) = elim (Bool-cases (text_eq y x)) [
  | inl e ↦ absurd (h ((text_eq_iff y x).0 e))
  | inr e ↦ ground (arith, has_id-of_All x xs k)
]

pub Distinct-concat :
    (x : Text) (xs : List Text) → Distinct xs → All (λ y. y ≢ x) xs → Distinct (xs ++ x ∷ [])
Distinct-concat x [] d h = (tt, tt)
Distinct-concat x (y ∷ xs) (k, d) (h, hs) =
    (All-append (λ z. z ≢ y) xs (x ∷ []) k (λ e. h (sym e), tt), Distinct-concat x xs d hs)

-- What stands before a place is another server.
Distinct-before : (x : Text) (xs ys : List Text) → Distinct (xs ++ x ∷ ys) → All (λ y. y ≢ x) xs
Distinct-before x [] ys d = tt
Distinct-before x (y ∷ xs) ys (k, d) = (λ e. later xs k (sym e), Distinct-before x xs ys d)
  where
    later : (zs : List Text) → All (λ z. z ≢ y) (zs ++ x ∷ ys) → x ≢ y
    later [] (h, _) = h
    later (z ∷ zs) (_, h) = later zs h

none_twice-Distinct :
    (seen ids : List Text) → Distinct seen → none_twice seen ids ≡ true → Distinct (seen ++ ids)
unfolding none_twice
none_twice-Distinct seen [] d h = rw append-nil d
none_twice-Distinct seen (id ∷ ids) d h = elim (Bool-cases (has_id id seen)) [
  | inl e ↦ absurd (cc (rw e at h))
  | inr e ↦
      let once = rw e at h in
      let after =
        none_twice-Distinct (seen ++ id ∷ []) ids (Distinct-concat id seen d (has_id-All id seen e))
          once in
      rw append_assoc at after
]

none_twice-of_Distinct :
    (seen ids : List Text) → Distinct (seen ++ ids) → none_twice seen ids ≡ true
unfolding none_twice
none_twice-of_Distinct seen [] d = refl
none_twice-of_Distinct seen (id ∷ ids) d =
    rw (has_id-of_All id seen (Distinct-before id seen ids d))
      (none_twice-of_Distinct (seen ++ id ∷ []) ids (rw append_assoc d))

hop_ids-some :
    (by_alias : Text → Option Text) (hops ids : List Text)
    → hop_ids by_alias hops ≡ some ids
    → map by_alias hops ≡ map some ids
unfolding hop_ids
hop_ids-some by_alias [] [] h = refl
hop_ids-some by_alias [] (id ∷ ids) h = cc
hop_ids-some by_alias (a ∷ hops) ids h = elim (Option-cases (by_alias a)) [
  | inl e ↦ absurd (cc (rw (e, hop_ids) at h))
  | inr (id, e) ↦ elim (Option-cases (hop_ids by_alias hops)) [
    | inl f ↦ absurd (cc (rw (e, f, hop_ids) at h))
    | inr (rest, f) ↦
        let tail = hop_ids-some by_alias hops rest f in
        let whole : id ∷ rest ≡ ids = some_inj (rw (e, f, hop_ids) at h) in
        cc (e, tail, ap (map some) whole)
  ]
]

hop_ids-of_map :
    (by_alias : Text → Option Text) (hops ids : List Text)
    → map by_alias hops ≡ map some ids
    → hop_ids by_alias hops ≡ some ids
unfolding hop_ids
hop_ids-of_map by_alias [] [] h = refl
hop_ids-of_map by_alias [] (id ∷ ids) h = cc
hop_ids-of_map by_alias (a ∷ hops) [] h = cc
hop_ids-of_map by_alias (a ∷ hops) (id ∷ ids) h =
    let e : by_alias a ≡ some id = cc in
    let f : map by_alias hops ≡ map some ids = cc in
    rw (e, hop_ids-of_map by_alias hops ids f, hop_ids)

links_from-to : (reached : Text) (ids : List Text) → map (λ l. l.1) (links_from reached ids) ≡ ids
unfolding links_from
links_from-to reached [] = refl
links_from-to reached (id ∷ ids) = ap (◌∷◌ id) (links_from-to id ids)

-- Each link starts where the one before it led.
links_from-starts :
    (reached last : Text) (ids : List Text)
    → map (λ l. l.0) (links_from reached (ids ++ last ∷ [])) ≡ reached ∷ ids
unfolding links_from
links_from-starts reached last [] = refl
links_from-starts reached last (id ∷ ids) = ap (◌∷◌ reached) (links_from-starts id last ids)

-- The links of a chain, the hops of which are saved as `ids`: they lead from the server to the last
-- hop, from each hop to the one before it, and none starts at the first.
abbrev pub IsChain : Text → List Text → List (Text × Text) → Type 0
IsChain server_id [] links = ⊥
IsChain server_id (first ∷ later) links =
    (map (λ l. l.0) links ≡ server_id ∷ reverse later)
    × (map (λ l. l.1) links ≡ reverse (first ∷ later))

links_from-IsChain :
    (server_id first : Text) (later : List Text)
    → IsChain server_id (first ∷ later) (links_from server_id (reverse (first ∷ later)))
links_from-IsChain server_id first later = (
  ap (λ r. map (λ l. l.0) (links_from server_id r)) (reverse-append (first ∷ []) later)
      ∙ links_from-starts server_id first (reverse later),
  links_from-to server_id (reverse (first ∷ later)),
)

-- A chain is linked only where every hop is saved, and no server comes twice, the target included;
-- its links then lead from the target through the hops, from the last one to the first.
pub chain_links-IsChain :
    (server_id : Text) (hops : List Text) (by_alias : Text → Option Text)
    (links : List (Text × Text))
    → chain_links server_id hops by_alias ≡ some links
    → (ids : List Text) × (map by_alias hops ≡ map some ids)
      × Distinct (server_id ∷ ids)
      × IsChain server_id ids links
unfolding chain_links
chain_links-IsChain server_id [] by_alias links h = cc
chain_links-IsChain server_id (a ∷ hops) by_alias links h =
    elim (Option-cases (hop_ids by_alias (a ∷ hops))) [
      | inl e ↦ absurd (cc (rw (e, chain_links) at h))
      | inr (ids, e) ↦ elim (Bool-cases (none_twice (server_id ∷ []) ids)) [
        | inl n ↦
            let found = hop_ids-some by_alias (a ∷ hops) ids e in
            let is_links : links_from server_id (reverse ids) ≡ links =
              some_inj (rw (e, n, chain_links) at h) in
            (
              ids,
              found,
              none_twice-Distinct (server_id ∷ []) ids (tt, tt) n,
              chain_of ids found links is_links,
            )
        | inr n ↦ absurd (cc (rw (e, n, chain_links) at h))
      ]
    ]
  where
    chain_of :
        (ids : List Text)
        → map by_alias (a ∷ hops) ≡ map some ids
        → (ls : List (Text × Text)) → links_from server_id (reverse ids) ≡ ls
        → IsChain server_id ids ls
    chain_of [] q ls p = absurd cc
    chain_of (first ∷ later) q ls p =
        subst (IsChain server_id (first ∷ later)) p (links_from-IsChain server_id first later)

-- A chain with a hop is linked where every hop is saved and no server comes twice.
pub chain_links_total :
    (server_id : Text) (hops ids : List Text) (by_alias : Text → Option Text)
    → hops ≢ []
    → map by_alias hops ≡ map some ids
    → Distinct (server_id ∷ ids)
    → (links : List (Text × Text)) × (chain_links server_id hops by_alias ≡ some links)
unfolding chain_links
chain_links_total server_id [] ids by_alias ne e d = absurd (ne refl)
chain_links_total server_id (a ∷ hops) ids by_alias ne e d = (
  links_from server_id (reverse ids),
  rw (
    hop_ids-of_map by_alias (a ∷ hops) ids e,
    none_twice-of_Distinct (server_id ∷ []) ids d,
    chain_links,
  ),
)
