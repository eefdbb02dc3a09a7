-- ===== src/Backup/Merge/Into.antt =====
-- What `merge_into` of src-tauri/src/backup.rs keeps and adds.
use bifro_ssh.Common.{
  ◌+◌, ◌≤◌, ◌≡◌, refl, sym, ap, ◌∙◌, Bool, true, false, ◌||◌, Bool-cases, Option, none, some, inl,
  inr, length-append, List, [], ◌∷◌, ◌++◌, append-nil, append_assoc, any, find, length, All, arith,
}
use bifro_ssh.Models.Saved.{Identified}
use bifro_ssh.Backup.Merge.{
  Merged, nothing_merged, merge_found, merge_item, merge_onto, merge_into, count_if, duplicates,
}

pub any-append :
    {A : Type 0} (p : A → Bool) (xs ys : List A) → any p (xs ++ ys) ≡ (any p xs || any p ys)
any-append p [] ys = refl
any-append p (x ∷ xs) ys = ground (arith, any-append p xs ys)

pub find-any : {A : Type 0} (p : A → Bool) (xs : List A) → find p xs ≡ none → any p xs ≡ false
find-any p [] e = refl
find-any p (x ∷ xs) e = ground (arith, find-any p xs)

pub find-some :
    {A : Type 0} (p : A → Bool) (xs : List A) (a : A) → find p xs ≡ some a → any p xs ≡ true
find-some p [] a e = cc
find-some p (x ∷ xs) a e = ground (arith, find-some p xs a)

any-find :
    {A : Type 0} (p : A → Bool) (xs : List A) → any p xs ≡ true → (a : A) × (find p xs ≡ some a)
any-find p [] h = cc
any-find p (x ∷ xs) h = elim (Bool-cases (p x)) [
  | inl e ↦ (x, ground arith)
  | inr e ↦ let (a, q) = any-find p xs (ground arith) in (a, ground (arith, q))
]

count_if_mono :
    {A : Type 0} (p q : A → Bool) (xs : List A)
    → ((x : A) → p x ≡ true → q x ≡ true)
    → count_if p xs ≤ count_if q xs
count_if_mono p q [] h = omega arith
count_if_mono p q (x ∷ xs) h = ground (arith, h x, count_if_mono p q xs h)

module _ {T : Type 0} ⦃i : Identified T⦄ (same : T → T → Bool) where
  -- What is there stays in front.
  abbrev pub Extends : List T → List T → Type 0
  Extends before after = (extra : List T) × (after ≡ before ++ extra)

  pub Extends-trans : (a b c : List T) → Extends a b → Extends b c → Extends a c
  Extends-trans a b c (extra, e) (extra', e') =
      (extra ++ extra', e' ∙ ap (λ l. l ++ extra') e ∙ append_assoc a extra extra')

  pub found-Extends :
      (item : T) (out : Merged T) (o : Option T)
      → Extends out.current (merge_found same item out o).current
  found-Extends item out (some e) = ([], sym (append-nil out.current))
  found-Extends item out none = (item ∷ [], refl)

  pub onto-Extends :
      (incoming : List T) (out : Merged T)
      → Extends out.current (merge_onto same incoming out).current
  unfolding merge_onto merge_item
  onto-Extends [] out = ([], sym (append-nil out.current))
  onto-Extends (item ∷ incoming) out =
      let (extra, e) = found-Extends item out (find (same item) out.current) in
      let (extra', e') = onto-Extends incoming (merge_item same item out) in
      (extra ++ extra', e' ∙ ap (λ l. l ++ extra') e ∙ append_assoc out.current extra extra')

  pub merge_into-Extends :
      (incoming current : List T) → Extends current (merge_into same incoming current).current
  unfolding merge_into
  merge_into-Extends incoming current = onto-Extends incoming (nothing_merged current)

  -- What was found stays to be found.
  still :
      (x : T) (before after : List T)
      → Extends before after
      → any (same x) before ≡ true
      → any (same x) after ≡ true
  still x before after (extra, e) h = rw (e, any-append (same x) before extra, h) refl

  found_now :
      (refl-same : (a : T) → same a a ≡ true) (item : T) (out : Merged T) (o : Option T)
      → find (same item) out.current ≡ o
      → any (same item) (merge_found same item out o).current ≡ true
  found_now refl-same item out (some e) h = find-some (same item) out.current e h
  found_now refl-same item out none h =
      rw (any-append (same item) out.current (item ∷ []), refl-same item) (ground arith)

  onto-finds :
      (refl-same : (a : T) → same a a ≡ true) (incoming : List T) (out : Merged T)
      → All (λ x. any (same x) (merge_onto same incoming out).current ≡ true) incoming
  unfolding merge_onto merge_item
  onto-finds refl-same [] out = tt
  onto-finds refl-same (item ∷ incoming) out =
      let next = merge_item same item out in
      (
        still item next.current (merge_onto same incoming next).current (onto-Extends incoming next)
            (found_now refl-same item out (find (same item) out.current) refl),
        onto-finds refl-same incoming next,
      )

  skipped_item :
      (item e : T) (out : Merged T)
      → find (same item) out.current ≡ some e
      → merge_item same item out ≡ merge_found same item out (some e)
  unfolding merge_item
  skipped_item item e out h = ap (merge_found same item out) h

  rest_skipped :
      (incoming : List T) (out : Merged T)
      → All (λ x. any (same x) out.current ≡ true) incoming
      → let m = merge_onto same incoming out in
        (m.current ≡ out.current)
        × (m.added ≡ out.added)
        × (m.skipped ≡ out.skipped + length incoming)
  unfolding merge_onto merge_item
  rest_skipped [] out h = (refl, refl, omega arith)
  rest_skipped (item ∷ incoming) out (h, hs) =
      let (e, q) = any-find (same item) out.current h in
      let (c, a, n) = rest_skipped incoming (merge_found same item out (some e)) hs in
      rw (skipped_item item e out q, merge_onto) (c, a, omega (arith, n))

  -- A second import of the same collection finds everything there: it adds nothing, changes nothing,
  -- and skips as many records as the file has.
  pub merge_into-again :
      (refl-same : (a : T) → same a a ≡ true) (incoming current : List T)
      → let after = (merge_into same incoming current).current in
        let again = merge_into same incoming after in
        (again.current ≡ after) × (again.added ≡ []) × (again.skipped ≡ length incoming)
  unfolding merge_into
  merge_into-again refl-same incoming current =
      let after = (merge_onto same incoming (nothing_merged current)).current in
      let (c, a, n) =
        rest_skipped incoming (nothing_merged after)
          (onto-finds refl-same incoming (nothing_merged current)) in
      (c, a, omega (arith, n))

  counted_item :
      (item : T) (incoming : List T) (out : Merged T) (o : Option T)
      → find (same item) out.current ≡ o
      → let next = merge_found same item out o in
        (length next.added + next.skipped ≡ length out.added + out.skipped + 1)
        × (duplicates (item ∷ incoming) out.current same + out.skipped
            ≤ duplicates incoming next.current same + next.skipped)
  unfolding duplicates
  counted_item item incoming out (some e) h =
      rw (find-some (same item) out.current e h) (omega arith, omega arith)
  counted_item item incoming out none h =
      let more =
        count_if_mono (λ x. any (same x) out.current) (λ x. any (same x) (out.current ++ item ∷ []))
          incoming (λ x q. still x out.current (out.current ++ item ∷ []) (item ∷ [], refl) q) in
      rw (find-any (same item) out.current h)
        (omega (arith, length-append out.added (i.id_of item ∷ [])), omega (arith, more))

  onto-counts :
      (incoming : List T) (out : Merged T)
      → let m = merge_onto same incoming out in
        (length m.added + m.skipped ≡ length out.added + out.skipped + length incoming)
        × (duplicates incoming out.current same + out.skipped ≤ m.skipped)
  unfolding merge_onto merge_item duplicates
  onto-counts [] out = (omega arith, omega arith)
  onto-counts (item ∷ incoming) out =
      let next = merge_item same item out in
      let (sum, dup) = onto-counts incoming next in
      let (sum', dup') = counted_item item incoming out (find (same item) out.current) refl in
      (omega (arith, sum, sum'), omega (arith, dup, dup'))

  -- Every record of the file is either added or skipped, and no fewer are skipped than the preview
  -- counts as duplicates.
  pub duplicates-merge_into :
      (incoming current : List T)
      → let m = merge_into same incoming current in
        (length m.added + m.skipped ≡ length incoming)
        × (duplicates incoming current same ≤ m.skipped)
  unfolding merge_into
  duplicates-merge_into incoming current =
      let (sum, dup) = onto-counts incoming (nothing_merged current) in
      (omega (arith, sum), omega (arith, dup))
