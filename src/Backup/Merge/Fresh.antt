-- ===== src/Backup/Merge/Fresh.antt =====
-- Which records `merge_into` of src-tauri/src/backup.rs says that it added, and where ids ended up.
use bifro_ssh.Common.{
  ◌≡◌, refl, sym, Bool, true, false, Option, none, some, List, [], ◌∷◌, ◌++◌, append-nil, any, find,
  All, Text, text_eq, text_eq_iff, arith,
}
use bifro_ssh.Models.Saved.{Identified}
use bifro_ssh.Backup.Merge.{
  member, Merged, nothing_merged, merge_found, merge_item, merge_onto, merge_into,
}
use bifro_ssh.Backup.Merge.Into.{Extends, Extends-trans, found-Extends, any-append, find-any}

none-of : {A : Type 0} (p : A → Bool) (xs : List A) → any p xs ≡ false → All (λ x. p x ≡ false) xs
none-of p [] h = tt
none-of p (x ∷ xs) h = (ground arith, none-of p xs (ground arith))

module _ {T : Type 0} ⦃i : Identified T⦄ (same : T → T → Bool)
    (by_id : (a b : T) → text_eq (i.id_of a) (i.id_of b) ≡ true → same a b ≡ true) where
  abbrev pub NotAmong : List Text → T → Type 0
  NotAmong added s = member (i.id_of s) added ≡ false

  not_by_id : (a b : T) → same a b ≡ false → text_eq (i.id_of b) (i.id_of a) ≡ false
  not_by_id a b h =
      ground
        (arith, by_id a b, text_eq_iff (i.id_of a) (i.id_of b), text_eq_iff (i.id_of b) (i.id_of a))

  item-fresh :
      (item : T) (added : List Text) (before : List T)
      → All (λ s. same item s ≡ false) before
      → All (NotAmong added) before
      → All (NotAmong (added ++ i.id_of item ∷ [])) before
  item-fresh item added [] h h' = tt
  item-fresh item added (s ∷ before) (h, hs) (h', hs') = (
    rw (any-append (text_eq (i.id_of s)) added (i.id_of item ∷ []), h', not_by_id item s h) refl,
    item-fresh item added before hs hs',
  )

  front :
      (p : T → Bool) (before after : List T)
      → Extends same before after
      → any p after ≡ false
      → any p before ≡ false
  front p before after (extra, e) h =
      let h' : any p (before ++ extra) ≡ false = rw e at h in
      ground (arith, any-append p before extra)

  found-fresh :
      (before : List T) (item : T) (out : Merged T) (o : Option T)
      → find (same item) out.current ≡ o
      → Extends same before out.current
      → All (NotAmong out.added) before
      → All (NotAmong (merge_found same item out o).added) before
  found-fresh before item out (some e) h ext fresh = fresh
  found-fresh before item out none h ext fresh =
      item-fresh item out.added before
        (none-of (same item) before
          (front (same item) before out.current ext (find-any (same item) out.current h)))
        fresh

  onto-fresh :
      (before incoming : List T) (out : Merged T)
      → Extends same before out.current
      → All (NotAmong out.added) before
      → All (NotAmong (merge_onto same incoming out).added) before
  unfolding merge_onto merge_item
  onto-fresh before [] out ext fresh = fresh
  onto-fresh before (item ∷ incoming) out ext fresh =
      onto-fresh before incoming (merge_item same item out)
        (Extends-trans same before out.current (merge_item same item out).current ext
          (found-Extends same item out (find (same item) out.current)))
        (found-fresh before item out (find (same item) out.current) refl ext fresh)

  none_added : (xs : List T) → All (NotAmong []) xs
  none_added [] = tt
  none_added (x ∷ xs) = (refl, none_added xs)

  -- No record that was there has the id of one that was added.
  pub merge_into-fresh :
      (incoming current : List T) → All (NotAmong (merge_into same incoming current).added) current
  unfolding merge_into
  merge_into-fresh incoming current =
      onto-fresh current incoming (nothing_merged current) ([], sym (append-nil current))
        (none_added current)
