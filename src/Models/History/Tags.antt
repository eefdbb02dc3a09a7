-- ===== src/Models/History/Tags.antt =====
-- What a host's tags are after `normalize_tags` of src-tauri/src/models.rs.
use bifro_ssh.Common.{
  ◌≤◌, ◌≡◌, ◌≢◌, refl, ap, inl, inr, Bool, true, false, ◌||◌, Bool-cases, List, [], ◌∷◌, ◌++◌, map,
  any, length, length-append, is_empty, if◌then◌else◌, ◌==◌, All, All-append, Text, text_eq_iff,
  arith,
}
use bifro_ssh.SshConfig.Chain.Linked.{Distinct, Distinct-concat}
use bifro_ssh.Models.History.{max_tags, cut_tag, same_tag, tags_onto, normalize_tags}

map-append : {A B : Type 0} (f : A → B) (xs ys : List A) → map f (xs ++ ys) ≡ map f xs ++ map f ys
map-append f [] ys = refl
map-append f (x ∷ xs) ys = ap (λ l. f x ∷ l) (map-append f xs ys)

module _ (to_lowercase : Text → Text) where
  -- As many as are allowed, none of them empty, and no two the same but for case.
  abbrev pub IsTags : List Text → Type 0
  IsTags tags =
      (length tags ≤ max_tags)
      × All (λ t. is_empty t ≡ false) tags
      × Distinct (map to_lowercase tags)

  not_among :
      (tag : Text) (out : List Text)
      → any (same_tag to_lowercase tag) out ≡ false
      → All (λ y. y ≢ to_lowercase tag) (map to_lowercase out)
  not_among tag [] h = tt
  not_among tag (t ∷ out) h = elim (Bool-cases (same_tag to_lowercase tag t)) [
    | inl e ↦ absurd (ground arith)
    | inr e ↦ (
      λ q. cc (e, (text_eq_iff (to_lowercase t) (to_lowercase tag)).1 q),
      not_among tag out (ground arith),
    )
  ]

  append-IsTags :
      (tag : Text) (out : List Text)
      → IsTags out
      → is_empty tag ≡ false
      → any (same_tag to_lowercase tag) out ≡ false
      → (length out == max_tags) ≡ false
      → IsTags (out ++ tag ∷ [])
  append-IsTags tag out (few, full, distinct) e h n = (
    rw (length-append out (tag ∷ [])) (ground arith),
    All-append (λ t. is_empty t ≡ false) out (tag ∷ []) full (e, tt),
    rw (map-append to_lowercase out (tag ∷ []))
        (Distinct-concat (to_lowercase tag) (map to_lowercase out) distinct (not_among tag out h)),
  )

  next-IsTags :
      (empty known full : Bool) (next out kept : List Text)
      → IsTags next
      → IsTags out
      → (empty ≡ false → known ≡ false → full ≡ false → IsTags kept)
      → IsTags (if empty || known then next else if full then out else kept)
  next-IsTags true known full next out kept a b c = a
  next-IsTags false true full next out kept a b c = a
  next-IsTags false false true next out kept a b c = b
  next-IsTags false false false next out kept a b c = c refl refl refl

  tags_onto-IsTags : (raws out : List Text) → IsTags out → IsTags (tags_onto to_lowercase out raws)
  unfolding tags_onto
  tags_onto-IsTags [] out h = h
  tags_onto-IsTags (raw ∷ raws) out h =
      let tag = cut_tag raw in
      next-IsTags (is_empty tag) (any (same_tag to_lowercase tag) out) (length out == max_tags)
        (tags_onto to_lowercase out raws) out (tags_onto to_lowercase (out ++ tag ∷ []) raws)
        (tags_onto-IsTags raws out h) h
        λ e k n. tags_onto-IsTags raws (out ++ tag ∷ []) (append-IsTags tag out h e k n)

  -- Whatever tags are asked for: those that are kept are at most 20, none is empty, and no two are the
  -- same but for case.
  pub normalize_tags-IsTags : (tags : List Text) → IsTags (normalize_tags to_lowercase tags)
  unfolding normalize_tags
  normalize_tags-IsTags tags = tags_onto-IsTags tags [] (omega arith, tt, tt)
