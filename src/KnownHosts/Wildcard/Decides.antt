-- ===== src/KnownHosts/Wildcard/Decides.antt =====
-- The matcher against the meaning of the wildcards: it always answers, a match that it reports is
-- one, and on a text that holds no star it reports every match.
use bifro_ssh.Common.{
  ℕ, zero, suc, ◌+◌, ◌*◌, ◌≤◌, ◌<◌, ◌≡◌, ◌≢◌, ◌↔◌, inl, inr, refl, Bool, true, false, Option, none,
  some, [], ◌∷◌, arith, ◌==◌, length, all, Text, All, Bool-cases, ==_iff,
}
use bifro_ssh.KnownHosts.Wildcard.{
  star, takes, Back, retry, glob_loop, glob_fuel, glob_match, Matches, stop, char, skip, more,
}

abbrev pub IsPlain : Text → Type 0
IsPlain t = All (λ c. c ≢ star) t

takes-star : (d : ℕ) → takes star d ≡ true → d ≡ star
unfolding takes
takes-star d h = ground arith

module _ {c d : ℕ} {p t : Text} (plain : c ≢ star) where
  Matches-uncons : Matches (c ∷ p) (d ∷ t) → (takes c d ≡ true) × Matches p t
  Matches-uncons (char h m) = (h, m)
  Matches-uncons (skip e m) = absurd (plain e)
  Matches-uncons (more e m) = absurd (plain e)

Matches-star_nil : {p : Text} → Matches (star ∷ p) [] → Matches p []
Matches-star_nil (skip e m) = m

not-Matches-nil : {c : ℕ} {p : Text} → c ≢ star → ¬ Matches (c ∷ p) []
not-Matches-nil plain (skip e m) = plain e

Matches-star :
    {d : ℕ} {p t : Text}
    → d ≢ star
    → Matches (star ∷ p) (d ∷ t)
    → ¬ Matches p (d ∷ t)
    → Matches (star ∷ p) t
Matches-star plain (char h m) n = absurd (plain (takes-star _ h))
Matches-star plain (skip e m) n = absurd (n m)
Matches-star plain (more e m) n = m

-- The greedy choice loses nothing.
Matches-drop :
    {c d : ℕ} {p : Text} (t : Text)
    → c ≢ star
    → IsPlain (d ∷ t)
    → Matches (star ∷ c ∷ p) (d ∷ t)
    → Matches (star ∷ p) t
Matches-drop t ne plain (char h m) = absurd (plain.0 (takes-star _ h))
Matches-drop t ne plain (skip e m) = skip refl (Matches-uncons ne m).1
Matches-drop [] ne plain (more e m) = absurd (not-Matches-nil ne (Matches-star_nil m))
Matches-drop (x ∷ t) ne plain (more e m) = more refl (Matches-drop t ne plain.1 m)

Matches-two_stars :
    {c : ℕ} {p : Text} (t : Text)
    → c ≡ star
    → IsPlain t
    → Matches (star ∷ c ∷ p) t
    → Matches (star ∷ p) t
Matches-two_stars (d ∷ t) e plain (char h m) = absurd (plain.0 (takes-star _ h))
Matches-two_stars t e plain (skip _ m) = rw e at m
Matches-two_stars (d ∷ t) e plain (more _ m) = more refl (Matches-two_stars t e plain.1 m)

Matches→stars : {p : Text} → Matches p [] → all (λ c. c == star) p ≡ true
Matches→stars stop = refl
Matches→stars (skip e m) = ground (arith, Matches→stars m)

stars→Matches : (p : Text) → all (λ c. c == star) p ≡ true → Matches p []
stars→Matches [] h = stop
stars→Matches (c ∷ p) h = skip (ground arith) (stars→Matches p (ground arith))

-- `G` is the question asked at the start.
module _ (G : Type 0) where
  abbrev Saved : Text → Text → Back → Type 0
  Saved p t none = G → Matches p t
  Saved p t (some (bp, bt)) =
      (G → Matches (star ∷ bp) bt) × (Matches bp bt → Matches p t) × IsPlain bt

  -- What the loop does from any state of the same fuel.
  abbrev Complete : (Text → Text → Back → Option Bool) → Type 0
  Complete next =
      (p t : Text) (back : Back)
      → IsPlain t
      → (G → Matches (star ∷ p) t)
      → Saved p t back
      → G
      → next p t back ≢ some false

  retry_finds :
      (next : Text → Text → Back → Option Bool) (p t : Text) (d : ℕ) (back : Back)
      → Complete next
      → Saved p (d ∷ t) back
      → ¬ Matches p (d ∷ t)
      → G
      → retry back next ≢ some false
  unfolding retry
  retry_finds next p t d none ih s n g = absurd (n (s g))
  retry_finds next p t d (some (bp, [])) ih s n g = λ e. cc
  retry_finds next p t d (some (bp, x ∷ bt)) ih s n g =
      let (g→m, down, plain) = s in
      let go = λ (h : G). Matches-star plain.0 (g→m h) (λ m. n (down m)) in
      ih bp bt (some (bp, bt)) plain.1 go (go, λ m. m, plain.1) g

  Saved-uncons :
      (c d : ℕ) (p t : Text) (back : Back) → c ≢ star → Saved (c ∷ p) (d ∷ t) back → Saved p t back
  Saved-uncons c d p t none ne s = λ g. (Matches-uncons ne (s g)).1
  Saved-uncons c d p t (some (bp, bt)) ne (g, down, plain) =
      (g, λ m. (Matches-uncons ne (down m)).1, plain)

  takes-ne-star : (c d : ℕ) → takes c d ≡ true → d ≢ star → c ≢ star
  unfolding takes
  takes-ne-star c d h ne = ground arith

  glob_loop_finds : (f : ℕ) → Complete (glob_loop f)
  unfolding glob_loop
  glob_loop_finds zero p t back plain later s g = λ e. cc
  glob_loop_finds (suc f) p [] back plain later s g =
      ground (arith, Matches→stars (Matches-star_nil (later g)))
  glob_loop_finds (suc f) [] (d ∷ t) back plain later s g =
      retry_finds (glob_loop f) [] t d back (glob_loop_finds f) s (λ m. elim m [ ]) g
  glob_loop_finds (suc f) (c ∷ p) (d ∷ t) back plain later s g = elim (Bool-cases (takes c d)) [
    | inl e ↦
        let ne = takes-ne-star c d e plain.0 in
        rw e (
          glob_loop_finds f p t back plain.1 (λ h. Matches-drop t ne plain (later h))
            (Saved-uncons c d p t back ne s) g)
    | inr e ↦ elim (Bool-cases (c == star)) [
      | inl e' ↦
          let go = λ (h : G). Matches-two_stars (d ∷ t) ((==_iff c star).0 e') plain (later h) in
          rw (e, e') (glob_loop_finds f p (d ∷ t) (some (p, d ∷ t)) plain go (go, λ m. m, plain) g)
      | inr e' ↦
          rw (e, e')
            (retry_finds (glob_loop f) (c ∷ p) t d back (glob_loop_finds f) s
              (λ m. cc (e, (Matches-uncons {p = p} {t = t} (ground arith) m).0)) g)
    ]
  ]

  -- The loop has an answer, and a yes is right about `G`.
  abbrev Answers : Option Bool → Type 0
  Answers r = (b : Bool) × (r ≡ some b) × (b ≡ true → G)

  module _ (k : ℕ) where
    abbrev Bounded : ℕ → Text → Back → Type 0
    Bounded m t none = Unit
    Bounded m t (some (bp, bt)) =
        (Matches (star ∷ bp) bt → G) × (length t ≤ length bt) × (length bt ≤ m) × (length bp < k)

    -- `m` bounds the text that is left to retry on.
    record Sound (f m : ℕ) (p t : Text) (back : Back) : Type 0 where
      now : Matches p t → G
      saved : Bounded m t back
      text_bound : length t ≤ m
      pattern_bound : length p < k
      fuel : m * k + length p < f

    abbrev SoundFrom : ℕ → (Text → Text → Back → Option Bool) → Type 0
    SoundFrom f next =
        (m : ℕ) (p t : Text) (back : Back) → Sound f m p t back → Answers (next p t back)

    retry_holds :
        (f : ℕ) (next : Text → Text → Back → Option Bool) (m : ℕ) (p t : Text) (d : ℕ) (back : Back)
        → SoundFrom f next
        → Sound (suc f) m p (d ∷ t) back
        → Answers (retry back next)
    unfolding retry
    retry_holds f next m p t d none ih s = (false, refl, λ e. cc)
    retry_holds f next m p t d (some (bp, [])) ih s = absurd (omega arith)
    retry_holds f next zero p t d (some (bp, x ∷ bt)) ih s = absurd (omega arith)
    retry_holds f next (suc m) p t d (some (bp, x ∷ bt)) ih s =
        let run = λ (h : Matches (star ∷ bp) bt). s.saved.0 (more refl h) in
        ih m bp bt (some (bp, bt)) (record {
          now = λ h. run (skip refl h);
          saved = (run, omega arith, omega arith, omega arith);
          text_bound = omega arith;
          pattern_bound = omega arith;
          fuel = omega arith;
        })

    Bounded-tail : (m d : ℕ) (t : Text) (back : Back) → Bounded m (d ∷ t) back → Bounded m t back
    Bounded-tail m d t none b = tt
    Bounded-tail m d t (some (bp, bt)) b = (b.0, omega arith, omega arith, omega arith)

    glob_loop_holds : (f : ℕ) → SoundFrom f (glob_loop f)
    unfolding glob_loop
    glob_loop_holds zero m p t back s = absurd (omega arith)
    glob_loop_holds (suc f) m p [] back s =
        (all (λ c. c == star) p, refl, λ h. s.now (stars→Matches p h))
    glob_loop_holds (suc f) m [] (d ∷ t) back s =
        retry_holds f (glob_loop f) m [] t d back (glob_loop_holds f) s
    glob_loop_holds (suc f) m (c ∷ p) (d ∷ t) back s = elim (Bool-cases (takes c d)) [
      | inl e ↦ rw e (
          glob_loop_holds f m p t back (record {
            now = λ h. s.now (char e h);
            saved = Bounded-tail m d t back s.saved;
            text_bound = omega arith;
            pattern_bound = omega arith;
            fuel = omega arith;
          }))
      | inr e ↦ elim (Bool-cases (c == star)) [
        | inl e' ↦
            let is_star = (==_iff c star).0 e' in
            rw (e, e')
              (glob_loop_holds f m p (d ∷ t) (some (p, d ∷ t)) (record {
                now = λ h. s.now (skip is_star h);
                saved = (λ h. s.now (rw is_star h), omega arith, s.text_bound, omega arith);
                text_bound = s.text_bound;
                pattern_bound = omega arith;
                fuel = omega arith;
              }))
        | inr e' ↦ rw (e, e') (retry_holds f (glob_loop f) m (c ∷ p) t d back (glob_loop_holds f) s)
      ]
    ]

glob_loop-Answers : (p t : Text) → Answers (Matches p t) (glob_loop (glob_fuel p t) p t none)
glob_loop-Answers p t =
    glob_loop_holds (Matches p t) (length p + 1) (glob_fuel p t) (length t) p t none (record {
      now = λ h. h;
      saved = tt;
      text_bound = omega arith;
      pattern_bound = omega arith;
      fuel = omega arith;
    })

-- The loop of `glob_match` ends within its fuel, on every pattern and text.
pub glob_loop_total : (p t : Text) → (b : Bool) × (glob_loop (glob_fuel p t) p t none ≡ some b)
glob_loop_total p t = let (b, e, _) = glob_loop-Answers p t in (b, e)

-- A text that `glob_match` accepts matches the pattern.
pub glob_match-Matches : (p t : Text) → glob_match p t ≡ true → Matches p t
unfolding glob_match
glob_match-Matches p t h = let (b, e, s) = glob_loop-Answers p t in s (rw e at h)

-- On a text with no star in it, `glob_match` accepts exactly what matches the pattern.
pub glob_match_iff : (p t : Text) → IsPlain t → (glob_match p t ≡ true) ↔ Matches p t
unfolding glob_match
glob_match_iff p t plain =
    let (b, e, s) = glob_loop-Answers p t in
    let complete = λ (g : Matches p t).
      glob_loop_finds (Matches p t) (glob_fuel p t) p t none plain (skip refl) (λ h. h) g in
    (λ h. s (rw e at h), λ g. ground (arith, complete g))
