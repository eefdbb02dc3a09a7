-- ===== src/KnownHosts/Line/Matching.antt =====
-- Which hosts a field of patterns names.
use bifro_ssh.Common.{
  ◌≡◌, Bool, true, false, none, some, List, [], ◌∷◌, arith, Text, codes, strip_prefix, split, any,
  ◌||◌, ◌&&◌, not,
}
use bifro_ssh.KnownHosts.Wildcard.{glob_match}
use bifro_ssh.KnownHosts.Line.{Codec, pattern_loop, host_matches}

abbrev refused_by : Text → Text → Bool
refused_by target pat = elim (strip_prefix (codes "!") pat) [
  | none ↦ false
  | some negated ↦ glob_match negated target
]

abbrev accepted_by : Text → Text → Bool
accepted_by target pat = elim (strip_prefix (codes "!") pat) [
  | none ↦ glob_match pat target
  | some _ ↦ false
]

-- No negated pattern fits the target, and a plain one does.
abbrev pub names : Text → List Text → Bool
names target pats = not (any (refused_by target) pats) && any (accepted_by target) pats

pattern_loop-names :
    (target : Text) (matched : Bool) (pats : List Text)
    → pattern_loop target matched pats
      ≡ (not (any (refused_by target) pats) && (matched || any (accepted_by target) pats))
unfolding pattern_loop
pattern_loop-names target matched [] = ground arith
pattern_loop-names target matched (pat ∷ pats) =
    ground (arith, pattern_loop-names target matched pats, pattern_loop-names target true pats)

-- The early return on a negated pattern makes the order of the patterns irrelevant: a field that
-- is not hashed names a host exactly when a plain pattern fits it and no negated one does.
pub host_matches-eq-names :
    (codec : Codec) (field target : Text)
    → strip_prefix (codes "|1|") field ≡ none
    → host_matches codec field target ≡ (
        not (any (refused_by target) (split b',' field))
        && any (accepted_by target) (split b',' field))
unfolding host_matches
host_matches-eq-names codec field target h =
    rw (h, host_matches) (pattern_loop-names target false (split b',' field))
