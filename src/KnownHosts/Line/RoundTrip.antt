-- ===== src/KnownHosts/Line/RoundTrip.antt =====
-- Lines are read the same with white space round them.
use bifro_ssh.Common.{
  ◌≡◌, refl, Option, none, some, List, [], ◌∷◌, ◌++◌, map, arith, Text, trim, strip_cr,
}
use bifro_ssh.Common.Trim.{trim_idem, trim-strip_cr}
use bifro_ssh.KnownHosts.Line.{HostLine, split_line}

pub split_line-trim : (raw : Text) → split_line (trim raw) ≡ split_line raw
unfolding split_line
split_line-trim raw = rw (trim_idem raw)

pub split_line-strip_cr : (raw : Text) → split_line (strip_cr raw) ≡ split_line raw
unfolding split_line
split_line-strip_cr raw = rw (trim-strip_cr raw)

abbrev pub add_some : Option HostLine → List HostLine → List HostLine
add_some none rest = rest
add_some (some l) rest = l ∷ rest

-- The entries that the lines of a file hold.
unfoldable pub entries_of : List Text → List HostLine
entries_of [] = []
entries_of (raw ∷ raws) = add_some (split_line raw) (entries_of raws)

pub entries_of-strip_cr : (raws : List Text) → entries_of (map strip_cr raws) ≡ entries_of raws
unfolding entries_of
entries_of-strip_cr [] = refl
entries_of-strip_cr (raw ∷ raws) = rw (split_line-strip_cr raw, entries_of-strip_cr raws)

pub entries_of-append : (xs ys : List Text) → entries_of (xs ++ ys) ≡ entries_of xs ++ entries_of ys
unfolding entries_of
entries_of-append [] ys = refl
entries_of-append (x ∷ xs) ys = ground (arith, entries_of-append xs ys)
