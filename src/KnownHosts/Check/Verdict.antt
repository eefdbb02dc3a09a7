-- ===== src/KnownHosts/Check/Verdict.antt =====
-- What `check_host` decides, said without its loop: by the first line that holds the offered key,
-- else the first unmarked line with another key of its type, else the first of another type.
use bifro_ssh.Common.{
  ◌≡◌, refl, ◌⊎◌, inl, inr, Bool, true, false, ◌&&◌, not, Option, none, some, List, [], ◌∷◌, ◌++◌,
  arith, if◌then◌else◌, is_some, Option-cases, Text, Bytes, codes, text_eq, text_eq_iff,
}
use bifro_ssh.KnownHosts.Line.{Codec, PublicKey, blob, key_algo, host_matches}
use bifro_ssh.KnownHosts.Check.{
  HostKeySource, StoredKey, KnownHostStatus, matched, unknown, mismatch, other_type, revoked, Found,
  marker_is, line_key, stored_key, Seen, Round, go_on, return, compare_key, check_line, check_lines,
  conclude, nothing_seen,
}

Round-cases :
    (r : Round) → ((seen : Seen) × (r ≡ go_on seen)) ⊎ ((s : KnownHostStatus) × (r ≡ return s))
Round-cases (go_on seen) = inl (seen, refl)
Round-cases (return s) = inr (s, refl)

module _ {A : Type 0} (P : A → Type 0) where
  abbrev pub Any : List A → Type 0
  Any [] = ⊥
  Any (x ∷ xs) = P x ⊎ Any xs

abbrev pub first_some : {A B : Type 0} → (A → Option B) → List A → Option B
first_some p [] = none
first_some p (x ∷ xs) = elim (p x) [ some b ↦ some b | none ↦ first_some p xs ]

module _ (codec : Codec) (target : Text) (key : PublicKey) where
  -- The key on a line for this host, and how it compares with the offered one.
  abbrev named : Found → Option (Bytes × Text)
  named f = if host_matches codec f.raw.entry.hosts target then line_key codec f.raw.entry else none

  abbrev same_type : Text → Bool
  same_type a = text_eq a (key_algo key)

  abbrev same_key : Bytes → Bool
  same_key b = text_eq b (blob key)

  -- The line holds the offered key and is no authority's.
  unfoldable pub decisive : Found → Option KnownHostStatus
  decisive f = elim (named f) [
    | none ↦ none
    | some (b, a) ↦
        if same_type a && same_key b && not (marker_is (codes "@cert-authority") f.raw.entry.marker)
        then some
            (if marker_is (codes "@revoked") f.raw.entry.marker then revoked else matched f.source)
        else none
  ]

  unfoldable pub differs : Found → Option StoredKey
  differs f = elim (named f) [
    | none ↦ none
    | some (b, a) ↦
        if same_type a && not (same_key b) && not (is_some f.raw.entry.marker)
        then some (stored_key codec f b a)
        else none
  ]

  unfoldable pub other : Found → Option StoredKey
  other f = elim (named f) [
    | none ↦ none
    | some (b, a) ↦
        if not (same_type a) && not (is_some f.raw.entry.marker)
        then some (stored_key codec f b a)
        else none
  ]

  abbrev either : Option StoredKey → Option StoredKey → Option StoredKey
  either none k = k
  either (some j) k = some j

  abbrev pub verdict_from : Seen → List Found → KnownHostStatus
  verdict_from seen fs = elim (first_some decisive fs) [
    | some status ↦ status
    | none ↦ conclude codec target key (record {
      mismatch = either seen.mismatch (first_some differs fs);
      other_type = either seen.other_type (first_some other fs);
    })
  ]

  -- What one round makes of a line, by the three tests above.
  abbrev round_of : Option KnownHostStatus → Option StoredKey → Option StoredKey → Seen → Round
  round_of (some status) d o seen = return status
  round_of none d o seen =
      go_on (record { mismatch = either seen.mismatch d; other_type = either seen.other_type o })

  marker_none :
      (o : Option Text) (t u : Text)
      → t ≡ codes "@revoked"
      → u ≡ codes "@cert-authority"
      → marker_is t o ≡ true
      → marker_is u o ≡ false
  unfolding text_eq
  marker_none none t u e e' h = cc
  marker_none (some m) t u e e' h = rw ((text_eq_iff m t).0 h, e, e') refl

  check_line-round :
      (f : Found) (seen : Seen)
      → check_line codec target key f seen ≡ round_of (decisive f) (differs f) (other f) seen
  unfolding check_line compare_key decisive differs other
  check_line-round f seen =
      ground (
        arith,
        marker_none f.raw.entry.marker (codes "@revoked") (codes "@cert-authority") refl refl,
      )

  check_lines-eq-verdict_from :
      (fs : List Found) (seen : Seen) → check_lines codec target key fs seen ≡ verdict_from seen fs
  unfolding check_lines
  check_lines-eq-verdict_from [] seen = ground arith
  check_lines-eq-verdict_from (f ∷ fs) seen = ground (
    arith,
    check_line-round f seen,
    check_lines-eq-verdict_from fs (record {
      mismatch = either seen.mismatch (differs f);
      other_type = either seen.other_type (other f);
    }),
  )

  -- The verdict of the loop: the first line that holds the offered key decides, and a mismatch or
  -- another type is reported, by its first line, only where there is none.
  pub check_lines-eq-verdict :
      (fs : List Found)
      → check_lines codec target key fs nothing_seen ≡ elim (first_some decisive fs) [
        | some status ↦ status
        | none ↦ elim (first_some differs fs) [
          | some k ↦ mismatch k
          | none ↦ elim (first_some other fs) [ some k ↦ other_type k | none ↦ unknown ]
        ]
      ]
  check_lines-eq-verdict fs = check_lines-eq-verdict_from fs nothing_seen

  -- A line of this host that holds the key, and is neither revoked nor an authority's.
  pub record Vouches (source : HostKeySource) (f : Found) : Type 0 where
    pub from : f.source ≡ source
    pub host : host_matches codec f.raw.entry.hosts target ≡ true
    pub holds : codec.b64_decode f.raw.entry.b64 ≡ some (blob key)
    pub not_revoked : marker_is (codes "@revoked") f.raw.entry.marker ≡ false
    pub not_authority : marker_is (codes "@cert-authority") f.raw.entry.marker ≡ false

  decisive-Vouches :
      (f : Found) {source : HostKeySource} → decisive f ≡ some (matched source) → Vouches source f
  unfolding decisive
  decisive-Vouches f h = elim (Option-cases (codec.b64_decode f.raw.entry.b64)) [
    | inl e ↦ absurd (ground arith)
    | inr (b, e) ↦ record {
      from = ground arith;
      host = ground arith;
      holds = ground (arith, text_eq_iff b (blob key));
      not_revoked = ground arith;
      not_authority = ground arith;
    }
  ]

  first_some-Any :
      (fs : List Found) {source : HostKeySource}
      → first_some decisive fs ≡ some (matched source)
      → Any (Vouches source) fs
  first_some-Any [] h = cc
  first_some-Any (f ∷ fs) h = elim (Option-cases (decisive f)) [
    | inl e ↦ inr (first_some-Any fs (ground arith))
    | inr (s, e) ↦ inl (decisive-Vouches f (ground arith))
  ]

  -- Only a stored copy of the offered key makes a host known: a line of that file, for this host,
  -- whose key is the offered one byte for byte, and which is neither revoked nor an authority's.
  pub check_lines-Vouches :
      (fs : List Found) {source : HostKeySource}
      → check_lines codec target key fs nothing_seen ≡ matched source
      → Any (Vouches source) fs
  check_lines-Vouches fs h = first_some-Any fs (ground (arith, check_lines-eq-verdict fs))

  -- A verdict from a line that holds the key is not changed by any later line, not by one that
  -- marks the same key as revoked.
  pub check_lines-append_matched :
      (fs gs : List Found) (seen : Seen) (source : HostKeySource)
      → check_lines codec target key fs seen ≡ matched source
      → check_lines codec target key (fs ++ gs) seen ≡ matched source
  unfolding check_lines
  check_lines-append_matched [] gs seen source h = absurd (ground arith)
  check_lines-append_matched (f ∷ fs) gs seen source h =
      elim (Round-cases (check_line codec target key f seen)) [
        | inl (seen', e) ↦ ground (arith, check_lines-append_matched fs gs seen' source)
        | inr (s, e) ↦ ground arith
      ]
