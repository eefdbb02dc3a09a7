-- ===== src/KnownHosts/Check/Learned.antt =====
-- A host that has been learned is known by that key.
use bifro_ssh.Common.{
  ℕ, suc, ◌≡◌, ◌≢◌, refl, ap, ◌∙◌, ◌⊎◌, inl, inr, true, Option, none, some, List, [], ◌∷◌, ◌++◌,
  arith, Bool-cases, Option-cases, any, Text, Bytes, text_eq_iff, text_eq_refl, All, All-append,
  newline, lines, is_whitespace, ok,
}
use bifro_ssh.Common.Split.Laws.{HasNo, IsWord}
use bifro_ssh.KnownHosts.Line.Written.{
  IsHostName, host_spec-IsHostName, host_matches_self, three_words, split_line-three_words,
  is_plain,
}
use bifro_ssh.KnownHosts.Line.{
  Codec, PublicKey, blob, algo_from_blob, key_algo, host_spec, HostLine, split_line, scan_from,
  scan, host_matches,
}
use bifro_ssh.KnownHosts.Line.RoundTrip.{entries_of}
use bifro_ssh.KnownHosts.Check.{
  bifrossh, open_ssh, KnownHostStatus, matched, revoked, Disk, found_in, own_content, sources,
  format_line, append_lines, appended, holds_line, learn_host, check_host,
}
use bifro_ssh.KnownHosts.Check.Append.{entries, entries-appended}
use bifro_ssh.KnownHosts.Check.Verdict.{first_some, decisive, check_lines-eq-verdict}

module _ (codec : Codec) (target : Text) (key : PublicKey) where
  -- The verdict of one entry of BifroSSH's own file, whatever its line number.
  abbrev pub own_verdict : HostLine → Option KnownHostStatus
  own_verdict l =
      decisive codec target key
        (record { source = bifrossh; raw = record { line_no = 0; entry = l } })

  own_verdict_lem :
      (n : ℕ) (l : HostLine)
      → decisive codec target key
          (record { source = bifrossh; raw = record { line_no = n; entry = l } })
        ≡ own_verdict l
  unfolding decisive
  own_verdict_lem n l = refl

  first_some-scan_from :
      (n : ℕ) (raws : List Text)
      → first_some (decisive codec target key) (found_in bifrossh (scan_from n raws))
        ≡ first_some own_verdict (entries_of raws)
  unfolding scan_from entries_of
  first_some-scan_from n [] = refl
  first_some-scan_from n (raw ∷ raws) = elim (Option-cases (split_line raw)) [
    | inl e ↦ rw e (first_some-scan_from (suc n) raws)
    | inr (l, e) ↦ ground (arith, own_verdict_lem n l, first_some-scan_from (suc n) raws)
  ]

  first_some-scan :
      (own : Option Text)
      → first_some (decisive codec target key) (found_in bifrossh (scan own))
        ≡ first_some own_verdict (entries own)
  unfolding scan entries
  first_some-scan none = refl
  first_some-scan (some content) = first_some-scan_from 1 (lines content)

  first_some-append :
      {A B : Type 0} (p : A → Option B) (xs ys : List A) (b : B)
      → first_some p xs ≡ some b
      → first_some p (xs ++ ys) ≡ some b
  first_some-append p [] ys b h = cc
  first_some-append p (x ∷ xs) ys b h = ground (arith, first_some-append p xs ys b)

  -- An entry that says who it is for and holds the key, unmarked.
  record IsOwnKey (l : HostLine) : Type 0 where
    unmarked : l.marker ≡ none
    for_host : host_matches codec l.hosts target ≡ true
    holds : codec.b64_decode l.b64 ≡ some (blob key)

  IsOwnKey-verdict :
      (l : HostLine) (algo : Text)
      → algo_from_blob (blob key) ≡ some algo
      → IsOwnKey l
      → own_verdict l ≡ some (matched bifrossh)
  unfolding decisive key_algo algo_from_blob
  IsOwnKey-verdict l algo e o = ground (arith, text_eq_refl algo, text_eq_refl (blob key))

-- What the crate `base64` promises: what it encodes it decodes, and its text has no white space.
pub record IsFaithful (codec : Codec) : Type 0 where
  pub decode_encode : (b : Bytes) → codec.b64_decode (codec.b64_encode b) ≡ some b
  pub encode_word : (b : Bytes) → IsWord (codec.b64_encode b)
  pub encode_ne_nil : (b : Bytes) → b ≢ [] → codec.b64_encode b ≢ []

module _ (codec : Codec) (faithful : IsFaithful codec) (host : Text) (port : ℕ)
    (key : PublicKey) where
  abbrev target : Text
  target = host_spec host port

  abbrev verdict_of : HostLine → Option KnownHostStatus
  verdict_of = own_verdict codec target key

  -- The key names its own algorithm, by one word.
  abbrev pub IsNamed : Text → Type 0
  IsNamed algo = (algo_from_blob (blob key) ≡ some algo) × (algo ≢ []) × IsWord algo

  abbrev pub key_line : Text → Text
  key_line algo = three_words target algo (codec.b64_encode (blob key))

  blob-ne-nil : (algo : Text) → algo_from_blob (blob key) ≡ some algo → blob key ≢ []
  unfolding algo_from_blob
  blob-ne-nil algo h e = cc (h, ap algo_from_blob e)

  key_line-split :
      (algo : Text)
      → IsHostName host
      → IsNamed algo
      → split_line (key_line algo)
        ≡ some (record { marker = none; hosts = target; b64 = codec.b64_encode (blob key) })
  key_line-split algo hn (named, ne, word) =
      split_line-three_words target algo (codec.b64_encode (blob key))
        (host_spec-IsHostName host port hn) ne word
        (faithful.encode_ne_nil (blob key) (blob-ne-nil algo named))
        (faithful.encode_word (blob key))

  key_line-verdict :
      (algo : Text)
      → IsHostName host
      → IsNamed algo
      → first_some verdict_of (entries_of (key_line algo ∷ [])) ≡ some (matched bifrossh)
  unfolding entries_of
  key_line-verdict algo hn named =
      let v =
        IsOwnKey-verdict codec target key
          (record { marker = none; hosts = target; b64 = codec.b64_encode (blob key) }) algo named.0
          (record {
            unmarked = refl;
            for_host = host_matches_self codec target (host_spec-IsHostName host port hn);
            holds = faithful.decode_encode (blob key);
          }) in
      rw (key_line-split algo hn named) (ground (arith, v))

  first_some-or :
      (xs ys : List HostLine) (a : KnownHostStatus)
      → first_some verdict_of ys ≡ some a
      → (first_some verdict_of xs ≡ none → first_some verdict_of (xs ++ ys) ≡ some a)
  first_some-or [] ys a h e = h
  first_some-or (x ∷ xs) ys a h e = ground (arith, first_some-or xs ys a h)

  verdict_cases :
      (l : HostLine)
      → (verdict_of l ≡ none)
        ⊎ (verdict_of l ≡ some revoked)
        ⊎ (verdict_of l ≡ some (matched bifrossh))
  unfolding decisive
  verdict_cases l = ground arith

  first_some_cases :
      (ls : List HostLine)
      → (first_some verdict_of ls ≡ none)
        ⊎ (first_some verdict_of ls ≡ some revoked)
        ⊎ (first_some verdict_of ls ≡ some (matched bifrossh))
  first_some_cases [] = inl refl
  first_some_cases (l ∷ ls) = ground (arith, verdict_cases l, first_some_cases ls)

  word-HasNo : (s : Text) → IsWord s → HasNo newline s
  unfolding is_whitespace
  word-HasNo [] h = tt
  word-HasNo (c ∷ s) (h, k) = (ground arith, word-HasNo s k)

  own_content-has_dir : (disk : Disk) → disk.has_dir ≡ true → own_content disk ≡ disk.own
  own_content-has_dir disk h = rw h

  check_host-own :
      (disk : Disk)
      → disk.has_dir ≡ true
      → first_some verdict_of (entries disk.own) ≡ some (matched bifrossh)
      → (check_host codec host port key disk).0 ≡ matched bifrossh
  unfolding check_host sources
  check_host-own disk dir h =
      let own = ap (λ c. found_in bifrossh (scan c)) (own_content-has_dir disk dir) in
      let first = first_some-scan codec target key disk.own ∙ h in
      let all =
        first_some-append codec target key (decisive codec target key)
          (found_in bifrossh (scan disk.own)) (found_in open_ssh (scan disk.openssh))
          (matched bifrossh) first in
      check_lines-eq-verdict codec target key
        (found_in bifrossh (scan (own_content disk)) ++ found_in open_ssh (scan disk.openssh))
      ∙ rw own (rw all)

  holds_line-verdict :
      (algo : Text) (n : ℕ) (l : HostLine)
      → IsNamed algo
      → holds_line codec target key (record { line_no = n; entry = l }) ≡ true
      → verdict_of l ≡ some (matched bifrossh)
  holds_line-verdict algo n l named h = IsOwnKey-verdict codec target key l algo named.0 (record {
    unmarked = ground arith;
    for_host = ground arith;
    holds =
        ap codec.b64_decode ((text_eq_iff l.b64 (codec.b64_encode (blob key))).0 (ground arith))
        ∙ faithful.decode_encode (blob key);
  })

  any-holds_line :
      (algo : Text) (n : ℕ) (raws : List Text)
      → IsNamed algo
      → any (holds_line codec target key) (scan_from n raws) ≡ true
      → first_some verdict_of (entries_of raws) ≢ none
  unfolding scan_from entries_of
  any-holds_line algo n [] named h = cc
  any-holds_line algo n (raw ∷ raws) named h = elim (Option-cases (split_line raw)) [
    | inl e ↦ rw e (any-holds_line algo (suc n) raws named (rw e at h))
    | inr (l, e) ↦
        elim (Bool-cases (holds_line codec target key (record { line_no = n; entry = l }))) [
          | inl g ↦ ground (arith, holds_line-verdict algo n l named g)
          | inr g ↦ ground (arith, any-holds_line algo (suc n) raws named)
        ]
  ]

  any-holds_line-scan :
      (algo : Text) (own : Option Text)
      → IsNamed algo
      → any (holds_line codec target key) (scan own) ≡ true
      → first_some verdict_of (entries own) ≢ none
  unfolding scan entries
  any-holds_line-scan algo none named h = cc
  any-holds_line-scan algo (some content) named h = any-holds_line algo 1 (lines content) named h

  plain-HasNo : (s : Text) → All (λ c. is_plain c ≡ true) s → HasNo newline s
  unfolding is_whitespace
  plain-HasNo [] h = tt
  plain-HasNo (c ∷ s) (h, k) = (ground arith, plain-HasNo s k)

  key_line-HasNo : (algo : Text) → IsHostName host → IsNamed algo → HasNo newline (key_line algo)
  key_line-HasNo algo hn (_, _, word) =
      let P = λ (c : ℕ). c ≢ newline in
      let space : P b' ' = omega arith in
      let b64 = codec.b64_encode (blob key) in
      All-append P target (b' ' ∷ (algo ++ (b' ' ∷ b64)))
        (plain-HasNo target (host_spec-IsHostName host port hn).1)
        (
          space,
          All-append P algo (b' ' ∷ b64) (word-HasNo algo word)
              (space, word-HasNo b64 (faithful.encode_word (blob key))),
        )

  entries-learned :
      (algo : Text) (own : Option Text)
      → IsHostName host
      → IsNamed algo
      → first_some verdict_of (entries own) ≢ some revoked
      → first_some verdict_of (entries (some (appended own (key_line algo ∷ []))))
        ≡ some (matched bifrossh)
  entries-learned algo own hn named safe =
      let added = key_line algo ∷ [] in
      let new = key_line-verdict algo hn named in
      rw (entries-appended own added (key_line-HasNo algo hn named, tt))
        (elim (first_some_cases (entries own)) [
          | inl e ↦ first_some-or (entries own) (entries_of added) (matched bifrossh) new e
          | inr (inl e) ↦ absurd (safe e)
          | inr (inr e) ↦
              first_some-append codec target key verdict_of (entries own) (entries_of added)
                (matched bifrossh) e
        ])

  -- A host that was learned is known: the next check matches it by BifroSSH's own file. The file
  -- must not revoke the key already, the host's name holds no character with a meaning in it, the
  -- key names its algorithm by one word, and base64 text decodes to what was encoded.
  pub learn_host-matched :
      (algo : Text) (disk disk' : Disk)
      → IsHostName host
      → IsNamed algo
      → first_some verdict_of (entries disk.own) ≢ some revoked
      → learn_host codec host port key disk ≡ (ok tt, disk')
      → (check_host codec host port key disk').0 ≡ matched bifrossh
  unfolding learn_host append_lines format_line
  learn_host-matched algo disk disk' hn named safe h =
      let held = any-holds_line-scan algo disk.own named in
      let new = entries-learned algo disk.own hn named safe in
      let known = first_some_cases (entries disk.own) in
      check_host-own disk' (ground arith) (ground arith)
