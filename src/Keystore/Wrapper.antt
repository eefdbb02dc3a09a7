-- ===== src/Keystore/Wrapper.antt =====
-- Wrapping the master key: `prepare`, `derive_passphrase_kek`, `wrap` and the like, in
-- src-tauri/src/keystore.rs.
use bifro_ssh.Common.{
  ℕ, Bool, ◌&&◌, ◌||◌, List, [], ◌∷◌, ◌++◌, if◌then◌else◌, all, any, map, length, ◌==◌, ltb, leb,
  is_empty, Text, codes, text_eq, split_whitespace, join, Result, ok, err, ◌>>=◌, ok_or,
}
use bifro_ssh.Keystore.{
  Key, PassphraseForm, verbatim, words, PassphraseWrapper, Env, KeyError, empty_passphrase,
  short_passphrase, costs_too_high, not_derived, not_wrapped, not_unwrapped, wrong_length,
  not_verified,
}

abbrev pub Fallible : Type 0 → Type 0
Fallible A = Result KeyError A

-- The parts between characters that the test refuses, but for the empty ones.
unfoldable pub parts_onto : (ℕ → Bool) → Text → Text → List Text
parts_onto p cur [] = if is_empty cur then [] else cur ∷ []
parts_onto p cur (c ∷ s) =
    let ended = parts_onto p [] s in
    let inside = parts_onto p (cur ++ c ∷ []) s in
    if p c then inside else if is_empty cur then ended else cur ∷ ended

abbrev space : Text
space = codes " "

abbrev pub generated_words : ℕ
generated_words = 8

abbrev pub min_passphrase_chars : ℕ
min_passphrase_chars = 12

-- `ARGON2`, and the most that a file may ask for.
abbrev pub argon_m_cost : ℕ
argon_m_cost = 65536

abbrev pub argon_t_cost : ℕ
argon_t_cost = 3

abbrev pub argon_p_cost : ℕ
argon_p_cost = 1

abbrev max_m_cost_kib : ℕ
max_m_cost_kib = 1048576

abbrev max_t_cost : ℕ
max_t_cost = 64

abbrev max_p_cost : ℕ
max_p_cost = 16

unfoldable pub check_argon2_costs : ℕ → ℕ → ℕ → Fallible (Unit {0})
check_argon2_costs m t p =
    if ltb max_m_cost_kib m || ltb max_t_cost t || ltb max_p_cost p
    then err costs_too_high
    else ok tt

unfoldable pub below_profile : ℕ → ℕ → Bool
below_profile m t = ltb m argon_m_cost || ltb t argon_t_cost

unfoldable pub check_passphrase : Text → PassphraseForm → Fallible (Unit {0})
check_passphrase passphrase words = if is_empty passphrase then err empty_passphrase else ok tt
check_passphrase passphrase verbatim =
    if is_empty passphrase
    then err empty_passphrase
    else if ltb (length passphrase) min_passphrase_chars
    then err short_passphrase
    else ok tt

module _ (env : Env) where
  unfoldable pub canonical_words : Text → Text
  unfolding parts_onto
  canonical_words input =
      join space (map env.to_lowercase (parts_onto env.is_alphanumeric [] input))

  unfoldable pub prepare : Text → PassphraseForm → Text
  unfolding canonical_words
  prepare passphrase verbatim = passphrase
  prepare passphrase words = canonical_words passphrase

  unfoldable pub detect_form : Text → PassphraseForm
  unfolding split_whitespace
  detect_form passphrase =
      let found = split_whitespace passphrase in
      if leb generated_words (length found)
        && all (λ w. any (text_eq (env.to_lowercase w)) env.word_list) found
      then words
      else verbatim

  unfoldable pub wrap : Key → Key → Fallible Text
  wrap master kek = ok_or (env.encrypt master kek) not_wrapped

  unfoldable pub unwrap_key : Text → Key → Fallible Key
  unwrap_key blob kek = ok_or (env.decrypt blob kek) not_unwrapped >>= λ bytes.
      if length bytes == 32 then ok bytes else err wrong_length

  unfoldable pub argon2_kek : Text → Text → ℕ → ℕ → ℕ → Fallible Key
  unfolding check_argon2_costs
  argon2_kek typed salt m t p =
      check_argon2_costs m t p >>= λ _. ok_or (env.stretch typed salt m t p) not_derived

  unfoldable pub derive_passphrase_kek : Text → PassphraseWrapper → Fallible Key
  unfolding argon2_kek prepare
  derive_passphrase_kek passphrase w =
      argon2_kek (prepare passphrase w.form) w.salt w.m_cost w.t_cost w.p_cost

  -- A wrapper with nothing in it.
  abbrev pub blank_wrapper : PassphraseForm → PassphraseWrapper
  blank_wrapper form = record {
    salt = env.fresh_salt;
    m_cost = argon_m_cost;
    t_cost = argon_t_cost;
    p_cost = argon_p_cost;
    blob = [];
    form = form;
  }

  unfoldable pub new_passphrase_wrapper : Text → Key → PassphraseForm → Fallible PassphraseWrapper
  unfolding derive_passphrase_kek wrap
  new_passphrase_wrapper passphrase master form = do
    kek ← derive_passphrase_kek passphrase (blank_wrapper form)
    blob ← wrap master kek
    ok (record (blank_wrapper form) { blob = blob })

  -- The key that a wrapper gives up to a passphrase.
  unfoldable pub open_wrapper : Text → PassphraseWrapper → Fallible Key
  unfolding derive_passphrase_kek unwrap_key
  open_wrapper passphrase w = derive_passphrase_kek passphrase w >>= λ kek. unwrap_key w.blob kek

  -- The check of a new wrapper, before anything that works is taken away.
  unfoldable pub verified_wrapper : Text → Key → PassphraseForm → Fallible PassphraseWrapper
  unfolding new_passphrase_wrapper open_wrapper
  verified_wrapper passphrase master form = do
    wrapper ← new_passphrase_wrapper passphrase master form
    opened ← open_wrapper passphrase wrapper
    if text_eq opened master then ok wrapper else err not_verified
