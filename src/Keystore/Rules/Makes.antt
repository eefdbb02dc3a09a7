-- ===== src/Keystore/Rules/Makes.antt =====
-- What an action on the keystore makes true where it succeeds.
use bifro_ssh.Common.{Bool, true, false, ◌≡◌, refl, Result, ok, err}
use bifro_ssh.Keystore.{
  KeyStore, KeyError, readable, SecretFile, no_secret, other_length, secret, Fate, done, refused,
  torn, unflushed, Folder, Action, lift, ignore, when, ◌>>=◌, ◌>>◌, save_keystore, save_by,
  next_fate, use_fate, remove_secret, remove_secret_by,
}
use bifro_ssh.Keystore.Rules.{OnFile, Keeps, Ends}

-- What a success establishes.
abbrev pub Made : {A : Type 0} → (Folder → Type 0) → Result KeyError A → Folder → Type 0
Made P (ok _) d = P d
Made P (err _) d = Unit {0}

abbrev pub Makes : {A : Type 0} → (Folder → Type 0) → Action A → Type 0
Makes P m = (d : Folder) → Made P (m d).0 (m d).1

pub made_of :
    {A : Type 0} (P : Folder → Type 0) (r : Result KeyError A) (d : Folder)
    → Made P r d
    → {a : A} → r ≡ ok a
    → P d
made_of P (ok _) d h e = h
made_of P (err _) d h e = cc

module _ (P : Folder → Type 0) where
  last-Made :
      {A B : Type 0} (k : A → Action B) (r : Result KeyError A) (d : Folder)
      → ((a : A) → Makes P (k a))
      → Made P ((lift r >>= k) d).0 ((lift r >>= k) d).1
  last-Made k (ok a) d h = h a d
  last-Made k (err e) d h = tt

  -- What the end of an action makes, the action makes.
  pub last-Makes :
      {A B : Type 0} (m : Action A) (k : A → Action B)
      → ((a : A) → Makes P (k a))
      → Makes P (m >>= k)
  last-Makes m k h d = last-Made k (m d).0 (m d).1 h

  pub lift_then-Makes :
      {A B : Type 0} (r : Result KeyError A) (k : A → Action B)
      → ((a : A) → r ≡ ok a → Makes P (k a))
      → Makes P (lift r >>= k)
  lift_then-Makes (ok a) k h d = h a refl d
  lift_then-Makes (err e) k h d = tt

module _ (G : KeyStore → Type 0) where
  abbrev pub InFile : Folder → Type 0
  InFile d = OnFile G d.file

  kept_then :
      {A : Type 0} (r : Result KeyError A) (d : Folder)
      → Ends G (λ _. Unit {0}) r d
      → Made InFile r d
  kept_then (ok a) d h = h.0
  kept_then (err e) d h = tt

  saved_then :
      {A : Type 0} (f : Fate) (k : KeyStore) (n : Action A) (d : Folder)
      → G k
      → Keeps G n
      → Made InFile ((save_by f k >> n) d).0 ((save_by f k >> n) d).1
  saved_then done k n d g h =
      let d' = record d { file = readable k } in kept_then (n d').0 (n d').1 (h d' g)
  saved_then refused k n d g h = tt
  saved_then torn k n d g h = tt
  saved_then unflushed k n d g h = tt

  pub save_then-Makes :
      {A : Type 0} (k : KeyStore) (n : Action A)
      → G k
      → Keeps G n
      → Makes InFile (save_keystore k >> n)
  unfolding save_keystore
  save_then-Makes k n g h d = saved_then (next_fate d.fates) k n (use_fate d) g h

abbrev pub NoSecret : Folder → Type 0
NoSecret d = d.secret_file ≡ no_secret

removed_by :
    (f : Fate) (s : SecretFile) (d : Folder)
    → d.secret_file ≡ s
    → Made NoSecret (remove_secret_by f s d).0 (remove_secret_by f s d).1
removed_by f no_secret d e = e
removed_by done other_length d e = refl
removed_by done (secret _) d e = refl
removed_by refused other_length d e = tt
removed_by refused (secret _) d e = tt
removed_by torn other_length d e = tt
removed_by torn (secret _) d e = tt
removed_by unflushed other_length d e = tt
removed_by unflushed (secret _) d e = tt

pub remove_secret-Makes : Makes NoSecret remove_secret
unfolding remove_secret
remove_secret-Makes d = removed_by (next_fate d.fates) d.secret_file (use_fate d) refl

first_from :
    {A B : Type 0} (k : A → Action B) (r : Result KeyError A) (d : Folder) (a : A)
    → r ≡ ok a
    → ((lift r >>= k) d).0 ≡ (k a d).0
first_from k r d a e = rw e refl

-- An action that begins with a success goes on with what it gives.
pub first-eq-ok :
    {A B : Type 0} (m : Action A) (k : A → Action B) (d : Folder) (a : A)
    → (m d).0 ≡ ok a
    → ((m >>= k) d).0 ≡ (k a (m d).1).0
first-eq-ok m k d a e = first_from k (m d).0 (m d).1 a e

pub both-ok :
    (b b' : Bool) (m : Action (Unit {0})) {A : Type 0} (n : Action A) (d : Folder)
    → ((when b (ignore m) >> when b' (ignore n)) d).0 ≡ ok tt
both-ok true true m n d = refl
both-ok true false m n d = refl
both-ok false true m n d = refl
both-ok false false m n d = refl
