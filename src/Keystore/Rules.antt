-- ===== src/Keystore/Rules.antt =====
-- Rules for reasoning about an action on the keystore's files: what holds of the keystore that is on
-- disk before it, holds after it, however the writes go.
pub mod Operations
pub mod Makes
use bifro_ssh.Common.{
  Bool, true, false, ◌≡◌, refl, Result, ok, err, Option, none, some, if◌then◌else◌,
}
use bifro_ssh.Keystore.{
  Key, KeyStore, new_store, StoreFile, absent, unreadable, readable, SecretFile, no_secret,
  other_length, secret, Fate, done, refused, torn, unflushed, Folder, Action, pure, fail, lift,
  ignore, when, ◌>>=◌, ◌>>◌, load_keystore, save_keystore, write_secret, remove_secret, KeyError,
  store_in, save_by, next_fate, use_fate, write_secret_by, remove_secret_by,
}

abbrev pub Anything : {A : Type 0} → A → Type 0
Anything _ = Unit {0}

module _ (G : KeyStore → Type 0) where
  -- Of the keystore that a launch reads, where it can be read.
  abbrev pub OnFile : StoreFile → Type 0
  OnFile absent = G new_store
  OnFile unreadable = Unit {0}
  OnFile (readable k) = G k

  abbrev pub Ends : {A : Type 0} → (A → Type 0) → Result KeyError A → Folder → Type 0
  Ends Q (ok a) d = OnFile d.file × Q a
  Ends Q (err _) d = OnFile d.file

  abbrev pub Ensures : {A : Type 0} → (A → Type 0) → Action A → Type 0
  Ensures Q m = (d : Folder) → OnFile d.file → Ends Q (m d).0 (m d).1

  abbrev pub Keeps : {A : Type 0} → Action A → Type 0
  Keeps m = Ensures Anything m

  module _ {A B : Type 0} (Q : A → Type 0) (R : B → Type 0) (k : A → Action B) where
    then-Ends :
        (r : Result KeyError A) (d : Folder)
        → Ends Q r d
        → ((a : A) → Q a → Ensures R (k a))
        → Ends R ((lift r >>= k) d).0 ((lift r >>= k) d).1
    then-Ends (ok a) d (i, q) next = next a q d i
    then-Ends (err e) d i next = i

    pub >>=-Ensures :
        (m : Action A) → Ensures Q m → ((a : A) → Q a → Ensures R (k a)) → Ensures R (m >>= k)
    >>=-Ensures m h next d i = then-Ends (m d).0 (m d).1 (h d i) next

  pub then-Keeps :
      {A B : Type 0} (m : Action A) (k : A → Action B)
      → Keeps m
      → ((a : A) → Keeps (k a))
      → Keeps (m >>= k)
  then-Keeps m k h h' = >>=-Ensures Anything Anything k m h (λ a _. h' a)

  pub >>-Keeps : {A B : Type 0} (m : Action A) (n : Action B) → Keeps m → Keeps n → Keeps (m >> n)
  >>-Keeps m n h h' = >>=-Ensures Anything Anything (λ _. n) m h (λ _ _. h')

  pub lift-Keeps : {A : Type 0} (r : Result KeyError A) → Keeps (lift r)
  lift-Keeps (ok a) d i = (i, tt)
  lift-Keeps (err e) d i = i

  pub ignore-Ends :
      {A : Type 0} (r : Result KeyError A) (d : Folder) → Ends Anything r d → OnFile d.file
  ignore-Ends (ok a) d h = h.0
  ignore-Ends (err e) d h = h

  pub ignore-Keeps : {A : Type 0} (m : Action A) → Keeps m → Keeps (ignore m)
  ignore-Keeps m h d i = (ignore-Ends (m d).0 (m d).1 (h d i), tt)

  pub when-Keeps : (b : Bool) (m : Action (Unit {0})) → Keeps m → Keeps (when b m)
  when-Keeps true m h d i = h d i
  when-Keeps false m h d i = (i, tt)

  load-Ends :
      (file : StoreFile) (d : Folder) → OnFile file → d.file ≡ file → Ends G (store_in file) d
  load-Ends absent d i e = (rw e i, i)
  load-Ends unreadable d i e = rw e i
  load-Ends (readable k) d i e = (rw e i, i)

  pub load_keystore-Ensures : Ensures G load_keystore
  unfolding load_keystore
  load_keystore-Ensures d i = load-Ends d.file d i refl

  save-Ends :
      (f : Fate) (k : KeyStore) (d : Folder)
      → G k
      → OnFile d.file
      → Ends Anything (save_by f k d).0 (save_by f k d).1
  save-Ends done k d g i = (g, tt)
  save-Ends refused k d g i = i
  save-Ends torn k d g i = tt
  save-Ends unflushed k d g i = g

  pub save_keystore-Keeps : (k : KeyStore) → G k → Keeps (save_keystore k)
  unfolding save_keystore
  save_keystore-Keeps k g d i = save-Ends (next_fate d.fates) k (use_fate d) g i

  write-Ends :
      (f : Fate) (key : Key) (d : Folder)
      → OnFile d.file
      → Ends Anything (write_secret_by f key d).0 (write_secret_by f key d).1
  write-Ends done key d i = (i, tt)
  write-Ends refused key d i = i
  write-Ends torn key d i = i
  write-Ends unflushed key d i = i

  pub write_secret-Keeps : (key : Key) → Keeps (write_secret key)
  unfolding write_secret
  write_secret-Keeps key d i = write-Ends (next_fate d.fates) key (use_fate d) i

  remove-Ends :
      (f : Fate) (s : SecretFile) (d : Folder)
      → OnFile d.file
      → Ends Anything (remove_secret_by f s d).0 (remove_secret_by f s d).1
  remove-Ends f no_secret d i = (i, tt)
  remove-Ends done other_length d i = (i, tt)
  remove-Ends done (secret _) d i = (i, tt)
  remove-Ends refused other_length d i = i
  remove-Ends refused (secret _) d i = i
  remove-Ends torn other_length d i = i
  remove-Ends torn (secret _) d i = i
  remove-Ends unflushed other_length d i = i
  remove-Ends unflushed (secret _) d i = i

  pub remove_secret-Keeps : Keeps remove_secret
  unfolding remove_secret
  remove_secret-Keeps d i = remove-Ends (next_fate d.fates) d.secret_file (use_fate d) i

  -- An action that reads the keystore and goes on with it.
  pub load_then-Keeps :
      {A : Type 0} (k : KeyStore → Action A)
      → ((store : KeyStore) → G store → Keeps (k store))
      → Keeps (load_keystore >>= k)
  load_then-Keeps k h = >>=-Ensures G Anything k load_keystore load_keystore-Ensures h

  -- And one that goes on with a value that is computed.
  pub lift_then-Keeps :
      {A B : Type 0} (r : Result KeyError A) (k : A → Action B)
      → ((a : A) → r ≡ ok a → Keeps (k a))
      → Keeps (lift r >>= k)
  lift_then-Keeps (ok a) k h d i = h a refl d i
  lift_then-Keeps (err e) k h d i = i

  pub if-Keeps :
      {A : Type 0} (b : Bool) (m n : Action A)
      → (b ≡ true → Keeps m)
      → (b ≡ false → Keeps n)
      → Keeps (if b then m else n)
  if-Keeps true m n h h' d i = h refl d i
  if-Keeps false m n h h' d i = h' refl d i

  pub option-Keeps :
      {A B : Type 0} (o : Option A) (m : Action B) (k : A → Action B)
      → (o ≡ none → Keeps m)
      → ((a : A) → o ≡ some a → Keeps (k a))
      → Keeps (elim o [ none ↦ m | some a ↦ k a ])
  option-Keeps none m k h h' d i = h refl d i
  option-Keeps (some a) m k h h' d i = h' a refl d i

  pub pure-Keeps : {A : Type 0} (a : A) → Keeps (pure a)
  pure-Keeps a d i = (i, tt)

  pub save_then-Keeps :
      {A : Type 0} (k : KeyStore) (n : Action A) → G k → Keeps n → Keeps (save_keystore k >> n)
  save_then-Keeps k n g h = >>-Keeps (save_keystore k) n (save_keystore-Keeps k g) h
