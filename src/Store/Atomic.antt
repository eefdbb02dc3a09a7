-- ===== src/Store/Atomic.antt =====
-- A save happens at once: whenever it is stopped, the next start finds the old document or the new.
use bifro_ssh.Common.{
  ℕ, ◌≡◌, refl, ap, ◌∙◌, ◌⊎◌, inl, inr, Bool, true, false, Option, none, some, Option-cases, List,
  [], ◌∷◌, map, take, Text, Result, ok, err, All, All-append,
}
use bifro_ssh.Models.Saved.{AppData, empty_data}
use bifro_ssh.Store.{
  Sealing, StoreError, read_file, Folder, Extent, whole, stops_at, unopened, Faults, LoadFaults,
  Run, Action, give, then_run, ◌>>=◌, ◌>>◌, prefixes, set_temp, set_backup, put, best_effort,
  refresh_backup, rename_temp, sealed, save_app_data, load_main, load_app_data, require,
  not_flushed,
}

-- How a run ends.
abbrev pub Ends :
    {A : Type 0} → (Folder → Type 0) → (A → Folder → Type 0) → Result StoreError A → Folder → Type 0
Ends E Q (err _) d = E d
Ends E Q (ok a) d = Q a d

-- Every state that is passed is in `P`; an error leaves one in `E`, and a success one in `Q`.
abbrev pub Safe :
    {A : Type 0} → (Folder → Type 0) → (Folder → Type 0) → (A → Folder → Type 0) → Run A → Type 0
Safe P E Q r = All P r.passed × Ends E Q r.result r.folder

module _ {A B : Type 0} (P E : Folder → Type 0) (Q : A → Folder → Type 0) (R : B → Folder → Type 0)
    (k : A → Action B) where
  then_run-Safe :
      (result : Result StoreError A) (folder : Folder) (passed : List Folder)
      → Safe P E Q (record { result = result; folder = folder; passed = passed })
      → ((a : A) (d : Folder) → Q a d → Safe P E R (k a d))
      → Safe P E R (then_run (record { result = result; folder = folder; passed = passed }) k)
  then_run-Safe (err e) folder passed (h, q) next = (h, q)
  then_run-Safe (ok a) folder passed (h, q) next =
      let (h', q') = next a folder q in (All-append P passed (k a folder).passed h h', q')

  pub >>=-Safe :
      (m : Action A) (d : Folder)
      → Safe P E Q (m d)
      → ((a : A) (d' : Folder) → Q a d' → Safe P E R (k a d'))
      → Safe P E R ((m >>= k) d)
  >>=-Safe m d h next = let r = m d in then_run-Safe r.result r.folder r.passed h next

pub All-map :
    {A B : Type 0} (P : B → Type 0) (f : A → B) (xs : List A)
    → ((a : A) → P (f a))
    → All P (map f xs)
All-map P f [] h = tt
All-map P f (x ∷ xs) h = (h x, All-map P f xs h)

module _ (P E : Folder → Type 0) where
  -- A write to one place, all the states of which are fine.
  pub put-Safe :
      (Q : Unit {0} → Folder → Type 0) (place : Text → Folder → Folder) (t : Text) (extent : Extent)
      (d : Folder)
      → ((p : Text) → P (place p d))
      → ((p : Text) → E (place p d))
      → E d
      → Q tt (place t d)
      → Safe P E Q (put place t extent d)
  unfolding put
  put-Safe Q place t whole d p e stay done = (All-map P (λ s. place s d) (prefixes t) p, done)
  put-Safe Q place t (stops_at n) d p e stay done =
      (All-map P (λ s. place s d) (prefixes (take n t)) p, e (take n t))
  put-Safe Q place t unopened d p e stay done = (tt, stay)

  pub best_effort-put-Safe :
      (Q : Unit {0} → Folder → Type 0) (place : Text → Folder → Folder) (t : Text) (extent : Extent)
      (d : Folder)
      → ((p : Text) → P (place p d))
      → ((p : Text) → Q tt (place p d))
      → Q tt d
      → Safe P E Q (best_effort (put place t extent) d)
  unfolding put
  best_effort-put-Safe Q place t whole d p q stay = (All-map P (λ s. place s d) (prefixes t) p, q t)
  best_effort-put-Safe Q place t (stops_at n) d p q stay =
      (All-map P (λ s. place s d) (prefixes (take n t)) p, q (take n t))
  best_effort-put-Safe Q place t unopened d p q stay = (tt, stay)

module _ (before : Option Text) (content : Text) where
  abbrev Old : Folder → Type 0
  Old d = d.main ≡ before

  abbrev New : Folder → Type 0
  New d = d.main ≡ some content

  abbrev Either : Folder → Type 0
  Either d = Old d ⊎ New d

  abbrev Written : Unit {0} → Folder → Type 0
  Written _ d = Old d × (d.temp ≡ some content)

  require-Safe :
      (b : Bool) (d : Folder) → Written tt d → Safe Either Old Written (require b not_flushed d)
  require-Safe true d w = (tt, w)
  require-Safe false d w = (tt, w.0)

  refresh-Safe :
      (extent : Extent) (old : Option Text) (d : Folder)
      → Written tt d
      → Safe Either Old Written (refresh_backup extent old d)
  unfolding refresh_backup
  refresh-Safe extent none d w = (tt, w)
  refresh-Safe extent (some old) d w =
      best_effort-put-Safe Either Old Written set_backup old extent d (λ p. inl w.0) (λ p. w) w

  rename-Safe :
      (b : Bool) (d : Folder) → Written tt d → Safe Either Old (λ _ d'. New d') (rename_temp b d)
  unfolding rename_temp
  rename-Safe true d w = ((inr w.1, tt), w.1)
  rename-Safe false d w = (tt, w.0)

  abbrev tail : Faults → Action (Unit {0})
  tail f = do
    require f.can_flush not_flushed
    (λ d. refresh_backup f.backup_write d.main d)
    rename_temp f.can_rename

  tail-Safe : (f : Faults) (d : Folder) → Written tt d → Safe Either Old (λ _ d'. New d') (tail f d)
  tail-Safe f d w =
      >>=-Safe Either Old Written (λ _ d'. New d')
        (λ _. (λ x. refresh_backup f.backup_write x.main x) >> rename_temp f.can_rename)
        (require f.can_flush not_flushed) d (require-Safe f.can_flush d w)
        (λ _ d' w'.
          >>=-Safe Either Old Written (λ _ x. New x) (λ _. rename_temp f.can_rename)
            (λ x. refresh_backup f.backup_write x.main x) d'
            (refresh-Safe f.backup_write d'.main d' w')
            (λ _ d'' w''. rename-Safe f.can_rename d'' w''))

  write-Safe :
      (f : Faults) (d : Folder)
      → Old d
      → Safe Either Old (λ _ d'. New d') ((put set_temp content f.temp_write >> tail f) d)
  write-Safe f d o =
      >>=-Safe Either Old Written (λ _ d'. New d') (λ _. tail f) (put set_temp content f.temp_write)
        d
        (put-Safe Either Old Written set_temp content f.temp_write d (λ p. inl o) (λ p. o) o
          (o, refl))
        (λ _ d' w. tail-Safe f d' w)

All-weaken :
    (P Q : Folder → Type 0) (ds : List Folder) → ((d : Folder) → P d → Q d) → All P ds → All Q ds
All-weaken P Q [] imp h = tt
All-weaken P Q (d ∷ ds) imp (h, k) = (imp d h, All-weaken P Q ds imp k)

-- What serde_json and the cipher promise: what is written is read back, and an envelope is one.
pub record IsFaithful (s : Sealing) (app : AppData) : Type 0 where
  pub json : (b : List ℕ) → s.to_json app ≡ some b → s.from_json b ≡ some app
  pub cipher : (b : List ℕ) (c : Text) → s.encrypt b ≡ some c → s.decrypt c ≡ some b
  pub boxed : (c t : Text) → s.envelope c ≡ some t → s.read_envelope t ≡ some c

module _ (s : Sealing) where
  -- The document that a data file holds, where it can be read.
  abbrev pub IsHeld : Option Text → AppData → Type 0
  IsHeld none app = app ≡ empty_data
  IsHeld (some t) app = read_file s t ≡ ok app

  abbrev pub Loads : LoadFaults → AppData → Folder → Type 0
  Loads lf app d = (load_app_data s lf d).result ≡ ok app

  load_main-IsHeld :
      (lf : LoadFaults) (m : Option Text) (app : AppData) (d : Folder)
      → IsHeld m app
      → (load_main s lf m d).result ≡ ok app
  unfolding load_main
  load_main-IsHeld lf none app d h = rw h
  load_main-IsHeld lf (some t) app d h = rw (h, load_main)

  pub Loads-IsHeld :
      (lf : LoadFaults) (m : Option Text) (app : AppData) (d : Folder)
      → IsHeld m app
      → d.main ≡ m
      → Loads lf app d
  unfolding load_app_data
  Loads-IsHeld lf m app d h e =
      ap (λ x. (load_main s lf x d).result) e ∙ load_main-IsHeld lf m app d h

  module _ (app : AppData) (faithful : IsFaithful s app) where
    pub read_file-sealed : (t : Text) → sealed s app ≡ ok t → read_file s t ≡ ok app
    unfolding sealed read_file
    read_file-sealed t h = elim (Option-cases (s.to_json app)) [
      | inl e ↦ absurd (cc (rw (e, sealed) at h))
      | inr (b, e) ↦ elim (Option-cases (s.encrypt b)) [
        | inl e2 ↦ absurd (cc (rw (e, e2, sealed) at h))
        | inr (c, e2) ↦ elim (Option-cases (s.envelope c)) [
          | inl e3 ↦ absurd (cc (rw (e, e2, e3, sealed) at h))
          | inr (t', e3) ↦
              let same : t' ≡ t = cc (rw (e, e2, e3, sealed) at h) in
              rw (← same)
                (rw (faithful.boxed c t' e3, faithful.cipher b c e2, faithful.json b e, read_file))
        ]
      ]
    ]

    abbrev pub Both : LoadFaults → AppData → Folder → Type 0
    Both lf before d = Loads lf before d ⊎ Loads lf app d

    Safe-Loads :
        (lf : LoadFaults) (before : AppData) (m : Option Text) (t : Text) (r : Run (Unit {0}))
        → IsHeld m before
        → read_file s t ≡ ok app
        → Safe (Either m t) (Old m t) (λ _ d'. New m t d') r
        → Safe (Both lf before) (Loads lf before) (λ _ d'. Loads lf app d') r
    Safe-Loads lf before m t r h k (p, q) =
        (All-weaken (Either m t) (Both lf before) r.passed choose p, ends r.result r.folder q)
      where
        choose : (d : Folder) → Either m t d → Both lf before d
        choose d (inl o) = inl (Loads-IsHeld lf m before d h o)
        choose d (inr n) = inr (Loads-IsHeld lf (some t) app d k n)

        ends :
            (x : Result StoreError (Unit {0})) (d : Folder)
            → Ends (Old m t) (λ _ d'. New m t d') x d
            → Ends (Loads lf before) (λ _ d'. Loads lf app d') x d
        ends (ok a) d n = Loads-IsHeld lf (some t) app d k n
        ends (err e) d o = Loads-IsHeld lf m before d h o

    -- Wherever a save is stopped, the next start loads the old document or the new one; a save that
    -- reports an error leaves the old one, and one that succeeds the new one. The data file must be
    -- absent or readable before, and what is sealed must open again.
    pub save_app_data-Safe :
        (f : Faults) (lf : LoadFaults) (before : AppData) (d : Folder)
        → IsHeld d.main before
        → Safe
            (Both lf before)
            (Loads lf before)
            (λ _ d'. Loads lf app d')
            (save_app_data s f app d)
    unfolding save_app_data
    save_app_data-Safe f lf before d h = by_text (sealed s app) refl
      where
        by_text :
            (x : Result StoreError Text)
            → sealed s app ≡ x
            → Safe
                (Both lf before)
                (Loads lf before)
                (λ _ d'. Loads lf app d')
                ((give x >>= λ content.
                    put set_temp content f.temp_write >> tail (d.main) content f)
                  d)
        by_text (err e) q = (tt, Loads-IsHeld lf d.main before d h refl)
        by_text (ok t) q =
            Safe-Loads lf before d.main t ((put set_temp t f.temp_write >> tail d.main t f) d) h
              (read_file-sealed t q) (write-Safe d.main t f d refl)
