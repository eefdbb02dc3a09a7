-- ===== src/Store/Recovery.antt =====
-- What the backup is good for.
use bifro_ssh.Common.{
  ◌≡◌, refl, sym, ap, ◌∙◌, Bool, true, false, Option, none, some, List, [], ◌∷◌, Text, Result, ok,
  err, All,
}
use bifro_ssh.Models.Saved.{AppData}
use bifro_ssh.Store.{
  Sealing, StoreError, read_file, Folder, Extent, whole, stops_at, unopened, Faults, LoadFaults,
  Run, give, ◌>>=◌, ◌>>◌, set_temp, set_main, put, refresh_backup, rename_temp, sealed,
  save_app_data, move_aside, recover, from_backup, load_main, load_app_data, require, not_flushed,
}
use mathlib.Core.Path.{subst}
use bifro_ssh.Store.Atomic.{Loads-IsHeld, Ends, Safe, >>=-Safe, put-Safe}

abbrev Anything : Folder → Type 0
Anything _ = Unit

module _ (old : Text) where
  abbrev InMain : Unit {0} → Folder → Type 0
  InMain _ d = d.main ≡ some old

  abbrev InBackup : Unit {0} → Folder → Type 0
  InBackup _ d = d.backup ≡ some old

  require-Keeps :
      (b : Bool) (d : Folder)
      → InMain tt d
      → Safe Anything Anything InMain (require b not_flushed d)
  require-Keeps true d h = (tt, h)
  require-Keeps false d h = (tt, tt)

  anything : (ds : List Folder) → All Anything ds
  anything [] = tt
  anything (d ∷ ds) = (tt, anything ds)

  refresh-InBackup :
      (m : Option Text) (d : Folder)
      → m ≡ some old
      → Safe Anything Anything InBackup (refresh_backup whole m d)
  unfolding refresh_backup put
  refresh-InBackup none d h = cc
  refresh-InBackup (some t) d h = (anything _, h)

  rename-InBackup :
      (b : Bool) (d : Folder) → InBackup tt d → Safe Anything Anything InBackup (rename_temp b d)
  unfolding rename_temp
  rename-InBackup true d h = ((tt, tt), h)
  rename-InBackup false d h = (tt, tt)

  -- A save that succeeds, and refreshes its backup whole, leaves there what was in the data file.
  save-InBackup :
      (s : Sealing) (f : Faults) (app : AppData) (d : Folder)
      → f.backup_write ≡ whole
      → d.main ≡ some old
      → Ends Anything InBackup (save_app_data s f app d).result (save_app_data s f app d).folder
  unfolding save_app_data
  save-InBackup s f app d b h = (by_text (sealed s app)).1
    where
      by_text :
          (x : Result StoreError Text)
          → Safe Anything Anything InBackup (
              (do
                content ← give x
                put set_temp content f.temp_write
                require f.can_flush not_flushed
                (λ d'. refresh_backup f.backup_write d'.main d')
                rename_temp f.can_rename)
                d)
      by_text (err e) = (tt, tt)
      by_text (ok t) =
          >>=-Safe Anything Anything InMain InBackup _ (put set_temp t f.temp_write) d
            (put-Safe Anything Anything InMain set_temp t f.temp_write d (λ p. tt) (λ p. tt) tt h)
            (λ _ d1 h1.
              >>=-Safe Anything Anything InMain InBackup _ (require f.can_flush not_flushed) d1
                (require-Keeps f.can_flush d1 h1)
                (λ _ d2 h2.
                  >>=-Safe Anything Anything InBackup InBackup _
                    (λ x. refresh_backup f.backup_write x.main x) d2
                    (rw b (refresh-InBackup d2.main d2 h2))
                    (λ _ d3 h3. rename-InBackup f.can_rename d3 h3)))

-- A recovery that restores the whole file.
abbrev Restored : Text → AppData → Option Text → Run AppData → Type 0
Restored text app backup r =
    (r.result ≡ ok app) × (r.folder.main ≡ some text) × (r.folder.backup ≡ backup)

recover-Restored :
    (b : Bool) (x : Extent) (text : Text) (app : AppData) (d : Folder)
    → x ≡ whole
    → Restored text app d.backup (recover (record { can_set_aside = b; restore = x }) text app d)
unfolding recover put move_aside
recover-Restored true whole text app d h = (refl, refl, refl)
recover-Restored false whole text app d h = (refl, refl, refl)
recover-Restored b (stops_at n) text app d h = cc
recover-Restored b unopened text app d h = cc

module _ (s : Sealing) (lf : LoadFaults) where
  load_main-err :
      (content : Text) (e : StoreError) (d : Folder)
      → read_file s content ≡ err e
      → load_main s lf (some content) d ≡ from_backup s lf e d.backup d
  unfolding load_main
  load_main-err content e d h = rw (h, load_main)

  from_backup-ok :
      (text : Text) (app : AppData) (e : StoreError) (d : Folder)
      → read_file s text ≡ ok app
      → from_backup s lf e (some text) d ≡ recover lf text app d
  unfolding from_backup
  from_backup-ok text app e d h = rw (h, from_backup)

  load-Restored :
      (d : Folder) (junk text : Text) (app : AppData) (e : StoreError)
      → d.main ≡ some junk
      → read_file s junk ≡ err e
      → d.backup ≡ some text
      → read_file s text ≡ ok app
      → lf.restore ≡ whole
      → Restored text app (some text) (load_app_data s lf d)
  unfolding load_app_data
  load-Restored d junk text app e hm hj hb ht hr =
      let path : load_app_data s lf d ≡ recover lf text app d =
        ap (λ m. load_main s lf m d) hm
        ∙ load_main-err junk e d hj
        ∙ ap (λ b. from_backup s lf e b d) hb
        ∙ from_backup-ok text app e d ht in
      let (a, b, c) = recover-Restored lf.can_set_aside lf.restore text app d hr in
      subst (Restored text app (some text)) (sym path) (a, b, c ∙ hb)

module _ (s : Sealing) where
  load-Held :
      (lf : LoadFaults) (d : Folder) (text : Text) (app : AppData)
      → d.main ≡ some text
      → read_file s text ≡ ok app
      → (load_app_data s lf d).result ≡ ok app
  load-Held lf d text app h k = Loads-IsHeld s lf (some text) app d k h

  -- One start after the other.
  unfoldable pub load_all : List LoadFaults → Folder → Folder
  unfolding load_app_data
  load_all [] d = d
  load_all (lf ∷ rest) d = load_all rest (load_app_data s lf d).folder

  load_main-ok :
      (lf : LoadFaults) (d : Folder) (text : Text) (app : AppData)
      → read_file s text ≡ ok app
      → (load_main s lf (some text) d).folder ≡ d
  unfolding load_main
  load_main-ok lf d text app k = rw (k, load_main) refl

  load-main :
      (lf : LoadFaults) (d : Folder) (text : Text) (app : AppData)
      → d.main ≡ some text
      → read_file s text ≡ ok app
      → (load_app_data s lf d).folder.main ≡ some text
  unfolding load_app_data
  load-main lf d text app h k =
      ap (λ m. (load_main s lf m d).folder.main) h
      ∙ ap (λ (x : Folder). x.main) (load_main-ok lf d text app k)
      ∙ h

  load_all-main :
      (later : List LoadFaults) (d : Folder) (text : Text) (app : AppData)
      → d.main ≡ some text
      → read_file s text ≡ ok app
      → (load_all later d).main ≡ some text
  unfolding load_all
  load_all-main [] d text app h k = h
  load_all-main (lf ∷ rest) d text app h k =
      load_all-main rest (load_app_data s lf d).folder text app (load-main lf d text app h k) k

  -- After a save that succeeds and refreshes its backup, the data file may be damaged into any text
  -- that cannot be read. Where the next start can copy the whole backup back, it finds the document from
  -- before the save, and so does every start after it, whatever these could not do, as long as nothing
  -- else is written. The file must have been readable before the save.
  pub load_app_data-save_damaged :
      (f : Faults) (lf lf' : LoadFaults) (later : List LoadFaults) (before app : AppData)
      (old junk : Text) (e : StoreError) (d : Folder)
      → d.main ≡ some old
      → read_file s old ≡ ok before
      → f.backup_write ≡ whole
      → (save_app_data s f app d).result ≡ ok tt
      → read_file s junk ≡ err e
      → lf.restore ≡ whole
      → let damaged = set_main junk (save_app_data s f app d).folder in
        let r = load_app_data s lf damaged in
        (r.result ≡ ok before)
        × ((load_app_data s lf' (load_all later r.folder)).result ≡ ok before)
  load_app_data-save_damaged f lf lf' later before app old junk e d hm ho hb saved hj hr =
      let run = save_app_data s f app d in
      let kept = kept_of run.result run.folder saved (save-InBackup old s f app d hb hm) in
      let damaged = set_main junk run.folder in
      let (a, b, c) = load-Restored s lf damaged junk old before e refl hj kept ho hr in
      let next = (load_app_data s lf damaged).folder in
      (
        a,
        load-Held lf' (load_all later next) old before (load_all-main later next old before b ho)
            ho,
      )
    where
      kept_of :
          (x : Result StoreError (Unit {0})) (d' : Folder)
          → x ≡ ok tt
          → Ends Anything (InBackup old) x d'
          → d'.backup ≡ some old
      kept_of (ok a) d' h k = k
      kept_of (err _) d' h k = absurd (cc)
