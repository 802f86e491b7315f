-- ===== src/Storage/Swap/Recovery.antt =====
-- What a crash at any call of `save_table` or `recover_splay_dirs` of src/storage.rs leaves, and that
-- the table is there after a recovery.
use ray_exomem.Prelude.{
  ◌≡◌, refl, ◌⊎◌, inl, inr, Bool, Option, none, some, List, [], ◌∷◌, or_else, map, Bool-cases,
}
use ray_exomem.Storage.Swap.{
  Disk, Bulk, Rename, After, goes_on, failed, crashed, and_then, remove_new, remove_old,
  splay_save_raw, back_up, install, SaveCalls, save_table, RecoverCalls, restore_old, remove_stale,
  recover_table, recover_splay_dirs,
}

-- The table that the disk holds: in its place, or in `dir.old` with nothing in its place.
abbrev pub kept : {A : Type 0} → Disk A → Option A
kept d = or_else d.current d.old_dir

-- What holds where the code goes on, where it returns an error, and where the process is gone.
abbrev pub Each : {D : Type 0} → (went stopped gone : D → Type 0) → After D → Type 0
Each went stopped gone (goes_on d) = went d
Each went stopped gone (failed d) = stopped d
Each went stopped gone (crashed d) = gone d

module _ {D : Type 0} (P Q S G : D → Type 0) where
  Each-and_then :
      (m : After D) (f : D → After D)
      → Each P S G m
      → ((d : D) → P d → Each Q S G (f d))
      → Each Q S G (and_then m f)
  Each-and_then (goes_on d) f h next = next d h
  Each-and_then (failed d) f h next = h
  Each-and_then (crashed d) f h next = h

abbrev disk : {A : Type 0} → (current new_dir old_dir : Option A) → Disk A
disk c n o = record { current = c; new_dir = n; old_dir = o }

module _ {A : Type 0} (is_empty : A → Bool) (table : A) (before : Option A) where
  abbrev pub Same : Disk A → Type 0
  Same d = kept d ≡ before

  abbrev pub SameOrNew : Disk A → Type 0
  SameOrNew d = (kept d ≡ before) ⊎ (kept d ≡ some table)

  abbrev IsWritten : Disk A → Type 0
  IsWritten d = (kept d ≡ before) × (d.new_dir ≡ some table)

  abbrev IsBackedUp : Disk A → Type 0
  IsBackedUp d = IsWritten d × (d.current ≡ none)

  abbrev pub IsInPlace : Disk A → Type 0
  IsInPlace d = d.current ≡ some table

  remove_new_lem :
      (e : Bulk A) (c n o : Option A)
      → Same (disk c n o)
      → Each Same Same SameOrNew (remove_new e (disk c n o))
  unfolding remove_new
  remove_new_lem e c none o h = h
  remove_new_lem Bulk.works c (some x) o h = h
  remove_new_lem (Bulk.fails l) c (some x) o h = h
  remove_new_lem (Bulk.crashes l) c (some x) o h = inl h

  splay_save_raw_lem :
      (e : Bulk A) (d : Disk A) → Same d → Each IsWritten Same SameOrNew (splay_save_raw e table d)
  unfolding splay_save_raw
  splay_save_raw_lem Bulk.works d h = (h, refl)
  splay_save_raw_lem (Bulk.fails l) d h = h
  splay_save_raw_lem (Bulk.crashes l) d h = inl h

  back_up_lem :
      (e : Rename) (c n o : Option A)
      → IsWritten (disk c n o)
      → Each IsBackedUp Same SameOrNew (back_up is_empty e (disk c n o))
  unfolding back_up
  back_up_lem e none n o h = (h, refl)
  back_up_lem Rename.works (some x) n none h = (h, refl)
  back_up_lem Rename.fails (some x) n none h = h.0
  back_up_lem Rename.crashes (some x) n none h = inl h.0
  back_up_lem Rename.works (some x) n (some y) h = elim (Bool-cases (is_empty y)) [
    | inr full ↦ rw full h.0
    | inl bare ↦ rw bare (h, refl)
  ]
  back_up_lem Rename.fails (some x) n (some y) h = elim (Bool-cases (is_empty y)) [
    | inr full ↦ rw full h.0
    | inl bare ↦ rw bare h.0
  ]
  back_up_lem Rename.crashes (some x) n (some y) h = elim (Bool-cases (is_empty y)) [
    | inr full ↦ rw full h.0
    | inl bare ↦ rw bare (inl h.0)
  ]

  install_lem :
      (e : Rename) (c n o : Option A)
      → IsBackedUp (disk c n o)
      → Each IsInPlace Same SameOrNew (install is_empty e (disk c n o))
  unfolding install
  install_lem e (some x) n o h = absurd (cc h.1)
  install_lem e none none o h = absurd (cc h.0.1)
  install_lem Rename.works none (some x) o h = h.0.1
  install_lem Rename.fails none (some x) o h = h.0.0
  install_lem Rename.crashes none (some x) o h = inl h.0.0

  remove_old_lem :
      (e : Bulk A) (c n o : Option A)
      → IsInPlace (disk c n o)
      → Each IsInPlace Same SameOrNew (remove_old e (disk c n o))
  unfolding remove_old
  remove_old_lem e none n o h = absurd (cc h)
  remove_old_lem e (some x) n none h = h
  remove_old_lem Bulk.works (some x) n (some y) h = h
  remove_old_lem (Bulk.fails l) (some x) n (some y) h = h
  remove_old_lem (Bulk.crashes l) (some x) n (some y) h = inr h

  save_table-kept :
      (calls : SaveCalls A) (d : Disk A)
      → Same d
      → Each IsInPlace Same SameOrNew (save_table is_empty calls table d)
  unfolding save_table
  save_table-kept calls d h =
      Each-and_then Same IsInPlace Same SameOrNew _ _
        (remove_new_lem calls.clean d.current d.new_dir d.old_dir h)
        (λ a i.
          Each-and_then IsWritten IsInPlace Same SameOrNew _ _ (splay_save_raw_lem calls.write a i)
            (λ b j.
              Each-and_then IsBackedUp IsInPlace Same SameOrNew _ _
                (back_up_lem calls.backup b.current b.new_dir b.old_dir j)
                (λ c k.
                  Each-and_then IsInPlace IsInPlace Same SameOrNew _ _
                    (install_lem calls.swap c.current c.new_dir c.old_dir k)
                    (λ e l. remove_old_lem calls.drop e.current e.new_dir e.old_dir l))))

abbrev pub disk_of : {D : Type 0} → After D → D
disk_of (goes_on d) = d
disk_of (failed d) = d
disk_of (crashed d) = d

Each-disk_of : {D : Type 0} (P : D → Type 0) (m : After D) → Each P P P m → P (disk_of m)
Each-disk_of P (goes_on d) h = h
Each-disk_of P (failed d) h = h
Each-disk_of P (crashed d) h = h

module _ {A : Type 0} (before : Option A) where
  abbrev Keeps : Disk A → Type 0
  Keeps d = kept d ≡ before

  discard_kept :
      (e : Bulk A) (c n o : Option A)
      → Keeps (disk c n o)
      → Each Keeps Keeps Keeps (remove_new e (disk c n o))
  unfolding remove_new
  discard_kept e c none o h = h
  discard_kept Bulk.works c (some x) o h = h
  discard_kept (Bulk.fails l) c (some x) o h = h
  discard_kept (Bulk.crashes l) c (some x) o h = h

  restore_kept :
      (e : Rename) (c n o : Option A)
      → Keeps (disk c n o)
      → Each Keeps Keeps Keeps (restore_old e (disk c n o))
  unfolding restore_old
  restore_kept e c n none h = h
  restore_kept e (some x) n (some y) h = h
  restore_kept Rename.works none n (some y) h = h
  restore_kept Rename.fails none n (some y) h = h
  restore_kept Rename.crashes none n (some y) h = h

  stale_kept :
      (e : Bulk A) (c n o : Option A)
      → Keeps (disk c n o)
      → Each Keeps Keeps Keeps (remove_stale e (disk c n o))
  unfolding remove_stale
  stale_kept e c n none h = h
  stale_kept e none n (some y) h = h
  stale_kept Bulk.works (some x) n (some y) h = h
  stale_kept (Bulk.fails l) (some x) n (some y) h = h
  stale_kept (Bulk.crashes l) (some x) n (some y) h = h

  recover_table-kept :
      (calls : RecoverCalls A) (d : Disk A) → Keeps d → Keeps (disk_of (recover_table calls d))
  unfolding recover_table
  recover_table-kept calls d h = Each-disk_of Keeps _ (
      Each-and_then Keeps Keeps Keeps Keeps _ _
        (discard_kept calls.discard d.current d.new_dir d.old_dir h)
        (λ a i.
          Each-and_then Keeps Keeps Keeps Keeps _ _
            (restore_kept calls.restore a.current a.new_dir a.old_dir i)
            (λ b j. stale_kept calls.cleanup b.current b.new_dir b.old_dir j)))

abbrev pub all_work : {A : Type 0} → RecoverCalls A
all_work = record { discard = Bulk.works; restore = Rename.works; cleanup = Bulk.works }

recover_works :
    {A : Type 0} (c n o : Option A)
    → recover_table all_work (disk c n o) ≡ goes_on (disk (or_else c o) none none)
unfolding recover_table remove_new restore_old remove_stale
recover_works none none none = refl
recover_works none (some x) none = refl
recover_works none none (some y) = refl
recover_works none (some x) (some y) = refl
recover_works (some z) none none = refl
recover_works (some z) (some x) none = refl
recover_works (some z) none (some y) = refl
recover_works (some z) (some x) (some y) = refl

-- Recoveries that end in any way, one after the other, and then one in which every call works.
unfoldable pub restarts : {A : Type 0} → List (RecoverCalls A) → Disk A → Disk A
restarts [] d = disk_of (recover_table all_work d)
restarts (calls ∷ more) d = restarts more (disk_of (recover_table calls d))

restarts-kept :
    {A : Type 0} (before : Option A) (crashes : List (RecoverCalls A)) (d : Disk A)
    → kept d ≡ before
    → (restarts crashes d).current ≡ before
unfolding restarts
restarts-kept before [] d h = rw (recover_works d.current d.new_dir d.old_dir) h
restarts-kept before (calls ∷ more) d h =
    restarts-kept before more _ (recover_table-kept before calls d h)

module _ {A : Type 0} (is_empty : A → Bool) (table : A) (crashes : List (RecoverCalls A)) where
  abbrev pub Restarted : Option A → Disk A → Type 0
  Restarted found d = (restarts crashes d).current ≡ found

  Each-Restarted :
      (before : Option A) (m : After (Disk A))
      → Each
          (IsInPlace is_empty table before)
          (Same is_empty table before)
          (SameOrNew is_empty table before)
          m
      → Each
          (Restarted (some table))
          (Restarted before)
          (λ d. Restarted before d ⊎ Restarted (some table) d)
          m
  Each-Restarted before (goes_on d) h = restarts-kept (some table) crashes d (rw h refl)
  Each-Restarted before (failed d) h = restarts-kept before crashes d h
  Each-Restarted before (crashed d) h = elim h [
    | inl same ↦ inl (restarts-kept before crashes d same)
    | inr new ↦ inr (restarts-kept (some table) crashes d new)
  ]

  -- A save of a table, its calls ending in any way, and then any number of recoveries that are cut
  -- off at any call, and one in which every call works: the table in place is the one saved where
  -- the save returned, the one that the disk held before where the save gave an error, and one of
  -- the two where the process died in it.
  pub save_table-restarts :
      (calls : SaveCalls A) (d : Disk A)
      → Each
          (Restarted (some table))
          (Restarted (kept d))
          (λ e. Restarted (kept d) e ⊎ Restarted (some table) e)
          (save_table is_empty calls table d)
  save_table-restarts calls d =
      Each-Restarted (kept d) _ (save_table-kept is_empty table (kept d) calls d refl)

-- A recovery in which every call works puts each table of the exom in its place and leaves no other
-- directory.
pub recover_splay_dirs-kept :
    {A : Type 0} (disks : List (Disk A))
    → recover_splay_dirs all_work disks
      ≡ goes_on (map (λ d. record { current = kept d; new_dir = none; old_dir = none }) disks)
unfolding recover_splay_dirs
recover_splay_dirs-kept [] = refl
recover_splay_dirs-kept (d ∷ ds) =
    rw (recover_works d.current d.new_dir d.old_dir) (rw (recover_splay_dirs-kept ds) refl)
