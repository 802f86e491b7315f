-- ===== src/Storage/Swap.antt =====
-- `save_table` and `recover_splay_dirs` of src/storage.rs: how the directory of a table is replaced,
-- and what is done at the start with the directories that a crash left. The content of a directory,
-- when an empty one is, and how each system call ends are parameters: the calls, the file system and
-- `ray_splay_save` are not code of the repository.
pub mod Recovery
mod Tests
use ray_exomem.Prelude.{
  Bool, true, false, not, ◌&&◌, Option, none, some, List, [], ◌∷◌, is_some, is_some_and,
  if◌then◌else◌,
}

-- The directories `dir`, `dir.new` and `dir.old` of a table; `none` is a missing one.
pub record Disk (A : Type 0) : Type 0 where
  pub current : Option A
  pub new_dir : Option A
  pub old_dir : Option A

-- How a call that touches many files ends; short of its end, it leaves the directory anyhow.
pub data Bulk (A : Type 0) : Type 0 where
  works : Bulk A
  fails crashes : (left : Option A) → Bulk A

-- How a rename ends: it is done whole or not at all.
pub data Rename : Type 0 where
  works fails crashes : Rename

-- After a call: the code goes on, returns an error or ignores it, or the process is gone.
pub data After {ℓ} (D : Type ℓ) : Type ℓ where
  goes_on failed crashed : D → After D

abbrev pub and_then {ℓ} : {D : Type ℓ} → After D → (D → After D) → After D
and_then (goes_on d) f = f d
and_then (failed d) f = failed d
and_then (crashed d) f = crashed d

-- `let _ = …`
abbrev pub ignored {ℓ} : {D : Type ℓ} → After D → After D
ignored (failed d) = goes_on d
ignored (goes_on d) = goes_on d
ignored (crashed d) = crashed d

module _ {A : Type 0} where
  abbrev pub set_new : Disk A → Option A → Disk A
  set_new d x = record { current = d.current; new_dir = x; old_dir = d.old_dir }

  abbrev pub set_old : Disk A → Option A → Disk A
  set_old d x = record { current = d.current; new_dir = d.new_dir; old_dir = x }

  abbrev bulk : Bulk A → (result : Option A) → (Option A → Disk A) → After (Disk A)
  bulk Bulk.works result put = goes_on (put result)
  bulk (Bulk.fails left) result put = failed (put left)
  bulk (Bulk.crashes left) result put = crashed (put left)

  abbrev renamed : Rename → (before after : Disk A) → After (Disk A)
  renamed Rename.works before after = goes_on after
  renamed Rename.fails before after = failed before
  renamed Rename.crashes before after = crashed before

  -- `if new_dir.exists() { let _ = remove_dir_all(&new_dir) }`
  unfoldable pub remove_new : Bulk A → Disk A → After (Disk A)
  remove_new e d = if is_some d.new_dir then ignored (bulk e none (set_new d)) else goes_on d

  unfoldable pub remove_old : Bulk A → Disk A → After (Disk A)
  remove_old e d = if is_some d.old_dir then ignored (bulk e none (set_old d)) else goes_on d

  -- `splay_save_raw` into `dir.new`: whatever was left there, its end is the table.
  unfoldable pub splay_save_raw : Bulk A → (table : A) → Disk A → After (Disk A)
  splay_save_raw e table d = bulk e (some table) (set_new d)

  -- The rename of `dir` to `dir.old`, which a directory with files there refuses.
  unfoldable pub back_up : (is_empty : A → Bool) → Rename → Disk A → After (Disk A)
  back_up is_empty e d =
      if is_some d.current
      then (if is_some_and (λ x. not (is_empty x)) d.old_dir
          then failed d
          else renamed e d (record { current = none; new_dir = d.new_dir; old_dir = d.current }))
      else goes_on d

  -- The rename of `dir.new` to `dir`.
  unfoldable pub install : (is_empty : A → Bool) → Rename → Disk A → After (Disk A)
  install is_empty e d =
      if is_some d.new_dir && not (is_some_and (λ x. not (is_empty x)) d.current)
      then renamed e d (record { current = d.new_dir; new_dir = none; old_dir = d.old_dir })
      else failed d

-- How each call of a save ends.
pub record SaveCalls (A : Type 0) : Type 0 where
  pub clean : Bulk A
  pub write : Bulk A
  pub backup : Rename
  pub swap : Rename
  pub drop : Bulk A

unfoldable pub save_table :
    {A : Type 0} → (A → Bool) → SaveCalls A → (table : A) → Disk A → After (Disk A)
save_table is_empty calls table d = and_then (remove_new calls.clean d) (λ a.
    and_then (splay_save_raw calls.write table a) (λ b.
      and_then (back_up is_empty calls.backup b)
        (λ c. and_then (install is_empty calls.swap c) (λ e. remove_old calls.drop e))))

-- How each call of a recovery ends.
pub record RecoverCalls (A : Type 0) : Type 0 where
  pub discard : Bulk A
  pub restore : Rename
  pub cleanup : Bulk A

-- `if old_dir.exists() && !dir.exists() { let _ = rename(&old_dir, &dir) }`
unfoldable pub restore_old : {A : Type 0} → Rename → Disk A → After (Disk A)
restore_old e d =
    if is_some d.old_dir && not (is_some d.current)
    then ignored (renamed e d (record { current = d.old_dir; new_dir = d.new_dir; old_dir = none }))
    else goes_on d

unfoldable pub remove_stale : {A : Type 0} → Bulk A → Disk A → After (Disk A)
remove_stale e d =
    if is_some d.old_dir && is_some d.current then ignored (bulk e none (set_old d)) else goes_on d

-- The body of the loop, for one table.
unfoldable pub recover_table : {A : Type 0} → RecoverCalls A → Disk A → After (Disk A)
recover_table calls d =
    and_then (remove_new calls.discard d)
      (λ a. and_then (restore_old calls.restore a) (λ b. remove_stale calls.cleanup b))

abbrev ahead : {A : Type 0} → Disk A → List (Disk A) → After (List (Disk A)) → After (List (Disk A))
ahead d ds (goes_on r) = goes_on (d ∷ r)
ahead d ds (failed r) = failed (d ∷ r)
ahead d ds (crashed r) = crashed (d ∷ r)

abbrev pub one_then :
    {A : Type 0} → After (Disk A) → List (Disk A) → After (List (Disk A)) → After (List (Disk A))
one_then (goes_on d) ds r = ahead d ds r
one_then (failed d) ds r = failed (d ∷ ds)
one_then (crashed d) ds r = crashed (d ∷ ds)

-- The tables of an exom, one after the other; a crash leaves those that come later as they are.
unfoldable pub recover_splay_dirs :
    {A : Type 0} → RecoverCalls A → List (Disk A) → After (List (Disk A))
recover_splay_dirs calls [] = goes_on []
recover_splay_dirs calls (d ∷ ds) =
    one_then (recover_table calls d) ds (recover_splay_dirs calls ds)
