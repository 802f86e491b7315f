-- ===== src/Storage/Swap/Tests.antt =====
-- Runs of the replacement of a table of src/storage.rs, and its theorems applied to them.
use ray_exomem.Prelude.{◌≡◌, refl, ◌⊎◌, ℕ, Bool, true, false, none, some, List, [], ◌∷◌}
use ray_exomem.Storage.Swap.{
  Disk, Bulk, Rename, goes_on, crashed, SaveCalls, save_table, RecoverCalls, recover_splay_dirs,
  remove_new, splay_save_raw, back_up, install,
}
use ray_exomem.Storage.Swap.Recovery.{
  Each, Restarted, all_work, save_table-restarts, recover_splay_dirs-kept,
}

abbrev is_bare : List ℕ → Bool
is_bare [] = true
is_bare (f ∷ fs) = false

abbrev first_save : List ℕ
first_save = 1 ∷ []

abbrev second_save : List ℕ
second_save = 2 ∷ []

abbrev saved_once : Disk (List ℕ)
saved_once = record { current = some first_save; new_dir = none; old_dir = none }

-- The process dies between the two renames.
abbrev dies_between : SaveCalls (List ℕ)
dies_between = record {
  clean = Bulk.works;
  write = Bulk.works;
  backup = Rename.works;
  swap = Rename.crashes;
  drop = Bulk.works;
}

abbrev torn : Disk (List ℕ)
torn = record { current = none; new_dir = some second_save; old_dir = some first_save }

dies_between_run : save_table is_bare dies_between second_save saved_once ≡ crashed torn
unfolding save_table remove_new splay_save_raw back_up install
dies_between_run = refl

-- A recovery that dies while it drops `dir.new`.
abbrev dies_early : RecoverCalls (List ℕ)
dies_early = record {
  discard = Bulk.crashes (some []);
  restore = Rename.works;
  cleanup = Bulk.works;
}

save_table-restarts_example :
    Each
      (Restarted is_bare second_save (dies_early ∷ []) (some second_save))
      (Restarted is_bare second_save (dies_early ∷ []) (some first_save))
      (λ e.
        Restarted is_bare second_save (dies_early ∷ []) (some first_save) e
        ⊎ Restarted is_bare second_save (dies_early ∷ []) (some second_save) e)
      (save_table is_bare dies_between second_save saved_once)
save_table-restarts_example =
    save_table-restarts is_bare second_save (dies_early ∷ []) dies_between saved_once

recover_splay_dirs-kept_example :
    recover_splay_dirs all_work (torn ∷ saved_once ∷ []) ≡ goes_on (saved_once ∷ saved_once ∷ [])
recover_splay_dirs-kept_example = recover_splay_dirs-kept (torn ∷ saved_once ∷ [])
