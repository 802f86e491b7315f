-- ===== src/Tree/Rename/Tests.antt =====
-- Renamings of src/tree.rs, and the theorem applied to one.
use ray_exomem.Prelude.{◌≡◌, refl, codes, text_eq, text_leb, all, last, [], ◌∷◌}
use ray_exomem.Prelude.Fallible.{ok, err}
use ray_exomem.Path.{TreePath, validate_segment, init, join}
use ray_exomem.Tree.{Node, dir, no_entries, entry, get, put, drop_entry, at, empty_dir}
use ray_exomem.Tree.Rename.{
  RenameError, eq_ignore_ascii_case, has_collision, move_entry, update_at, rename_in,
  rename_last_segment,
}
use ray_exomem.Tree.Rename.Moved.{IsMoved, rename_last_segment-IsMoved}

-- `a/b` and `a/d`.
abbrev tree : Node
tree = dir (
    entry (codes "a") (dir (entry (codes "b") empty_dir (entry (codes "d") empty_dir no_entries)))
      no_entries)

abbrev after : Node
after = dir (
    entry (codes "a") (dir (entry (codes "c") empty_dir (entry (codes "d") empty_dir no_entries)))
      no_entries)

abbrev ab : TreePath
ab = record { segments = codes "a" ∷ codes "b" ∷ [] }

moved_run :
    rename_last_segment tree ab (codes "c")
    ≡ (ok (record { segments = codes "a" ∷ codes "c" ∷ [] }), after)
unfolding rename_last_segment rename_in update_at move_entry has_collision eq_ignore_ascii_case at
    get put drop_entry text_eq text_leb last init join validate_segment all
moved_run = refl

case_run : rename_last_segment tree ab (codes "D") ≡ (err RenameError.exists_but_for_case, tree)
unfolding rename_last_segment rename_in update_at move_entry has_collision eq_ignore_ascii_case at
    get put drop_entry text_eq text_leb last init join validate_segment all
case_run = refl

rename_last_segment-IsMoved_example : IsMoved tree after (codes "a" ∷ []) (codes "b") (codes "c")
unfolding text_eq
rename_last_segment-IsMoved_example =
    rename_last_segment-IsMoved tree after (codes "a" ∷ []) (codes "b") (codes "c")
      (record { segments = codes "a" ∷ codes "c" ∷ [] }) refl moved_run
