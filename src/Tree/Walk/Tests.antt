-- ===== src/Tree/Walk/Tests.antt =====
-- A shared view of src/tree.rs, and its theorems applied to it.
use ray_exomem.Prelude.{
  ◌≡◌, ◌≢◌, refl, codes, text_eq, text_leb, true, false, Option, none, List, [], ◌∷◌, any, all,
  last,
}
use ray_exomem.Prelude.Fallible.{ok, err}
use ray_exomem.Path.{TreePath, join, validate_segment, to_slash_string, join_with}
use ray_exomem.Tree.{Node, dir, no_entries, entry, get, at, is_exom, empty_dir}
use ray_exomem.Tree.Walk.{
  ExomStats, TreeNode, folder, node, no_nodes, WalkOptions, WalkError, empty_folder, walk_exom,
  walk_dir, walk_entries, walk_inner, walk, walk_or_empty, tree_path_starts_with, segment_after,
  insert_segment, child_segments, project_children, project, longest, walk_shared_projection,
}
use ray_exomem.Tree.Walk.Shared.{All, IsInView, walk_shared_projection-IsInView}
use ray_exomem.Tree.Walk.Enough.{walk_shared_projection-ends}

-- `a` holds `b`, which is shared, and `c`, which is not.
abbrev tree : Node
tree = dir (
    entry (codes "a") (dir (entry (codes "b") empty_dir (entry (codes "c") empty_dir no_entries)))
      no_entries)

abbrev opts : WalkOptions
opts = record {
  depth = none;
  include_archived = true;
  include_branches = false;
  include_activity = false;
}

abbrev unread : TreePath → Option ExomStats
unread p = none

abbrev a : TreePath
a = record { segments = codes "a" ∷ [] }

abbrev shared : List TreePath
shared = record { segments = codes "a" ∷ codes "b" ∷ [] } ∷ []

abbrev shown : TreeNode
shown = folder (codes "a") (codes "a") (node (folder (codes "b") (codes "a/b") no_nodes) no_nodes)

shown_run : walk_shared_projection unread opts tree a shared ≡ ok shown
unfolding walk_shared_projection project longest project_children child_segments insert_segment
    segment_after tree_path_starts_with walk_or_empty walk walk_inner walk_dir walk_entries
    walk_exom empty_folder is_exom get at text_eq text_leb any last join validate_segment
    to_slash_string join_with all
shown_run = refl

walk_shared_projection-IsInView_example : All (IsInView shared) shown
walk_shared_projection-IsInView_example =
    walk_shared_projection-IsInView unread opts tree a shared shown shown_run

walk_shared_projection-ends_example :
    walk_shared_projection unread opts tree a shared ≢ err WalkError.out_of_fuel
walk_shared_projection-ends_example = walk_shared_projection-ends unread opts tree a shared
