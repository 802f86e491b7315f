-- ===== src/Tree/Remove/Tests.antt =====
-- Runs of the deletion of src/scaffold.rs, and its theorems applied to them.
use ray_exomem.Prelude.{
  ◌≡◌, ◌⊎◌, refl, Text, codes, text_eq, text_leb, text_mem, last, true, false, List, [], ◌∷◌, ◌++◌,
  Memᴰ,
}
use ray_exomem.Prelude.Fallible.{ok}
use ray_exomem.Path.{ensure_not_reserved_as_exom, to_slash_string, join_with}
use ray_exomem.Session.Exom.{MetaFile, new_bare}
use ray_exomem.Tree.{
  Node, dir, file, no_entries, entry, get, drop_entry, put, at, is_exom, classify, check_from,
  check_no_exom_ancestor, create_dir_all, write_meta, write_file, empty_dir,
}
use ray_exomem.Tree.Nodes.{at_empty}
use ray_exomem.Tree.Scaffold.Nesting.{has_exom, NoNesting}
use ray_exomem.Tree.Scaffold.{new_bare_at, new_bare_exom}
use ray_exomem.Tree.Scaffold.Laws.{new_bare_exom-HasAlso}
use ray_exomem.Tree.Remove.{
  child_slash, walk_collect_exoms, collect_at, collect_exoms_under, remove, delete_subtree,
}
use ray_exomem.Tree.Remove.Gone.{delete_subtree-has_exom, delete_subtree-collect_exoms_under}

abbrev an_exom : Node
an_exom = dir (entry (codes "exom.json") (file (MetaFile.readable (new_bare [] []))) no_entries)

-- `a/b` is an exom.
abbrev tree : Node
tree = dir (entry (codes "a") (dir (entry (codes "b") an_exom no_entries)) no_entries)

abbrev a : List Text
a = codes "a" ∷ []

a_listed : collect_exoms_under tree (record { segments = a }) ≡ ok (codes "a/b" ∷ [])
unfolding collect_exoms_under collect_at at get text_eq is_exom walk_collect_exoms child_slash
    to_slash_string join_with
a_listed = refl

a_deleted : delete_subtree tree (record { segments = a }) ≡ (ok tt, empty_dir)
unfolding delete_subtree at get text_eq remove drop_entry
a_deleted = refl

missing_deleted : (delete_subtree tree (record { segments = codes "c" ∷ [] })).1 ≡ tree
unfolding delete_subtree at get text_eq
missing_deleted = refl

empty_dir-NoNesting : NoNesting empty_dir
empty_dir-NoNesting t q s r h = at_empty ((t ∷ q) ++ s ∷ r)

tree_made :
    new_bare_exom [] empty_dir (record { segments = codes "a" ∷ codes "b" ∷ [] }) [] ≡ (ok tt, tree)
unfolding new_bare_exom new_bare_at ensure_not_reserved_as_exom check_no_exom_ancestor check_from
    is_exom classify create_dir_all write_meta write_file at get put last text_eq text_leb text_mem
tree_made = refl

tree-NoNesting : NoNesting tree
unfolding text_mem text_eq
tree-NoNesting =
    (new_bare_exom-HasAlso [] [] empty_dir tree a (codes "b") refl refl empty_dir-NoNesting
      tree_made).1

delete_subtree-has_exom_example :
    ((r : List Text) → has_exom empty_dir (a ++ r) ≡ false)
    × ((q : List Text)
        → ((r : List Text) × (q ≡ a ++ r)) ⊎ (has_exom empty_dir q ≡ has_exom tree q))
unfolding text_mem text_eq
delete_subtree-has_exom_example =
    delete_subtree-has_exom tree empty_dir (codes "a") [] refl a_deleted

was_there : has_exom tree (codes "a" ∷ codes "b" ∷ []) ≡ true
unfolding at get text_eq is_exom
was_there = refl

delete_subtree-collect_exoms_under_example :
    Memᴰ (to_slash_string (record { segments = codes "a" ∷ codes "b" ∷ [] })) (codes "a/b" ∷ [])
unfolding text_mem text_eq
delete_subtree-collect_exoms_under_example =
    delete_subtree-collect_exoms_under tree empty_dir 97 [] [] (codes "a" ∷ codes "b" ∷ [])
      (codes "a/b" ∷ []) refl tree-NoNesting a_listed a_deleted was_there
      (at_empty (codes "a" ∷ codes "b" ∷ []))
