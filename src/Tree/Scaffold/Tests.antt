-- ===== src/Tree/Scaffold/Tests.antt =====
-- Runs of src/scaffold.rs, and its theorems applied to them.
use ray_exomem.Prelude.{
  ◌≡◌, refl, Text, codes, text_eq, text_leb, text_mem, true, [], ◌∷◌, ◌++◌, last,
}
use ray_exomem.Prelude.Fallible.{ok}
use ray_exomem.Path.{TreePath, ensure_not_reserved_as_exom}
use ray_exomem.Session.Exom.{MetaFile, new_bare, new_project_main}
use ray_exomem.Tree.{
  Node, dir, no_entries, entry, get, put, at, is_exom, classify, check_from, check_no_exom_ancestor,
  create_dir_all, write_file, write_meta, empty_dir,
}
use ray_exomem.Tree.Nodes.{at_empty}
use ray_exomem.Tree.Scaffold.{
  new_folder, new_bare_at, new_bare_exom, init_project, init_main, init_sessions,
}
use ray_exomem.Tree.Scaffold.Nesting.{has_exom, HasAlso, NoNesting}
use ray_exomem.Tree.Scaffold.Laws.{new_bare_exom-HasAlso, new_folder-has_exom, init_project-HasAlso}

abbrev work : TreePath
work = record { segments = codes "work" ∷ [] }

abbrev now : Text
now = codes "T"

abbrev ann : Text
ann = codes "ann@co.com"

-- `work` with its `main` and `sessions`.
abbrev project : Node
project = dir (
    entry (codes "work")
      (dir (
        entry (codes "main")
          (dir (
            entry (codes "exom.json") (Node.file (MetaFile.readable (new_project_main now ann)))
              no_entries))
          (entry (codes "sessions") empty_dir no_entries)))
      no_entries)

init_project_run : init_project now empty_dir work ann ≡ (ok tt, project)
unfolding init_project init_main init_sessions check_no_exom_ancestor check_from is_exom classify
    create_dir_all write_meta write_file at get put last text_eq text_leb
init_project_run = refl

-- `main` under the exom `work/main`: the walk takes the exom for the end of the path.
nested_path : TreePath
nested_path = record { segments = codes "work" ∷ codes "main" ∷ codes "main" ∷ [] }

nested_made : (new_bare_exom now project nested_path ann).0 ≡ ok tt
unfolding nested_path new_bare_exom new_bare_at ensure_not_reserved_as_exom check_no_exom_ancestor
    check_from is_exom classify create_dir_all write_meta write_file at get put last text_eq
    text_leb text_mem
nested_made = refl

-- A folder named `exom.json` makes an exom of the folder that it is made in.
folder_to_exom :
    has_exom
      (new_folder empty_dir (record { segments = codes "a" ∷ codes "exom.json" ∷ [] })).1
      (codes "a" ∷ [])
    ≡ true
unfolding new_folder check_no_exom_ancestor check_from is_exom classify create_dir_all at get put
    last text_eq text_leb
folder_to_exom = refl

empty_dir-NoNesting : NoNesting empty_dir
empty_dir-NoNesting t q s r h = at_empty ((t ∷ q) ++ s ∷ r)

abbrev notes_dir : Node
notes_dir = dir (
    entry (codes "work")
      (dir (
        entry (codes "notes")
          (dir (
            entry (codes "exom.json") (Node.file (MetaFile.readable (new_bare now ann)))
              no_entries))
          no_entries))
      no_entries)

new_bare_exom_run :
    new_bare_exom now empty_dir (record { segments = codes "work" ∷ codes "notes" ∷ [] }) ann
    ≡ (ok tt, notes_dir)
unfolding new_bare_exom new_bare_at ensure_not_reserved_as_exom check_no_exom_ancestor check_from
    is_exom classify create_dir_all write_meta write_file at get put last text_eq text_leb text_mem
new_bare_exom_run = refl

new_bare_exom-HasAlso_example :
    HasAlso notes_dir empty_dir (codes "work" ∷ codes "notes" ∷ []) × NoNesting notes_dir
unfolding text_mem text_eq
new_bare_exom-HasAlso_example =
    new_bare_exom-HasAlso now ann empty_dir notes_dir (codes "work" ∷ []) (codes "notes") refl refl
      empty_dir-NoNesting new_bare_exom_run

init_project-HasAlso_example :
    HasAlso project empty_dir (codes "work" ∷ codes "main" ∷ []) × NoNesting project
unfolding text_mem text_eq
init_project-HasAlso_example =
    init_project-HasAlso now ann empty_dir project [] (codes "work") refl refl
      (at_empty (codes "work" ∷ [])) empty_dir-NoNesting init_project_run

abbrev b_dir : Node
b_dir = dir (entry (codes "b") empty_dir no_entries)

new_folder_run : new_folder empty_dir (record { segments = codes "b" ∷ [] }) ≡ (ok tt, b_dir)
unfolding new_folder check_no_exom_ancestor check_from is_exom classify create_dir_all at get put
    last text_eq text_leb
new_folder_run = refl

new_folder-has_exom_example : has_exom b_dir (codes "b" ∷ []) ≡ has_exom empty_dir (codes "b" ∷ [])
unfolding text_mem text_eq
new_folder-has_exom_example =
    new_folder-has_exom empty_dir b_dir (record { segments = codes "b" ∷ [] }) (codes "b" ∷ []) refl
      new_folder_run
