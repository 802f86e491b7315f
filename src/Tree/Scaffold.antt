-- ===== src/Tree/Scaffold.antt =====
-- src/scaffold.rs: projects, folders and exoms are made in the tree. Each operation gives its result
-- and the tree that it leaves.
pub mod Nesting
pub mod Laws
mod Tests
use ray_exomem.Prelude.{
  Text, codes, Bool, true, false, Option, none, some, List, [], ◌∷◌, ◌++◌, if◌then◌else◌, last,
}
use ray_exomem.Prelude.Fallible.{Fallible, ok, err}
use ray_exomem.Path.{TreePath, PathError, ensure_not_reserved_as_exom}
use ray_exomem.Session.Exom.{ExomKind, ExomMeta, MetaFile, NodeKind, new_project_main, new_bare}
use ray_exomem.Tree.{Node, at, classify, check_no_exom_ancestor, create_dir_all, write_meta}

pub data ScaffoldError : Type 0 where
  path : PathError → ScaffoldError
  io nest_inside_exom not_found : ScaffoldError
  already_exists_different : NodeKind → ScaffoldError

abbrev pub Made : Type 0
Made = Fallible ScaffoldError Unit × Node

-- `?` on a call of the file system.
abbrev pub made : Node → Option Node → (Node → Made) → Made
made tree none f = (err ScaffoldError.io, tree)
made tree (some after) f = f after

abbrev pub finished : Node → Made
finished tree = (ok tt, tree)

abbrev pub is_main : MetaFile → Fallible ScaffoldError Unit
is_main MetaFile.absent = err ScaffoldError.io
is_main MetaFile.unreadable = err ScaffoldError.io
is_main (MetaFile.readable meta) = elim meta.kind [
  | ExomKind.project_main ↦ ok tt
  | ExomKind.session ↦ err (ScaffoldError.already_exists_different NodeKind.exom)
  | ExomKind.bare ↦ err (ScaffoldError.already_exists_different NodeKind.exom)
]

-- `read_meta` of what stands at exom.json.
abbrev pub content : Option Node → MetaFile
content (some (Node.file f)) = f
content (some (Node.dir es)) = MetaFile.unreadable
content none = MetaFile.absent

abbrev pub checked : Node → Fallible ScaffoldError Unit → (Node → Made) → Made
checked tree (err e) f = (err e, tree)
checked tree (ok u) f = f tree

-- The main exom of a project: made, or one that is there.
unfoldable pub init_main :
    NodeKind → (now created_by : Text) → List Text → Node → (Node → Made) → Made
init_main NodeKind.missing now by main tree f =
    made tree (write_meta tree main (MetaFile.readable (new_project_main now by))) f
init_main NodeKind.exom now by main tree f =
    checked tree (is_main (content (at (some tree) (main ++ codes "exom.json" ∷ [])))) f
init_main NodeKind.folder now by main tree f =
    (err (ScaffoldError.already_exists_different NodeKind.folder), tree)

unfoldable pub init_sessions : List Text → Node → Made
init_sessions segments tree =
    made tree (create_dir_all tree (segments ++ codes "sessions" ∷ [])) finished

unfoldable pub init_project : (now : Text) → Node → TreePath → (created_by : Text) → Made
init_project now tree p by =
    if check_no_exom_ancestor tree p.segments
    then made tree (create_dir_all tree p.segments) (λ leaf.
      let main = p.segments ++ codes "main" ∷ [] in
      init_main (classify (at (some leaf) main)) now by main leaf (init_sessions p.segments))
    else (err ScaffoldError.nest_inside_exom, tree)

abbrev pub new_at : NodeKind → Made → Made → Made → Made
new_at NodeKind.missing m f e = m
new_at NodeKind.folder m f e = f
new_at NodeKind.exom m f e = e

unfoldable pub new_folder : Node → TreePath → Made
new_folder tree p =
    if check_no_exom_ancestor tree p.segments
    then (let dirs = made tree (create_dir_all tree p.segments) finished in
        new_at (classify (at (some tree) p.segments)) dirs dirs
          (err (ScaffoldError.already_exists_different NodeKind.exom), tree))
    else (err ScaffoldError.nest_inside_exom, tree)

abbrev pub reserved : Option Text → Fallible PathError Unit
reserved none = ok tt
reserved (some name) = ensure_not_reserved_as_exom name

-- Under a name that is not reserved.
unfoldable pub new_bare_at : (now : Text) → Node → TreePath → (created_by : Text) → Made
new_bare_at now tree p by =
    if check_no_exom_ancestor tree p.segments
    then new_at (classify (at (some tree) p.segments))
        (made tree (create_dir_all tree p.segments) (λ dirs.
          made dirs (write_meta dirs p.segments (MetaFile.readable (new_bare now by))) finished))
        (err (ScaffoldError.already_exists_different NodeKind.folder), tree) (finished tree)
    else (err ScaffoldError.nest_inside_exom, tree)

abbrev pub named : Fallible PathError Unit → Node → (Node → Made) → Made
named (err e) tree f = (err (ScaffoldError.path e), tree)
named (ok u) tree f = f tree

unfoldable pub new_bare_exom : (now : Text) → Node → TreePath → (created_by : Text) → Made
new_bare_exom now tree p by = named (reserved (last p.segments)) tree (λ t. new_bare_at now t p by)
