-- ===== src/Tree/Remove.antt =====
-- `collect_exoms_under` and `delete_subtree` of src/scaffold.rs.
pub mod Listed
pub mod Gone
mod Tests
use ray_exomem.Prelude.{
  Text, codes, text_eq, Bool, true, false, Option, none, some, List, [], ◌∷◌, ◌++◌, if◌then◌else◌,
  is_some, is_none,
}
use ray_exomem.Prelude.Fallible.{Fallible, ok, err}
use ray_exomem.Path.{TreePath, slash, to_slash_string}
use ray_exomem.Session.Exom.{NodeKind}
use ray_exomem.Tree.{
  Node, file, dir, Entries, no_entries, entry, get, put, drop_entry, at, is_exom, classify,
}
use ray_exomem.Tree.Scaffold.{ScaffoldError, Made}

-- `child_slash`
unfoldable pub child_slash : Text → Text → Text
child_slash [] name = name
child_slash (c ∷ path) name = (c ∷ path) ++ slash ∷ name

unfoldable pub walk_collect_exoms : Entries → (path : Text) → List Text
walk_collect_exoms no_entries path = []
walk_collect_exoms (entry name (file f) es) path = walk_collect_exoms es path
walk_collect_exoms (entry name (dir inner) es) path =
    let here = child_slash path name in
    let deeper = walk_collect_exoms inner here in
    let rest = walk_collect_exoms es path in
    (if is_exom (some (dir inner)) then here ∷ [] else deeper) ++ rest

-- The entries of a folder; `read_dir` of a file is an error.
abbrev pub listed : Option Node → (path : Text) → Fallible ScaffoldError (List Text)
listed (some (dir es)) path = ok (walk_collect_exoms es path)
listed (some (file f)) path = err ScaffoldError.io
listed none path = err ScaffoldError.not_found

unfoldable pub collect_at : Option Node → (path : Text) → Fallible ScaffoldError (List Text)
collect_at n path = if is_exom n then ok (path ∷ []) else listed n path

unfoldable pub collect_exoms_under : Node → TreePath → Fallible ScaffoldError (List Text)
collect_exoms_under tree p = collect_at (at (some tree) p.segments) (to_slash_string p)

-- `remove_dir_all` at a path of a segment or more.
unfoldable pub remove : Entries → Text → List Text → Entries
remove es s [] = drop_entry es s
remove es s (t ∷ p) = elim (get es s) [
  | none ↦ es
  | some n ↦ elim n [ file f ↦ es | dir inner ↦ put es s (dir (remove inner t p)) ]
]

abbrev pub without : Node → List Text → Node
without (dir es) (s ∷ p) = dir (remove es s p)
without (dir es) [] = dir no_entries
without (file f) p = file f

abbrev pub delete_at : Node → List Text → Option Node → Made
delete_at tree p none = (err ScaffoldError.not_found, tree)
delete_at tree p (some (file f)) = (err ScaffoldError.io, tree)
delete_at tree p (some (dir es)) = (ok tt, without tree p)

-- The root of the tree is no path that is parsed; here it is left as an empty directory.
unfoldable pub delete_subtree : Node → TreePath → Made
delete_subtree tree p = delete_at tree p.segments (at (some tree) p.segments)
