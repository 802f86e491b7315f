-- ===== src/Tree.antt =====
-- The tree of folders and exoms on disk, as src/tree.rs and src/scaffold.rs see it. A directory is its
-- entries; a file is what `read_meta` finds in it. Calls of the file system fail where the tree
-- makes them fail, by a file in the place of a directory or a missing path, and not otherwise.
pub mod Nodes
pub mod Scaffold
pub mod Remove
pub mod Walk
pub mod Fork
pub mod Rename
use ray_exomem.Prelude.{
  Text, codes, text_eq, text_leb, is_text, Bool, true, false, not, ◌&&◌, ◌||◌, Option, none, some,
  List, [], ◌∷◌, ◌++◌, if◌then◌else◌, is_some, last,
}
use ray_exomem.Prelude.Fallible.{Fallible, ok, err}
use ray_exomem.Path.{TreePath}
use ray_exomem.Session.Exom.{MetaFile, NodeKind}

-- `Entries` are in the order of their names, in which the code lists them.
mutual
  pub data Node : Type 0 where
    file : MetaFile → Node
    dir : Entries → Node

  pub data Entries : Type 0 where
    no_entries : Entries
    entry : Text → Node → Entries → Entries

abbrev pub meta_filename : Text
meta_filename = codes "exom.json"

unfoldable pub get : Entries → Text → Option Node
get no_entries s = none
get (entry t n es) s = if text_eq t s then some n else get es s

unfoldable pub put : Entries → Text → Node → Entries
put no_entries s x = entry s x no_entries
put (entry t n es) s x =
    let rest = put es s x in
    if text_eq t s
    then entry t x es
    else if text_leb s t
    then entry s x (entry t n es)
    else entry t n rest

unfoldable pub drop_entry : Entries → Text → Entries
drop_entry no_entries s = no_entries
drop_entry (entry t n es) s =
    let rest = drop_entry es s in if text_eq t s then rest else entry t n rest

abbrev pub child : Option Node → Text → Option Node
child (some (dir es)) s = get es s
child (some (file f)) s = none
child none s = none

-- What is found at a path.
unfoldable pub at : Option Node → List Text → Option Node
at n [] = n
at n (s ∷ p) = at (child n s) p

unfoldable pub is_exom : Option Node → Bool
is_exom n = is_some (child n meta_filename)

abbrev pub kind_of : (exists is_exom : Bool) → NodeKind
kind_of false e = NodeKind.missing
kind_of true true = NodeKind.exom
kind_of true false = NodeKind.folder

unfoldable pub classify : Option Node → NodeKind
classify n = kind_of (is_some n) (is_exom n)

-- The walk down the segments: an exom whose name is not that of the end of the path is refused.
unfoldable pub check_from : Option Node → (end : Option Text) → List Text → Bool
check_from n end [] = true
check_from n end (seg ∷ rest) =
    let c = child n seg in
    if is_exom c && not (is_text end seg) then false else check_from c end rest

unfoldable pub check_no_exom_ancestor : Node → List Text → Bool
check_no_exom_ancestor tree segments = check_from (some tree) (last segments) segments

abbrev pub empty_dir : Node
empty_dir = dir no_entries

abbrev pub or_empty : Option Node → Node
or_empty none = empty_dir
or_empty (some n) = n

abbrev pub with_child : Entries → Text → Option Node → Option Node
with_child es s none = none
with_child es s (some c) = some (dir (put es s c))

-- `create_dir_all`: a file on the way or at the end is an error.
unfoldable pub create_dir_all : Node → List Text → Option Node
create_dir_all (file f) p = none
create_dir_all (dir es) [] = some (dir es)
create_dir_all (dir es) (s ∷ p) = with_child es s (create_dir_all (or_empty (get es s)) p)

abbrev pub write_in : Entries → Option Node → MetaFile → Option Node
write_in es (some (dir inner)) content = none
write_in es (some (file f)) content = some (dir (put es meta_filename (file content)))
write_in es none content = some (dir (put es meta_filename (file content)))

-- `fs::write` of exom.json in the directory at a path.
unfoldable pub write_file : Option Node → List Text → MetaFile → Option Node
write_file none p content = none
write_file (some (file f)) p content = none
write_file (some (dir es)) [] content = write_in es (get es meta_filename) content
write_file (some (dir es)) (s ∷ p) content = with_child es s (write_file (get es s) p content)

abbrev pub then_write : Option Node → List Text → MetaFile → Option Node
then_write none p content = none
then_write (some n) p content = write_file (some n) p content

-- `write_meta` of src/exom.rs.
unfoldable pub write_meta : Node → List Text → MetaFile → Option Node
write_meta tree p content = then_write (create_dir_all tree p) p content
