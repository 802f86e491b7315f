-- ===== src/Tree/Rename.antt =====
-- `rename_last_segment` of src/tree.rs.
pub mod Moved
mod Tests
use ray_exomem.Prelude.{
  ℕ, ◌+◌, Text, text_eq, is_text, Bool, true, false, not, ◌&&◌, Option, none, some, List, [], ◌∷◌,
  ◌++◌, ◌==◌, leb, if◌then◌else◌, is_some, last, unwrap_or,
}
use ray_exomem.Prelude.Fallible.{Fallible, ok, err}
use ray_exomem.Path.{TreePath, PathError, validate_segment, join, init, parse, is_nonempty}
use ray_exomem.Tree.{
  Node, file, dir, Entries, no_entries, entry, get, put, drop_entry, at, with_child,
}

pub data RenameError : Type 0 where
  invalid : PathError → RenameError
  exists exists_but_for_case io : RenameError

abbrev lower : ℕ → ℕ
lower c = if leb 65 c && leb c 90 then c + 32 else c

unfoldable pub eq_ignore_ascii_case : Text → Text → Bool
eq_ignore_ascii_case [] [] = true
eq_ignore_ascii_case (a ∷ s) (b ∷ t) = lower a == lower b && eq_ignore_ascii_case s t
eq_ignore_ascii_case _ _ = false

-- A name in the folder that differs from the new one in case only, other than the current one.
unfoldable pub has_collision : Entries → (new_segment current_last : Text) → Bool
has_collision no_entries new current = false
has_collision (entry name n es) new current =
    let rest = has_collision es new current in
    if eq_ignore_ascii_case name new && not (text_eq name current) then true else rest

abbrev pub collides : Option Node → (new_segment current_last : Text) → Bool
collides (some (dir es)) new current = has_collision es new current
collides (some (file f)) new current = false
collides none new current = false

abbrev moved_in : Entries → (new_segment : Text) → (old : Text) → Option Node → Option Entries
moved_in es new old none = none
moved_in es new old (some n) = some (put (drop_entry es old) new n)

-- `fs::rename` within a folder.
unfoldable pub move_entry : (old new : Text) → Entries → Option Entries
move_entry old new es = moved_in es new old (get es old)

abbrev pub as_dir : Option Entries → Option Node
as_dir none = none
as_dir (some es) = some (dir es)

-- A change of the entries of the folder at a path.
unfoldable pub update_at : Option Node → List Text → (Entries → Option Entries) → Option Node
update_at none p f = none
update_at (some (file x)) p f = none
update_at (some (dir es)) [] f = as_dir (f es)
update_at (some (dir es)) (s ∷ p) f = with_child es s (update_at (get es s) p f)

abbrev from_path : Fallible PathError TreePath → Fallible RenameError TreePath
from_path (ok p) = ok p
from_path (err e) = err (RenameError.invalid e)

abbrev joined_to : List Text → Text → Fallible RenameError TreePath
joined_to [] new = from_path (parse new)
joined_to (s ∷ parent) new = from_path (join (record { segments = s ∷ parent }) new)

abbrev pub renamed :
    Node → Fallible RenameError TreePath → Option Node → Fallible RenameError TreePath × Node
renamed tree result none = (err RenameError.io, tree)
renamed tree result (some after) = (result, after)

-- Under a name that can be a segment; `parent` is the folder of the path.
unfoldable pub rename_in :
    Node
    → (parent : List Text) → (current new_segment : Text) → (is_same : Bool)
    → Fallible RenameError TreePath × Node
rename_in tree parent current new is_same =
    if is_same
    then (joined_to parent new, tree)
    else if is_some (at (some tree) (parent ++ new ∷ []))
    then (err RenameError.exists, tree)
    else if collides (at (some tree) parent) new current
    then (err RenameError.exists_but_for_case, tree)
    else renamed tree (joined_to parent new) (update_at (some tree) parent (move_entry current new))

abbrev pub checked_name :
    Node
    → Fallible PathError Unit
    → Fallible RenameError TreePath × Node
    → Fallible RenameError TreePath × Node
checked_name tree (err e) r = (err (RenameError.invalid e), tree)
checked_name tree (ok u) r = r

-- Of a path of a segment or more.
unfoldable pub rename_last_segment :
    Node → TreePath → (new_segment : Text) → Fallible RenameError TreePath × Node
rename_last_segment tree p new = checked_name tree (validate_segment new) (
    rename_in tree (init p.segments) (unwrap_or (last p.segments) []) new
      (is_text (last p.segments) new))
