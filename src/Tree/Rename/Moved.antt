-- ===== src/Tree/Rename/Moved.antt =====
-- What a renaming of src/tree.rs leaves at the old path, at the new one and beside them.
use ray_exomem.Prelude.{
  ◌≡◌, refl, sym, ap, ◌∙◌, Text, text_eq, Bool, true, false, Option, none, some, List, [], ◌∷◌,
  ◌++◌, if◌then◌else◌, is_some,
}
use ray_exomem.Prelude.Fallible.{Fallible, ok, err}
use ray_exomem.Path.{TreePath, PathError, validate_segment, init}
use ray_exomem.Tree.{Node, file, dir, Entries, get, put, drop_entry, at}
use ray_exomem.Tree.Nodes.{with_child-some, get-put_same, get-put_other, at-none, text_eq_swap}
use ray_exomem.Tree.Scaffold.Nesting.{last-end}
use ray_exomem.Tree.Remove.Gone.{get-drop_same, get-drop_other}
use ray_exomem.Tree.Rename.{
  RenameError, move_entry, moved_in, as_dir, update_at, renamed, rename_in, checked_name,
  rename_last_segment, collides,
}

at-put_same :
    (es : Entries) (s : Text) (x : Node) (r : List Text)
    → at (some (dir (put es s x))) (s ∷ r) ≡ at (some x) r
unfolding at
at-put_same es s x r = ap (λ o. at o r) (get-put_same es s x)

at-put_other :
    (es : Entries) (s t : Text) (x : Node) (r : List Text)
    → text_eq s t ≡ false
    → at (some (dir (put es s x))) (t ∷ r) ≡ at (get es t) r
unfolding at
at-put_other es s t x r h = ap (λ o. at o r) (get-put_other es s t x h)

as_dir-some :
    (o : Option Entries) (after : Node)
    → as_dir o ≡ some after
    → (es : Entries) × (o ≡ some es) × (after ≡ dir es)
as_dir-some none after h = absurd (cc h)
as_dir-some (some es) after h = (es, refl, cc h)

-- A folder that was changed: what is seen through it is what is seen through its entries.
IsChanged : Option Node → List Text → (Entries → Option Entries) → Node → Type 0
IsChanged n p f after =
    (es : Entries) × (changed : Entries) × (f es ≡ some changed)
    × ((r : List Text)
        → (at n (p ++ r) ≡ at (some (dir es)) r)
          × (at (some after) (p ++ r) ≡ at (some (dir changed)) r))

update_at-IsChanged :
    (n : Option Node) (p : List Text) (f : Entries → Option Entries) (after : Node)
    → update_at n p f ≡ some after
    → IsChanged n p f after
unfolding update_at IsChanged at
update_at-IsChanged none p f after h = absurd (cc h)
update_at-IsChanged (some (file x)) p f after h = absurd (cc h)
update_at-IsChanged (some (dir es)) [] f after h =
    let (changed, i, j) = as_dir-some (f es) after h in (es, changed, i, λ r. (refl, rw j refl))
update_at-IsChanged (some (dir es)) (s ∷ p) f after h =
    let (x, i, j) = with_child-some es s (update_at (get es s) p f) after h in
    let (a, b, e, same) = update_at-IsChanged (get es s) p f x i in
    (
      a,
      b,
      e,
      λ r. (
        (same r).0,
        ap (λ o. at (some o) ((s ∷ p) ++ r)) j ∙ at-put_same es s x (p ++ r) ∙ (same r).1,
      ),
    )

-- The subtree at the old name is at the new one, nothing is at the old one, and what has another
-- name in the folder is as it was.
abbrev pub IsMoved : (tree after : Node) → (parent : List Text) → (old new : Text) → Type 0
IsMoved tree after parent old new =
    ((q : List Text)
      → (at (some after) (parent ++ new ∷ q) ≡ at (some tree) (parent ++ old ∷ q))
        × (at (some after) (parent ++ old ∷ q) ≡ none))
    × ((s : Text) (q : List Text)
        → text_eq old s ≡ false
        → text_eq new s ≡ false
        → at (some after) (parent ++ s ∷ q) ≡ at (some tree) (parent ++ s ∷ q))

moved_in-some :
    (es changed : Entries) (old new : Text) (o : Option Node)
    → moved_in es new old o ≡ some changed
    → (n : Node) × (o ≡ some n) × (changed ≡ put (drop_entry es old) new n)
moved_in-some es changed old new none h = absurd (cc h)
moved_in-some es changed old new (some n) h = (n, refl, cc h)

move_entry-IsMoved :
    (tree after : Node) (parent : List Text) (old new : Text)
    → text_eq old new ≡ false
    → update_at (some tree) parent (move_entry old new) ≡ some after
    → IsMoved tree after parent old new
unfolding IsChanged move_entry at
move_entry-IsMoved tree after parent old new differ h =
    let (es, changed, e, same) =
      update_at-IsChanged (some tree) parent (move_entry old new) after h in
    let (n, i, j) = moved_in-some es changed old new (get es old) e in
    let seen : (r : List Text)
        → at (some after) (parent ++ r) ≡ at (some (dir (put (drop_entry es old) new n))) r =
      λ r. (same r).1 ∙ ap (λ x. at (some (dir x)) r) j in
    (
      λ q. (
        seen (new ∷ q)
            ∙ at-put_same (drop_entry es old) new n q
            ∙ sym ((same (old ∷ q)).0 ∙ ap (λ o. at o q) i),
        seen (old ∷ q)
            ∙ at-put_other (drop_entry es old) new old n q (text_eq_swap old new differ)
            ∙ ap (λ o. at o q) (get-drop_same es old)
            ∙ at-none q,
      ),
      λ s q a b.
          seen (s ∷ q)
          ∙ at-put_other (drop_entry es old) new s n q b
          ∙ ap (λ o. at o q) (get-drop_other es old s a)
          ∙ sym (same (s ∷ q)).0,
    )

init-end : (pre : List Text) (s : Text) → init (pre ++ s ∷ []) ≡ pre
unfolding init
init-end [] s = refl
init-end (t ∷ []) s = refl
init-end (t ∷ u ∷ pre) s = ap (λ x. t ∷ x) (init-end (u ∷ pre) s)

renamed_ok :
    (tree after : Node) (result : Fallible RenameError TreePath) (o : Option Node) (p : TreePath)
    → renamed tree result o ≡ (ok p, after)
    → o ≡ some after
renamed_ok tree after result none p h = absurd (cc (ap (λ x. x.0) h))
renamed_ok tree after result (some n) p h = ap some (ap (λ x. x.1) h)

pick_ok :
    (b : Bool) (e : RenameError) (tree after : Node) (m : Fallible RenameError TreePath × Node)
    (p : TreePath)
    → (if b then (err e, tree) else m) ≡ (ok p, after)
    → m ≡ (ok p, after)
pick_ok true e tree after m p h = absurd (cc (ap (λ x. x.0) h))
pick_ok false e tree after m p h = h

checked_name_ok :
    (tree after : Node) (v : Fallible PathError Unit) (m : Fallible RenameError TreePath × Node)
    (p : TreePath)
    → checked_name tree v m ≡ (ok p, after)
    → m ≡ (ok p, after)
checked_name_ok tree after (err e) m p h = absurd (cc (ap (λ x. x.0) h))
checked_name_ok tree after (ok u) m p h = h

rename_in-IsMoved :
    (tree after : Node) (parent : List Text) (old new : Text) (p : TreePath)
    → text_eq old new ≡ false
    → rename_in tree parent old new false ≡ (ok p, after)
    → IsMoved tree after parent old new
unfolding rename_in
rename_in-IsMoved tree after parent old new p differ h =
    let a =
      pick_ok (is_some (at (some tree) (parent ++ new ∷ []))) RenameError.exists tree after _ p h in
    let b =
      pick_ok (collides (at (some tree) parent) new old) RenameError.exists_but_for_case tree after
        _ p a in
    move_entry-IsMoved tree after parent old new differ (renamed_ok tree after _ _ p b)

-- A renaming to another name that succeeds moves the whole subtree, leaves nothing at the old name,
-- and leaves what has another name in the folder.
pub rename_last_segment-IsMoved :
    (tree after : Node) (parent : List Text) (old new : Text) (p : TreePath)
    → text_eq old new ≡ false
    → rename_last_segment tree (record { segments = parent ++ old ∷ [] }) new ≡ (ok p, after)
    → IsMoved tree after parent old new
unfolding rename_last_segment
rename_last_segment-IsMoved tree after parent old new p differ h =
    let r = checked_name_ok tree after (validate_segment new) _ p h in
    rename_in-IsMoved tree after parent old new p differ
      (rw (init-end parent old, last-end parent old, differ) at r)
