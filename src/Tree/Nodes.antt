-- ===== src/Tree/Nodes.antt =====
-- What stands at a path of the tree of src/tree.rs after directories or an exom.json were made.
use ray_exomem.Prelude.{
  ◌≡◌, refl, sym, ap, ◌∙◌, ◌⊎◌, inl, inr, Text, text_eq, text_eq_iff, text_eq_refl, text_mem, Bool,
  true, false, not, ◌&&◌, ◌||◌, Option, none, some, List, [], ◌∷◌, ◌++◌, if◌then◌else◌, arith,
  Bool-cases, Option-cases,
}
use ray_exomem.Session.Exom.{MetaFile}
use ray_exomem.Tree.{
  Node, file, dir, Entries, no_entries, entry, meta_filename, get, put, child, at, is_exom,
  check_from, or_empty, with_child, write_in, then_write, create_dir_all, write_file, write_meta,
  empty_dir,
}

-- Whether two paths are one.
unfoldable pub path_eq : List Text → List Text → Bool
path_eq [] [] = true
path_eq (s ∷ p) (t ∷ q) = text_eq s t && path_eq p q
path_eq _ _ = false

text_eq_join : (u s t : Text) → text_eq u t ≡ true → text_eq s t ≡ true → text_eq u s ≡ true
text_eq_join u s t a b = rw ((text_eq_iff u t).0 a, (text_eq_iff s t).0 b) (text_eq_refl t)

get-put :
    (es : Entries) (s t : Text) (x : Node)
    → get (put es s x) t ≡ (if text_eq s t then some x else get es t)
unfolding get put
get-put no_entries s t x = refl
get-put (entry u n es) s t x = elim (Bool-cases (text_eq u s)) [
  | inl same ↦ rw ((text_eq_iff u s).0 same, text_eq_refl s) (ground arith)
  | inr other ↦ ground (arith, get-put es s t x, text_eq_join u s t)
]

pub get-put_same : (es : Entries) (s : Text) (x : Node) → get (put es s x) s ≡ some x
get-put_same es s x = rw (get-put es s s x, text_eq_refl s)

pub get-put_other :
    (es : Entries) (s t : Text) (x : Node) → text_eq s t ≡ false → get (put es s x) t ≡ get es t
get-put_other es s t x h = rw (get-put es s t x, h)

pub at-none : (q : List Text) → at none q ≡ none
unfolding at
at-none [] = refl
at-none (s ∷ q) = at-none q

pub at_empty : (q : List Text) → is_exom (at (some empty_dir) q) ≡ false
unfolding at is_exom get
at_empty [] = refl
at_empty (s ∷ q) = rw (at-none q)

is_exom-or_empty :
    (n : Option Node) (q : List Text) → is_exom (at (some (or_empty n)) q) ≡ is_exom (at n q)
unfolding is_exom
is_exom-or_empty none q = at_empty q ∙ sym (none_exom q)
  where
    none_exom : (q : List Text) → is_exom (at none q) ≡ false
    none_exom q = rw (at-none q) refl
is_exom-or_empty (some n) q = refl

-- A path that goes through no exom.json.
abbrev pub is_plain : List Text → Bool
is_plain p = not (text_mem meta_filename p)

pub plain_head :
    (s : Text) (p : List Text)
    → is_plain (s ∷ p) ≡ true
    → (text_eq s meta_filename ≡ false) × (is_plain p ≡ true)
unfolding text_mem
plain_head s p h = (ground arith, ground arith)

pub with_child-some :
    (es : Entries) (s : Text) (c : Option Node) (n : Node)
    → with_child es s c ≡ some n
    → (x : Node) × (c ≡ some x) × (n ≡ dir (put es s x))
with_child-some es s none n h = absurd (cc h)
with_child-some es s (some x) n h = (x, refl, cc h)

-- What is seen below a directory of which one entry was replaced.
below_put :
    (es : Entries) (s : Text) (x : Node) (q : List Text)
    → text_eq s meta_filename ≡ false
    → ((r : List Text) → is_exom (at (some x) r) ≡ is_exom (at (get es s) r))
    → is_exom (at (some (dir (put es s x))) q) ≡ is_exom (at (some (dir es)) q)
unfolding at is_exom
below_put es s x [] h same = rw (get-put_other es s meta_filename x h)
below_put es s x (t ∷ q) h same = elim (Bool-cases (text_eq s t)) [
  | inl e ↦ rw (sym ((text_eq_iff s t).0 e), get-put_same es s x) (same q)
  | inr e ↦ rw (get-put_other es s t x e)
]

-- Making directories makes no exom and takes none away.
pub create_dir_all-is_exom :
    (n after : Node) (p q : List Text)
    → is_plain p ≡ true
    → create_dir_all n p ≡ some after
    → is_exom (at (some after) q) ≡ is_exom (at (some n) q)
unfolding create_dir_all
create_dir_all-is_exom (file f) after p q plain h = absurd (cc h)
create_dir_all-is_exom (dir es) after [] q plain h =
    let same : after ≡ dir es = cc h in ap (λ x. is_exom (at (some x) q)) same
create_dir_all-is_exom (dir es) after (s ∷ p) q plain h =
    let (x, e, i) = with_child-some es s (create_dir_all (or_empty (get es s)) p) after h in
    let (a, b) = plain_head s p plain in
    rw i (
      below_put es s x q a (λ r.
        create_dir_all-is_exom (or_empty (get es s)) x p r b e ∙ is_exom-or_empty (get es s) r))

write_in-get :
    (es : Entries) (o : Option Node) (content : MetaFile) (after : Node)
    → write_in es o content ≡ some after
    → after ≡ dir (put es meta_filename (file content))
write_in-get es none content after h = cc h
write_in-get es (some (file f)) content after h = cc h
write_in-get es (some (dir inner)) content after h = absurd (cc h)

-- The file itself has nothing below it.
below_file :
    (es : Entries) (content : MetaFile) (q : List Text)
    → (get es meta_filename ≡ none) ⊎ ((f : MetaFile) × (get es meta_filename ≡ some (file f)))
    → is_exom (at (some (dir (put es meta_filename (file content)))) q)
      ≡ (path_eq q [] || is_exom (at (some (dir es)) q))
unfolding at is_exom path_eq
below_file es content [] old = rw (get-put_same es meta_filename (file content)) refl
below_file es content (t ∷ q) old = elim (Bool-cases (text_eq meta_filename t)) [
  | inl e ↦
      rw (sym ((text_eq_iff meta_filename t).0 e), get-put_same es meta_filename (file content))
        (elim old [
          | inl o ↦ rw o (file_exom content q ∙ sym (none_exom q))
          | inr (f, o) ↦ rw o (file_exom content q ∙ sym (file_exom f q))
        ])
  | inr e ↦ rw (get-put_other es meta_filename t (file content) e) refl
]
  where
    none_exom : (q : List Text) → is_exom (at none q) ≡ false
    none_exom q = rw (at-none q) refl

    file_exom : (f : MetaFile) (q : List Text) → is_exom (at (some (file f)) q) ≡ false
    file_exom f [] = refl
    file_exom f (s ∷ q) = none_exom q

pub text_eq_swap : (s t : Text) → text_eq s t ≡ false → text_eq t s ≡ false
text_eq_swap s t h = elim (Bool-cases (text_eq t s)) [
  | inr e ↦ e
  | inl e ↦ absurd (cc (rw ((text_eq_iff t s).0 e, text_eq_refl s) at h))
]

-- What is seen below a directory where the exom at a path below one entry is new.
below_put_new :
    (es : Entries) (s : Text) (x : Node) (p q : List Text)
    → text_eq s meta_filename ≡ false
    → ((r : List Text) → is_exom (at (some x) r) ≡ (path_eq r p || is_exom (at (get es s) r)))
    → is_exom (at (some (dir (put es s x))) q)
      ≡ (path_eq q (s ∷ p) || is_exom (at (some (dir es)) q))
unfolding at is_exom path_eq
below_put_new es s x p [] h same = rw (get-put_other es s meta_filename x h) refl
below_put_new es s x p (t ∷ q) h same = elim (Bool-cases (text_eq s t)) [
  | inl e ↦ rw (sym ((text_eq_iff s t).0 e), get-put_same es s x, text_eq_refl s) (same q)
  | inr e ↦ rw (get-put_other es s t x e, text_eq_swap s t e) refl
]

write_in-old :
    (es : Entries) (o : Option Node) (content : MetaFile) (after : Node)
    → write_in es o content ≡ some after
    → (o ≡ none) ⊎ ((f : MetaFile) × (o ≡ some (file f)))
write_in-old es none content after h = inl refl
write_in-old es (some (file f)) content after h = inr (f, refl)
write_in-old es (some (dir inner)) content after h = absurd (cc h)

-- Writing exom.json makes the one exom.
pub write_file-is_exom :
    (n : Node) (after : Node) (p q : List Text) (content : MetaFile)
    → is_plain p ≡ true
    → write_file (some n) p content ≡ some after
    → is_exom (at (some after) q) ≡ (path_eq q p || is_exom (at (some n) q))
unfolding write_file
write_file-is_exom (file f) after p q content plain h = absurd (cc h)
write_file-is_exom (dir es) after [] q content plain h =
    rw (write_in-get es (get es meta_filename) content after h)
      (below_file es content q (write_in-old es (get es meta_filename) content after h))
write_file-is_exom (dir es) after (s ∷ p) q content plain h =
    let (x, e, i) = with_child-some es s (write_file (get es s) p content) after h in
    let (a, b) = plain_head s p plain in
    rw i (elim (Option-cases (get es s)) [
      | inl o ↦ absurd (cc (rw o at e))
      | inr (c, o) ↦
          below_put_new es s x p q a (λ r. rw o (write_file-is_exom c x p r content b (rw o at e)))
    ])

then_write-some :
    (o : Option Node) (p : List Text) (content : MetaFile) (after : Node)
    → then_write o p content ≡ some after
    → (n : Node) × (o ≡ some n) × (write_file (some n) p content ≡ some after)
then_write-some none p content after h = absurd (cc h)
then_write-some (some n) p content after h = (n, refl, h)

-- `write_meta` makes the exom at its path, and no other.
pub write_meta-is_exom :
    (n after : Node) (p q : List Text) (content : MetaFile)
    → is_plain p ≡ true
    → write_meta n p content ≡ some after
    → is_exom (at (some after) q) ≡ (path_eq q p || is_exom (at (some n) q))
unfolding write_meta
write_meta-is_exom n after p q content plain h =
    let (dirs, e, w) = then_write-some (create_dir_all n p) p content after h in
    write_file-is_exom dirs after p q content plain w
    ∙ ap (λ b. path_eq q p || b) (create_dir_all-is_exom n dirs p q plain e)

pub at-append : (n : Option Node) (p q : List Text) → at n (p ++ q) ≡ at (at n p) q
unfolding at
at-append n [] q = refl
at-append n (s ∷ p) q = at-append (child n s) p q

-- A missing path has nothing below it.
pub missing_below :
    (n : Option Node) (p q : List Text) → at n p ≡ none → is_exom (at n (p ++ q)) ≡ false
unfolding is_exom
missing_below n p q h = rw (at-append n p q, h, at-none q) refl

pub path_eq_refl : (p : List Text) → path_eq p p ≡ true
unfolding path_eq
path_eq_refl [] = refl
path_eq_refl (s ∷ p) = rw (text_eq_refl s) (path_eq_refl p)

pub path_eq_sound : (p q : List Text) → path_eq p q ≡ true → p ≡ q
unfolding path_eq
path_eq_sound [] [] h = refl
path_eq_sound [] (t ∷ q) h = absurd (cc h)
path_eq_sound (s ∷ p) [] h = absurd (cc h)
path_eq_sound (s ∷ p) (t ∷ q) h = elim (Bool-cases (text_eq s t)) [
  | inl e ↦ rw ((text_eq_iff s t).0 e, path_eq_sound p q (rw e at h)) refl
  | inr e ↦ absurd (cc (rw e at h))
]

-- A path is not one that goes on below it.
pub path_eq_below : (p : List Text) (s : Text) (r : List Text) → path_eq (p ++ s ∷ r) p ≡ false
unfolding path_eq
path_eq_below [] s r = refl
path_eq_below (t ∷ p) s r = rw (text_eq_refl t) (path_eq_below p s r)

-- What `check_from` lets through has no exom above its end, where no segment above the end has the
-- name of the end.
pub check_from-above :
    (n : Option Node) (e : Text) (t : Text) (q : List Text) (s : Text) (r : List Text)
    → check_from n (some e) (t ∷ q ++ s ∷ r) ≡ true
    → text_mem e (t ∷ q) ≡ false
    → is_exom (at n (t ∷ q)) ≡ false
unfolding check_from at text_mem
check_from-above n e t [] s r h fresh = ground (arith, text_eq_swap t e)
check_from-above n e t (u ∷ q) s r h fresh =
    check_from-above (child n t) e u q s r (ground arith) (ground arith)
