-- ===== src/Tree/Remove/Listed.antt =====
-- `collect_exoms_under` of src/scaffold.rs lists every exom at or below its path.
use mathlib.Core.Path.{subst}
use mathlib.Core.List.{append_assoc, append-nil}
use ray_exomem.Prelude.{
  ◌≡◌, refl, sym, ap, ◌∙◌, inl, inr, ℕ, Text, text_eq, text_eq_iff, true, false, Option, none, some,
  List, [], ◌∷◌, ◌++◌, if◌then◌else◌, Memᴰ, Memᴰ-append_left, Memᴰ-append_right, Bool-cases,
}
use ray_exomem.Prelude.Fallible.{ok}
use ray_exomem.Path.{slash, join_with, to_slash_string}
use ray_exomem.Session.Exom.{MetaFile}
use ray_exomem.Tree.{Node, file, dir, Entries, no_entries, entry, get, at, is_exom}
use ray_exomem.Tree.Nodes.{at-none, at-append}
use ray_exomem.Tree.Scaffold.Nesting.{has_exom, NoNesting}
use ray_exomem.Tree.Remove.{child_slash, walk_collect_exoms, collect_at, collect_exoms_under}

unfoldable pub below : Text → List Text → Text
below path [] = path
below path (s ∷ r) = below (child_slash path s) r

pub file_exom : (f : MetaFile) (q : List Text) → is_exom (at (some (file f)) q) ≡ false
unfolding at is_exom
file_exom f [] = refl
file_exom f (s ∷ q) = rw (at-none q) refl

pub none_exom : (q : List Text) → is_exom (at none q) ≡ false
unfolding is_exom
none_exom q = rw (at-none q) refl

-- No exom stands above the path in the node.
abbrev IsTopmost : Option Node → List Text → Type 0
IsTopmost n r =
    (a : List Text) (u : Text) (v : List Text) → r ≡ a ++ u ∷ v → is_exom (at n a) ≡ false

-- What a directory adds to the list: itself, or what is found in it.
abbrev found : (inner : Entries) → (here : Text) → List Text
found inner here = if is_exom (some (dir inner)) then here ∷ [] else walk_collect_exoms inner here

found_here :
    (inner : Entries) (here : Text) (r : List Text)
    → is_exom (at (some (dir inner)) r) ≡ true
    → IsTopmost (some (dir inner)) r
    → ((u : Text) (v : List Text)
        → is_exom (at (get inner u) v) ≡ true
        → IsTopmost (get inner u) v
        → Memᴰ (below (child_slash here u) v) (walk_collect_exoms inner here))
    → Memᴰ (below here r) (found inner here)
unfolding below at
found_here inner here [] h top deeper = rw h (Memᴰ.head refl)
found_here inner here (u ∷ v) h top deeper =
    rw (top [] u v refl) (deeper u v h (λ a x y i. top (u ∷ a) x y (ap (λ l. u ∷ l) i)))

-- An exom with no exom above it is found.
walk_complete :
    (es : Entries) (path s : Text) (r : List Text)
    → is_exom (at (get es s) r) ≡ true
    → IsTopmost (get es s) r
    → Memᴰ (below (child_slash path s) r) (walk_collect_exoms es path)
unfolding walk_collect_exoms get
walk_complete no_entries path s r h above = absurd (cc (sym h ∙ none_exom r))
walk_complete (entry name (file f) es) path s r h above = elim (Bool-cases (text_eq name s)) [
  | inl e ↦ absurd (cc (sym (rw e at h) ∙ file_exom f r))
  | inr e ↦ walk_complete es path s r (rw e at h) (λ a u v i. rw e at (above a u v i))
]
walk_complete (entry name (dir inner) es) path s r h above = elim (Bool-cases (text_eq name s)) [
  | inl e ↦ Memᴰ-append_left (walk_collect_exoms es path) (
      subst (λ x. Memᴰ (below (child_slash path x) r) (found inner (child_slash path name)))
        ((text_eq_iff name s).0 e)
        (found_here inner (child_slash path name) r (rw e at h) (λ a u v i. rw e at (above a u v i))
          (λ u v. walk_complete inner (child_slash path name) u v)))
  | inr e ↦
      Memᴰ-append_right (found inner (child_slash path name))
        (walk_complete es path s r (rw e at h) (λ a u v i. rw e at (above a u v i)))
]

at_complete :
    (n : Option Node) (path : Text) (r : List Text) (out : List Text)
    → is_exom (at n r) ≡ true
    → IsTopmost n r
    → collect_at n path ≡ ok out
    → Memᴰ (below path r) out
unfolding collect_at below at
at_complete n path [] out h top listing =
    let one : out ≡ path ∷ [] = cc (rw h at listing) in rw one (Memᴰ.head refl)
at_complete none path (s ∷ r) out h top listing = absurd (cc (sym h ∙ none_exom (s ∷ r)))
at_complete (some (file f)) path (s ∷ r) out h top listing =
    absurd (cc (sym h ∙ file_exom f (s ∷ r)))
at_complete (some (dir es)) path (s ∷ r) out h top listing =
    let all_listed : out ≡ walk_collect_exoms es path = cc (rw (top [] s r refl) at listing) in
    rw all_listed (walk_complete es path s r h (λ a u v i. top (s ∷ a) u v (ap (λ l. s ∷ l) i)))

join_with-end :
    (x : Text) (p : List Text) (s : Text)
    → join_with (slash ∷ []) (x ∷ p ++ s ∷ []) ≡ join_with (slash ∷ []) (x ∷ p) ++ slash ∷ s
unfolding join_with
join_with-end x [] s = refl
join_with-end x (y ∷ p) s =
    ap (λ t. x ++ slash ∷ t) (join_with-end y p s)
    ∙ sym (append_assoc x (slash ∷ join_with (slash ∷ []) (y ∷ p)) (slash ∷ s))

child_slash-join_with :
    (c : ℕ) (x : Text) (p : List Text) (s : Text)
    → child_slash (join_with (slash ∷ []) ((c ∷ x) ∷ p)) s
      ≡ join_with (slash ∷ []) (((c ∷ x) ∷ p) ++ s ∷ [])
unfolding child_slash join_with
child_slash-join_with c x [] s = refl
child_slash-join_with c x (y ∷ p) s = sym (join_with-end (c ∷ x) (y ∷ p) s)

below-join_with :
    (c : ℕ) (x : Text) (p r : List Text)
    → below (join_with (slash ∷ []) ((c ∷ x) ∷ p)) r ≡ join_with (slash ∷ []) (((c ∷ x) ∷ p) ++ r)
unfolding below
below-join_with c x p [] = ap (join_with (slash ∷ [])) (sym (append-nil ((c ∷ x) ∷ p)))
below-join_with c x p (s ∷ r) =
    ap (λ t. below t r) (child_slash-join_with c x p s)
    ∙ below-join_with c x (p ++ s ∷ []) r
    ∙ ap (join_with (slash ∷ [])) (append_assoc ((c ∷ x) ∷ p) (s ∷ []) r)

-- Below a path, an exom of a tree without nesting has none above it.
topmost :
    (tree : Node) (t : Text) (p r : List Text)
    → NoNesting tree
    → has_exom tree ((t ∷ p) ++ r) ≡ true
    → IsTopmost (at (some tree) (t ∷ p)) r
topmost tree t p r nest h a u v i = elim (Bool-cases (is_exom (at (at (some tree) (t ∷ p)) a))) [
  | inr off ↦ off
  | inl on ↦
      let above : has_exom tree ((t ∷ p) ++ a) ≡ true =
        ap is_exom (at-append (some tree) (t ∷ p) a) ∙ on in
      let here : ((t ∷ p) ++ a) ++ u ∷ v ≡ (t ∷ p) ++ r =
        append_assoc (t ∷ p) a (u ∷ v) ∙ ap (λ l. (t ∷ p) ++ l) (sym i) in
      let clash : false ≡ true = sym (nest t (p ++ a) u v above) ∙ ap (has_exom tree) here ∙ h in
      absurd (cc clash)
]

-- An exom at or below a path is on the list of the path.
pub collect_complete :
    (tree : Node) (c : ℕ) (x : Text) (p r : List Text) (out : List Text)
    → NoNesting tree
    → has_exom tree (((c ∷ x) ∷ p) ++ r) ≡ true
    → collect_exoms_under tree (record { segments = (c ∷ x) ∷ p }) ≡ ok out
    → Memᴰ (to_slash_string (record { segments = ((c ∷ x) ∷ p) ++ r })) out
unfolding collect_exoms_under collect_at to_slash_string
collect_complete tree c x p r out nest h listing =
    let path = (c ∷ x) ∷ p in
    let there : is_exom (at (at (some tree) path) r) ≡ true =
      ap is_exom (sym (at-append (some tree) path r)) ∙ h in
    subst (λ t. Memᴰ t out) (below-join_with c x p r)
      (at_complete (at (some tree) path) (join_with (slash ∷ []) path) r out there
        (topmost tree (c ∷ x) p r nest h) listing)
