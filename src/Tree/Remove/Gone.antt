-- ===== src/Tree/Remove/Gone.antt =====
-- The exoms that `delete_subtree` of src/scaffold.rs takes away are among those that
-- `collect_exoms_under` gave.
use mathlib.Core.Path.{subst}
use ray_exomem.Prelude.{
  ◌≡◌, ◌≢◌, refl, sym, ap, ◌∙◌, ◌⊎◌, inl, inr, ℕ, Text, text_eq, text_eq_iff, text_eq_refl, true,
  false, Option, none, some, List, [], ◌∷◌, ◌++◌, if◌then◌else◌, Memᴰ, Bool-cases, Option-cases,
}
use ray_exomem.Prelude.Fallible.{ok, err}
use ray_exomem.Path.{to_slash_string}
use ray_exomem.Tree.{
  Node, file, dir, Entries, no_entries, entry, meta_filename, get, put, drop_entry, at, is_exom,
}
use ray_exomem.Tree.Nodes.{get-put_same, get-put_other, at-none, is_plain, plain_head}
use ray_exomem.Tree.Scaffold.{ScaffoldError}
use ray_exomem.Tree.Scaffold.Nesting.{has_exom, NoNesting}
use ray_exomem.Tree.Remove.{collect_exoms_under, remove, without, delete_at, delete_subtree}
use ray_exomem.Tree.Remove.Listed.{none_exom, collect_complete}

pub get-drop_other :
    (es : Entries) (s t : Text) → text_eq s t ≡ false → get (drop_entry es s) t ≡ get es t
unfolding get drop_entry
get-drop_other no_entries s t h = refl
get-drop_other (entry u n es) s t h = elim (Bool-cases (text_eq u s)) [
  | inl same ↦ rw ((text_eq_iff u s).0 same, text_eq_refl s, h) (get-drop_other es s t h)
  | inr other ↦ rw other (ap (λ x. if text_eq u t then some n else x) (get-drop_other es s t h))
]

-- The path goes on to another, or the exoms there are the same in two nodes.
abbrev Elsewhere : List Text → (after before : Option Node) → List Text → Type 0
Elsewhere p after before q =
    ((r : List Text) × (q ≡ p ++ r)) ⊎ (is_exom (at after q) ≡ is_exom (at before q))

put-Elsewhere :
    (es : Entries) (s : Text) (p : List Text) (q : List Text) (new old : Node)
    → text_eq s meta_filename ≡ false
    → get es s ≡ some old
    → ((r : List Text) → Elsewhere p (some new) (some old) r)
    → Elsewhere (s ∷ p) (some (dir (put es s new))) (some (dir es)) q
unfolding at is_exom
put-Elsewhere es s p [] new old plain o ih =
    inr (rw (get-put_other es s meta_filename new plain) refl)
put-Elsewhere es s p (t ∷ q) new old plain o ih = elim (Bool-cases (text_eq s t)) [
  | inr e ↦ inr (rw (get-put_other es s t new e) refl)
  | inl e ↦
      let same = (text_eq_iff s t).0 e in
      elim (ih q) [
        | inl (r, i) ↦ inl (r, rw (same, i) refl)
        | inr i ↦ inr (rw (sym same, get-put_same es s new, o) i)
      ]
]

remove_child :
    (es : Entries) (s u : Text) (p q : List Text) (n : Node)
    → text_eq s meta_filename ≡ false
    → get es s ≡ some n
    → ((inner : Entries) (r : List Text)
        → Elsewhere (u ∷ p) (some (dir (remove inner u p))) (some (dir inner)) r)
    → Elsewhere (s ∷ u ∷ p) (some (dir (remove es s (u ∷ p)))) (some (dir es)) q
unfolding remove
remove_child es s u p q (file f) plain o ih = inr (rw (remove, o) refl)
remove_child es s u p q (dir inner) plain o ih =
    rw (remove, o)
      (put-Elsewhere es s (u ∷ p) q (dir (remove inner u p)) (dir inner) plain o (ih inner))

-- Whatever is not at the path or below it stays.
remove-Elsewhere :
    (es : Entries) (s : Text) (p q : List Text)
    → is_plain (s ∷ p) ≡ true
    → Elsewhere (s ∷ p) (some (dir (remove es s p))) (some (dir es)) q
unfolding remove at is_exom
remove-Elsewhere es s [] [] plain =
    inr (rw (get-drop_other es s meta_filename (plain_head s [] plain).0) refl)
remove-Elsewhere es s [] (t ∷ q) plain = elim (Bool-cases (text_eq s t)) [
  | inl e ↦ inl (q, ap (λ x. x ∷ q) (sym ((text_eq_iff s t).0 e)))
  | inr e ↦ inr (rw (get-drop_other es s t e) refl)
]
remove-Elsewhere es s (u ∷ p) q plain =
    let (a, b) = plain_head s (u ∷ p) plain in
    elim (Option-cases (get es s)) [
      | inl o ↦ inr (rw (remove, o) refl)
      | inr (n, o) ↦ remove_child es s u p q n a o (λ inner r. remove-Elsewhere inner u p r b)
    ]

deleted :
    (tree after : Node) (t : Text) (p : List Text) (n : Option Node)
    → delete_at tree (t ∷ p) n ≡ (ok tt, after)
    → after ≡ without tree (t ∷ p)
deleted tree after t p none h = absurd (cc (ap (λ x. x.0) h))
deleted tree after t p (some (file f)) h = absurd (cc (ap (λ x. x.0) h))
deleted tree after t p (some (dir es)) h = sym (ap (λ x. x.1) h)

without-Elsewhere :
    (tree : Node) (t : Text) (p q : List Text)
    → is_plain (t ∷ p) ≡ true
    → Elsewhere (t ∷ p) (some (without tree (t ∷ p))) (some tree) q
without-Elsewhere (file f) t p q plain = inr refl
without-Elsewhere (dir es) t p q plain = remove-Elsewhere es t p q plain

pub get-drop_same : (es : Entries) (s : Text) → get (drop_entry es s) s ≡ none
unfolding get drop_entry
get-drop_same no_entries s = refl
get-drop_same (entry u n es) s = elim (Bool-cases (text_eq u s)) [
  | inl same ↦ rw same (get-drop_same es s)
  | inr other ↦ rw (other, other) (get-drop_same es s)
]

put_gone :
    (es : Entries) (s : Text) (q : List Text) (x : Node)
    → is_exom (at (some x) q) ≡ false
    → is_exom (at (some (dir (put es s x))) (s ∷ q)) ≡ false
unfolding at
put_gone es s q x h = rw (get-put_same es s x) h

remove_gone :
    (es : Entries) (s : Text) (p r : List Text) (n old : Node)
    → get es s ≡ some n
    → at (some n) p ≡ some old
    → is_exom (at (some (dir (remove es s p))) ((s ∷ p) ++ r)) ≡ false
unfolding remove at
remove_gone es s [] r n old o h = ap (λ m. is_exom (at m r)) (get-drop_same es s) ∙ none_exom r
remove_gone es s (u ∷ p) r (file f) old o h = absurd (cc (sym (at-none p) ∙ h))
remove_gone es s (u ∷ p) r (dir inner) old o h = elim (Option-cases (get inner u)) [
  | inl i ↦ absurd (cc (sym (at-none p) ∙ (rw i at h)))
  | inr (m, i) ↦
      rw (remove, o)
        (put_gone es s ((u ∷ p) ++ r) (dir (remove inner u p))
          (remove_gone inner u p r m old i (rw i at h)))
]

without_gone :
    (tree : Node) (t : Text) (p r : List Text) (o : Option Node)
    → at (some tree) (t ∷ p) ≡ o
    → delete_at tree (t ∷ p) o ≢ (err ScaffoldError.not_found, tree)
    → is_exom (at (some (without tree (t ∷ p))) ((t ∷ p) ++ r)) ≡ false
unfolding at
without_gone (file f) t p r o e h = rw (at-none (p ++ r)) (none_exom [])
without_gone (dir es) t p r none e h = absurd (h refl)
without_gone (dir es) t p r (some old) e h = elim (Option-cases (get es t)) [
  | inl i ↦ absurd (cc (sym (at-none p) ∙ (rw i at e)))
  | inr (n, i) ↦ remove_gone es t p r n old i (rw i at e)
]

-- A deletion that succeeds leaves no exom at the path or below it, and each other exom.
pub delete_subtree-has_exom :
    (tree after : Node) (t : Text) (p : List Text)
    → is_plain (t ∷ p) ≡ true
    → delete_subtree tree (record { segments = t ∷ p }) ≡ (ok tt, after)
    → ((r : List Text) → has_exom after ((t ∷ p) ++ r) ≡ false)
      × ((q : List Text)
          → ((r : List Text) × (q ≡ (t ∷ p) ++ r)) ⊎ (has_exom after q ≡ has_exom tree q))
unfolding delete_subtree
delete_subtree-has_exom tree after t p plain h =
    let same = deleted tree after t p _ h in
    (
      λ r.
          ap (λ n. has_exom n ((t ∷ p) ++ r)) same
          ∙ without_gone tree t p r _ refl (λ x. cc (ap (λ y. y.0) (sym h ∙ x))),
      λ q.
          subst (λ n. ((r : List Text) × (q ≡ (t ∷ p) ++ r)) ⊎ (has_exom n q ≡ has_exom tree q))
            (sym same) (without-Elsewhere tree t p q plain),
    )

-- An exom that a deletion takes away was on the list that `collect_exoms_under` gave of the deleted
-- path, in a tree that has no exom in another. The path's first segment is not empty, and none is
-- `exom.json`.
pub delete_subtree-collect_exoms_under :
    (tree after : Node) (c : ℕ) (x : Text) (p q out : List Text)
    → is_plain ((c ∷ x) ∷ p) ≡ true
    → NoNesting tree
    → collect_exoms_under tree (record { segments = (c ∷ x) ∷ p }) ≡ ok out
    → delete_subtree tree (record { segments = (c ∷ x) ∷ p }) ≡ (ok tt, after)
    → has_exom tree q ≡ true
    → has_exom after q ≡ false
    → Memᴰ (to_slash_string (record { segments = q })) out
unfolding delete_subtree
delete_subtree-collect_exoms_under tree after c x p q out plain nest listing h was gone =
    let same = deleted tree after (c ∷ x) p _ h in
    elim (without-Elsewhere tree (c ∷ x) p q plain) [
      | inr i ↦
          let clash : false ≡ true = sym gone ∙ ap (λ n. has_exom n q) same ∙ i ∙ was in
          absurd (cc clash)
      | inl (r, i) ↦ rw i (
          collect_complete tree c x p r out nest (subst (λ l. has_exom tree l ≡ true) i was)
            listing)
    ]
