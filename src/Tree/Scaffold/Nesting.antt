-- ===== src/Tree/Scaffold/Nesting.antt =====
-- The exoms of the tree of src/tree.rs: which paths have one, and when a new one nests in none.
use mathlib.Core.Path.{subst}
use ray_exomem.Prelude.{
  ◌≡◌, refl, sym, ap, ◌∙◌, ◌⊎◌, inl, inr, Text, text_mem, Bool, true, false, ◌||◌, Option, none,
  some, List, [], ◌∷◌, ◌++◌, last, Bool-cases, arith,
}
use ray_exomem.Prelude.Fallible.{Fallible, ok, err}
use ray_exomem.Path.{PathError}
use ray_exomem.Session.Exom.{NodeKind}
use ray_exomem.Tree.{Node, at, is_exom, classify, check_from, check_no_exom_ancestor}
use ray_exomem.Tree.Nodes.{path_eq, path_eq_sound, path_eq_below, missing_below, check_from-above}
use ray_exomem.Tree.Scaffold.{Made, made, named}

abbrev pub has_exom : Node → List Text → Bool
has_exom tree q = is_exom (at (some tree) q)

-- Under an exom there is no exom; the root of the tree is left out, as it is in the code.
abbrev pub NoNesting : Node → Type 0
NoNesting tree =
    (t : Text) (q : List Text) (s : Text) (r : List Text)
    → has_exom tree (t ∷ q) ≡ true
    → has_exom tree ((t ∷ q) ++ s ∷ r) ≡ false

is_missing : (n : Option Node) → classify n ≡ NodeKind.missing → n ≡ none
unfolding classify
is_missing none h = refl
is_missing (some n) h = absurd (ground arith)

pub last-end : (q : List Text) (e : Text) → last (q ++ e ∷ []) ≡ some e
unfolding last
last-end [] e = refl
last-end (s ∷ []) e = refl
last-end (s ∷ t ∷ q) e = last-end (t ∷ q) e

cons_parts : {x y : Text} {a b : List Text} → x ∷ a ≡ y ∷ b → (x ≡ y) × (a ≡ b)
cons_parts h = (cc h, cc h)

nil_end : (q : List Text) (s : Text) (r : List Text) → ¬ ([] ≡ q ++ s ∷ r)
nil_end [] s r h = cc h
nil_end (t ∷ q) s r h = cc h

-- A path above another is made of segments that stand before its end.
above_fresh :
    (pre q : List Text) (e s : Text) (r : List Text)
    → pre ++ e ∷ [] ≡ q ++ s ∷ r
    → text_mem e pre ≡ false
    → text_mem e q ≡ false
unfolding text_mem
above_fresh pre [] e s r i fresh = refl
above_fresh [] (t ∷ q) e s r i fresh = absurd (nil_end q s r (cons_parts i).1)
above_fresh (u ∷ pre) (t ∷ q) e s r i fresh =
    let (same, rest) = cons_parts i in
    let later : text_mem e q ≡ false = above_fresh pre q e s r rest (ground arith) in
    rw (sym same, later) (ground arith)

pub made_ok :
    (tree after : Node) (o : Option Node) (f : Node → Made)
    → made tree o f ≡ (ok tt, after)
    → (n : Node) × (o ≡ some n) × (f n ≡ (ok tt, after))
made_ok tree after none f h = absurd (cc (ap (λ p. p.0) h))
made_ok tree after (some n) f h = (n, refl, h)

-- A path that has another below it is the one before the end, or above that.
pub above_end :
    (p q : List Text) (m s : Text) (r : List Text)
    → q ++ s ∷ r ≡ p ++ m ∷ []
    → (q ≡ p) ⊎ ((u : Text) × (v : List Text) × (q ++ u ∷ v ≡ p))
above_end [] [] m s r i = inl refl
above_end (x ∷ p) [] m s r i = inr (x, p, refl)
above_end [] (y ∷ q) m s r i = absurd (nil_end q s r (sym (cons_parts i).1))
above_end (x ∷ p) (y ∷ q) m s r i =
    let (same, rest) = cons_parts i in
    elim (above_end p q m s r rest) [
      | inl e ↦ inl (rw (same, e) refl)
      | inr (u, v, e) ↦ inr (u, v, rw (same, e) refl)
    ]

-- No exom stands above the path.
abbrev pub NoneAbove : Node → List Text → Type 0
NoneAbove tree p =
    (t : Text) (q : List Text) (s : Text) (r : List Text)
    → (t ∷ q) ++ s ∷ r ≡ p
    → has_exom tree (t ∷ q) ≡ false

-- The check does its work where no segment before the end has the name of the end.
pub check-NoneAbove :
    (tree : Node) (pre : List Text) (e : Text)
    → check_no_exom_ancestor tree (pre ++ e ∷ []) ≡ true
    → text_mem e pre ≡ false
    → NoneAbove tree (pre ++ e ∷ [])
unfolding check_no_exom_ancestor
check-NoneAbove tree pre e check fresh t q s r i =
    let goes : check_from (some tree) (some e) (pre ++ e ∷ []) ≡ true =
      rw (last-end pre e) at check in
    check_from-above (some tree) e t q s r
      (subst (λ o. check_from (some tree) (some e) o ≡ true) (sym i) goes)
      (above_fresh pre (t ∷ q) e s r (sym i) fresh)

-- The exoms of a tree are those of another and one at a path.
abbrev pub HasAlso : (after tree : Node) → List Text → Type 0
HasAlso after tree p = (q : List Text) → has_exom after q ≡ (path_eq q p || has_exom tree q)

-- One exom with none above it and none below nests in none.
pub HasAlso-NoNesting :
    (tree after : Node) (p : List Text)
    → HasAlso after tree p
    → NoneAbove tree p
    → ((s : Text) (r : List Text) → has_exom tree (p ++ s ∷ r) ≡ false)
    → NoNesting tree
    → NoNesting after
HasAlso-NoNesting tree after p one above below nest t q s r h =
    elim (Bool-cases (path_eq (t ∷ q) p)) [
      | inl same ↦
          one ((t ∷ q) ++ s ∷ r)
          ∙ subst (λ x. (path_eq (x ++ s ∷ r) p || has_exom tree (x ++ s ∷ r)) ≡ false)
              (sym (path_eq_sound (t ∷ q) p same)) (rw (path_eq_below p s r) (below s r))
      | inr other ↦
          let old : has_exom tree (t ∷ q) ≡ true = rw other at (sym (one (t ∷ q)) ∙ h) in
          one ((t ∷ q) ++ s ∷ r) ∙ elim (Bool-cases (path_eq ((t ∷ q) ++ s ∷ r) p)) [
            | inr off ↦ rw off (nest t q s r old)
            | inl on ↦ absurd (cc (old, above t q s r (path_eq_sound ((t ∷ q) ++ s ∷ r) p on)))
          ]
    ]

nest_below :
    (tree : Node) (pre : List Text) (e s : Text) (r : List Text)
    → NoNesting tree
    → has_exom tree (pre ++ e ∷ []) ≡ true
    → has_exom tree ((pre ++ e ∷ []) ++ s ∷ r) ≡ false
nest_below tree [] e s r nest h = nest e [] s r h
nest_below tree (t ∷ pre) e s r nest h = nest t (pre ++ e ∷ []) s r h

pub exom_there : (n : Option Node) → classify n ≡ NodeKind.exom → is_exom n ≡ true
unfolding classify
exom_there n h = ground arith

-- What holds below a path that is missing or an exom.
pub kind_below :
    (tree : Node) (pre : List Text) (e s : Text) (r : List Text)
    → NoNesting tree
    → (classify (at (some tree) (pre ++ e ∷ [])) ≡ NodeKind.missing)
      ⊎ (classify (at (some tree) (pre ++ e ∷ [])) ≡ NodeKind.exom)
    → has_exom tree ((pre ++ e ∷ []) ++ s ∷ r) ≡ false
kind_below tree pre e s r nest k = elim k [
  | inl m ↦ missing_below (some tree) (pre ++ e ∷ []) (s ∷ r) (is_missing _ m)
  | inr x ↦ nest_below tree pre e s r nest (exom_there _ x)
]

pub HasAlso-there : (tree : Node) (p : List Text) → has_exom tree p ≡ true → HasAlso tree tree p
HasAlso-there tree p h q = elim (Bool-cases (path_eq q p)) [
  | inl same ↦ rw same (rw (path_eq_sound q p same) h)
  | inr other ↦ rw other refl
]

pub named_ok :
    (tree after : Node) (r : Fallible PathError Unit) (f : Node → Made)
    → named r tree f ≡ (ok tt, after)
    → f tree ≡ (ok tt, after)
named_ok tree after (err e) f h = absurd (cc (ap (λ p. p.0) h))
named_ok tree after (ok u) f h = h
