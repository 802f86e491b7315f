-- ===== src/Tree/Scaffold/Laws.antt =====
-- src/scaffold.rs: which exoms an operation makes, and that none is made inside another.
use ray_exomem.Prelude.{
  ◌≡◌, refl, sym, ap, ◌∙◌, ◌⊎◌, inl, inr, Text, codes, text_eq, text_mem, Bool, true, false, ◌||◌,
  some, List, [], ◌∷◌, ◌++◌, if◌then◌else◌, last,
}
use ray_exomem.Prelude.Fallible.{Fallible, ok, err}
use ray_exomem.Path.{TreePath}
use ray_exomem.Session.Exom.{MetaFile, NodeKind, new_bare, new_project_main}
use ray_exomem.Tree.{
  Node, at, classify, meta_filename, check_no_exom_ancestor, create_dir_all, write_meta,
}
use ray_exomem.Tree.Nodes.{
  plain_head, path_eq, is_plain, create_dir_all-is_exom, write_meta-is_exom,
}
use ray_exomem.Tree.Scaffold.{
  ScaffoldError, Made, made, new_at, checked, reserved, is_main, content, finished, new_folder,
  new_bare_at, new_bare_exom, init_project, init_main, init_sessions,
}
use ray_exomem.Tree.Scaffold.Nesting.{
  has_exom, NoNesting, NoneAbove, HasAlso, made_ok, check-NoneAbove, HasAlso-NoNesting, kind_below,
  exom_there, HasAlso-there, named_ok, above_end,
}

dirs_HasAlso :
    (tree after : Node) (p : List Text)
    → is_plain p ≡ true
    → made tree (create_dir_all tree p) finished ≡ (ok tt, after)
    → (q : List Text) → has_exom after q ≡ has_exom tree q
dirs_HasAlso tree after p plain h q =
    let (n, e, r) = made_ok tree after (create_dir_all tree p) finished h in
    let same : after ≡ n = sym (ap (λ x. x.1) r) in
    ap (λ x. has_exom x q) same ∙ create_dir_all-is_exom tree n p q plain e

bare_HasAlso :
    (now by : Text) (tree after : Node) (p : List Text) (k : NodeKind)
    → is_plain p ≡ true
    → classify (at (some tree) p) ≡ k
    → new_at k
        (made tree
          (create_dir_all tree p)
          (λ dirs. made dirs (write_meta dirs p (MetaFile.readable (new_bare now by))) finished))
        (err (ScaffoldError.already_exists_different NodeKind.folder), tree)
        (finished tree)
      ≡ (ok tt, after)
    → HasAlso after tree p × ((k ≡ NodeKind.missing) ⊎ (k ≡ NodeKind.exom))
bare_HasAlso now by tree after p NodeKind.missing plain there h =
    let (n, e, r) = made_ok tree after (create_dir_all tree p) _ h in
    let (m, w, t) =
      made_ok n after (write_meta n p (MetaFile.readable (new_bare now by))) finished r in
    let same : after ≡ m = sym (ap (λ x. x.1) t) in
    (
      λ q.
          ap (λ x. has_exom x q) same
          ∙ write_meta-is_exom n m p q (MetaFile.readable (new_bare now by)) plain w
          ∙ ap (λ b. path_eq q p || b) (create_dir_all-is_exom tree n p q plain e),
      inl refl,
    )
bare_HasAlso now by tree after p NodeKind.folder plain there h = absurd (cc (ap (λ x. x.0) h))
bare_HasAlso now by tree after p NodeKind.exom plain there h =
    let same : after ≡ tree = sym (ap (λ x. x.1) h) in
    (λ q. ap (λ x. has_exom x q) same ∙ HasAlso-there tree p (exom_there _ there) q, inr refl)

checked_ok :
    (tree after : Node) (b : Bool) (m : Made)
    → (if b then m else (err ScaffoldError.nest_inside_exom, tree)) ≡ (ok tt, after)
    → (b ≡ true) × (m ≡ (ok tt, after))
checked_ok tree after true m h = (refl, h)
checked_ok tree after false m h = absurd (cc (ap (λ x. x.0) h))

-- Where it succeeds, `new_bare_exom` leaves the exoms that there were and the one it was asked for,
-- and it keeps exoms out of exoms, in a tree that has none in another. The path goes through no
-- `exom.json`, and no segment before its last has the last one's name.
pub new_bare_exom-HasAlso :
    (now by : Text) (tree after : Node) (pre : List Text) (e : Text)
    → is_plain (pre ++ e ∷ []) ≡ true
    → text_mem e pre ≡ false
    → NoNesting tree
    → new_bare_exom now tree (record { segments = pre ++ e ∷ [] }) by ≡ (ok tt, after)
    → HasAlso after tree (pre ++ e ∷ []) × NoNesting after
unfolding new_bare_exom new_bare_at
new_bare_exom-HasAlso now by tree after pre e plain fresh nest h =
    let p = pre ++ e ∷ [] in
    let (check, r) = checked_ok tree after (check_no_exom_ancestor tree p) _ (
      named_ok tree after (reserved (last p)) (λ t. new_bare_at now t (record { segments = p }) by)
        h) in
    let (also, kind) =
      bare_HasAlso now by tree after p (classify (at (some tree) p)) plain refl r in
    (
      also,
      HasAlso-NoNesting tree after p also (check-NoneAbove tree pre e check fresh)
          (λ s q. kind_below tree pre e s q nest kind) nest,
    )

folder_HasAlso :
    (tree after : Node) (p : List Text) (k : NodeKind)
    → is_plain p ≡ true
    → (let dirs = made tree (create_dir_all tree p) finished in
        new_at k dirs dirs (err (ScaffoldError.already_exists_different NodeKind.exom), tree))
      ≡ (ok tt, after)
    → (q : List Text) → has_exom after q ≡ has_exom tree q
folder_HasAlso tree after p NodeKind.missing plain h = dirs_HasAlso tree after p plain h
folder_HasAlso tree after p NodeKind.folder plain h = dirs_HasAlso tree after p plain h
folder_HasAlso tree after p NodeKind.exom plain h = absurd (cc (ap (λ x. x.0) h))

-- Where it succeeds, `new_folder` makes no exom and takes none away. The path goes through no
-- `exom.json`.
pub new_folder-has_exom :
    (tree after : Node) (p : TreePath) (q : List Text)
    → is_plain p.segments ≡ true
    → new_folder tree p ≡ (ok tt, after)
    → has_exom after q ≡ has_exom tree q
unfolding new_folder
new_folder-has_exom tree after p q plain h =
    let (check, r) = checked_ok tree after (check_no_exom_ancestor tree p.segments) _ h in
    folder_HasAlso tree after p.segments (classify (at (some tree) p.segments)) plain r q

is_main_ok :
    (tree after : Node) (r : Fallible ScaffoldError Unit) (f : Node → Made)
    → checked tree r f ≡ (ok tt, after)
    → f tree ≡ (ok tt, after)
is_main_ok tree after (err e) f h = absurd (cc (ap (λ p. p.0) h))
is_main_ok tree after (ok u) f h = h

main_HasAlso :
    (now by : Text) (tree after : Node) (p main : List Text) (k : NodeKind)
    → is_plain main ≡ true
    → is_plain (p ++ codes "sessions" ∷ []) ≡ true
    → classify (at (some tree) main) ≡ k
    → init_main k now by main tree (init_sessions p) ≡ (ok tt, after)
    → HasAlso after tree main × ((k ≡ NodeKind.missing) ⊎ (k ≡ NodeKind.exom))
unfolding init_main init_sessions
main_HasAlso now by tree after p main NodeKind.missing plain_main plain there h =
    let (n, e, r) =
      made_ok tree after (write_meta tree main (MetaFile.readable (new_project_main now by))) _ h in
    (
      λ q.
          dirs_HasAlso n after (p ++ codes "sessions" ∷ []) plain r q
          ∙ write_meta-is_exom tree n main q (MetaFile.readable (new_project_main now by))
              plain_main e,
      inl refl,
    )
main_HasAlso now by tree after p main NodeKind.folder plain_main plain there h =
    absurd (cc (ap (λ x. x.0) h))
main_HasAlso now by tree after p main NodeKind.exom plain_main plain there h =
    let r =
      is_main_ok tree after (is_main (content (at (some tree) (main ++ codes "exom.json" ∷ []))))
        (init_sessions p) h in
    (
      λ q.
          dirs_HasAlso tree after (p ++ codes "sessions" ∷ []) plain r q
          ∙ HasAlso-there tree main (exom_there _ there) q,
      inr refl,
    )

plain_end :
    (p : List Text) (s : Text)
    → is_plain p ≡ true
    → text_eq s meta_filename ≡ false
    → is_plain (p ++ s ∷ []) ≡ true
unfolding text_mem
plain_end [] s plain h = rw h refl
plain_end (t ∷ p) s plain h = let (a, b) = plain_head t p plain in rw a (plain_end p s b h)

main_NoneAbove :
    (tree : Node) (p : List Text)
    → has_exom tree p ≡ false
    → NoneAbove tree p
    → NoneAbove tree (p ++ codes "main" ∷ [])
main_NoneAbove tree p no_exom above t q s r i = elim (above_end p (t ∷ q) (codes "main") s r i) [
  | inl same ↦ rw same no_exom
  | inr (u, v, j) ↦ above t q u v j
]

-- Where it succeeds, `init_project` leaves the exoms that there were and the `main` of the project,
-- and it keeps exoms out of exoms, in a tree that has none in another. The path is not that of an
-- exom, goes through no `exom.json`, and no segment before its last has the last one's name.
pub init_project-HasAlso :
    (now by : Text) (tree after : Node) (pre : List Text) (e : Text)
    → is_plain (pre ++ e ∷ []) ≡ true
    → text_mem e pre ≡ false
    → has_exom tree (pre ++ e ∷ []) ≡ false
    → NoNesting tree
    → init_project now tree (record { segments = pre ++ e ∷ [] }) by ≡ (ok tt, after)
    → HasAlso after tree ((pre ++ e ∷ []) ++ codes "main" ∷ []) × NoNesting after
unfolding init_project text_eq
init_project-HasAlso now by tree after pre e plain fresh no_exom nest h =
    let p = pre ++ e ∷ [] in
    let main = p ++ codes "main" ∷ [] in
    let (check, r) = checked_ok tree after (check_no_exom_ancestor tree p) _ h in
    let (leaf, d, i) = made_ok tree after (create_dir_all tree p) _ r in
    let same : (q : List Text) → has_exom leaf q ≡ has_exom tree q =
      λ q. create_dir_all-is_exom tree leaf p q plain d in
    let (also, kind) =
      main_HasAlso now by leaf after p main (classify (at (some leaf) main))
        (plain_end p (codes "main") plain refl) (plain_end p (codes "sessions") plain refl) refl
        i in
    let nest_leaf : NoNesting leaf =
      λ t q s r x. same ((t ∷ q) ++ s ∷ r) ∙ nest t q s r (sym (same (t ∷ q)) ∙ x) in
    let above : NoneAbove leaf main = λ t q s r x.
      same (t ∷ q)
      ∙ main_NoneAbove tree p no_exom (check-NoneAbove tree pre e check fresh) t q s r x in
    (
      λ q. also q ∙ ap (λ b. path_eq q main || b) (same q),
      HasAlso-NoNesting leaf after main also above
          (λ s r. kind_below leaf p (codes "main") s r nest_leaf kind) nest_leaf,
    )
