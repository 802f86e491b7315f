-- ===== src/Tree/Walk/Shared.antt =====
-- `walk_shared_projection` of src/tree.rs: what it shows lies on the shared paths, above or below.
use mathlib.Core.List.{append_assoc, append-nil}
use ray_exomem.Prelude.{
  ◌≡◌, refl, sym, ap, ◌∙◌, ◌⊎◌, inl, inr, ℕ, zero, suc, ◌+◌, Text, text_eq, text_eq_iff, Bool, true,
  false, Option, none, some, List, [], ◌∷◌, ◌++◌, Memᴰ, if◌then◌else◌, any, is_some, unwrap_or,
  Bool-cases,
}
use ray_exomem.Prelude.Fallible.{Fallible, ok, err, ◌>>◌, >>=-eq-ok}
use ray_exomem.Path.{TreePath, PathError, join, to_slash_string, validate_segment}
use ray_exomem.Session.Exom.{ExomMeta, MetaFile}
use ray_exomem.Tree.{Node, file, dir, Entries, no_entries, entry, meta_filename, get, at, is_exom}
use ray_exomem.Tree.Scaffold.{content}
use ray_exomem.Tree.Walk.{
  ExomStats, TreeNode, folder, exom, TreeNodes, no_nodes, node, WalkOptions, WalkError, folder_name,
  empty_folder, exom_node, no_stats, joined, reaches, walk_exom, walk_dir, walk_entries, walk_inner,
  walk, walk_or_empty, tree_path_starts_with, covers, leads_to, project_children, project, longest,
  walk_shared_projection,
}

-- A property of the path of every node of a listing.
unfoldable mutual
  pub All : (Text → Type 0) → TreeNode → Type 0
  All P (folder name path children) = P path × AllNodes P children
  All P (exom e) = P e.path

  pub AllNodes : (Text → Type 0) → TreeNodes → Type 0
  AllNodes P no_nodes = Unit
  AllNodes P (node n ns) = All P n × AllNodes P ns

mutual
  unfolding All AllNodes

  All-map : {P Q : Text → Type 0} (f : (t : Text) → P t → Q t) (n : TreeNode) → All P n → All Q n
  All-map f (folder name path children) h = (f path h.0, AllNodes-map f children h.1)
  All-map f (exom e) h = f e.path h

  AllNodes-map :
      {P Q : Text → Type 0} (f : (t : Text) → P t → Q t) (ns : TreeNodes)
      → AllNodes P ns
      → AllNodes Q ns
  AllNodes-map f no_nodes h = tt
  AllNodes-map f (node n ns) h = (All-map f n h.0, AllNodes-map f ns h.1)

-- The second path is the first or goes on from it.
abbrev pub Extends : TreePath → TreePath → Type 0
Extends p q = (r : List Text) × (q.segments ≡ p.segments ++ r)

Extends-trans : (p q s : TreePath) → Extends p q → Extends q s → Extends p s
Extends-trans p q s (a, i) (b, j) = (a ++ b, j ∙ ap (λ x. x ++ b) i ∙ append_assoc p.segments a b)

abbrev IsBelow : TreePath → Text → Type 0
IsBelow p t = (q : TreePath) × (t ≡ to_slash_string q) × Extends p q

pub joined_end :
    (p sub : TreePath) (name : Text)
    → joined (join p name) ≡ ok sub
    → sub.segments ≡ p.segments ++ name ∷ []
unfolding join
joined_end p sub name h = go (validate_segment name) h
  where
    go :
        (v : Fallible PathError Unit)
        → joined (v >> ok (record { segments = p.segments ++ name ∷ [] })) ≡ ok sub
        → sub.segments ≡ p.segments ++ name ∷ []
    go (ok u) i =
        let j : sub ≡ record { segments = p.segments ++ name ∷ [] } = cc i in
        ap (λ (x : TreePath). x.segments) j
    go (err e) i = absurd (cc i)

joined_ok : (p sub : TreePath) (name : Text) → joined (join p name) ≡ ok sub → Extends p sub
joined_ok p sub name h = (name ∷ [], joined_end p sub name h)

IsBelow-self : (p : TreePath) → IsBelow p (to_slash_string p)
IsBelow-self p = (p, refl, ([], sym (append-nil p.segments)))

IsBelow-up : (p q : TreePath) → Extends p q → (t : Text) → IsBelow q t → IsBelow p t
IsBelow-up p q i t (s, j, k) = (s, j, Extends-trans p q s i k)

abbrev chosen : Bool → (x y : TreeNode) → Fallible WalkError TreeNode
chosen b x y = if b then ok x else ok y

if_ok : (b : Bool) (x y n : TreeNode) → chosen b x y ≡ ok n → (n ≡ x) ⊎ (n ≡ y)
if_ok true x y n h = inl (cc h)
if_ok false x y n h = inr (cc h)

empty_folder-IsBelow : (p : TreePath) → All (IsBelow p) (empty_folder p)
unfolding empty_folder All AllNodes
empty_folder-IsBelow p = (IsBelow-self p, tt)

exom-IsBelow :
    (p : TreePath) (meta : ExomMeta) (s : ExomStats) (b : Bool)
    → All (IsBelow p) (exom (exom_node p meta s b))
unfolding exom_node All AllNodes
exom-IsBelow p meta s b = IsBelow-self p

module _ (stats : TreePath → Option ExomStats) (opts : WalkOptions) where
  walk_exom-IsBelow :
      (m : MetaFile) (p : TreePath) (n : TreeNode)
      → walk_exom stats opts m p ≡ ok n
      → All (IsBelow p) n
  unfolding walk_exom All AllNodes empty_folder exom_node
  walk_exom-IsBelow MetaFile.absent p n h = absurd (cc h)
  walk_exom-IsBelow MetaFile.unreadable p n h = absurd (cc h)
  walk_exom-IsBelow (MetaFile.readable meta) p n h = elim (if_ok _ _ _ n h) [
    | inl i ↦ rw i (empty_folder-IsBelow p)
    | inr i ↦ rw i (exom-IsBelow p meta (unwrap_or (stats p) no_stats) opts.include_branches)
  ]

  walk_dir-IsBelow :
      (es : Entries) (children : Fallible WalkError TreeNodes) (p : TreePath) (depth : ℕ)
      (n : TreeNode)
      → ((c : TreeNodes) → children ≡ ok c → AllNodes (IsBelow p) c)
      → walk_dir stats opts es children p depth ≡ ok n
      → All (IsBelow p) n
  unfolding walk_dir All AllNodes
  walk_dir-IsBelow es children p depth n inside h = elim (Bool-cases (is_exom (some (dir es)))) [
    | inl e ↦ walk_exom-IsBelow (content (get es meta_filename)) p n (rw (walk_dir, e) at h)
    | inr e ↦ elim (Bool-cases (reaches opts.depth depth)) [
      | inl stop ↦
          let i : n ≡ empty_folder p = cc (rw (walk_dir, e, stop) at h) in
          rw i (empty_folder-IsBelow p)
      | inr on ↦
          let (c, i, r) = >>=-eq-ok children _ (rw (walk_dir, e, on) at h) in
          let j : n ≡ folder (folder_name p) (to_slash_string p) c = cc r in
          rw j (IsBelow-self p, inside c i)
    ]
  ]

  walk_entries-IsBelow :
      (es : Entries) (p : TreePath) (depth : ℕ) (c : TreeNodes)
      → walk_entries stats opts es p depth ≡ ok c
      → AllNodes (IsBelow p) c
  unfolding walk_entries AllNodes
  walk_entries-IsBelow no_entries p depth c h = let i : c ≡ no_nodes = cc h in rw i tt
  walk_entries-IsBelow (entry name (file f) es) p depth c h =
      let (sub, i, r) = >>=-eq-ok (joined (join p name)) _ h in walk_entries-IsBelow es p depth c r
  walk_entries-IsBelow (entry name (dir inner) es) p depth c h =
      let (sub, i, r) = >>=-eq-ok (joined (join p name)) _ h in
      let (n, j, s) =
        >>=-eq-ok
          (walk_dir stats opts inner (walk_entries stats opts inner sub (depth + 1)) sub
            (depth + 1))
          _ r in
      let (cs, k, t) = >>=-eq-ok (walk_entries stats opts es p depth) _ s in
      let same : c ≡ node n cs = cc t in
      rw same (
        All-map (IsBelow-up p sub (joined_ok p sub name i)) n (
            walk_dir-IsBelow inner _ sub (depth + 1) n (walk_entries-IsBelow inner sub (depth + 1))
              j),
        walk_entries-IsBelow es p depth cs k,
      )

  at-IsBelow :
      (o : Option Node) (p : TreePath) (n : TreeNode)
      → (if is_some o then walk_inner stats opts o p 0 else ok (empty_folder p)) ≡ ok n
      → All (IsBelow p) n
  unfolding walk_inner
  at-IsBelow none p n h = let i : n ≡ empty_folder p = cc h in rw i (empty_folder-IsBelow p)
  at-IsBelow (some (file f)) p n h = elim (Bool-cases (reaches opts.depth 0)) [
    | inl e ↦ let i : n ≡ empty_folder p = cc (rw e at h) in rw i (empty_folder-IsBelow p)
    | inr e ↦ absurd (cc (rw e at h))
  ]
  at-IsBelow (some (dir es)) p n h =
      walk_dir-IsBelow es (walk_entries stats opts es p 0) p 0 n (walk_entries-IsBelow es p 0) h

  -- A listing is of its path and of what is below it.
  walk_or_empty-IsBelow :
      (tree : Node) (p : TreePath) (n : TreeNode)
      → walk_or_empty stats opts tree p ≡ ok n
      → All (IsBelow p) n
  unfolding walk_or_empty walk
  walk_or_empty-IsBelow tree p n h = at-IsBelow (at (some tree) p.segments) p n h

starts_with_parts :
    (q p : List Text) → tree_path_starts_with q p ≡ true → (r : List Text) × (q ≡ p ++ r)
unfolding tree_path_starts_with
starts_with_parts q [] h = (q, refl)
starts_with_parts [] (s ∷ p) h = absurd (cc h)
starts_with_parts (t ∷ q) (s ∷ p) h = elim (Bool-cases (text_eq t s)) [
  | inl e ↦
      let (r, i) = starts_with_parts q p (rw e at h) in (r, rw ((text_eq_iff t s).0 e, i) refl)
  | inr e ↦ absurd (cc (rw e at h))
]

any-Memᴰ :
    (f : TreePath → Bool) (xs : List TreePath)
    → any f xs ≡ true
    → (x : TreePath) × Memᴰ x xs × (f x ≡ true)
unfolding any
any-Memᴰ f [] h = absurd (cc h)
any-Memᴰ f (x ∷ xs) h = elim (Bool-cases (f x)) [
  | inl e ↦ (x, Memᴰ.head refl, e)
  | inr e ↦ let (y, m, i) = any-Memᴰ f xs (rw e at h) in (y, Memᴰ.tail m, i)
]

module _ (grants : List TreePath) where
  -- On the way to a shared path, or at it or below it.
  abbrev pub IsInView : Text → Type 0
  IsInView t =
      (q : TreePath) × (t ≡ to_slash_string q)
      × ((g : TreePath) × Memᴰ g grants × (Extends g q ⊎ Extends q g))

  covered_view : (p : TreePath) → covers p grants ≡ true → (t : Text) → IsBelow p t → IsInView t
  covered_view p h t (q, i, j) =
      let (g, m, e) = any-Memᴰ _ grants h in
      (q, i, (g, m, inl (Extends-trans g p q (starts_with_parts p.segments g.segments e) j)))

  leading_view : (p : TreePath) → leads_to p grants ≡ true → IsInView (to_slash_string p)
  leading_view p h =
      let (g, m, e) = any-Memᴰ _ grants h in
      (p, refl, (g, m, inr (starts_with_parts g.segments p.segments e)))

  children_view :
      (step : TreePath → Fallible WalkError TreeNode) (p : TreePath) (segs : List Text)
      (c : TreeNodes)
      → ((q : TreePath) (n : TreeNode) → step q ≡ ok n → All IsInView n)
      → project_children step p segs ≡ ok c
      → AllNodes IsInView c
  unfolding project_children AllNodes
  children_view step p [] c each h = let i : c ≡ no_nodes = cc h in rw i tt
  children_view step p (seg ∷ segs) c each h =
      let (q, i, r) = >>=-eq-ok (joined (join p seg)) _ h in
      let (n, j, s) = >>=-eq-ok (step q) _ r in
      let (cs, k, t) = >>=-eq-ok (project_children step p segs) _ s in
      let same : c ≡ node n cs = cc t in rw same (each q n j, children_view step p segs cs each k)

  project_view :
      (fuel : ℕ) (full : TreePath → Fallible WalkError TreeNode) (p : TreePath) (n : TreeNode)
      → ((q : TreePath) (m : TreeNode) → full q ≡ ok m → All (IsBelow q) m)
      → project fuel full grants p ≡ ok n
      → All IsInView n
  unfolding project All
  project_view zero full p n below h = absurd (cc h)
  project_view (suc fuel) full p n below h = elim (Bool-cases (covers p grants)) [
    | inl e ↦ All-map (covered_view p e) n (below p n (rw (project, e) at h))
    | inr e ↦ elim (Bool-cases (leads_to p grants)) [
      | inr off ↦ absurd (cc (rw (project, e, off) at h))
      | inl on ↦
          let (c, i, r) = >>=-eq-ok (project_children _ p _) _ (rw (project, e, on) at h) in
          let same : n ≡ folder (folder_name p) (to_slash_string p) c = cc r in
          rw same (
            leading_view p on,
            children_view _ p _ c
                (λ q m j. elim (Bool-cases (covers q grants)) [
                  | inl k ↦ All-map (covered_view q k) m (below q m (rw k at j))
                  | inr k ↦ project_view fuel full q m below (rw k at j)
                ])
                i,
          )
    ]
  ]

-- Every node of what a user is shown of the shared paths stands at a shared path, below one, or
-- on the way to one: no sibling shows.
pub walk_shared_projection-IsInView :
    (stats : TreePath → Option ExomStats) (opts : WalkOptions) (tree : Node) (requested : TreePath)
    (shared_paths : List TreePath) (n : TreeNode)
    → walk_shared_projection stats opts tree requested shared_paths ≡ ok n
    → All (IsInView shared_paths) n
unfolding walk_shared_projection
walk_shared_projection-IsInView stats opts tree requested shared_paths n h =
    project_view shared_paths (suc (longest shared_paths)) (walk_or_empty stats opts tree) requested
      n (walk_or_empty-IsBelow stats opts tree) h
