-- ===== src/Tree/Walk/Enough.antt =====
-- `walk_shared_projection` of src/tree.rs ends: a level for each segment of the longest shared path.
use ray_exomem.Prelude.{
  ◌≡◌, ◌≢◌, refl, sym, ap, ◌∙◌, ℕ, zero, suc, ◌+◌, ◌≤◌, Text, text_eq, text_eq_iff, text_eq_refl,
  Bool, true, false, Option, none, some, List, [], ◌∷◌, ◌++◌, if◌then◌else◌, length, length-append,
  any, is_some, Bool-cases, inl, inr, arith,
}
use ray_exomem.Prelude.Fallible.{Fallible, ok, err, ◌>>=◌}
use ray_exomem.Path.{TreePath, PathError, join, to_slash_string}
use ray_exomem.Session.Exom.{MetaFile}
use ray_exomem.Tree.{Node, file, dir, Entries, no_entries, entry, meta_filename, get, at, is_exom}
use ray_exomem.Tree.Scaffold.{content}
use ray_exomem.Tree.Walk.{
  ExomStats, TreeNode, folder, TreeNodes, WalkOptions, WalkError, folder_name, empty_folder, joined,
  reaches, walk_exom, walk_dir, walk_entries, walk_inner, walk, walk_or_empty,
  tree_path_starts_with, covers, leads_to, child_segments, project_children, project, longest,
  walk_shared_projection,
}
use ray_exomem.Tree.Walk.Shared.{joined_end}

abbrev Ends : {A : Type 0} → Fallible WalkError A → Type 0
Ends r = r ≢ err WalkError.out_of_fuel

-- A chain ends whose parts do, for what the first part gives.
bind-Ends :
    {A B : Type 0} (m : Fallible WalkError A) (f : A → Fallible WalkError B)
    → Ends m
    → ((a : A) → m ≡ ok a → Ends (f a))
    → Ends (m >>= f)
bind-Ends (ok a) f h next = next a refl
bind-Ends (err e) f h next = λ i. h (λ j. err_to (i j))
  where
    err_to : {A B : Type 0} → Fallible WalkError A → Fallible WalkError B
    err_to r = elim r [ ok a ↦ err WalkError.out_of_fuel | err x ↦ err x ]

pick-Ends :
    (b : Bool) (x y : Fallible WalkError TreeNode) → Ends x → Ends y → Ends (if b then x else y)
pick-Ends true x y h k = h
pick-Ends false x y h k = k

joined-Ends : (r : Fallible PathError TreePath) → Ends (joined r)
joined-Ends (ok p) = λ i. cc i
joined-Ends (err e) = λ i. cc i

module _ (stats : TreePath → Option ExomStats) (opts : WalkOptions) where
  walk_exom-Ends : (m : MetaFile) (p : TreePath) → Ends (walk_exom stats opts m p)
  unfolding walk_exom
  walk_exom-Ends MetaFile.absent p = λ i. cc i
  walk_exom-Ends MetaFile.unreadable p = λ i. cc i
  walk_exom-Ends (MetaFile.readable meta) p = λ i. ground arith

  walk_dir-Ends :
      (es : Entries) (c : Fallible WalkError TreeNodes) (p : TreePath) (depth : ℕ)
      → Ends c
      → Ends (walk_dir stats opts es c p depth)
  unfolding walk_dir
  walk_dir-Ends es c p depth h = elim (Bool-cases (is_exom (some (dir es)))) [
    | inl e ↦ rw (walk_dir, e) (walk_exom-Ends (content (get es meta_filename)) p)
    | inr e ↦ elim (Bool-cases (reaches opts.depth depth)) [
      | inl stop ↦ rw (walk_dir, e, stop) (λ i. cc i)
      | inr on ↦
          rw (walk_dir, e, on)
            (bind-Ends c (λ x. ok (folder (folder_name p) (to_slash_string p) x)) h (λ a i j. cc j))
    ]
  ]

  walk_entries-Ends :
      (es : Entries) (p : TreePath) (depth : ℕ) → Ends (walk_entries stats opts es p depth)
  unfolding walk_entries
  walk_entries-Ends no_entries p depth = λ i. cc i
  walk_entries-Ends (entry name (file f) es) p depth =
      bind-Ends (joined (join p name)) _ (joined-Ends (join p name))
        (λ sub i. walk_entries-Ends es p depth)
  walk_entries-Ends (entry name (dir inner) es) p depth =
      bind-Ends (joined (join p name)) _ (joined-Ends (join p name)) (λ sub i.
        bind-Ends
          (walk_dir stats opts inner (walk_entries stats opts inner sub (depth + 1)) sub
            (depth + 1))
          _ (walk_dir-Ends inner _ sub (depth + 1) (walk_entries-Ends inner sub (depth + 1)))
          (λ n j.
            bind-Ends (walk_entries stats opts es p depth) _ (walk_entries-Ends es p depth)
              (λ cs k l. cc l)))

  at-Ends :
      (o : Option Node) (p : TreePath)
      → Ends (if is_some o then walk_inner stats opts o p 0 else ok (empty_folder p))
  unfolding walk_inner
  at-Ends none p = λ i. cc i
  at-Ends (some (file f)) p = λ i. ground arith
  at-Ends (some (dir es)) p =
      walk_dir-Ends es (walk_entries stats opts es p 0) p 0 (walk_entries-Ends es p 0)

  walk_or_empty-Ends : (tree : Node) (p : TreePath) → Ends (walk_or_empty stats opts tree p)
  unfolding walk_or_empty walk
  walk_or_empty-Ends tree p = at-Ends (at (some tree) p.segments) p

-- A path that leads to another and is as long is that one.
starts_both :
    (q p : List Text)
    → tree_path_starts_with q p ≡ true
    → length q ≤ length p
    → tree_path_starts_with p q ≡ true
unfolding tree_path_starts_with
starts_both [] p h n = refl
starts_both (t ∷ q) [] h n = absurd (omega arith)
starts_both (t ∷ q) (s ∷ p) h n = elim (Bool-cases (text_eq t s)) [
  | inl e ↦ rw ((text_eq_iff t s).0 e, text_eq_refl s) (starts_both q p (rw e at h) (omega arith))
  | inr e ↦ absurd (cc (rw e at h))
]

longest_bounds :
    (g : TreePath) (grants : List TreePath)
    → (length g.segments ≤ longest (g ∷ grants)) × (longest grants ≤ longest (g ∷ grants))
unfolding longest
longest_bounds g grants = (ground arith, ground arith)

leads_covers :
    (p : TreePath) (grants : List TreePath)
    → longest grants ≤ length p.segments
    → leads_to p grants ≡ true
    → covers p grants ≡ true
unfolding longest any
leads_covers p [] n h = absurd (cc h)
leads_covers p (g ∷ grants) n h =
    let (a, b) = longest_bounds g grants in
    elim (Bool-cases (tree_path_starts_with g.segments p.segments)) [
      | inl e ↦ rw (starts_both g.segments p.segments e (omega arith)) refl
      | inr e ↦
          let later : covers p grants ≡ true = leads_covers p grants (omega arith) (rw e at h) in
          ground arith
    ]

length-end : (p : List Text) (s : Text) → length (p ++ s ∷ []) ≡ suc (length p)
length-end p s = omega (arith, length-append p (s ∷ []))

module _ (full : TreePath → Fallible WalkError TreeNode) (grants : List TreePath)
    (full_ends : (p : TreePath) → Ends (full p)) where
  children-Ends :
      (step : TreePath → Fallible WalkError TreeNode) (p : TreePath) (segs : List Text)
      → ((q : TreePath) → length q.segments ≡ suc (length p.segments) → Ends (step q))
      → Ends (project_children step p segs)
  unfolding project_children
  children-Ends step p [] each = λ i. cc i
  children-Ends step p (seg ∷ segs) each =
      bind-Ends (joined (join p seg)) _ (joined-Ends (join p seg)) (λ q i.
        bind-Ends (step q) _ (each q (ap length (joined_end p q seg i) ∙ length-end p.segments seg))
          (λ n j.
            bind-Ends (project_children step p segs) _ (children-Ends step p segs each)
              (λ cs k l. cc l)))

  project-Ends :
      (fuel : ℕ) (p : TreePath)
      → longest grants ≤ length p.segments + fuel
      → Ends (project (suc fuel) full grants p)
  unfolding project
  project-Ends zero p n = elim (Bool-cases (covers p grants)) [
    | inl e ↦ rw (project, e) (full_ends p)
    | inr e ↦ elim (Bool-cases (leads_to p grants)) [
      | inr off ↦ rw (project, e, off) (λ i. cc i)
      | inl on ↦ absurd (cc (sym e ∙ leads_covers p grants (omega arith) on))
    ]
  ]
  project-Ends (suc fuel) p n = elim (Bool-cases (covers p grants)) [
    | inl e ↦ rw (project, e) (full_ends p)
    | inr e ↦ elim (Bool-cases (leads_to p grants)) [
      | inr off ↦ rw (project, e, off) (λ i. cc i)
      | inl on ↦
          rw (project, e, on)
            (bind-Ends
              (project_children
                (λ q. if covers q grants then full q else project (suc fuel) full grants q) p
                (child_segments p.segments grants))
              (λ c. ok (folder (folder_name p) (to_slash_string p) c))
              (children-Ends _ p _ (λ q longer.
                pick-Ends (covers q grants) (full q) (project (suc fuel) full grants q)
                  (full_ends q) (project-Ends fuel q (omega (arith, longer)))))
              (λ c i j. cc j))
    ]
  ]

-- What a user is shown of the shared paths is found, or an error of the tree, with a level for each
-- segment of the longest shared path; the model is never out of fuel.
pub walk_shared_projection-ends :
    (stats : TreePath → Option ExomStats) (opts : WalkOptions) (tree : Node) (requested : TreePath)
    (shared_paths : List TreePath)
    → walk_shared_projection stats opts tree requested shared_paths ≢ err WalkError.out_of_fuel
unfolding walk_shared_projection
walk_shared_projection-ends stats opts tree requested shared_paths =
    project-Ends (walk_or_empty stats opts tree) shared_paths (walk_or_empty-Ends stats opts tree)
      (longest shared_paths) requested (omega arith)
