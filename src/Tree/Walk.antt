-- ===== src/Tree/Walk.antt =====
-- The listings of src/tree.rs: `walk_inner`, and what a user sees of the tree through shares
-- (`walk_shared_projection`). `read_exom_stats` of src/brain.rs is a parameter: what it gives for the
-- exom at a path, if it can read one.
pub mod Shared
pub mod Enough
mod Tests
use ray_exomem.Prelude.{
  ℕ, zero, suc, ◌+◌, Text, codes, text_eq, text_leb, Bool, true, false, not, ◌&&◌, Option, none,
  some, List, [], ◌∷◌, ◌++◌, ◌==◌, leb, if◌then◌else◌, length, is_some, is_some_and, any, retain,
  last, unwrap_or,
}
use ray_exomem.Prelude.Fallible.{Fallible, ok, err, ◌>>=◌, ◌>>◌}
use ray_exomem.Path.{TreePath, PathError, join, to_slash_string}
use ray_exomem.Auth.{AclMode}
use ray_exomem.Session.Exom.{ExomKind, ExomMeta, SessionMeta, ForkLineage, MetaFile}
use ray_exomem.Tree.{Node, file, dir, Entries, no_entries, entry, meta_filename, get, at, is_exom}
use ray_exomem.Tree.Scaffold.{content}

pub record ExomStats : Type 0 where
  pub fact_count : ℕ
  pub last_tx : Option Text
  pub branches : List Text

pub record ExomNode : Type 0 where
  pub name : Text
  pub path : Text
  pub exom_kind : ExomKind
  pub fact_count : ℕ
  pub last_tx : Option Text
  pub branches : Option (List Text)
  pub archived : Bool
  pub closed : Bool
  pub session : Option SessionMeta
  pub created_by : Text
  pub acl_mode : AclMode
  pub forked_from : Option ForkLineage

-- `TreeNodes` is `Vec<TreeNode>`.
mutual
  pub data TreeNode : Type 0 where
    folder : (name path : Text) → TreeNodes → TreeNode
    exom : ExomNode → TreeNode

  pub data TreeNodes : Type 0 where
    no_nodes : TreeNodes
    node : TreeNode → TreeNodes → TreeNodes

pub record WalkOptions : Type 0 where
  pub depth : Option ℕ
  pub include_archived : Bool
  pub include_branches : Bool
  pub include_activity : Bool

pub data WalkError : Type 0 where
  io missing permission_denied out_of_fuel : WalkError
  invalid_data : PathError → WalkError

abbrev pub no_stats : ExomStats
no_stats = record { fact_count = 0; last_tx = none; branches = [] }

abbrev pub folder_name : TreePath → Text
folder_name p = unwrap_or (last p.segments) []

unfoldable pub empty_folder : TreePath → TreeNode
empty_folder p = folder (folder_name p) (to_slash_string p) no_nodes

abbrev is_archived : ExomMeta → Bool
is_archived meta = is_some_and (λ (s : SessionMeta). is_some s.archived_at) meta.session

abbrev is_closed : ExomMeta → Bool
is_closed meta = is_some_and (λ (s : SessionMeta). is_some s.closed_at) meta.session

unfoldable pub exom_node : TreePath → ExomMeta → ExomStats → (include_branches : Bool) → ExomNode
exom_node p meta stats include_branches = record {
  name = folder_name p;
  path = to_slash_string p;
  exom_kind = meta.kind;
  fact_count = stats.fact_count;
  last_tx = stats.last_tx;
  branches = if include_branches then some stats.branches else none;
  archived = is_archived meta;
  closed = is_closed meta;
  session = meta.session;
  created_by = meta.created_by;
  acl_mode = meta.acl_mode;
  forked_from = meta.forked_from;
}

abbrev pub joined : Fallible PathError TreePath → Fallible WalkError TreePath
joined (ok p) = ok p
joined (err e) = err (WalkError.invalid_data e)

abbrev pub reaches : Option ℕ → ℕ → Bool
reaches none depth = false
reaches (some most) depth = leb most depth

module _ (read_exom_stats : TreePath → Option ExomStats) (opts : WalkOptions) where
  -- An exom that is archived shows as an empty folder where archived ones are not asked for.
  unfoldable pub walk_exom : MetaFile → TreePath → Fallible WalkError TreeNode
  walk_exom MetaFile.absent p = err WalkError.io
  walk_exom MetaFile.unreadable p = err WalkError.io
  walk_exom (MetaFile.readable meta) p =
      if is_archived meta && not opts.include_archived
      then ok (empty_folder p)
      else ok
          (exom (exom_node p meta (unwrap_or (read_exom_stats p) no_stats) opts.include_branches))

  -- `walk_inner` of a directory, with what its entries come to where they are read.
  unfoldable pub walk_dir :
      Entries
      → (children : Fallible WalkError TreeNodes) → TreePath
      → ℕ
      → Fallible WalkError TreeNode
  walk_dir es children p depth = elim (is_exom (some (dir es))) [
    | true ↦ walk_exom (content (get es meta_filename)) p
    | false ↦ elim (reaches opts.depth depth) [
      | true ↦ ok (empty_folder p)
      | false ↦ children >>= λ c. ok (folder (folder_name p) (to_slash_string p) c)
    ]
  ]

  -- The entries, one after the other. The name of each is checked, that of a file too.
  unfoldable pub walk_entries : Entries → TreePath → (depth : ℕ) → Fallible WalkError TreeNodes
  walk_entries no_entries p depth = ok no_nodes
  walk_entries (entry name (file f) es) p depth =
      joined (join p name) >>= λ sub. walk_entries es p depth
  walk_entries (entry name (dir inner) es) p depth = joined (join p name) >>= λ sub.
      walk_dir inner (walk_entries inner sub (depth + 1)) sub (depth + 1) >>= λ child.
      walk_entries es p depth >>= λ children. ok (node child children)

  -- A file is a folder that cannot be read.
  unfoldable pub walk_inner : Option Node → TreePath → (depth : ℕ) → Fallible WalkError TreeNode
  walk_inner none p depth = err WalkError.missing
  walk_inner (some (file f)) p depth =
      if reaches opts.depth depth then ok (empty_folder p) else err WalkError.io
  walk_inner (some (dir es)) p depth = walk_dir es (walk_entries es p depth) p depth

  unfoldable pub walk : Node → TreePath → Fallible WalkError TreeNode
  walk tree start = walk_inner (at (some tree) start.segments) start 0

  unfoldable pub walk_or_empty : Node → TreePath → Fallible WalkError TreeNode
  walk_or_empty tree p =
      if is_some (at (some tree) p.segments) then walk tree p else ok (empty_folder p)

-- `tree_path_starts_with`, on the segments.
unfoldable pub tree_path_starts_with : (path prefix : List Text) → Bool
tree_path_starts_with path [] = true
tree_path_starts_with [] (s ∷ prefix) = false
tree_path_starts_with (t ∷ path) (s ∷ prefix) = text_eq t s && tree_path_starts_with path prefix

-- `segments().get(requested.len())` of a path that starts with the requested one.
unfoldable pub segment_after : (path requested : List Text) → Option Text
segment_after [] requested = none
segment_after (s ∷ path) [] = some s
segment_after (s ∷ path) (t ∷ requested) = segment_after path requested

-- `BTreeSet::insert`: in order, and once.
unfoldable pub insert_segment : Text → List Text → List Text
insert_segment s [] = s ∷ []
insert_segment s (t ∷ set) =
    let rest = insert_segment s set in
    if text_eq s t then t ∷ set else if text_leb s t then s ∷ t ∷ set else t ∷ rest

abbrev insert_some : Option Text → List Text → List Text
insert_some none set = set
insert_some (some s) set = insert_segment s set

unfoldable pub child_segments : (requested : List Text) → List TreePath → List Text
child_segments requested [] = []
child_segments requested (grant ∷ grants) =
    let rest = child_segments requested grants in
    if tree_path_starts_with grant.segments requested
    then insert_some (segment_after grant.segments requested) rest
    else rest

abbrev pub covers : (requested : TreePath) → List TreePath → Bool
covers requested grants =
    any (λ (g : TreePath). tree_path_starts_with requested.segments g.segments) grants

abbrev pub leads_to : (requested : TreePath) → List TreePath → Bool
leads_to requested grants =
    any (λ (g : TreePath). tree_path_starts_with g.segments requested.segments) grants

-- The loop over the child segments, each child made by `step`.
unfoldable pub project_children :
    (step : TreePath → Fallible WalkError TreeNode)
    → TreePath
    → List Text
    → Fallible WalkError TreeNodes
project_children step requested [] = ok no_nodes
project_children step requested (seg ∷ segs) = joined (join requested seg) >>= λ child_path.
    step child_path >>= λ child.
    project_children step requested segs >>= λ children. ok (node child children)

-- A unit of fuel for each segment; `full` is `walk_or_empty`.
unfoldable pub project :
    ℕ
    → (full : TreePath → Fallible WalkError TreeNode) → List TreePath
    → TreePath
    → Fallible WalkError TreeNode
project zero full grants requested = err WalkError.out_of_fuel
project (suc fuel) full grants requested =
    if covers requested grants
    then full requested
    else if leads_to requested grants
    then (project_children
          (λ child_path.
            if covers child_path grants
            then full child_path
            else project fuel full grants child_path)
          requested (child_segments requested.segments grants)
        >>= λ children. ok (folder (folder_name requested) (to_slash_string requested) children))
    else err WalkError.permission_denied

unfoldable pub longest : List TreePath → ℕ
longest [] = 0
longest (g ∷ grants) =
    let n = longest grants in if leb (length g.segments) n then n else length g.segments

unfoldable pub walk_shared_projection :
    (TreePath → Option ExomStats)
    → WalkOptions
    → Node
    → (requested : TreePath) → (shared_paths : List TreePath) → Fallible WalkError TreeNode
walk_shared_projection stats opts tree requested shared_paths =
    project (suc (longest shared_paths)) (walk_or_empty stats opts tree) shared_paths requested
