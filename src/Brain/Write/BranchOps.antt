-- ===== src/Brain/Write/BranchOps.antt =====
-- src/brain.rs: `create_branch`, `archive_branch` and `set_branch_claim` of `Brain`.
use ray_exomem.Prelude.{
  Text, text_eq, Bool, true, false, not, ◌&&◌, ◌||◌, Option, none, some, List, [], ◌∷◌, ◌++◌, any,
  update_first, if◌then◌else◌,
}
use ray_exomem.Brain.{
  Foreign, Memory, Branch, TxAction, TxId, MutationContext, DirtyTable, Error, main_branch,
  main_row,
}
use ray_exomem.Brain.Exec.{M, pure, guard, gets, modify, rebuild_splay, ◌>>=◌, ◌>>◌}
use ray_exomem.Brain.Branches.{branch_exists, has_id}
use ray_exomem.Brain.Write.{ensure_branch, alloc_tx}

abbrev pub new_branch : Text → Text → Text → TxId → Branch
new_branch parent_branch_id branch_id name tx_id = record {
  branch_id = branch_id;
  name = name;
  parent_branch_id = some parent_branch_id;
  created_tx_id = tx_id;
  archived = false;
  claimed_by_user_email = none;
  claimed_by_agent = none;
  claimed_by_model = none;
}

-- A claim: who, with which agent and which model.
abbrev pub Claim : Type 0
Claim = Text × Option Text × Option Text

unfoldable pub set_claim : Option Claim → Branch → Branch
set_claim none b = record b {
  claimed_by_user_email = none;
  claimed_by_agent = none;
  claimed_by_model = none;
}
set_claim (some (email, agent, model)) b = record b {
  claimed_by_user_email = some email;
  claimed_by_agent = agent;
  claimed_by_model = model;
}

-- A live branch of this id or of this name.
abbrev pub is_named : Text → Branch → Bool
is_named branch_name b =
    not b.archived && (text_eq b.branch_id branch_name || text_eq b.name branch_name)

abbrev pub is_main_name : Branch → Bool
is_main_name b = text_eq b.name main_branch

-- `main` is pushed when no row has its name; an empty table has none.
unfoldable pub with_implicit_main : Text → List Branch → List Branch
with_implicit_main branch_name branches =
    if not (any is_main_name branches) && text_eq branch_name main_branch
    then branches ++ main_row ∷ []
    else branches

abbrev pub archive_row : Branch → Branch
archive_row b = record b { archived = true }

module _ {F : Foreign} where
  abbrev pub with_branches : (List Branch → List Branch) → Memory F → Memory F
  with_branches f m = record m { branches = f m.branches }

  unfoldable pub create_branch :
      (parent_branch_id branch_id name : Text) → MutationContext → M F TxId
  create_branch parent_branch_id branch_id name ctx = do
    ensure_branch parent_branch_id
    taken ← gets (λ m. branch_exists m branch_id)
    guard (not taken) (Error.branch_already_exists branch_id)
    issued ← alloc_tx parent_branch_id TxAction.create_branch (branch_id ∷ []) name ctx
    modify (with_branches (λ bs. bs ++ new_branch parent_branch_id branch_id name issued.0 ∷ []))
    rebuild_splay DirtyTable.branch
    pure issued.0

  unfoldable pub archive_branch : Text → M F Unit
  archive_branch branch_id = do
    guard (not (text_eq branch_id main_branch)) Error.cannot_archive_main
    there ← gets (λ m. any (has_id branch_id) m.branches)
    guard there (Error.unknown_branch branch_id)
    modify (with_branches (update_first (has_id branch_id) archive_row))
    rebuild_splay DirtyTable.branch

  unfoldable pub set_branch_claim : Text → Option Claim → M F Unit
  set_branch_claim branch_name claim = do
    modify (with_branches (with_implicit_main branch_name))
    there ← gets (λ m. any (is_named branch_name) m.branches)
    guard there (Error.branch_missing branch_name)
    modify (with_branches (update_first (is_named branch_name) (set_claim claim)))
    rebuild_splay DirtyTable.branch
