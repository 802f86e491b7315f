-- ===== src/Brain/Operations.antt =====
-- src/brain.rs: any sequence of calls of the operations, each with its own context and outcome.
pub mod Closed
pub mod Wf
use ray_exomem.Prelude.{Text, Option, List, [], ◌∷◌}
use ray_exomem.Brain.{
  Foreign, Brain, Memory, Tables, FactArgs, MutationContext, TxId, EntityId, empty_memory, main_row,
}
use ray_exomem.Brain.Exec.{M}
use ray_exomem.Brain.Write.Facts
use ray_exomem.Brain.Write.Beliefs
use ray_exomem.Brain.Write.BranchOps
use ray_exomem.Brain.Write.BranchOps.{Claim}

pub data Operation (F : Foreign) : Type 0 where
  assert_observation :
      (branch_id obs_id source_type source_ref content : Text)
      → F.Confidence
      → List Text
      → (valid_from valid_to : Option Text) → Operation F
  assert_fact : (branch_id : Text) → FactArgs F → Operation F
  retract_fact : (branch_id fact_id : Text) → Operation F
  retract_fact_exact : (branch_id fact_id predicate : Text) → F.Value → Operation F
  revise_belief :
      (branch_id belief_id claim_text : Text)
      → F.Confidence
      → Option (List EntityId)
      → Text
      → (valid_from valid_to : Option Text) → Operation F
  revoke_belief : (branch_id belief_id : Text) → Operation F
  create_branch : (parent_branch_id branch_id name : Text) → Operation F
  archive_branch : (branch_id : Text) → Operation F
  set_branch_claim : (branch_name : Text) → Option Claim → Operation F

module _ {F : Foreign} where
  -- The state that a call leaves behind, whether it succeeds or fails.
  unfoldable pub run : Operation F → MutationContext → Brain F → Brain F
  run (assert_observation br id ty source content c tags from to) ctx b =
      (Beliefs.assert_observation br id ty source content c tags from to ctx b).1
  run (assert_fact br a) ctx b = (Facts.assert_fact br a ctx b).1
  run (retract_fact br id) ctx b = (Facts.retract_fact br id ctx b).1
  run (retract_fact_exact br id p v) ctx b = (Facts.retract_fact_exact br id p v ctx b).1
  run (revise_belief br id claim c supports why from to) ctx b =
      (Beliefs.revise_belief br id claim c supports why from to ctx b).1
  run (revoke_belief br id) ctx b = (Beliefs.revoke_belief br id ctx b).1
  run (create_branch parent id name) ctx b = (BranchOps.create_branch parent id name ctx b).1
  run (archive_branch id) ctx b = (BranchOps.archive_branch id b).1
  run (set_branch_claim name claim) ctx b = (BranchOps.set_branch_claim name claim b).1

  unfoldable pub run_all : List (Operation F × MutationContext) → Brain F → Brain F
  run_all [] b = b
  run_all ((o, ctx) ∷ rest) b = run_all rest (run o ctx b)
