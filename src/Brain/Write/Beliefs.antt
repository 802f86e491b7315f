-- ===== src/Brain/Write/Beliefs.antt =====
-- src/brain.rs: `assert_observation`, `revise_belief`, `revoke_belief`.
use ray_exomem.Prelude.{
  Text, codes, text_eq, Option, none, some, List, [], ◌∷◌, ◌++◌, find, or_else, unwrap_or,
}
use ray_exomem.Brain.{
  Foreign, Memory, Belief, BeliefStatus, Observation, TxAction, TxId, MutationContext, DirtyTable,
  EntityId, Error,
}
use ray_exomem.Brain.Exec.{M, pure, bail, gets, modify, rebuild_splay, ◌>>=◌, ◌>>◌}
use ray_exomem.Brain.Views.{beliefs_on_branch}
use ray_exomem.Brain.Write.{alloc_tx}

module _ {F : Foreign} where
  abbrev pub with_observation : Observation F → Memory F → Memory F
  with_observation o m = record m { observations = m.observations ++ o ∷ [] }

  unfoldable pub assert_observation :
      (branch_id obs_id source_type source_ref content : Text)
      → F.Confidence
      → List Text
      → (valid_from valid_to : Option Text) → MutationContext
      → M F TxId
  assert_observation branch_id obs_id source_type source_ref content confidence tags valid_from
        valid_to ctx =
      do
        issued ←
            alloc_tx branch_id TxAction.assert_observation (obs_id ∷ [])
              (codes "observe: " ++ obs_id) ctx
        modify (
            with_observation (record {
              obs_id = obs_id;
              source_type = source_type;
              source_ref = source_ref;
              content = content;
              created_at = issued.1;
              confidence = confidence;
              tx_id = issued.0;
              tags = tags;
              valid_from = unwrap_or valid_from issued.1;
              valid_to = valid_to;
            }))
        rebuild_splay DirtyTable.observation
        pure issued.0

  abbrev pub with_belief : Belief F → Memory F → Memory F
  with_belief b m = record m { beliefs = m.beliefs ++ b ∷ [] }

  unfoldable pub active_belief : Text → Text → Memory F → Option (Belief F)
  active_belief branch_id belief_id m =
      find (λ (b : Belief F). text_eq b.belief_id belief_id) (beliefs_on_branch m branch_id)

  abbrev supports : Option (Belief F) → Option (List EntityId)
  supports none = none
  supports (some b) = some b.supported_by

  -- Supports that are left out are those of the active belief of this id; an empty list clears.
  unfoldable pub final_supports : Text → Text → Option (List EntityId) → Memory F → List EntityId
  final_supports branch_id belief_id supported_by m =
      unwrap_or (or_else supported_by (supports (active_belief branch_id belief_id m))) []

  unfoldable pub revised :
      (belief_id claim_text : Text)
      → F.Confidence
      → List EntityId
      → Text
      → (valid_from valid_to : Option Text) → TxId
      → Text
      → Belief F
  revised belief_id claim_text confidence supported_by rationale valid_from valid_to tx_id tx_time =
      record {
        belief_id = belief_id;
        claim_text = claim_text;
        status = BeliefStatus.active;
        confidence = confidence;
        supported_by = supported_by;
        created_by_tx = tx_id;
        valid_from = unwrap_or valid_from tx_time;
        valid_to = valid_to;
        rationale = rationale;
      }

  unfoldable pub revise_belief :
      (branch_id belief_id claim_text : Text)
      → F.Confidence
      → Option (List EntityId)
      → Text
      → (valid_from valid_to : Option Text) → MutationContext
      → M F TxId
  revise_belief branch_id belief_id claim_text confidence supported_by rationale valid_from valid_to
        ctx =
      do
        supported ← gets (final_supports branch_id belief_id supported_by)
        issued ← alloc_tx branch_id TxAction.revise_belief (belief_id ∷ []) claim_text ctx
        modify (
            with_belief (
              revised belief_id claim_text confidence supported rationale valid_from valid_to
                issued.0 issued.1))
        rebuild_splay DirtyTable.belief
        pure issued.0

  -- The row that hides the earlier ones of its id.
  unfoldable pub revoked_copy : Text → Belief F → TxId → Text → Belief F
  revoked_copy belief_id b tx_id tx_time = record b {
    belief_id = belief_id;
    status = BeliefStatus.revoked;
    created_by_tx = tx_id;
    valid_to = some tx_time;
  }

  unfoldable pub belief_or_bail : Option (Belief F) → Text → M F (Belief F)
  belief_or_bail none belief_id = bail (Error.no_active_belief belief_id)
  belief_or_bail (some b) belief_id = pure b

  unfoldable pub revoke_belief : Text → Text → MutationContext → M F TxId
  unfolding belief_or_bail
  revoke_belief branch_id belief_id ctx = do
    found ← gets (active_belief branch_id belief_id)
    b ← belief_or_bail found belief_id
    issued ← alloc_tx branch_id TxAction.revoke_belief (belief_id ∷ []) [] ctx
    modify (with_belief (revoked_copy belief_id b issued.0 issued.1))
    rebuild_splay DirtyTable.belief
    pure issued.0
