-- ===== src/Brain/Merge.antt =====
-- src/brain.rs: `merge_branch`.
use ray_exomem.Prelude.{
  Text, codes, text_eq, not, Option, none, some, List, [], ◌∷◌, ◌++◌, last, retain, if◌then◌else◌,
}
use ray_exomem.Brain.{Foreign, Fact, FactArgs, TxAction, TxId, MutationContext, Error}
use ray_exomem.Brain.Exec.{M, pure, guard, gets, ◌>>=◌, ◌>>◌}
use ray_exomem.Brain.Branches.{branch_exists, branch_ancestors, tx_on_branches}
use ray_exomem.Brain.Views.{facts_on_branch}
use ray_exomem.Brain.Write.{alloc_tx}
use ray_exomem.Brain.Write.Facts.{assert_fact, retract_fact}

pub data MergePolicy : Type 0 where
  last_writer_wins keep_target manual : MergePolicy

pub record MergeConflict : Type 0 where
  pub fact_id : Text
  pub predicate : Text
  pub source_value : Text
  pub target_value : Text

pub record MergeResult : Type 0 where
  pub added : List Text
  pub conflicts : List MergeConflict
  pub tx_id : TxId

-- `added` and `conflicts` as the loop grows them.
abbrev pub Tally : Type 0
Tally = List Text × List MergeConflict

-- " → " in UTF-8.
abbrev arrow : Text
arrow = 32 ∷ 0xe2 ∷ 0x86 ∷ 0x92 ∷ 32 ∷ []

module _ {F : Foreign} where
  unfoldable pub merged_args : Text → Fact F → FactArgs F
  merged_args source fact = record {
    fact_id = fact.fact_id;
    predicate = fact.predicate;
    value = fact.value;
    confidence = fact.confidence;
    provenance = codes "merged-from:" ++ source;
    valid_from = some fact.valid_from;
    valid_to = fact.valid_to;
  }

  -- The map of the target's facts; collecting keeps the last of an id.
  unfoldable pub target_fact : List (Fact F) → Text → Option (Fact F)
  target_fact facts fact_id = last (retain (λ f. text_eq f.fact_id fact_id) facts)

  module _ (source target : Text) (policy : MergePolicy) (ctx : MutationContext) where
    add_merged : Fact F → Tally → M F Tally
    add_merged fact (added, conflicts) = do
      assert_fact target (merged_args source fact) ctx
      pure (added ++ fact.fact_id ∷ [], conflicts)

    resolve : MergePolicy → Fact F → Fact F → Tally → M F Tally
    resolve MergePolicy.last_writer_wins fact old tally = do
      retract_fact target fact.fact_id ctx
      add_merged fact tally
    resolve MergePolicy.keep_target fact old tally = pure tally
    resolve MergePolicy.manual fact old (added, conflicts) = pure (
      added,
      conflicts
          ++ record {
            fact_id = fact.fact_id;
            predicate = fact.predicate;
            source_value = F.display fact.value;
            target_value = F.display old.value;
          }
            ∷ [],
    )

    merge_against : Option (Fact F) → Fact F → Tally → M F Tally
    unfolding add_merged resolve
    merge_against none fact tally = add_merged fact tally
    merge_against (some old) fact tally =
        if not (F.value_eq old.value fact.value) then resolve policy fact old tally else pure tally

    -- One round of the loop over the source's facts.
    unfoldable pub merge_fact : List Text → List (Fact F) → Fact F → Tally → M F Tally
    unfolding merge_against
    merge_fact target_ancestors target_facts fact tally = do
      shared ← gets (λ m. tx_on_branches m fact.created_by_tx target_ancestors)
      if shared
          then pure tally
          else merge_against (target_fact target_facts fact.fact_id) fact tally

    unfoldable pub merge_facts : List Text → List (Fact F) → List (Fact F) → Tally → M F Tally
    merge_facts target_ancestors target_facts [] tally = pure tally
    merge_facts target_ancestors target_facts (fact ∷ facts) tally = do
      tally' ← merge_fact target_ancestors target_facts fact tally
      merge_facts target_ancestors target_facts facts tally'

    unfoldable pub merge_branch : M F MergeResult
    unfolding merge_facts merge_fact
    merge_branch = do
      source_there ← gets (λ m. branch_exists m source)
      guard source_there (Error.source_branch_not_found source)
      target_there ← gets (λ m. branch_exists m target)
      guard target_there (Error.target_branch_not_found target)
      target_ancestors ← gets (λ m. branch_ancestors m target)
      source_facts ← gets (λ m. facts_on_branch m source)
      target_facts ← gets (λ m. facts_on_branch m target)
      tally ← merge_facts target_ancestors target_facts source_facts ([], [])
      issued ←
          alloc_tx target TxAction.merge (source ∷ target ∷ [])
            (codes "merge " ++ (source ++ (arrow ++ target))) ctx
      pure (record { added = tally.0; conflicts = tally.1; tx_id = issued.0 })
