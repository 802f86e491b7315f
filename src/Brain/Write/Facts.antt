-- ===== src/Brain/Write/Facts.antt =====
-- src/brain.rs: `assert_fact`, `retract_fact`, `retract_fact_exact`.
pub mod Outcome
pub mod Laws
pub mod Success
pub mod Total
pub mod Reads
use ray_exomem.Prelude.{
  Text, codes, text_eq, text_leb, Bool, not, ◌&&◌, Option, none, some, List, [], ◌∷◌, ◌++◌, find,
  update_all, if◌then◌else◌, is_none, is_text, unwrap_or,
}
use ray_exomem.Brain.{
  Foreign, Memory, Fact, FactArgs, TxAction, TxId, MutationContext, DirtyTable, EntityId, Error,
}
use ray_exomem.Brain.Exec.{M, pure, bail, guard, gets, modify, rebuild_splay, ◌>>=◌, ◌>>◌}
use ray_exomem.Brain.Branches.{tx_branch}
use ray_exomem.Brain.Views.{facts_on_branch}
use ray_exomem.Brain.Predicate.{validate_predicate_name}
use ray_exomem.Brain.Write.{alloc_tx}

-- The earlier of the two, in the order of strings.
unfoldable pub close_time : Text → Text → Text
close_time valid_from tx_time = if not (text_leb tx_time valid_from) then valid_from else tx_time

abbrev pub or_some : Option Text → Text → Option Text
or_some o t = some (unwrap_or o t)

module _ {F : Foreign} where
  abbrev pub written_on : Memory F → Text → Fact F → Bool
  written_on m branch_id f = is_text (tx_branch m f.created_by_tx) branch_id

  abbrev pub fact_note : FactArgs F → Text
  fact_note a = a.predicate ++ (codes " = " ++ F.display a.value)

  -- The rows that an assertion closes: open, of this fact, written on this branch.
  unfoldable pub is_open_row : Memory F → Text → Text → Fact F → Bool
  is_open_row m branch_id fact_id f =
      text_eq f.fact_id fact_id
      && (is_none f.revoked_by_tx
          && (is_none f.superseded_by_tx && (is_none f.valid_to && written_on m branch_id f)))

  unfoldable pub close_row : TxId → Text → Fact F → Fact F
  close_row tx_id close_at f = record f { superseded_by_tx = some tx_id; valid_to = some close_at }

  unfoldable pub new_fact : FactArgs F → TxId → Text → Fact F
  new_fact a tx_id tx_time = record {
    fact_id = a.fact_id;
    predicate = a.predicate;
    value = a.value;
    created_at = tx_time;
    created_by_tx = tx_id;
    superseded_by_tx = none;
    revoked_by_tx = none;
    confidence = a.confidence;
    provenance = a.provenance;
    valid_from = unwrap_or a.valid_from tx_time;
    valid_to = a.valid_to;
  }

  unfoldable pub assert_rows : Text → FactArgs F → TxId → Text → Memory F → Memory F
  assert_rows branch_id a tx_id tx_time m =
      let close_at = close_time (unwrap_or a.valid_from tx_time) tx_time in
      record m {
        facts =
            update_all (is_open_row m branch_id a.fact_id) (close_row tx_id close_at) m.facts
            ++ new_fact a tx_id tx_time ∷ [];
      }

  unfoldable pub assert_fact : Text → FactArgs F → MutationContext → M F TxId
  assert_fact branch_id a ctx = do
    guard (validate_predicate_name a.predicate) Error.invalid_predicate
    issued ← alloc_tx branch_id TxAction.assert_fact (a.fact_id ∷ []) (fact_note a) ctx
    modify (assert_rows branch_id a issued.0 issued.1)
    rebuild_splay DirtyTable.fact
    pure issued.0

  unfoldable pub tombstone : Fact F → TxId → Text → Fact F
  tombstone head tx_id tx_time = record head {
    created_at = tx_time;
    created_by_tx = tx_id;
    superseded_by_tx = none;
    revoked_by_tx = some tx_id;
    valid_to = some tx_time;
  }

  unfoldable pub is_head_row : Memory F → Text → Text → Fact F → Bool
  is_head_row m branch_id fact_id f =
      text_eq f.fact_id fact_id
      && (is_none f.revoked_by_tx && (is_none f.superseded_by_tx && written_on m branch_id f))

  unfoldable pub revoke_row : TxId → Text → Fact F → Fact F
  revoke_row tx_id tx_time f = record f { revoked_by_tx = some tx_id; valid_to = some tx_time }

  unfoldable pub retract_rows : Text → Text → Fact F → TxId → Text → Memory F → Memory F
  retract_rows branch_id fact_id head tx_id tx_time m =
      if not (written_on m branch_id head)
      then record m { facts = m.facts ++ tombstone head tx_id tx_time ∷ [] }
      else record m {
        facts = update_all (is_head_row m branch_id fact_id) (revoke_row tx_id tx_time) m.facts;
      }

  unfoldable pub head_or_bail : Option (Fact F) → Text → M F (Fact F)
  head_or_bail none fact_id = bail (Error.no_active_fact fact_id)
  head_or_bail (some head) fact_id = pure head

  unfoldable pub retract_fact : Text → Text → MutationContext → M F TxId
  unfolding head_or_bail
  retract_fact branch_id fact_id ctx = do
    found ←
        gets (λ m. find (λ (f : Fact F). text_eq f.fact_id fact_id) (facts_on_branch m branch_id))
    head ← head_or_bail found fact_id
    issued ← alloc_tx branch_id TxAction.retract_fact (fact_id ∷ []) [] ctx
    modify (retract_rows branch_id fact_id head issued.0 issued.1)
    rebuild_splay DirtyTable.fact
    pure issued.0

  abbrev pub is_triple : Text → Text → F.Value → Fact F → Bool
  is_triple fact_id predicate value f =
      text_eq f.fact_id fact_id && (text_eq f.predicate predicate && F.value_eq f.value value)

  unfoldable pub is_exact_row : Memory F → Text → Text → Text → F.Value → Fact F → Bool
  is_exact_row m branch_id fact_id predicate value f =
      is_none f.revoked_by_tx && (is_triple fact_id predicate value f && written_on m branch_id f)

  unfoldable pub revoke_exact : TxId → Text → Fact F → Fact F
  revoke_exact tx_id tx_time f = record f {
    revoked_by_tx = some tx_id;
    valid_to = or_some f.valid_to tx_time;
  }

  unfoldable pub retract_exact_rows :
      Text → Text → Text → F.Value → Fact F → TxId → Text → Memory F → Memory F
  retract_exact_rows branch_id fact_id predicate value head tx_id tx_time m =
      if not (written_on m branch_id head)
      then record m { facts = m.facts ++ tombstone head tx_id tx_time ∷ [] }
      else record m {
        facts =
            update_all (is_exact_row m branch_id fact_id predicate value)
              (revoke_exact tx_id tx_time) m.facts;
      }

  unfoldable pub retract_fact_exact : Text → Text → Text → F.Value → MutationContext → M F TxId
  unfolding head_or_bail
  retract_fact_exact branch_id fact_id predicate value ctx = do
    found ← gets (λ m. find (is_triple fact_id predicate value) (facts_on_branch m branch_id))
    head ← head_or_bail found fact_id
    issued ←
        alloc_tx branch_id TxAction.retract_fact (fact_id ∷ [])
          (predicate ++ (codes " = " ++ F.display value)) ctx
    modify (retract_exact_rows branch_id fact_id predicate value head issued.0 issued.1)
    rebuild_splay DirtyTable.fact
    pure issued.0
