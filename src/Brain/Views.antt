-- ===== src/Brain/Views.antt =====
-- src/brain.rs: the views of a branch, now, as of a transaction, and at a time of the world.
pub mod Order
pub mod Heads
use ray_exomem.Prelude.{
  ℕ, Text, codes, text_eq, text_leb, text_mem, Bool, true, false, not, ◌&&◌, ◌||◌, Option, none,
  some, List, [], ◌∷◌, map, any, retain, find, last, if◌then◌else◌, ◌==◌, ltb, leb, is_some_and,
  unwrap_or, is_text,
}
use ray_exomem.Prelude.Sort.{sort, keep_first}
use ray_exomem.Brain.{Foreign, Memory, Fact, Belief, BeliefStatus, Tx, TxId, u64_max, main_branch}
use ray_exomem.Brain.Branches.{branch_ancestors, branch_depth_of_tx, tx_branch}

-- `[valid_from, valid_to)` holds the timestamp, in the order of strings.
unfoldable pub is_valid_at : Text → Option Text → Text → Bool
is_valid_at valid_from valid_to timestamp =
    text_leb valid_from timestamp
    && elim valid_to [ none ↦ true | some end ↦ not (text_leb end timestamp) ]

abbrev pub is_active : BeliefStatus → Bool
is_active BeliefStatus.active = true
is_active _ = false

unfoldable pub active_beliefs : {F : Foreign} → List (Belief F) → List (Belief F)
active_beliefs heads = keep_first (λ b. b.claim_text) [] (retain (λ b. is_active b.status) heads)

module _ {F : Foreign} (m : Memory F) where
  abbrev pub in_view : TxId → List Text → Bool
  in_view tx ancestors = not (branch_depth_of_tx m tx ancestors == u64_max)

  unfoldable pub fact_revoked_in_view : Fact F → TxId → List Text → Bool
  fact_revoked_in_view f as_of ancestors =
      is_some_and (λ rev. leb rev as_of && in_view rev ancestors) f.revoked_by_tx

  module _ {T : Type 0} (id : T → Text) (tx : T → TxId) (ancestors : List Text) where
    -- The order of `sort_by_key(|r| (depth(r), Reverse(key(r).1)))`.
    unfoldable pub before : T → T → Bool
    before r s =
        let d = branch_depth_of_tx m (tx r) ancestors in
        let e = branch_depth_of_tx m (tx s) ancestors in ltb d e || (d == e && leb (tx s) (tx r))

    unfoldable pub is_eligible : TxId → (T → Bool) → T → Bool
    is_eligible as_of keep r = leb (tx r) as_of && (in_view (tx r) ancestors && keep r)

    unfoldable pub newest_rows : List T → TxId → (T → Bool) → List T
    newest_rows rows as_of keep =
        keep_first id [] (sort before (retain (is_eligible as_of keep) rows))

  unfoldable pub newest_fact_rows : List Text → TxId → (Fact F → Bool) → List (Fact F)
  newest_fact_rows ancestors as_of keep =
      newest_rows (λ f. f.fact_id) (λ f. f.created_by_tx) ancestors m.facts as_of keep

  unfoldable pub newest_belief_rows : List Text → TxId → (Belief F → Bool) → List (Belief F)
  newest_belief_rows ancestors as_of keep =
      newest_rows (λ b. b.belief_id) (λ b. b.created_by_tx) ancestors m.beliefs as_of keep

  unfoldable pub live_facts : Text → TxId → List (Fact F)
  live_facts branch_id as_of =
      let ancestors = branch_ancestors m branch_id in
      retain (λ f. not (fact_revoked_in_view f as_of ancestors))
        (newest_fact_rows ancestors as_of (λ _. true))

  unfoldable pub fact_head : Text → Text → Option (Fact F × Bool)
  fact_head branch_id fact_id =
      let ancestors = branch_ancestors m branch_id in
      elim (last (newest_fact_rows ancestors u64_max (λ f. text_eq f.fact_id fact_id))) [
        | none ↦ none
        | some head ↦ some (head, not (fact_revoked_in_view head u64_max ancestors))
      ]

  unfoldable pub facts_on_branch : Text → List (Fact F)
  facts_on_branch branch_id = live_facts branch_id u64_max

  -- The scan for a shadowed row of `fact_branch_role`.
  overrides : Fact F → List Text → Bool
  overrides f ancestors =
      any
        (λ (other : Fact F).
          text_eq other.fact_id f.fact_id
          && (not (other.created_by_tx == f.created_by_tx)
              && (in_view other.created_by_tx ancestors
                  && ltb (branch_depth_of_tx m f.created_by_tx ancestors)
                      (branch_depth_of_tx m other.created_by_tx ancestors))))
        m.facts

  unfoldable pub fact_branch_role : Fact F → Text → Text
  unfolding overrides
  fact_branch_role f view_branch =
      let ancestors = branch_ancestors m view_branch in
      let d = branch_depth_of_tx m f.created_by_tx ancestors in
      if d == u64_max
      then codes "local"
      else if ltb 0 d
      then codes "inherited"
      else if overrides f ancestors
      then codes "override"
      else codes "local"

  pub transactions_on_branch : Text → List Tx
  transactions_on_branch branch_id =
      let ancestors = branch_ancestors m branch_id in
      retain (λ t. text_mem t.branch_id ancestors) m.transactions

  unfoldable pub current_facts : List (Fact F)
  current_facts = facts_on_branch main_branch

  -- The branch on which a transaction is seen again.
  abbrev pub view_branch : TxId → Text
  view_branch tx_id = unwrap_or (tx_branch m tx_id) main_branch

  unfoldable pub facts_as_of : TxId → List (Fact F)
  facts_as_of tx_id = live_facts (view_branch tx_id) tx_id

  unfoldable pub latest_belief_per_id_on_branch : Text → List (Belief F)
  latest_belief_per_id_on_branch branch_id =
      newest_belief_rows (branch_ancestors m branch_id) u64_max (λ _. true)

  unfoldable pub beliefs_on_branch : Text → List (Belief F)
  beliefs_on_branch branch_id =
      active_beliefs (newest_belief_rows (branch_ancestors m branch_id) u64_max (λ _. true))

  unfoldable pub beliefs_as_of : TxId → List (Belief F)
  beliefs_as_of tx_id =
      active_beliefs (newest_belief_rows (branch_ancestors m (view_branch tx_id)) tx_id (λ _. true))

  unfoldable pub facts_valid_at_on_branch : Text → Text → List (Fact F)
  facts_valid_at_on_branch branch_id timestamp =
      retain (λ f. is_valid_at f.valid_from f.valid_to timestamp) (facts_on_branch branch_id)

  unfoldable pub valid_to_as_of : Fact F → TxId → Option Text
  valid_to_as_of f as_of =
      let superseded_later = is_some_and (λ t. ltb as_of t) f.superseded_by_tx in
      let retract_stamped_later =
        is_some_and
          (λ rev.
            ltb as_of rev
            && is_some_and (λ (t : Tx). is_text f.valid_to t.tx_time)
                (find (λ t. t.tx_id == rev) m.transactions))
          f.revoked_by_tx in
      if superseded_later || retract_stamped_later then none else f.valid_to

  unfoldable pub facts_bitemporal : TxId → Text → List (Fact F)
  facts_bitemporal tx_id timestamp =
      let ancestors = branch_ancestors m (view_branch tx_id) in
      let live = map (λ (f : Fact F). f.fact_id) (live_facts (view_branch tx_id) tx_id) in
      newest_fact_rows ancestors tx_id (λ f.
        text_mem f.fact_id live
        && (not (fact_revoked_in_view f tx_id ancestors)
            && is_valid_at f.valid_from (valid_to_as_of f tx_id) timestamp))

  unfoldable pub beliefs_valid_at_on_branch : Text → Text → List (Belief F)
  beliefs_valid_at_on_branch branch_id timestamp =
      retain (λ b. is_valid_at b.valid_from b.valid_to timestamp) (beliefs_on_branch branch_id)

  unfoldable pub beliefs_bitemporal : TxId → Text → List (Belief F)
  beliefs_bitemporal tx_id timestamp =
      retain (λ b. is_valid_at b.valid_from b.valid_to timestamp)
        (active_beliefs (
          newest_belief_rows (branch_ancestors m (view_branch tx_id)) tx_id
            (λ b. text_leb b.valid_from timestamp)))

  unfoldable pub fact_history : Text → List (Fact F)
  fact_history fact_id = retain (λ f. text_eq f.fact_id fact_id) m.facts

  unfoldable pub belief_history : Text → List (Belief F)
  belief_history claim_text = retain (λ b. text_eq b.claim_text claim_text) m.beliefs

  unfoldable pub explain : Text → List Tx
  explain entity_id = retain (λ t. text_mem entity_id t.refs) m.transactions

  unfoldable pub latest_tx : Option TxId
  latest_tx = elim (last m.transactions) [ none ↦ none | some t ↦ some t.tx_id ]
