-- ===== src/Brain/Write/Facts/Laws.antt =====
-- `assert_fact` and `retract_fact` as their caller sees them.
use ray_exomem.Prelude.{
  ◌≡◌, ◌≢◌, ap, ◌∙◌, ◌<◌, Text, text_eq_iff, true, some, Memᴰ, arith, find-Memᴰ, Memᴰ-retain, List,
  [], ◌∷◌,
}
use mathlib.Core.Path.{subst}
use ray_exomem.Brain.{
  Foreign, Memory, Brain, Fact, FactArgs, TxAction, TxId, MutationContext, u64_max,
}
use ray_exomem.Brain.Exec.{ok}
use ray_exomem.Brain.Branches.{tx_branch}
use ray_exomem.Brain.Views.{fact_head, facts_on_branch, live_facts, newest_fact_rows}
use ray_exomem.Brain.Views.Order.{newest_rows_sound}
use ray_exomem.Brain.Invariant.{IsWf, created-lt, with_tx-IsWf, tx_branch-with_tx_self}
use ray_exomem.Brain.Write.{with_tx}
use ray_exomem.Brain.Write.Alloc.{issued_memory}
use ray_exomem.Brain.Write.Facts.{new_fact, fact_note, assert_fact, retract_rows, retract_fact}
use ray_exomem.Brain.Write.Facts.Outcome.{assert_fact-Asserted, retract_fact-Retracted}
use ray_exomem.Brain.Write.Facts.Reads.{
  fact_head-assert_rows, facts_on_branch-assert_rows, facts_on_branch-retract_rows,
}

module _ {F : Foreign} where
  facts_on_branch-Memᴰ :
      (m : Memory F) (br : Text) {f : Fact F} → Memᴰ f (facts_on_branch m br) → Memᴰ f m.facts
  unfolding facts_on_branch live_facts newest_fact_rows
  facts_on_branch-Memᴰ m br k = (newest_rows_sound m _ _ _ _ _ _ (Memᴰ-retain _ _ k).0).0

  -- The memory in which a committed operation makes its change.
  module _ (br : Text) (action : TxAction) (refs : List Text) (note : Text) (ctx : MutationContext)
      (time : Text) (b : Brain F) (wf : IsWf b.memory) (room : b.memory.next_tx < u64_max) where
    abbrev during : Memory F
    during = issued_memory br action refs note ctx time b.memory

    during-IsWf : IsWf during
    during-IsWf = with_tx-IsWf br _ b.memory wf room

    during_branch : tx_branch during b.memory.next_tx ≡ some br
    during_branch = tx_branch-with_tx_self br _ b.memory

    during_fresh : (f : Fact F) → Memᴰ f during.facts → f.created_by_tx < b.memory.next_tx
    unfolding with_tx
    during_fresh f k = created-lt b.memory wf f k

  module _ (br : Text) (ctx : MutationContext) (b b' : Brain F) (t : TxId) (wf : IsWf b.memory)
      (room : b.memory.next_tx < u64_max) where
    -- What is read on a branch after an assertion on it succeeded: the head of the fact is the new
    -- row, not retracted, and it is one of the facts of the branch. The memory before it is well
    -- formed, with an id left to allocate.
    pub fact_head-assert_fact :
        (a : FactArgs F)
        → assert_fact br a ctx b ≡ (ok t, b')
        → (time : Text) × (fact_head b'.memory br a.fact_id ≡ some (new_fact a t time, true))
          × Memᴰ (new_fact a t time) (facts_on_branch b'.memory br)
    fact_head-assert_fact a h =
        let (_, d) = assert_fact-Asserted br ctx b b' t a h in
        let w =
          during-IsWf br TxAction.assert_fact (a.fact_id ∷ []) (fact_note a) ctx d.time b wf room in
        let on =
          during_branch br TxAction.assert_fact (a.fact_id ∷ []) (fact_note a) ctx d.time b wf
            room in
        let fresh =
          during_fresh br TxAction.assert_fact (a.fact_id ∷ []) (fact_note a) ctx d.time b wf
            room in
        rw (d.after, d.id)
          (
            d.time,
            fact_head-assert_rows _ w br b.memory.next_tx d.time (omega arith) on fresh a,
            facts_on_branch-assert_rows _ w br b.memory.next_tx d.time (omega arith) on fresh a,
          )

    -- After a retraction on a branch succeeded no row of the fact is seen there, whether its head
    -- stood on the branch or on an ancestor. The memory before it is well formed, with an id left to
    -- allocate.
    pub facts_on_branch-retract_fact :
        (id : Text)
        → retract_fact br id ctx b ≡ (ok t, b')
        → (f : Fact F) → Memᴰ f (facts_on_branch b'.memory br)
        → f.fact_id ≢ id
    facts_on_branch-retract_fact id h f k =
        let r = retract_fact-Retracted br ctx b b' t id h in
        let d = r.done in
        let (seen, same) = find-Memᴰ _ (facts_on_branch b.memory br) r.found in
        let w = during-IsWf br TxAction.retract_fact (id ∷ []) [] ctx d.time b wf room in
        let on = during_branch br TxAction.retract_fact (id ∷ []) [] ctx d.time b wf room in
        let fresh = during_fresh br TxAction.retract_fact (id ∷ []) [] ctx d.time b wf room in
        facts_on_branch-retract_rows _ w br b.memory.next_tx d.time (omega arith) on fresh id r.head
          ((text_eq_iff r.head.fact_id id).0 same)
          (unfold with_tx in facts_on_branch-Memᴰ b.memory br seen) f
          (subst (λ m. Memᴰ f (facts_on_branch m br))
            (d.after
              ∙ ap
                  (λ x.
                    retract_rows br id r.head x d.time
                      (issued_memory br TxAction.retract_fact (id ∷ []) [] ctx d.time b.memory))
                  d.id)
            k)
