-- ===== src/Brain/Isolation/Facts.antt =====
-- `assert_fact` and `retract_fact` on one branch, seen from another.
use mathlib.Core.List.{append-nil}
use ray_exomem.Prelude.{
  ◌≡◌, refl, ap, ◌∙◌, ◌<◌, Text, text_mem, true, false, some, [], ◌∷◌, ◌++◌, Memᴰ, Memᴰ-single,
  Bool-cases, inl, inr, update_all, update_all-none, unwrap_or,
}
use ray_exomem.Brain.{
  Foreign, Memory, Brain, Fact, FactArgs, TxAction, TxId, Tx, MutationContext, u64_max,
}
use ray_exomem.Brain.Exec.{ok}
use ray_exomem.Brain.Branches.{tx_branch, branch_ancestors}
use ray_exomem.Brain.Views.{live_facts}
use ray_exomem.Brain.Invariant.{IsWf, created-lt, with_tx-IsWf, tx_branch-with_tx_self}
use ray_exomem.Brain.Invariant.Rows.{with_facts, open_row, head_row}
use ray_exomem.Brain.Isolation.{live_facts-unseen}
use ray_exomem.Brain.Write.{with_tx, new_tx}
use ray_exomem.Brain.Write.Facts.{
  written_on, is_open_row, close_row, close_time, new_fact, fact_note, assert_rows, assert_fact,
  is_head_row, revoke_row, tombstone, retract_rows, retract_fact,
}
use ray_exomem.Brain.Write.Facts.Outcome.{assert_fact-Asserted, retract_fact-Retracted}

module _ {F : Foreign} (m : Memory F) (wf : IsWf m) (room : m.next_tx < u64_max) (v br : Text)
    (as_of : TxId) (x : Tx) (out : text_mem br (branch_ancestors m v) ≡ false) (time : Text) where
  abbrev issued : Memory F
  issued = with_tx br x m

  issued-IsWf : IsWf issued
  issued-IsWf = with_tx-IsWf br x m wf room

  on : tx_branch issued m.next_tx ≡ some br
  on = tx_branch-with_tx_self br x m

  fresh : (f : Fact F) → Memᴰ f issued.facts → f.created_by_tx < m.next_tx
  unfolding with_tx
  fresh f k = created-lt m wf f k

  assert_rows_unseen :
      (a : FactArgs F)
      → live_facts (assert_rows br a m.next_tx time issued) v as_of ≡ live_facts m v as_of
  unfolding assert_rows with_tx
  assert_rows_unseen a =
      live_facts-unseen m wf v br as_of x out (is_open_row issued br a.fact_id)
        (close_row m.next_tx (close_time (unwrap_or a.valid_from time) time))
        (new_fact a m.next_tx time ∷ []) (unfold close_row in λ f. refl)
        (λ f h. (open_row issued issued-IsWf br m.next_tx time on fresh a.fact_id f h).1)
        (λ f k. rw (Memᴰ-single k) (unfold new_fact in on))

  stamped_rows :
      (id : Text) (head : Fact F)
      → written_on issued br head ≡ true
      → retract_rows br id head m.next_tx time issued
        ≡ with_facts issued
            (update_all (is_head_row issued br id) (revoke_row m.next_tx time) m.facts ++ [])
  unfolding retract_rows with_tx
  stamped_rows id head h = rw (h, append-nil)

  pushed_rows :
      (id : Text) (head : Fact F)
      → written_on issued br head ≡ false
      → retract_rows br id head m.next_tx time issued
        ≡ with_facts issued
            (update_all (λ _. false) (λ f. f) m.facts ++ tombstone head m.next_tx time ∷ [])
  unfolding retract_rows with_tx
  pushed_rows id head h = rw (h, update_all-none)

  retract_rows_unseen :
      (id : Text) (head : Fact F)
      → live_facts (retract_rows br id head m.next_tx time issued) v as_of ≡ live_facts m v as_of
  retract_rows_unseen id head = elim (Bool-cases (written_on issued br head)) [
    | inl h ↦
        ap (λ n. live_facts n v as_of) (stamped_rows id head h)
        ∙ live_facts-unseen m wf v br as_of x out (is_head_row issued br id)
            (revoke_row m.next_tx time) [] (unfold revoke_row in λ f. refl)
            (λ f h. head_row issued issued-IsWf br m.next_tx time on fresh id f h)
            (λ f k. elim k [ ])
    | inr h ↦
        ap (λ n. live_facts n v as_of) (pushed_rows id head h)
        ∙ live_facts-unseen m wf v br as_of x out (λ _. false) (λ f. f)
            (tombstone head m.next_tx time ∷ []) (λ f. refl) (λ f e. absurd (cc e))
            (λ f k. rw (Memᴰ-single k) (unfold tombstone in on))
  ]

module _ {F : Foreign} (br : Text) (ctx : MutationContext) (b b' : Brain F) (t : TxId)
    (wf : IsWf b.memory) (room : b.memory.next_tx < u64_max) (v : Text) (as_of : TxId)
    (out : text_mem br (branch_ancestors b.memory v) ≡ false) where
  -- An assertion that succeeds on a branch leaves the facts of every branch that does not have it
  -- among its ancestors as they were, row by row, now and as of any transaction. The memory is well
  -- formed, with an id left to allocate.
  pub live_facts-assert_fact :
      (a : FactArgs F)
      → assert_fact br a ctx b ≡ (ok t, b')
      → live_facts b'.memory v as_of ≡ live_facts b.memory v as_of
  live_facts-assert_fact a h =
      let (_, d) = assert_fact-Asserted br ctx b b' t a h in
      let x = new_tx br TxAction.assert_fact (a.fact_id ∷ []) (fact_note a) ctx d.time b.memory in
      ap (λ n. live_facts n v as_of)
        (d.after ∙ ap (λ k. assert_rows br a k d.time (with_tx br x b.memory)) d.id)
      ∙ assert_rows_unseen b.memory wf room v br as_of x out d.time a

  -- A retraction that succeeds on a branch leaves the facts of every branch that does not have it
  -- among its ancestors as they were, row by row, now and as of any transaction, also where the fact
  -- was inherited. The memory is well formed, with an id left to allocate.
  pub live_facts-retract_fact :
      (id : Text)
      → retract_fact br id ctx b ≡ (ok t, b')
      → live_facts b'.memory v as_of ≡ live_facts b.memory v as_of
  live_facts-retract_fact id h =
      let r = retract_fact-Retracted br ctx b b' t id h in
      let d = r.done in
      let x = new_tx br TxAction.retract_fact (id ∷ []) [] ctx d.time b.memory in
      ap (λ n. live_facts n v as_of)
        (d.after ∙ ap (λ k. retract_rows br id r.head k d.time (with_tx br x b.memory)) d.id)
      ∙ retract_rows_unseen b.memory wf room v br as_of x out d.time id r.head
