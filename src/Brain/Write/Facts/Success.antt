-- ===== src/Brain/Write/Facts/Success.antt =====
-- When `assert_fact` and `retract_fact` succeed, the saves being without an error.
use ray_exomem.Prelude.{
  ℕ, ◌+◌, ◌≡◌, ap, ◌∙◌, Text, text_eq, true, some, List, [], ◌∷◌, Bool-cases, inl, inr, find,
}
use ray_exomem.Brain.{
  Foreign, Memory, Brain, Fact, FactArgs, TxAction, TxId, MutationContext, DirtyTable, EntityId,
}
use ray_exomem.Brain.Exec.{ok, rebuild_splay, sym_save, is_persistent, continue, pure, modify, ◌>>◌}
use ray_exomem.Brain.Branches.{branch_exists}
use ray_exomem.Brain.Predicate.{validate_predicate_name}
use ray_exomem.Brain.Views.{facts_on_branch}
use ray_exomem.Brain.Write.{alloc_tx, ensure_branch, push_tx, may_write}
use ray_exomem.Brain.Write.Alloc.{commit}
use ray_exomem.Brain.Write.Facts.{fact_note, assert_fact, retract_fact}

module _ {F : Foreign} (saves : (n : ℕ) → F.save_table_ok n ≡ true)
    (sym_saves : (n : ℕ) → F.sym_save_ok n ≡ true) where
  rebuild_splay-ok :
      (t : DirtyTable) (b : Brain F) → rebuild_splay t b ≡ (ok tt, (rebuild_splay t b).1)
  unfolding rebuild_splay sym_save
  rebuild_splay-ok t b = elim (Bool-cases (is_persistent b.data_dir b.sym_path)) [
    | inl p ↦ rw (rebuild_splay, p, saves b.ticks, sym_saves (b.ticks + 1))
    | inr p ↦ rw (rebuild_splay, p)
  ]

  save_pure-ok :
      {A : Type 0} (t : DirtyTable) (x : A) (b : Brain F)
      → (rebuild_splay t >> pure x) b ≡ (ok x, (rebuild_splay t b).1)
  save_pure-ok t x b = ap (λ q. continue q (λ _. pure x)) (rebuild_splay-ok t b)

  commit-ok :
      (br : Text) (action : TxAction) (refs : List EntityId) (note : Text) (ctx : MutationContext)
      (change : TxId → Text → Memory F → Memory F) (table : DirtyTable) (b : Brain F)
      → branch_exists b.memory br ≡ true
      → may_write refs b.memory ≡ true
      → (commit br action refs note ctx change table b).0 ≡ ok b.memory.next_tx
  unfolding alloc_tx ensure_branch push_tx
  commit-ok br action refs note ctx change table b there allowed =
      let pushed = push_tx br action refs note ctx b in
      let issued : TxId × Text = (b.memory.next_tx, F.now_iso b.ticks) in
      rw (there, allowed)
        (ap
            (λ q.
              (continue q (λ (i : TxId × Text).
                modify (change i.0 i.1) >> (rebuild_splay table >> pure i.0))).0)
            (save_pure-ok DirtyTable.tx issued pushed.1)
          ∙ ap (λ q. q.0) (save_pure-ok table b.memory.next_tx _))

  -- `assert_fact` succeeds, with the next transaction id, when the name of the predicate is valid, the
  -- branch is there and the session is open or the fact is its marker. No save fails.
  pub assert_fact-succeeds :
      (br : Text) (a : FactArgs F) (ctx : MutationContext) (b : Brain F)
      → validate_predicate_name a.predicate ≡ true
      → branch_exists b.memory br ≡ true
      → may_write (a.fact_id ∷ []) b.memory ≡ true
      → (assert_fact br a ctx b).0 ≡ ok b.memory.next_tx
  unfolding assert_fact
  assert_fact-succeeds br a ctx b valid there allowed = rw valid (
      commit-ok br TxAction.assert_fact (a.fact_id ∷ []) (fact_note a) ctx _ DirtyTable.fact b there
        allowed)

  -- `retract_fact` succeeds, with the next transaction id, when the fact is among the facts of the
  -- branch, the branch is there and the session is open or the fact is its marker. No save fails.
  pub retract_fact-succeeds :
      (br id : Text) (head : Fact F) (ctx : MutationContext) (b : Brain F)
      → find (λ (f : Fact F). text_eq f.fact_id id) (facts_on_branch b.memory br) ≡ some head
      → branch_exists b.memory br ≡ true
      → may_write (id ∷ []) b.memory ≡ true
      → (retract_fact br id ctx b).0 ≡ ok b.memory.next_tx
  unfolding retract_fact
  retract_fact-succeeds br id head ctx b found there allowed =
      rw found
        (commit-ok br TxAction.retract_fact (id ∷ []) [] ctx _ DirtyTable.fact b there allowed)
