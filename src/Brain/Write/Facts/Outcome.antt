-- ===== src/Brain/Write/Facts/Outcome.antt =====
-- What the operations on facts leave behind when they succeed.
use ray_exomem.Prelude.{
  ◌≡◌, Text, text_eq, true, some, [], ◌∷◌, find, Bool-cases, Option-cases, inl, inr, ap,
}
use ray_exomem.Brain.{Foreign, Brain, Fact, FactArgs, TxAction, TxId, MutationContext, DirtyTable}
use ray_exomem.Brain.Exec.{ok}
use ray_exomem.Brain.Views.{facts_on_branch}
use ray_exomem.Brain.Predicate.{validate_predicate_name}
use ray_exomem.Brain.Write.Alloc.{Committed, commit-Committed}
use ray_exomem.Brain.Write.Facts.{fact_note, assert_rows, assert_fact, retract_rows, retract_fact}

module _ {F : Foreign} (br : Text) (ctx : MutationContext) (b b' : Brain F) (t : TxId) where
  abbrev pub Asserted : FactArgs F → Type 0
  Asserted a =
      Committed br TxAction.assert_fact (a.fact_id ∷ []) (fact_note a) ctx (assert_rows br a) b b' t

  pub assert_fact-Asserted :
      (a : FactArgs F)
      → assert_fact br a ctx b ≡ (ok t, b')
      → (validate_predicate_name a.predicate ≡ true) × Asserted a
  unfolding assert_fact
  assert_fact-Asserted a h = elim (Bool-cases (validate_predicate_name a.predicate)) [
    | inl v ↦ (
      v,
      commit-Committed br TxAction.assert_fact (a.fact_id ∷ []) (fact_note a) ctx (assert_rows br a)
          DirtyTable.fact b b' t (rw v at h),
    )
    | inr f ↦ absurd (cc (ap (λ q. q.0) (rw f at h)))
  ]

  pub record Retracted (id : Text) : Type 0 where
    pub head : Fact F
    pub found :
        find (λ (f : Fact F). text_eq f.fact_id id) (facts_on_branch b.memory br) ≡ some head
    pub done : Committed br TxAction.retract_fact (id ∷ []) [] ctx (retract_rows br id head) b b' t

  pub retract_fact-Retracted : (id : Text) → retract_fact br id ctx b ≡ (ok t, b') → Retracted id
  unfolding retract_fact
  retract_fact-Retracted id h =
      elim (Option-cases
        (find (λ (f : Fact F). text_eq f.fact_id id) (facts_on_branch b.memory br))) [
          | inl e ↦ absurd (cc (ap (λ q. q.0) (rw e at h)))
          | inr (head, e) ↦ record {
            head = head;
            found = e;
            done =
                commit-Committed br TxAction.retract_fact (id ∷ []) [] ctx (retract_rows br id head)
                  DirtyTable.fact b b' t (rw e at h);
          }
        ]
