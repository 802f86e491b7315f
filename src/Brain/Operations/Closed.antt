-- ===== src/Brain/Operations/Closed.antt =====
-- A closed session: what `alloc_tx` stops, and what passes it by.
use ray_exomem.Prelude.{
  ◌≡◌, ap, Text, text_eq, text_mem, true, false, Option, none, some, [], ◌∷◌, arith, Bool-cases,
  Option-cases, inl, inr, find,
}
use ray_exomem.Brain.{
  Foreign, Brain, Memory, Fact, FactArgs, MutationContext, TxAction, DirtyTable, TxId,
}
use ray_exomem.Brain.Branches.{branch_exists}
use ray_exomem.Brain.Predicate.{validate_predicate_name}
use ray_exomem.Brain.Views.{facts_on_branch}
use ray_exomem.Brain.Write.{is_session_closed, may_write, session_closed_fact_id, ensure_branch}
use ray_exomem.Brain.Write.Alloc.{commit, commit_refused}
use ray_exomem.Brain.Write.Facts.{
  fact_note, assert_fact, retract_fact, is_triple, retract_fact_exact,
}
use ray_exomem.Brain.Write.Beliefs.{assert_observation, revise_belief, revoke_belief, active_belief}
use ray_exomem.Brain.Write.BranchOps.{create_branch}
use ray_exomem.Brain.Operations.{Operation, run}

-- The one id that the transaction of an operation refers to; `none` where it has no transaction.
abbrev pub ref_of : {F : Foreign} → Operation F → Option Text
ref_of (Operation.assert_observation br id ty source content c tags from to) = some id
ref_of (Operation.assert_fact br a) = some a.fact_id
ref_of (Operation.retract_fact br id) = some id
ref_of (Operation.retract_fact_exact br id p v) = some id
ref_of (Operation.revise_belief br id claim c supports why from to) = some id
ref_of (Operation.revoke_belief br id) = some id
ref_of (Operation.create_branch parent id name) = some id
ref_of (Operation.archive_branch id) = none
ref_of (Operation.set_branch_claim name claim) = none

module _ {F : Foreign} (ctx : MutationContext) (b : Brain F) (id : Text)
    (closed : is_session_closed b.memory ≡ true)
    (unmarked : text_eq id session_closed_fact_id ≡ false) where
  refused : may_write (id ∷ []) b.memory ≡ false
  unfolding may_write text_mem
  refused = rw (closed, unmarked)

  stopped :
      (br : Text) (action : TxAction) (note : Text) (change : TxId → Text → Memory F → Memory F)
      (table : DirtyTable)
      → (commit br action (id ∷ []) note ctx change table b).1 ≡ b
  stopped br action note change table =
      let (e, i) = commit_refused br action (id ∷ []) note ctx change table b refused in
      ap (λ p. p.1) i

  stopped_assert : (br : Text) (a : FactArgs F) → a.fact_id ≡ id → (assert_fact br a ctx b).1 ≡ b
  unfolding assert_fact
  stopped_assert br a e = elim (Bool-cases (validate_predicate_name a.predicate)) [
    | inl v ↦ rw (v, e) (stopped br TxAction.assert_fact (fact_note a) _ DirtyTable.fact)
    | inr f ↦ rw f
  ]

  stopped_retract : (br : Text) → (retract_fact br id ctx b).1 ≡ b
  unfolding retract_fact
  stopped_retract br =
      elim (Option-cases
        (find (λ (f : Fact F). text_eq f.fact_id id) (facts_on_branch b.memory br))) [
          | inl e ↦ rw e
          | inr (head, e) ↦ rw e (stopped br TxAction.retract_fact [] _ DirtyTable.fact)
        ]

  stopped_retract_exact : (br p : Text) (v : F.Value) → (retract_fact_exact br id p v ctx b).1 ≡ b
  unfolding retract_fact_exact
  stopped_retract_exact br p v =
      elim (Option-cases (find (is_triple id p v) (facts_on_branch b.memory br))) [
        | inl e ↦ rw e
        | inr (head, e) ↦ rw e (stopped br TxAction.retract_fact _ _ DirtyTable.fact)
      ]

  stopped_revoke : (br : Text) → (revoke_belief br id ctx b).1 ≡ b
  unfolding revoke_belief
  stopped_revoke br = elim (Option-cases (active_belief br id b.memory)) [
    | inl e ↦ rw e
    | inr (a, e) ↦ rw e (stopped br TxAction.revoke_belief [] _ DirtyTable.belief)
  ]

  stopped_create : (parent name : Text) → (create_branch parent id name ctx b).1 ≡ b
  unfolding create_branch ensure_branch
  stopped_create parent name = elim (Bool-cases (branch_exists b.memory parent)) [
    | inl there ↦ elim (Bool-cases (branch_exists b.memory id)) [
      | inl taken ↦ rw (there, taken)
      | inr free ↦ rw (there, free) (stopped parent TxAction.create_branch name _ DirtyTable.branch)
    ]
    | inr f ↦ rw f
  ]

module _ {F : Foreign} where
  -- While the session is closed, an operation whose transaction refers to another id than the
  -- marker leaves the brain, memory and disk, exactly as it was.
  pub run_closed :
      (o : Operation F) (ctx : MutationContext) (b : Brain F) (id : Text)
      → is_session_closed b.memory ≡ true
      → ref_of o ≡ some id
      → text_eq id session_closed_fact_id ≡ false
      → run o ctx b ≡ b
  unfolding run assert_observation revise_belief
  run_closed (Operation.assert_fact br a) ctx b id c e u =
      stopped_assert ctx b id c u br a (ground arith)
  run_closed (Operation.assert_observation br i ty source content cf tags from to) ctx b id c e u =
      stopped ctx b i c (cc (e, u)) br TxAction.assert_observation _ _ DirtyTable.observation
  run_closed (Operation.retract_fact br i) ctx b id c e u = stopped_retract ctx b i c (cc (e, u)) br
  run_closed (Operation.retract_fact_exact br i p v) ctx b id c e u =
      stopped_retract_exact ctx b i c (cc (e, u)) br p v
  run_closed (Operation.revise_belief br i claim cf supports why from to) ctx b id c e u =
      stopped ctx b i c (cc (e, u)) br TxAction.revise_belief _ _ DirtyTable.belief
  run_closed (Operation.revoke_belief br i) ctx b id c e u = stopped_revoke ctx b i c (cc (e, u)) br
  run_closed (Operation.create_branch parent i name) ctx b id c e u =
      stopped_create ctx b i c (cc (e, u)) parent name
  run_closed (Operation.archive_branch i) ctx b id c e u = absurd (cc e)
  run_closed (Operation.set_branch_claim name claim) ctx b id c e u = absurd (cc e)
