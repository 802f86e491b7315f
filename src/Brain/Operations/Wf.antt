-- ===== src/Brain/Operations/Wf.antt =====
-- Every operation keeps the invariant of the memory, and uses up one transaction id at most.
use ray_exomem.Prelude.{
  ℕ, codes, unwrap_or, ◌+◌, ◌≡◌, refl, ◌≤◌, ◌<◌, Text, text_eq, Option, some, List, [], ◌∷◌, ◌++◌,
  Memᴰ, arith, length, Bool-cases, Option-cases, inl, inr, find, any,
}
use native.Mathlib.Nat.{add-zero}
use ray_exomem.Brain.{
  Foreign, Brain, Memory, Fact, Belief, Observation, Tx, Branch, FactArgs, MutationContext,
  TxAction, TxId, DirtyTable, u64_max, empty_memory, main_branch,
}
use ray_exomem.Brain.Exec.{keeps_save}
use ray_exomem.Brain.Branches.{tx_branch, lookup_tx, branch_exists, has_id}
use ray_exomem.Brain.Predicate.{validate_predicate_name}
use ray_exomem.Brain.Views.{facts_on_branch}
use ray_exomem.Brain.Invariant.{IsWf, created-lt, with_tx-IsWf, tx_branch-with_tx_self}
use ray_exomem.Brain.Invariant.Rows.{assert_rows-IsWf, retract_rows-IsWf, retract_exact_rows-IsWf}
use ray_exomem.Brain.Write.{with_tx, ensure_branch}
use ray_exomem.Brain.Write.Alloc.{issued_memory, commit, commit-keeps}
use ray_exomem.Brain.Write.Facts.{
  fact_note, assert_rows, assert_fact, retract_rows, retract_fact, is_triple, retract_exact_rows,
  retract_fact_exact,
}
use ray_exomem.Brain.Write.Beliefs.{
  assert_observation, revise_belief, revoke_belief, active_belief, revised, final_supports,
  revoked_copy,
}
use ray_exomem.Brain.Write.BranchOps.{
  create_branch, archive_branch, new_branch, Claim, set_branch_claim, is_named, with_implicit_main,
}
use ray_exomem.Brain.Operations.{Operation, run, run_all}

module _ {F : Foreign} where
  -- The invariant says nothing of observations, beliefs, transactions and branches.
  IsWf-others :
      (m : Memory F) (os : List (Observation F)) (bs : List (Belief F)) (ts : List Tx)
      (brs : List Branch)
      → IsWf m
      → IsWf (record m { observations = os; beliefs = bs; transactions = ts; branches = brs })
  unfolding tx_branch
  IsWf-others m os bs ts brs wf = record {
    in_range = wf.in_range;
    index_below = wf.index_below;
    indexed = wf.indexed;
    revoked_here = wf.revoked_here;
    superseded_newer = λ f k s e.
        let n = wf.superseded_newer f k s e in
        record {
          row = n.row;
          member = n.member;
          same_id = n.same_id;
          newer = n.newer;
          same_branch = n.same_branch;
        };
  }

  next-retract_rows :
      (br id : Text) (head : Fact F) (t : TxId) (time : Text) (m : Memory F)
      → (retract_rows br id head t time m).next_tx ≡ m.next_tx
  unfolding retract_rows
  next-retract_rows br id head t time m = ground arith

  next-retract_exact_rows :
      (br id p : Text) (v : F.Value) (head : Fact F) (t : TxId) (time : Text) (m : Memory F)
      → (retract_exact_rows br id p v head t time m).next_tx ≡ m.next_tx
  unfolding retract_exact_rows
  next-retract_exact_rows br id p v head t time m = ground arith

  -- The invariant, with ids left for `k` more transactions.
  pub record HasRoom (k : ℕ) (m : Memory F) : Type 0 where
    pub wf : IsWf m
    pub room : m.next_tx + k ≤ u64_max

  HasRoom-less : (k : ℕ) (m : Memory F) → HasRoom (k + 1) m → HasRoom k m
  HasRoom-less k m h = record { wf = h.wf; room = let r = h.room in omega arith }

  module _ (k : ℕ) (br : Text) (action : TxAction) (refs : List Text) (note : Text)
      (ctx : MutationContext) (change : TxId → Text → Memory F → Memory F) (table : DirtyTable)
      (b : Brain F) (h : HasRoom (k + 1) b.memory) where
    issued-HasRoom : (time : Text) → HasRoom k (issued_memory br action refs note ctx time b.memory)
    unfolding with_tx
    issued-HasRoom time = record {
      wf = let r = h.room in with_tx-IsWf br _ b.memory h.wf (omega arith);
      room = let r = h.room in omega arith;
    }

    -- What a change may use of the memory in which the transaction was just issued.
    abbrev KeepsFacts : Type 0
    KeepsFacts =
        (time : Text)
        → (m : Memory F) → IsWf m
        → tx_branch m b.memory.next_tx ≡ some br
        → ((f : Fact F) → Memᴰ f m.facts → f.created_by_tx < b.memory.next_tx)
        → IsWf (change b.memory.next_tx time m)
          × ((change b.memory.next_tx time m).next_tx ≡ m.next_tx)

    commit-HasRoom : KeepsFacts → HasRoom k (commit br action refs note ctx change table b).1.memory
    commit-HasRoom keeps =
        commit-keeps br action refs note ctx (HasRoom k) change table b (HasRoom-less k b.memory h)
          issued-HasRoom
          (λ time.
            let m1 = issued_memory br action refs note ctx time b.memory in
            let w = issued-HasRoom time in
            let (wf, same) =
              keeps time m1 w.wf (tx_branch-with_tx_self br _ b.memory)
                (unfold with_tx in λ f n. created-lt b.memory h.wf f n) in
            record { wf = wf; room = let r = w.room in omega (arith, same) })

  module _ (k : ℕ) (ctx : MutationContext) (b : Brain F) (h : HasRoom (k + 1) b.memory) where
    abbrev less : HasRoom k b.memory
    less = HasRoom-less k b.memory h

    assert_fact-HasRoom : (br : Text) (a : FactArgs F) → HasRoom k (assert_fact br a ctx b).1.memory
    unfolding assert_fact assert_rows
    assert_fact-HasRoom br a = elim (Bool-cases (validate_predicate_name a.predicate)) [
      | inl v ↦ rw v (
          commit-HasRoom k br TxAction.assert_fact (a.fact_id ∷ []) (fact_note a) ctx
            (assert_rows br a) DirtyTable.fact b h
            (λ time m wf on fresh.
              (assert_rows-IsWf m wf br b.memory.next_tx time on fresh a, refl)))
      | inr f ↦ rw f less
    ]

    retract_fact-HasRoom : (br id : Text) → HasRoom k (retract_fact br id ctx b).1.memory
    unfolding retract_fact
    retract_fact-HasRoom br id =
        elim (Option-cases
          (find (λ (f : Fact F). text_eq f.fact_id id) (facts_on_branch b.memory br))) [
            | inl e ↦ rw e less
            | inr (head, e) ↦ rw e (
                commit-HasRoom k br TxAction.retract_fact (id ∷ []) [] ctx (retract_rows br id head)
                  DirtyTable.fact b h
                  (λ time m wf on fresh. (
                    retract_rows-IsWf m wf br b.memory.next_tx time on fresh id head,
                    next-retract_rows br id head b.memory.next_tx time m,
                  )))
          ]

    retract_fact_exact-HasRoom :
        (br id p : Text) (v : F.Value) → HasRoom k (retract_fact_exact br id p v ctx b).1.memory
    unfolding retract_fact_exact
    retract_fact_exact-HasRoom br id p v =
        elim (Option-cases (find (is_triple id p v) (facts_on_branch b.memory br))) [
          | inl e ↦ rw e less
          | inr (head, e) ↦ rw e (
              commit-HasRoom k br TxAction.retract_fact (id ∷ [])
                (p ++ (codes " = " ++ F.display v)) ctx (retract_exact_rows br id p v head)
                DirtyTable.fact b h
                (λ time m wf on fresh. (
                  retract_exact_rows-IsWf m wf br b.memory.next_tx time on fresh id p v head,
                  next-retract_exact_rows br id p v head b.memory.next_tx time m,
                )))
        ]

    -- The other operations leave the facts alone.
    others-HasRoom :
        (br : Text) (action : TxAction) (refs : List Text) (note : Text)
        (os : TxId → Text → List (Observation F) → List (Observation F))
        (bs : TxId → Text → List (Belief F) → List (Belief F))
        (brs : TxId → Text → List Branch → List Branch) (table : DirtyTable)
        → HasRoom k
            (commit br action refs note ctx
              (λ t time m. record m {
                observations = os t time m.observations;
                beliefs = bs t time m.beliefs;
                branches = brs t time m.branches;
              })
              table
              b).1.memory
    others-HasRoom br action refs note os bs brs table =
        commit-HasRoom k br action refs note ctx _ table b h
          (λ time m wf on fresh. (IsWf-others m _ _ m.transactions _ wf, refl))

    revoke_belief-HasRoom : (br id : Text) → HasRoom k (revoke_belief br id ctx b).1.memory
    unfolding revoke_belief
    revoke_belief-HasRoom br id = elim (Option-cases (active_belief br id b.memory)) [
      | inl e ↦ rw e less
      | inr (a, e) ↦ rw e (
          others-HasRoom br TxAction.revoke_belief (id ∷ []) [] (λ _ _ os. os)
            (λ t time bs. bs ++ revoked_copy id a t time ∷ []) (λ _ _ brs. brs) DirtyTable.belief)
    ]

    create_branch-HasRoom :
        (parent id name : Text) → HasRoom k (create_branch parent id name ctx b).1.memory
    unfolding create_branch ensure_branch
    create_branch-HasRoom parent id name = elim (Bool-cases (branch_exists b.memory parent)) [
      | inl there ↦ elim (Bool-cases (branch_exists b.memory id)) [
        | inl taken ↦ rw (there, taken) less
        | inr free ↦
            rw (there, free)
              (others-HasRoom parent TxAction.create_branch (id ∷ []) name (λ _ _ os. os)
                (λ _ _ bs. bs) (λ t time brs. brs ++ new_branch parent id name t ∷ [])
                DirtyTable.branch)
      ]
      | inr f ↦ rw f less
    ]

    branches-HasRoom :
        (brs : List Branch) (c : Brain F)
        → c.memory ≡ b.memory
        → HasRoom k (record c.memory { branches = brs })
    branches-HasRoom brs c e = rw e (record {
      wf =
          IsWf-others b.memory b.memory.observations b.memory.beliefs b.memory.transactions brs
            h.wf;
      room = less.room;
    })

    archive_branch-HasRoom : (id : Text) → HasRoom k (archive_branch id b).1.memory
    unfolding archive_branch
    archive_branch-HasRoom id = elim (Bool-cases (text_eq id main_branch)) [
      | inl e ↦ rw e less
      | inr ne ↦ elim (Bool-cases (any (has_id id) b.memory.branches)) [
        | inl there ↦
            rw (ne, there) (keeps_save (HasRoom k) DirtyTable.branch _ (branches-HasRoom _ b refl))
        | inr f ↦ rw (ne, f) less
      ]
    ]

    set_branch_claim-HasRoom :
        (name : Text) (claim : Option Claim) → HasRoom k (set_branch_claim name claim b).1.memory
    unfolding set_branch_claim
    set_branch_claim-HasRoom name claim =
        elim (Bool-cases (any (is_named name) (with_implicit_main name b.memory.branches))) [
          | inl there ↦
              rw there (keeps_save (HasRoom k) DirtyTable.branch _ (branches-HasRoom _ b refl))
          | inr f ↦ rw f (branches-HasRoom _ b refl)
        ]

    run-HasRoom : (o : Operation F) → HasRoom k (run o ctx b).memory
    unfolding run
    run-HasRoom (Operation.assert_fact br a) = assert_fact-HasRoom br a
    run-HasRoom (Operation.retract_fact br id) = retract_fact-HasRoom br id
    run-HasRoom (Operation.retract_fact_exact br id p v) = retract_fact_exact-HasRoom br id p v
    run-HasRoom (Operation.assert_observation br id ty source content c tags from to) =
        unfold assert_observation in
        others-HasRoom br TxAction.assert_observation (id ∷ []) (codes "observe: " ++ id)
          (λ t time os.
            os
            ++ record {
              obs_id = id;
              source_type = ty;
              source_ref = source;
              content = content;
              created_at = time;
              confidence = c;
              tx_id = t;
              tags = tags;
              valid_from = unwrap_or from time;
              valid_to = to;
            }
              ∷ [])
          (λ _ _ bs. bs) (λ _ _ brs. brs) DirtyTable.observation
    run-HasRoom (Operation.revise_belief br id claim c supports why from to) =
        unfold revise_belief in
        others-HasRoom br TxAction.revise_belief (id ∷ []) claim (λ _ _ os. os)
          (λ t time bs.
            bs
            ++ revised id claim c (final_supports br id supports b.memory) why from to t time ∷ [])
          (λ _ _ brs. brs) DirtyTable.belief
    run-HasRoom (Operation.revoke_belief br id) = revoke_belief-HasRoom br id
    run-HasRoom (Operation.create_branch parent id name) = create_branch-HasRoom parent id name
    run-HasRoom (Operation.archive_branch id) = archive_branch-HasRoom id
    run-HasRoom (Operation.set_branch_claim name claim) = set_branch_claim-HasRoom name claim

  -- Any sequence of calls, failing ones included, from a memory with an id left for each, ends in
  -- a memory that satisfies the invariant.
  pub run_all-HasRoom :
      (calls : List (Operation F × MutationContext)) (k : ℕ) (b : Brain F)
      → HasRoom (k + length calls) b.memory
      → HasRoom k (run_all calls b).memory
  unfolding run_all
  run_all-HasRoom [] k b h = rw add-zero at h
  run_all-HasRoom ((o, ctx) ∷ rest) k b h = run_all-HasRoom rest k (run o ctx b) (
      run-HasRoom (k + length rest) ctx b
        (record { wf = h.wf; room = let r = h.room in omega arith }) o)

  pub empty_memory-HasRoom : (k : ℕ) → k < u64_max → HasRoom k (empty_memory {F = F})
  unfolding tx_branch lookup_tx
  empty_memory-HasRoom k h = record {
    wf = record {
      in_range = omega arith;
      index_below = λ t br e. absurd (cc e);
      indexed = λ f n. elim n [ ];
      revoked_here = λ f n r e. elim n [ ];
      superseded_newer = λ f n s e. elim n [ ];
    };
    room = omega arith;
  }

  -- From a new brain, any sequence of fewer than 2 ^ 64 - 1 calls leads to a memory that satisfies
  -- the invariant.
  pub run_all-IsWf :
      (calls : List (Operation F × MutationContext)) (b : Brain F)
      → b.memory ≡ empty_memory
      → length calls < u64_max
      → IsWf (run_all calls b).memory
  run_all-IsWf calls b e h =
      (run_all-HasRoom calls 0 b (rw e (empty_memory-HasRoom (0 + length calls) (omega arith)))).wf
