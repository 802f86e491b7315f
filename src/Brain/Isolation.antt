-- ===== src/Brain/Isolation.antt =====
-- A write on one branch is not seen on a branch that does not descend from it.
pub mod Facts
use mathlib.Core.Path.{fun_ext, subst, ap₂}
use mathlib.Core.List.{append-nil}
use native.Mathlib.Decide.{ℕ_discrete}
use ray_exomem.Prelude.{
  ℕ, ◌≡◌, ◌≢◌, refl, sym, ap, ◌∙◌, ◌<◌, Text, text_eq, text_eq_iff, text_mem, text_mem_cons, Bool,
  true, false, not, ◌&&◌, ◌==◌, leb, Option, none, some, List, [], ◌∷◌, ◌++◌, Memᴰ, arith,
  Bool-cases, Option-cases, inl, inr, retain, retain-append, retain-update_all, retain-eq-nil,
  update_all, update_all-none, if◌then◌else◌, is_some_and, unwrap_or, Memᴰ-single,
}
use ray_exomem.Prelude.Sort.{sort, keep_first}
use ray_exomem.Brain.{
  Foreign, Memory, Brain, Fact, FactArgs, TxAction, TxId, Tx, MutationContext, u64_max,
}
use ray_exomem.Brain.Exec.{ok}
use ray_exomem.Brain.Branches.{tx_branch, lookup_tx, branch_ancestors, branch_depth_of_tx, position}
use ray_exomem.Brain.Views.{
  before, is_eligible, newest_rows, newest_fact_rows, live_facts, fact_revoked_in_view, in_view,
}
use ray_exomem.Brain.Invariant.{IsWf, created-lt, tx_branch-with_tx_self}
use ray_exomem.Brain.Invariant.Rows.{with_facts}
use ray_exomem.Brain.Write.{with_tx}

position-eq-none : (t : Text) (xs : List Text) → text_mem t xs ≡ false → position t xs ≡ none
unfolding position text_mem
position-eq-none t [] h = refl
position-eq-none t (x ∷ xs) h = ground (arith, position-eq-none t xs)

module _ {F : Foreign} where
  depth_outside :
      (m : Memory F) (t : TxId) (br : Text) (chain : List Text)
      → tx_branch m t ≡ some br
      → text_mem br chain ≡ false
      → branch_depth_of_tx m t chain ≡ u64_max
  unfolding branch_depth_of_tx
  depth_outside m t br chain on out = rw (on, branch_depth_of_tx, position-eq-none br chain out)

  next-unindexed : (m : Memory F) → IsWf m → tx_branch m m.next_tx ≡ none
  next-unindexed m wf = elim (Option-cases (tx_branch m m.next_tx)) [
    | inl e ↦ e
    | inr (c, e) ↦ let lt = wf.index_below m.next_tx c e in absurd (omega arith)
  ]

  depth_unindexed :
      (m : Memory F) (t : TxId) (chain : List Text)
      → tx_branch m t ≡ none
      → branch_depth_of_tx m t chain ≡ u64_max
  unfolding branch_depth_of_tx
  depth_unindexed m t chain h = rw (h, branch_depth_of_tx)

  depth_of_branch :
      (m n : Memory F) (t : TxId) (chain : List Text)
      → tx_branch n t ≡ tx_branch m t
      → branch_depth_of_tx n t chain ≡ branch_depth_of_tx m t chain
  unfolding branch_depth_of_tx
  depth_of_branch m n t chain h = rw (h, branch_depth_of_tx)

  tx_branch-with_tx_ne :
      (br : Text) (x : Tx) (m : Memory F) (t : TxId)
      → m.next_tx ≢ t
      → tx_branch (with_tx br x m) t ≡ tx_branch m t
  unfolding tx_branch lookup_tx with_tx
  tx_branch-with_tx_ne br x m t h = ground arith

  -- A transaction on a branch outside the chain changes no depth in the chain.
  pub depth-with_tx :
      (br : Text) (x : Tx) (m : Memory F) (chain : List Text)
      → tx_branch m m.next_tx ≡ none
      → text_mem br chain ≡ false
      → (t : TxId) → branch_depth_of_tx (with_tx br x m) t chain ≡ branch_depth_of_tx m t chain
  depth-with_tx br x m chain fresh out t = elim (ℕ_discrete m.next_tx t) [
    | yes e ↦
        subst (λ k. branch_depth_of_tx (with_tx br x m) k chain ≡ branch_depth_of_tx m k chain) e
          (depth_outside (with_tx br x m) m.next_tx br chain (tx_branch-with_tx_self br x m) out
            ∙ sym (depth_unindexed m m.next_tx chain fresh))
    | no ne ↦ depth_of_branch m (with_tx br x m) t chain (tx_branch-with_tx_ne br x m t ne)
  ]

-- Two memories that agree on the depths of a chain and on the eligible rows give one view.
module _ {F : Foreign} (m n : Memory F) (v : Text) (as_of : TxId)
    (branches : n.branches ≡ m.branches)
    (depths : (t : TxId)
      → branch_depth_of_tx n t (branch_ancestors m v)
        ≡ branch_depth_of_tx m t (branch_ancestors m v)) where
  abbrev chain : List Text
  chain = branch_ancestors m v

  abbrev eligible : Memory F → Fact F → Bool
  eligible k = is_eligible k (λ f. f.fact_id) (λ f. f.created_by_tx) chain as_of (λ _. true)

  eligible_same : eligible n ≡ eligible m
  unfolding is_eligible
  eligible_same = fun_ext λ f. rw (depths f.created_by_tx)

  before_same :
      before n (λ (f : Fact F). f.fact_id) (λ f. f.created_by_tx) chain
      ≡ before m (λ (f : Fact F). f.fact_id) (λ f. f.created_by_tx) chain
  unfolding before
  before_same = fun_ext λ f. fun_ext λ g. rw (depths f.created_by_tx, depths g.created_by_tx)

  revoked_at :
      (f : Fact F) → fact_revoked_in_view n f as_of chain ≡ fact_revoked_in_view m f as_of chain
  unfolding fact_revoked_in_view
  revoked_at f = elim (Option-cases f.revoked_by_tx) [
    | inl e ↦ rw e
    | inr (r, e) ↦ rw (e, depths r)
  ]

  chain_same : branch_ancestors n v ≡ chain
  unfolding branch_ancestors
  chain_same = rw branches

  live_facts_same :
      retain (eligible m) n.facts ≡ retain (eligible m) m.facts
      → live_facts n v as_of ≡ live_facts m v as_of
  unfolding live_facts newest_fact_rows newest_rows
  live_facts_same h =
      rw (chain_same, eligible_same, before_same, h)
        (ap
          (λ (q : Fact F → Bool). retain q (
            keep_first (λ f. f.fact_id) []
              (sort (before m (λ f. f.fact_id) (λ f. f.created_by_tx) chain)
                (retain (eligible m) m.facts))))
          (fun_ext λ f. ap not (revoked_at f)))

-- Rows stamped and rows pushed, all of them written on a branch outside the chain.
module _ {F : Foreign} (m : Memory F) (n : Memory F) (v br : Text) (as_of : TxId)
    (out : text_mem br (branch_ancestors m v) ≡ false) (p : Fact F → Bool) (g : Fact F → Fact F)
    (extra : List (Fact F)) (keeps_tx : (f : Fact F) → (g f).created_by_tx ≡ f.created_by_tx)
    (stamps : (f : Fact F) → p f ≡ true → tx_branch n f.created_by_tx ≡ some br)
    (pushes : (f : Fact F) → Memᴰ f extra → tx_branch n f.created_by_tx ≡ some br) where
  ineligible :
      (f : Fact F)
      → tx_branch n f.created_by_tx ≡ some br
      → is_eligible n
          (λ (f : Fact F). f.fact_id)
          (λ f. f.created_by_tx)
          (branch_ancestors m v)
          as_of
          (λ _. true)
          f
        ≡ false
  unfolding is_eligible
  ineligible f on = let d = depth_outside n f.created_by_tx br _ on out in ground arith

  rows_unseen :
      (rows : List (Fact F))
      → retain
          (is_eligible n
            (λ (f : Fact F). f.fact_id)
            (λ f. f.created_by_tx)
            (branch_ancestors m v)
            as_of
            (λ _. true))
          (update_all p g rows ++ extra)
        ≡ retain
            (is_eligible n
              (λ (f : Fact F). f.fact_id)
              (λ f. f.created_by_tx)
              (branch_ancestors m v)
              as_of
              (λ _. true))
            rows
  rows_unseen rows =
      retain-append _ (update_all p g rows) extra
      ∙ ap₂ (λ xs ys. xs ++ ys)
          (retain-update_all _ p g rows (λ f t. (
            ineligible f (stamps f t),
            ineligible (g f) (ap (tx_branch n) (keeps_tx f) ∙ stamps f t),
          )))
          (retain-eq-nil _ extra (λ f k. ineligible f (pushes f k)))
      ∙ append-nil _

module _ {F : Foreign} (m : Memory F) (wf : IsWf m) (v br : Text) (as_of : TxId) (x : Tx)
    (out : text_mem br (branch_ancestors m v) ≡ false) (p : Fact F → Bool) (g : Fact F → Fact F)
    (extra : List (Fact F)) (keeps_tx : (f : Fact F) → (g f).created_by_tx ≡ f.created_by_tx)
    (stamps : (f : Fact F) → p f ≡ true → tx_branch (with_tx br x m) f.created_by_tx ≡ some br)
    (pushes : (f : Fact F)
      → Memᴰ f extra
      → tx_branch (with_tx br x m) f.created_by_tx ≡ some br) where
  abbrev after : Memory F
  after = with_facts (with_tx br x m) (update_all p g m.facts ++ extra)

  after_depths :
      (t : TxId)
      → branch_depth_of_tx after t (branch_ancestors m v)
        ≡ branch_depth_of_tx m t (branch_ancestors m v)
  unfolding branch_depth_of_tx tx_branch
  after_depths t = depth-with_tx br x m (branch_ancestors m v) (next-unindexed m wf) out t

  -- A transaction on a branch that is no ancestor, with its stamps and rows, leaves a view as it is.
  pub live_facts-unseen : live_facts after v as_of ≡ live_facts m v as_of
  unfolding with_tx tx_branch
  live_facts-unseen = live_facts_same m after v as_of refl after_depths (
      subst (λ (q : Fact F → Bool). retain q (update_all p g m.facts ++ extra) ≡ retain q m.facts)
        (eligible_same m after v as_of refl after_depths)
        (rows_unseen m after v br as_of out p g extra keeps_tx stamps pushes m.facts))
