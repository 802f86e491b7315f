-- ===== src/Brain/Views/Heads.antt =====
-- The chain of a branch begins with the branch, and a row at depth 0 that is the newest of its id is
-- the head of that id.
use ray_exomem.Prelude.{
  ℕ, zero, suc, ◌≡◌, refl, sym, ◌∙◌, ap, ◌≤◌, ◌<◌, ◌⊎◌, inl, inr, Text, text_eq, text_eq_iff,
  text_eq_refl, Bool, true, not, none, some, List, [], ◌∷◌, find, last, Memᴰ, arith, Bool-cases,
  Option-cases, Memᴰ-retain_of,
}
use ray_exomem.Prelude.Sort.{AreDistinct}
use ray_exomem.Brain.{Foreign, Memory, Fact, TxId, Branch, u64_max}
use ray_exomem.Brain.Branches.{
  climb, or_self, branch_ancestors, has_id, position, tx_branch, branch_depth_of_tx,
}
use ray_exomem.Brain.Views.{
  before, is_eligible, newest_fact_rows, fact_head, live_facts, fact_revoked_in_view,
  facts_on_branch,
}
use ray_exomem.Brain.Views.Order.{
  newest_rows_sound, newest_rows-AreDistinct, newest_rows_complete, newest_rows-before,
}

find-has_id :
    (branches : List Branch) (id : Text) (b : Branch)
    → find (has_id id) branches ≡ some b
    → b.branch_id ≡ id
unfolding find
find-has_id [] id b h = cc
find-has_id (x ∷ xs) id b h = ground (arith, find-has_id xs id b, text_eq_iff x.branch_id id)

abbrev StartsWith : Text → List Text → Type 0
StartsWith id chain = (rest : List Text) × (or_self id chain ≡ id ∷ rest)

StartsWith-climb :
    (n : ℕ) (branches : List Branch) (id : Text) → StartsWith id (climb n branches id)
unfolding climb
StartsWith-climb zero branches id = ([], refl)
StartsWith-climb (suc n) branches id = elim (Option-cases (find (has_id id) branches)) [
  | inl e ↦ ([], rw (e, or_self, climb))
  | inr (b, e) ↦ elim (Bool-cases b.archived) [
    | inl a ↦ ([], rw (e, or_self, climb, a))
    | inr a ↦ elim (Option-cases b.parent_branch_id) [
      | inl p ↦ ([], rw (e, or_self, climb, a, p) (ap (λ x. x ∷ []) (find-has_id branches id b e)))
      | inr (c, p) ↦ (
        climb n branches c,
        rw (e, or_self, climb, a, p)
            (ap (λ x. x ∷ climb n branches c) (find-has_id branches id b e)),
      )
    ]
  ]
]

module _ {F : Foreign} (m : Memory F) where
  pub branch_ancestors_first :
      (id : Text) → (rest : List Text) × (branch_ancestors m id ≡ id ∷ rest)
  unfolding branch_ancestors
  branch_ancestors_first id = StartsWith-climb 257 m.branches id

  -- A transaction of the branch itself has depth 0.
  pub depth_own :
      (t : TxId) (id : Text)
      → tx_branch m t ≡ some id
      → branch_depth_of_tx m t (branch_ancestors m id) ≡ 0
  unfolding branch_depth_of_tx position
  depth_own t id h =
      let (rest, e) = branch_ancestors_first id in rw e (ground (arith, text_eq_refl id))

  -- And only such a transaction has.
  pub depth_zero :
      (t : TxId) (id : Text)
      → branch_depth_of_tx m t (branch_ancestors m id) ≡ 0
      → tx_branch m t ≡ some id
  unfolding branch_depth_of_tx position
  depth_zero t id h =
      let (rest, e) = branch_ancestors_first id in
      let k = rw e at h in
      elim (Option-cases (tx_branch m t)) [
        | inl n ↦ absurd (ground arith)
        | inr (c, n) ↦ ground (arith, text_eq_iff id c)
      ]

  abbrev IsEligibleFact : List Text → TxId → (Fact F → Bool) → Fact F → Type 0
  IsEligibleFact chain as_of keep f =
      is_eligible m (λ (f : Fact F). f.fact_id) (λ f. f.created_by_tx) chain as_of keep f ≡ true

  pub eligible_own :
      (br : Text) (as_of : TxId) (keep : Fact F → Bool) (f : Fact F)
      → tx_branch m f.created_by_tx ≡ some br
      → f.created_by_tx ≤ as_of
      → keep f ≡ true
      → IsEligibleFact (branch_ancestors m br) as_of keep f
  unfolding is_eligible
  eligible_own br as_of keep f h le k = ground (arith, depth_own f.created_by_tx br h)

  -- The row of a view is at least as near and, at the same depth, as new as a row of its id that
  -- was written on the branch itself; so it was written there too.
  pub own_row_wins :
      (br : Text) (as_of : TxId) (keep : Fact F → Bool) (f g : Fact F)
      → Memᴰ f (newest_fact_rows m (branch_ancestors m br) as_of keep)
      → Memᴰ g m.facts
      → tx_branch m g.created_by_tx ≡ some br
      → g.created_by_tx ≤ as_of
      → keep g ≡ true
      → g.fact_id ≡ f.fact_id
      → (tx_branch m f.created_by_tx ≡ some br) × (g.created_by_tx ≤ f.created_by_tx)
  unfolding newest_fact_rows before
  own_row_wins br as_of keep f g n k on le kept same =
      let w =
        newest_rows-before m (λ (f : Fact F). f.fact_id) (λ f. f.created_by_tx)
          (branch_ancestors m br) m.facts as_of keep n k (eligible_own br as_of keep g on le kept)
          same in
      let z = depth_own g.created_by_tx br on in
      (depth_zero f.created_by_tx br (ground arith), ground arith)

only_row {ℓ} :
    {A : Type ℓ} (key : A → Text) (xs : List A) (a : A)
    → AreDistinct key xs
    → ((x : A) → Memᴰ x xs → x ≡ a)
    → Memᴰ a xs
    → xs ≡ a ∷ []
only_row key [] a d same k = elim k [ ]
only_row key (x ∷ []) a d same k = ap (λ y. y ∷ []) (same x (Memᴰ.head refl))
only_row key (x ∷ y ∷ ys) a d same k = absurd (
    d.0 y (Memᴰ.head refl)
      (ap key (same x (Memᴰ.head refl) ∙ sym (same y (Memᴰ.tail (Memᴰ.head refl))))))

module _ {F : Foreign} (m : Memory F) (br : Text) (f : Fact F) (member : Memᴰ f m.facts)
    (on_branch : tx_branch m f.created_by_tx ≡ some br) (in_range : f.created_by_tx ≤ u64_max)
    (newest : (g : Fact F) → Memᴰ g m.facts → (g ≡ f) ⊎ (g.created_by_tx < f.created_by_tx)) where
  abbrev same_id : Fact F → Bool
  same_id g = text_eq g.fact_id f.fact_id

  head_is_newest :
      (keep : Fact F → Bool) (g : Fact F)
      → keep f ≡ true
      → Memᴰ g (newest_fact_rows m (branch_ancestors m br) u64_max keep)
      → g.fact_id ≡ f.fact_id
      → g ≡ f
  head_is_newest keep g kept n e =
      let (_, le) = own_row_wins m br u64_max keep g f n member on_branch in_range kept (sym e) in
      elim (newest g (unfold newest_fact_rows in (newest_rows_sound m _ _ _ _ _ _ n).0)) [
        | inl same ↦ same
        | inr lt ↦ absurd (omega arith)
      ]

  kept-same_id :
      (g : Fact F)
      → Memᴰ g (newest_fact_rows m (branch_ancestors m br) u64_max same_id)
      → g.fact_id ≡ f.fact_id
  unfolding newest_fact_rows is_eligible
  kept-same_id g n =
      let (_, e) =
        newest_rows_sound m (λ (f : Fact F). f.fact_id) (λ f. f.created_by_tx) _ _ _ same_id n in
      ground (arith, text_eq_iff g.fact_id f.fact_id)

  head_member :
      (keep : Fact F → Bool)
      → keep f ≡ true
      → Memᴰ f (newest_fact_rows m (branch_ancestors m br) u64_max keep)
  unfolding newest_fact_rows
  head_member keep kept =
      let (g, n, e) =
        newest_rows_complete m (λ (f : Fact F). f.fact_id) (λ f. f.created_by_tx)
          (branch_ancestors m br) m.facts u64_max keep member
          (eligible_own m br u64_max keep f on_branch in_range kept) in
      rw (head_is_newest keep g kept n e) at n

  rows_of_id : newest_fact_rows m (branch_ancestors m br) u64_max same_id ≡ f ∷ []
  rows_of_id =
      only_row (λ (g : Fact F). g.fact_id)
        (newest_fact_rows m (branch_ancestors m br) u64_max same_id) f
        (unfold newest_fact_rows in newest_rows-AreDistinct m _ _ _ _ _ _)
        (λ g n. head_is_newest same_id g (text_eq_refl f.fact_id) n (kept-same_id g n))
        (head_member same_id (text_eq_refl f.fact_id))

  -- The newest row of the whole table, if it was written on the branch, is the head of its id there.
  pub fact_head_newest :
      fact_head m br f.fact_id
      ≡ some (f, not (fact_revoked_in_view m f u64_max (branch_ancestors m br)))
  unfolding fact_head last
  fact_head_newest = rw (rows_of_id, fact_head)

  -- If it is not revoked it is a fact of the branch.
  pub facts_on_branch_newest : f.revoked_by_tx ≡ none → Memᴰ f (facts_on_branch m br)
  unfolding facts_on_branch live_facts fact_revoked_in_view
  facts_on_branch_newest e = Memᴰ-retain_of _ (head_member (λ _. true) refl) (rw e)
