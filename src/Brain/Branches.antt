-- ===== src/Brain/Branches.antt =====
-- src/brain.rs: branch rows, the chain of ancestors, and the branch of a transaction.
use ray_exomem.Prelude.{
  ℕ, zero, suc, Text, text_eq, text_mem, Bool, true, false, not, ◌&&◌, Option, none, some, List, [],
  ◌∷◌, any, find, if◌then◌else◌, ◌==◌, unwrap_or,
}
use ray_exomem.Brain.{Foreign, Memory, Branch, TxId, u64_max}

abbrev pub has_id : Text → Branch → Bool
has_id id b = text_eq b.branch_id id

-- A loop of at most 257 rounds: `guard` breaks it when it passes 256.
unfoldable pub climb : ℕ → List Branch → Text → List Text
climb zero branches id = []
climb (suc g) branches id = elim (find (has_id id) branches) [
  | none ↦ []
  | some b ↦ elim b.archived [
    | true ↦ []
    | false ↦ elim b.parent_branch_id [
      | none ↦ b.branch_id ∷ []
      | some parent ↦ b.branch_id ∷ climb g branches parent
    ]
  ]
]

abbrev pub or_self : Text → List Text → List Text
or_self id [] = id ∷ []
or_self id (c ∷ chain) = c ∷ chain

unfoldable pub position : Text → List Text → Option ℕ
position t [] = none
position t (x ∷ xs) =
    if text_eq x t then some 0 else elim (position t xs) [ none ↦ none | some n ↦ some (suc n) ]

-- `HashMap::get` on the index; an insertion puts its pair in front.
unfoldable pub lookup_tx : TxId → List (TxId × Text) → Option Text
lookup_tx t [] = none
lookup_tx t ((u, branch) ∷ index) = if u == t then some branch else lookup_tx t index

module _ {F : Foreign} (m : Memory F) where
  unfoldable pub branch_exists : Text → Bool
  branch_exists branch_id = any (λ b. has_id branch_id b && not b.archived) m.branches

  unfoldable pub branch_ancestors : Text → List Text
  branch_ancestors branch_id = or_self branch_id (climb 257 m.branches branch_id)

  unfoldable pub tx_branch : TxId → Option Text
  tx_branch tx_id = lookup_tx tx_id m.tx_branch_index

  unfoldable pub tx_on_branches : TxId → List Text → Bool
  tx_on_branches tx_id branch_set = elim (tx_branch tx_id) [
    | none ↦ false
    | some b ↦ text_mem b branch_set
  ]

  -- 0 is the branch that is viewed, `usize::MAX` a branch outside the chain.
  unfoldable pub branch_depth_of_tx : TxId → List Text → ℕ
  branch_depth_of_tx tx_id ancestors = elim (tx_branch tx_id) [
    | none ↦ u64_max
    | some b ↦ unwrap_or (position b ancestors) u64_max
  ]
