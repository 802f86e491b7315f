-- ===== src/Brain/Write/Whole.antt =====
-- src/brain.rs: `reset`, `open_exom`, `replace_state`, `save`.
use ray_exomem.Prelude.{Text, none, some, List, [], ◌∷◌, map, any, last, if◌then◌else◌}
use mathlib.Core.List.{reverse}
use ray_exomem.Prelude.Fallible.{Fallible, ok, err, ◌>>=◌}
use ray_exomem.Brain.{
  Foreign, Memory, Brain, Tables, Fact, Belief, Observation, Tx, TxId, Branch, DirtyTable,
  main_branch, main_row, empty_memory, add_u64,
}
use ray_exomem.Brain.Exec.{M, modify, rebuild_splay, ◌>>◌}
use ray_exomem.Brain.Branches.{has_id}

-- `last().map(|t| t.tx_id + 1).unwrap_or(1)`
unfoldable pub next_after : List Tx → TxId
next_after txs = elim (last txs) [ none ↦ 1 | some t ↦ add_u64 t.tx_id 1 ]

-- Collecting into a map: a later pair hides an earlier one.
unfoldable pub index_of : List Tx → List (TxId × Text)
index_of txs = reverse (map (λ (t : Tx). (t.tx_id, t.branch_id)) txs)

unfoldable pub ensure_main : List Branch → List Branch
ensure_main branches = if any (has_id main_branch) branches then branches else main_row ∷ branches

-- What reading a table gives: no table, as for one that is missing or that `load_table` refuses; a
-- table whose rows cannot be decoded; or its rows.
pub data Loaded (T : Type 0) : Type 0 where
  missing undecodable : Loaded T
  rows : List T → Loaded T

-- The five tables of a directory, after `recover_splay_dirs`.
pub record Splayed (F : Foreign) : Type 0 where
  pub transactions : Loaded Tx
  pub facts : Loaded (Fact F)
  pub observations : Loaded (Observation F)
  pub beliefs : Loaded (Belief F)
  pub branches : Loaded Branch

-- `if let Some(tbl) = load(..) { .. = load_rows(&tbl)?; }`: rows that cannot be decoded end the
-- opening with an error, and a table that is not there leaves what a new memory has.
unfoldable pub rows_or :
    {T : Type 0} → DirtyTable → (fresh : List T) → Loaded T → Fallible DirtyTable (List T)
rows_or table fresh missing = ok fresh
rows_or table fresh undecodable = err table
rows_or table fresh (rows ts) = ok ts

unfoldable pub branch_rows : Loaded Branch → Fallible DirtyTable (List Branch)
branch_rows missing = ok (main_row ∷ [])
branch_rows undecodable = err DirtyTable.branch
branch_rows (rows bs) = ok (ensure_main bs)

module _ {F : Foreign} where
  -- The tables in the order in which they are read; an error names the table.
  unfoldable pub open_exom : Splayed F → Fallible DirtyTable (Memory F)
  open_exom t = do
    txs ← rows_or DirtyTable.tx [] t.transactions
    facts ← rows_or DirtyTable.fact [] t.facts
    observations ← rows_or DirtyTable.observation [] t.observations
    beliefs ← rows_or DirtyTable.belief [] t.beliefs
    branches ← branch_rows t.branches
    ok (record {
      observations = observations;
      facts = facts;
      beliefs = beliefs;
      transactions = txs;
      branches = branches;
      next_tx = next_after txs;
      tx_branch_index = index_of txs;
    })

  unfoldable pub reset : Brain F → Brain F
  reset b = record b { memory = empty_memory }

  unfoldable pub save : M F Unit
  save = do
    rebuild_splay DirtyTable.tx
    rebuild_splay DirtyTable.fact
    rebuild_splay DirtyTable.observation
    rebuild_splay DirtyTable.belief
    rebuild_splay DirtyTable.branch

  unfoldable pub replaced : Tables F → Memory F
  replaced t = record {
    observations = t.observations;
    facts = t.facts;
    beliefs = t.beliefs;
    transactions = t.transactions;
    branches = ensure_main t.branches;
    next_tx = next_after t.transactions;
    tx_branch_index = index_of t.transactions;
  }

  unfoldable pub replace_state : Tables F → M F Unit
  unfolding save
  replace_state t = do modify (λ _. replaced t); save
