-- ===== src/Brain/Write.antt =====
-- src/brain.rs: the operations that change a brain. Each pushes its transaction by `alloc_tx`, then
-- its rows, and saves the tables that it touched. The pure changes have names of their own.
pub mod Facts
pub mod Beliefs
pub mod BranchOps
pub mod Whole
pub mod Alloc
use ray_exomem.Prelude.{
  ◌+◌, Text, codes, text_eq, text_mem, Bool, not, ◌&&◌, ◌||◌, Option, none, some, List, [], ◌∷◌,
  ◌++◌, any, last, is_none,
}
use ray_exomem.Brain.{
  Foreign, Memory, Tx, TxAction, TxId, MutationContext, DirtyTable, EntityId, Error, add_u64,
}
use ray_exomem.Brain.Exec.{M, ok, pure, guard, gets, rebuild_splay, ◌>>=◌, ◌>>◌}
use ray_exomem.Brain.Branches.{branch_exists}

abbrev pub session_closed_fact_id : Text
session_closed_fact_id = codes "session/closed_at"

abbrev last_id : List Tx → Option TxId
last_id txs = elim (last txs) [ none ↦ none | some t ↦ some t.tx_id ]

module _ {F : Foreign} where
  unfoldable pub is_session_closed : Memory F → Bool
  is_session_closed m =
      any
        (λ f.
          text_eq f.fact_id session_closed_fact_id
          && (is_none f.revoked_by_tx && is_none f.superseded_by_tx))
        m.facts

  unfoldable pub ensure_branch : Text → M F Unit
  ensure_branch branch_id = do
    there ← gets (λ m. branch_exists m branch_id)
    guard there (Error.unknown_branch branch_id)

  unfoldable pub new_tx :
      Text → TxAction → List EntityId → Text → MutationContext → Text → Memory F → Tx
  new_tx branch_id action refs note ctx tx_time m = record {
    tx_id = m.next_tx;
    tx_time = tx_time;
    user_email = ctx.user_email;
    agent = ctx.agent;
    model = ctx.model;
    action = action;
    refs = refs;
    note = note;
    parent_tx_id = last_id m.transactions;
    branch_id = branch_id;
    session = ctx.session;
  }

  -- The transaction is pushed, indexed, and `next_tx` goes up.
  unfoldable pub with_tx : Text → Tx → Memory F → Memory F
  with_tx branch_id t m = record m {
    transactions = m.transactions ++ t ∷ [];
    next_tx = add_u64 m.next_tx 1;
    tx_branch_index = (m.next_tx, branch_id) ∷ m.tx_branch_index;
  }

  unfoldable pub push_tx :
      Text → TxAction → List EntityId → Text → MutationContext → M F (TxId × Text)
  push_tx branch_id action refs note ctx b =
      let tx_time = F.now_iso b.ticks in
      (
        ok (b.next_tx, tx_time),
        record b {
          memory =
              with_tx branch_id (new_tx branch_id action refs note ctx tx_time b.memory) b.memory;
          ticks = b.ticks + 1;
        },
      )

  -- Writes to a closed session are refused, but for those that name the marker.
  unfoldable pub may_write : List EntityId → Memory F → Bool
  may_write refs m = text_mem session_closed_fact_id refs || not (is_session_closed m)

  unfoldable pub alloc_tx :
      Text → TxAction → List EntityId → Text → MutationContext → M F (TxId × Text)
  alloc_tx branch_id action refs note ctx = do
    ensure_branch branch_id
    open_session ← gets (may_write refs)
    guard open_session Error.session_closed
    issued ← push_tx branch_id action refs note ctx
    rebuild_splay DirtyTable.tx
    pure issued
