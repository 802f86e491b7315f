-- ===== src/Brain/Write/Alloc.antt =====
-- What `alloc_tx` leaves behind when it issues a transaction, and when it refuses.
use mathlib.Core.Path.{subst}
use ray_exomem.Prelude.{◌≡◌, sym, ap, ◌∙◌, Text, true, false, List, Bool-cases, inl, inr}
use ray_exomem.Brain.{
  Foreign, Memory, Brain, TxAction, TxId, MutationContext, EntityId, Error, DirtyTable,
}
use ray_exomem.Brain.Exec.{
  M, ok, err, pure, modify, rebuild_splay, save_then_pure, >>=-eq-ok, keeps_bind,
  keeps_save_then_pure, ◌>>=◌, ◌>>◌,
}
use ray_exomem.Brain.Branches.{branch_exists}
use ray_exomem.Brain.Write.{alloc_tx, ensure_branch, push_tx, may_write, new_tx, with_tx}

module _ {F : Foreign} (branch_id : Text) (action : TxAction) (refs : List EntityId) (note : Text)
    (ctx : MutationContext) where
  -- The memory after transaction `m.next_tx` at a time.
  abbrev pub issued_memory : Text → Memory F → Memory F
  issued_memory time m = with_tx branch_id (new_tx branch_id action refs note ctx time m) m

  pub record Issued (b b' : Brain F) (i : TxId × Text) : Type 0 where
    pub there : branch_exists b.memory branch_id ≡ true
    pub allowed : may_write refs b.memory ≡ true
    pub id : i.0 ≡ b.memory.next_tx
    pub after : b'.memory ≡ issued_memory i.1 b.memory

  pub alloc_tx-Issued :
      (b b' : Brain F) (i : TxId × Text)
      → alloc_tx branch_id action refs note ctx b ≡ (ok i, b')
      → Issued b b' i
  unfolding alloc_tx ensure_branch push_tx
  alloc_tx-Issued b b' i h = elim (Bool-cases (branch_exists b.memory branch_id)) [
    | inl there ↦ elim (Bool-cases (may_write refs b.memory)) [
      | inl allowed ↦
          let (e, f) =
            save_then_pure DirtyTable.tx _ (push_tx branch_id action refs note ctx b).1 b'
              (rw (there, allowed) at h) in
          record {
            there = there;
            allowed = allowed;
            id = ap (λ p. p.0) e;
            after = rw (ap (λ p. p.1) e) f;
          }
      | inr f ↦ absurd (cc (ap (λ q. q.0) (rw (there, f) at h)))
    ]
    | inr f ↦ absurd (cc (ap (λ q. q.0) (rw f at h)))
  ]

  -- A transaction that is not allowed is refused, and nothing changes.
  pub alloc_tx_refused :
      (b : Brain F)
      → may_write refs b.memory ≡ false
      → (e : Error) × (alloc_tx branch_id action refs note ctx b ≡ (err e, b))
  unfolding alloc_tx ensure_branch
  alloc_tx_refused b h = elim (Bool-cases (branch_exists b.memory branch_id)) [
    | inl t ↦ (Error.session_closed, rw (t, h))
    | inr f ↦ (Error.unknown_branch branch_id, rw f)
  ]

  -- The shape that all operations share: a transaction, a change that it names, a save.
  pub record Committed (change : TxId → Text → Memory F → Memory F) (b b' : Brain F) (t : TxId)
      : Type 0 where
    pub time : Text
    pub there : branch_exists b.memory branch_id ≡ true
    pub allowed : may_write refs b.memory ≡ true
    pub id : t ≡ b.memory.next_tx
    pub after : b'.memory ≡ change t time (issued_memory time b.memory)

  abbrev pub commit : (TxId → Text → Memory F → Memory F) → DirtyTable → M F TxId
  commit change table = do
    issued ← alloc_tx branch_id action refs note ctx
    modify (change issued.0 issued.1)
    rebuild_splay table
    pure issued.0

  pub commit-Committed :
      (change : TxId → Text → Memory F → Memory F) (table : DirtyTable) (b b' : Brain F) (t : TxId)
      → commit change table b ≡ (ok t, b')
      → Committed change b b' t
  commit-Committed change table b b' t h =
      let (i, a, e) = >>=-eq-ok (alloc_tx branch_id action refs note ctx) _ b h in
      let s = alloc_tx-Issued b _ i a in
      let (u, f) = save_then_pure table i.0 _ b' e in
      record {
        time = i.1;
        there = s.there;
        allowed = s.allowed;
        id = u ∙ s.id;
        after =
            f
            ∙ ap (change i.0 i.1) s.after
            ∙ ap (λ x. change x i.1 (issued_memory i.1 b.memory)) (sym u);
      }

  -- Where the transaction is not allowed the whole operation stops, with nothing changed.
  pub commit_refused :
      (change : TxId → Text → Memory F → Memory F) (table : DirtyTable) (b : Brain F)
      → may_write refs b.memory ≡ false
      → (e : Error) × (commit change table b ≡ (err e, b))
  commit_refused change table b h = let (e, i) = alloc_tx_refused b h in (e, rw i)

  alloc_tx-keeps :
      (P : Memory F → Type 0) (b : Brain F)
      → P b.memory
      → ((time : Text) → P (issued_memory time b.memory))
      → P (alloc_tx branch_id action refs note ctx b).1.memory
  unfolding alloc_tx ensure_branch push_tx
  alloc_tx-keeps P b before issued = elim (Bool-cases (branch_exists b.memory branch_id)) [
    | inl there ↦ elim (Bool-cases (may_write refs b.memory)) [
      | inl allowed ↦
          rw (there, allowed)
            (keeps_save_then_pure P DirtyTable.tx (b.memory.next_tx, F.now_iso b.ticks)
              (push_tx branch_id action refs note ctx b).1 (issued (F.now_iso b.ticks)))
      | inr f ↦ rw (there, f) before
    ]
    | inr f ↦ rw f before
  ]

  -- Whatever the outcome, the memory is the one before, the one with the transaction, or the one
  -- with the change.
  pub commit-keeps :
      (P : Memory F → Type 0) (change : TxId → Text → Memory F → Memory F) (table : DirtyTable)
      (b : Brain F)
      → P b.memory
      → ((time : Text) → P (issued_memory time b.memory))
      → ((time : Text) → P (change b.memory.next_tx time (issued_memory time b.memory)))
      → P (commit change table b).1.memory
  commit-keeps P change table b before issued changed =
      let alloc = alloc_tx branch_id action refs note ctx in
      keeps_bind P alloc _ b (alloc_tx-keeps P b before issued) (λ i e.
        let s = alloc_tx-Issued b (alloc b).1 i (λ j. (e j, (alloc b).1)) in
        keeps_save_then_pure P table i.0 _ (
          subst P
            (sym (
              ap (change i.0 i.1) s.after
              ∙ ap (λ x. change x i.1 (issued_memory i.1 b.memory)) s.id))
            (changed i.1)))
