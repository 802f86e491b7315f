-- ===== src/Brain/Invariant.antt =====
-- What holds of the memory of a brain between operations.
pub mod Rows
use ray_exomem.Prelude.{
  ◌≡◌, refl, sym, ap, ◌∙◌, ◌+◌, ◌≤◌, ◌<◌, Text, Option, some, Memᴰ, arith, ◌==◌, if◌then◌else◌,
  ==_iff, Bool-cases, inl, inr, List, true, false, zero,
}
use ray_exomem.Brain.{Foreign, Memory, Fact, Tx, TxId, u64_max, add_u64}
use ray_exomem.Brain.Branches.{tx_branch, lookup_tx}
use ray_exomem.Brain.Write.{with_tx}

module _ {F : Foreign} where
  -- A newer row of the same fact on the same branch.
  pub record HasNewer (m : Memory F) (facts : List (Fact F)) (f : Fact F) : Type 0 where
    pub row : Fact F
    pub member : Memᴰ row facts
    pub same_id : row.fact_id ≡ f.fact_id
    pub newer : f.created_by_tx < row.created_by_tx
    pub same_branch : tx_branch m row.created_by_tx ≡ tx_branch m f.created_by_tx

  pub record IsWf (m : Memory F) : Type 0 where
    pub in_range : m.next_tx ≤ u64_max
    pub index_below : (t : TxId) (br : Text) → tx_branch m t ≡ some br → t < m.next_tx
    pub indexed :
        (f : Fact F) → Memᴰ f m.facts → (br : Text) × (tx_branch m f.created_by_tx ≡ some br)
    pub revoked_here :
        (f : Fact F)
        → Memᴰ f m.facts
        → (r : TxId) → f.revoked_by_tx ≡ some r
        → tx_branch m r ≡ tx_branch m f.created_by_tx
    pub superseded_newer :
        (f : Fact F)
        → Memᴰ f m.facts
        → (s : TxId) → f.superseded_by_tx ≡ some s
        → HasNewer m m.facts f

  module _ (m : Memory F) (wf : IsWf m) where
    pub created-lt : (f : Fact F) → Memᴰ f m.facts → f.created_by_tx < m.next_tx
    created-lt f k = let (br, e) = wf.indexed f k in wf.index_below _ br e

    pub revoked-lt :
        (f : Fact F) → Memᴰ f m.facts → (r : TxId) → f.revoked_by_tx ≡ some r → r < m.next_tx
    revoked-lt f k r e =
        let (br, i) = wf.indexed f k in wf.index_below r br (wf.revoked_here f k r e ∙ i)

  pub tx_branch-with_tx_self :
      (br : Text) (t : Tx) (m : Memory F) → tx_branch (with_tx br t m) m.next_tx ≡ some br
  unfolding tx_branch lookup_tx with_tx
  tx_branch-with_tx_self br t m = ground arith

  pub tx_branch-with_tx :
      (br : Text) (t : Tx) (m : Memory F) (u : TxId)
      → u < m.next_tx
      → tx_branch (with_tx br t m) u ≡ tx_branch m u
  unfolding tx_branch lookup_tx with_tx
  tx_branch-with_tx br t m u h = ground arith

  with_tx-below :
      (br : Text) (t : Tx) (m : Memory F) (u : TxId) (c : Text)
      → IsWf m
      → m.next_tx < u64_max
      → tx_branch (with_tx br t m) u ≡ some c
      → u < (with_tx br t m).next_tx
  unfolding tx_branch lookup_tx with_tx
  with_tx-below br t m u c wf room e = ground (arith, wf.index_below u c)

  -- A transaction that is issued keeps the invariant.
  pub with_tx-IsWf :
      (br : Text) (t : Tx) (m : Memory F) → IsWf m → m.next_tx < u64_max → IsWf (with_tx br t m)
  unfolding with_tx
  with_tx-IsWf br t m wf room = record {
    in_range = omega arith;
    index_below = λ u c e. with_tx-below br t m u c wf room e;
    indexed = λ f k.
        let (c, e) = wf.indexed f k in (c, tx_branch-with_tx br t m _ (created-lt m wf f k) ∙ e);
    revoked_here = λ f k r e.
        tx_branch-with_tx br t m r (revoked-lt m wf f k r e)
        ∙ wf.revoked_here f k r e
        ∙ sym (tx_branch-with_tx br t m _ (created-lt m wf f k));
    superseded_newer = λ f k s e.
        let n = wf.superseded_newer f k s e in
        record {
          row = n.row;
          member = n.member;
          same_id = n.same_id;
          newer = n.newer;
          same_branch =
              tx_branch-with_tx br t m _ (created-lt m wf n.row n.member)
              ∙ n.same_branch
              ∙ sym (tx_branch-with_tx br t m _ (created-lt m wf f k));
        };
  }
