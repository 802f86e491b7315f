-- ===== src/Brain/Invariant/Rows.antt =====
-- Stamping rows in place and pushing rows behind them keeps the invariant.
use ray_exomem.Prelude.{
  ◌≡◌, refl, sym, ap, ◌∙◌, ◌<◌, Text, text_eq_iff, Bool, true, false, none, some, List, [], ◌∷◌,
  ◌++◌, Memᴰ, Memᴰ-append, Memᴰ-append_left, Memᴰ-append_right, Memᴰ-update_all, Memᴰ-update_all_of,
  change, update_all, arith, Bool-cases, inl, inr, unwrap_or, Memᴰ-single, update_all-none,
}
use mathlib.Core.List.{append-nil}
use ray_exomem.Brain.{Foreign, Memory, Fact, FactArgs, TxId}
use ray_exomem.Brain.Branches.{tx_branch}
use ray_exomem.Brain.Write.Facts.{
  written_on, is_open_row, close_row, new_fact, assert_rows, tombstone, is_head_row, revoke_row,
  retract_rows, is_exact_row, revoke_exact, retract_exact_rows, close_time,
}
use ray_exomem.Brain.Invariant.{IsWf, HasNewer}

abbrev pub with_facts : {F : Foreign} → Memory F → List (Fact F) → Memory F
with_facts m facts = record m { facts = facts }

module _ {F : Foreign} (m : Memory F) (wf : IsWf m) (p : Fact F → Bool) (g : Fact F → Fact F)
    (extra : List (Fact F)) (keeps_id : (f : Fact F) → (g f).fact_id ≡ f.fact_id)
    (keeps_tx : (f : Fact F) → (g f).created_by_tx ≡ f.created_by_tx) where
  abbrev rows : List (Fact F)
  rows = update_all p g m.facts ++ extra

  change_id : (f : Fact F) → (change p g f).fact_id ≡ f.fact_id
  change_id f = elim (Bool-cases (p f)) [ inl t ↦ rw t (keeps_id f) | inr u ↦ rw u ]

  change_tx : (f : Fact F) → (change p g f).created_by_tx ≡ f.created_by_tx
  change_tx f = elim (Bool-cases (p f)) [ inl t ↦ rw t (keeps_tx f) | inr u ↦ rw u ]

  -- A newer row of the table is, stamped, a newer row of the new table.
  HasNewer-stamped :
      (f h : Fact F)
      → HasNewer m m.facts f
      → h.fact_id ≡ f.fact_id
      → h.created_by_tx ≡ f.created_by_tx
      → HasNewer m rows h
  HasNewer-stamped f h n e d = record {
    row = change p g n.row;
    member = Memᴰ-append_left extra (Memᴰ-update_all_of p g n.member);
    same_id = change_id n.row ∙ n.same_id ∙ sym e;
    newer = rw (change_tx n.row, d) n.newer;
    same_branch = ap (tx_branch m) (change_tx n.row) ∙ n.same_branch ∙ ap (tx_branch m) (sym d);
  }

  module _
      (revoked_ok : (f : Fact F) (r : TxId)
        → Memᴰ f m.facts
        → p f ≡ true
        → (g f).revoked_by_tx ≡ some r
        → tx_branch m r ≡ tx_branch m f.created_by_tx)
      (superseded_ok : (f : Fact F) (s : TxId)
        → Memᴰ f m.facts
        → p f ≡ true
        → (g f).superseded_by_tx ≡ some s
        → HasNewer m rows (g f))
      (extra_indexed : (f : Fact F)
        → Memᴰ f extra
        → (br : Text) × (tx_branch m f.created_by_tx ≡ some br))
      (extra_revoked : (f : Fact F) (r : TxId)
        → Memᴰ f extra
        → f.revoked_by_tx ≡ some r
        → tx_branch m r ≡ tx_branch m f.created_by_tx)
      (extra_open : (f : Fact F) → Memᴰ f extra → f.superseded_by_tx ≡ none) where
    changed_revoked :
        (f : Fact F) (r : TxId)
        → Memᴰ f m.facts
        → (change p g f).revoked_by_tx ≡ some r
        → tx_branch m r ≡ tx_branch m f.created_by_tx
    changed_revoked f r k e = elim (Bool-cases (p f)) [
      | inl t ↦ revoked_ok f r k t (rw t at e)
      | inr u ↦ wf.revoked_here f k r (rw u at e)
    ]

    changed_superseded :
        (f : Fact F) (s : TxId)
        → Memᴰ f m.facts
        → (change p g f).superseded_by_tx ≡ some s
        → HasNewer m rows (change p g f)
    changed_superseded f s k e = elim (Bool-cases (p f)) [
      | inl t ↦ rw t (superseded_ok f s k t (rw t at e))
      | inr u ↦ rw u (HasNewer-stamped f f (wf.superseded_newer f k s (rw u at e)) refl refl)
    ]

    carry : (f : Fact F) → HasNewer m rows f → HasNewer (with_facts m rows) rows f
    unfolding tx_branch
    carry f n = record {
      row = n.row;
      member = n.member;
      same_id = n.same_id;
      newer = n.newer;
      same_branch = n.same_branch;
    }

    row_indexed : (f : Fact F) → Memᴰ f rows → (br : Text) × (tx_branch m f.created_by_tx ≡ some br)
    row_indexed f k = elim (Memᴰ-append (update_all p g m.facts) k) [
      | inl l ↦
          let (h, n, e) = Memᴰ-update_all p g m.facts l in
          let (br, i) = wf.indexed h n in
          (
            br,
            ap (λ (x : Fact F). tx_branch m x.created_by_tx) e ∙ ap (tx_branch m) (change_tx h) ∙ i,
          )
      | inr r ↦ extra_indexed f r
    ]

    row_revoked :
        (f : Fact F)
        → Memᴰ f rows
        → (r : TxId) → f.revoked_by_tx ≡ some r
        → tx_branch m r ≡ tx_branch m f.created_by_tx
    row_revoked f k r e = elim (Memᴰ-append (update_all p g m.facts) k) [
      | inl l ↦
          let (h, n, i) = Memᴰ-update_all p g m.facts l in
          changed_revoked h r n (ap (λ (x : Fact F). x.revoked_by_tx) (sym i) ∙ e)
          ∙ sym (ap (tx_branch m) (change_tx h))
          ∙ ap (λ (x : Fact F). tx_branch m x.created_by_tx) (sym i)
      | inr x ↦ extra_revoked f r x e
    ]

    row_superseded :
        (f : Fact F) → Memᴰ f rows → (s : TxId) → f.superseded_by_tx ≡ some s → HasNewer m rows f
    row_superseded f k s e = elim (Memᴰ-append (update_all p g m.facts) k) [
      | inl l ↦
          let (h, n, i) = Memᴰ-update_all p g m.facts l in
          rw i (changed_superseded h s n (ap (λ (x : Fact F). x.superseded_by_tx) (sym i) ∙ e))
      | inr x ↦ absurd (cc (extra_open f x))
    ]

    pub stamp-IsWf : IsWf (with_facts m rows)
    unfolding tx_branch
    stamp-IsWf = record {
      in_range = wf.in_range;
      index_below = wf.index_below;
      indexed = row_indexed;
      revoked_here = row_revoked;
      superseded_newer = λ f k s e. carry f (row_superseded f k s e);
    }

-- The three operations on facts, after transaction `t` was issued on the branch.
module _ {F : Foreign} (m : Memory F) (wf : IsWf m) (br : Text) (t : TxId) (time : Text)
    (on_branch : tx_branch m t ≡ some br)
    (fresh : (f : Fact F) → Memᴰ f m.facts → f.created_by_tx < t) where
  pub written : (f : Fact F) → written_on m br f ≡ true → tx_branch m f.created_by_tx ≡ some br
  written f h = ground (arith, text_eq_iff (unwrap_or (tx_branch m f.created_by_tx) []) br)

  pub open_row :
      (id : Text) (f : Fact F)
      → is_open_row m br id f ≡ true
      → (f.fact_id ≡ id) × (tx_branch m f.created_by_tx ≡ some br)
  unfolding is_open_row
  open_row id f h = ground (arith, text_eq_iff f.fact_id id, written f)

  pub assert_rows-IsWf : (a : FactArgs F) → IsWf (assert_rows br a t time m)
  unfolding assert_rows
  assert_rows-IsWf a =
      stamp-IsWf m wf (is_open_row m br a.fact_id) (close_row t close_at) (new_fact a t time ∷ [])
        (unfold close_row in λ f. refl) (unfold close_row in λ f. refl)
        (unfold close_row in λ f r k h e. wf.revoked_here f k r e)
        (λ f s k h e. record {
          row = new_fact a t time;
          member =
              Memᴰ-append_right
                (update_all (is_open_row m br a.fact_id) (close_row t close_at) m.facts)
                (Memᴰ.head refl);
          same_id = unfold new_fact close_row in sym (open_row a.fact_id f h).0;
          newer = unfold new_fact close_row in fresh f k;
          same_branch = unfold new_fact close_row in on_branch ∙ sym (open_row a.fact_id f h).1;
        })
        (λ f k. (br, rw (Memᴰ-single k) (unfold new_fact in on_branch)))
        (λ f r k e. absurd (unfold new_fact in cc (e, Memᴰ-single k)))
        (λ f k. rw (Memᴰ-single k) (unfold new_fact in refl))
    where
      close_at : Text
      close_at = close_time (unwrap_or a.valid_from time) time

  pub head_row :
      (id : Text) (f : Fact F)
      → is_head_row m br id f ≡ true
      → tx_branch m f.created_by_tx ≡ some br
  unfolding is_head_row
  head_row id f h = ground (arith, written f)

  exact_row :
      (id predicate : Text) (v : F.Value) (f : Fact F)
      → is_exact_row m br id predicate v f ≡ true
      → tx_branch m f.created_by_tx ≡ some br
  unfolding is_exact_row
  exact_row id predicate v f h = ground (arith, written f)

  -- Rows that are stamped as revoked by `t`, and no row pushed.
  revoking-IsWf :
      (p : Fact F → Bool) (g : Fact F → Fact F)
      → ((f : Fact F) → (g f).fact_id ≡ f.fact_id)
      → ((f : Fact F) → (g f).created_by_tx ≡ f.created_by_tx)
      → ((f : Fact F) → (g f).superseded_by_tx ≡ f.superseded_by_tx)
      → ((f : Fact F) → (g f).revoked_by_tx ≡ some t)
      → ((f : Fact F) → p f ≡ true → tx_branch m f.created_by_tx ≡ some br)
      → IsWf (with_facts m (update_all p g m.facts))
  revoking-IsWf p g keeps_id keeps_tx keeps_open stamps here =
      rw (sym (append-nil (update_all p g m.facts))) (
        stamp-IsWf m wf p g [] keeps_id keeps_tx
          (λ f r k h e. cc (stamps f, e, on_branch, here f h))
          (λ f s k h e.
            HasNewer-stamped m wf p g [] keeps_id keeps_tx f (g f)
              (wf.superseded_newer f k s (sym (keeps_open f) ∙ e)) (keeps_id f) (keeps_tx f))
          (λ f k. elim k [ ]) (λ f r k e. elim k [ ]) (λ f k. elim k [ ]))

  tombstone-IsWf : (head : Fact F) → IsWf (with_facts m (m.facts ++ tombstone head t time ∷ []))
  tombstone-IsWf head = rw (sym (update_all-none (λ f. f) m.facts)) (
      stamp-IsWf m wf (λ _. false) (λ f. f) (tombstone head t time ∷ []) (λ f. refl) (λ f. refl)
        (λ f r k h e. wf.revoked_here f k r e) (λ f s k h e. absurd (cc h))
        (λ f k. (br, rw (Memᴰ-single k) (unfold tombstone in on_branch)))
        (λ f r k e. unfold tombstone in cc (e, Memᴰ-single k))
        (λ f k. rw (Memᴰ-single k) (unfold tombstone in refl)))

  pub retract_rows-IsWf : (id : Text) (head : Fact F) → IsWf (retract_rows br id head t time m)
  unfolding retract_rows
  retract_rows-IsWf id head = elim (Bool-cases (written_on m br head)) [
    | inl h ↦ rw h (
        revoking-IsWf (is_head_row m br id) (revoke_row t time) (unfold revoke_row in λ f. refl)
          (unfold revoke_row in λ f. refl) (unfold revoke_row in λ f. refl)
          (unfold revoke_row in λ f. refl) (head_row id))
    | inr h ↦ rw h (tombstone-IsWf head)
  ]

  pub retract_exact_rows-IsWf :
      (id predicate : Text) (v : F.Value) (head : Fact F)
      → IsWf (retract_exact_rows br id predicate v head t time m)
  unfolding retract_exact_rows
  retract_exact_rows-IsWf id predicate v head = elim (Bool-cases (written_on m br head)) [
    | inl h ↦ rw h (
        revoking-IsWf (is_exact_row m br id predicate v) (revoke_exact t time)
          (unfold revoke_exact in λ f. refl) (unfold revoke_exact in λ f. refl)
          (unfold revoke_exact in λ f. refl) (unfold revoke_exact in λ f. refl)
          (exact_row id predicate v))
    | inr h ↦ rw h (tombstone-IsWf head)
  ]
