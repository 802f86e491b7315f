-- ===== src/Brain/Write/Facts/Reads.antt =====
-- What a branch reads after an assertion and after a retraction on it.
use ray_exomem.Prelude.{
  ◌≡◌, ◌≢◌, refl, sym, ◌∙◌, ap, ◌≤◌, ◌<◌, ◌⊎◌, inl, inr, Text, text_eq_refl, true, false, none,
  some, [], ◌∷◌, ◌++◌, Memᴰ, arith, Bool-cases, Option-cases, Memᴰ-retain, Memᴰ-append,
  Memᴰ-append_right, Memᴰ-update_all, Memᴰ-update_all_of, Memᴰ-single, change, update_all,
}
use ray_exomem.Brain.{Foreign, Memory, Fact, FactArgs, TxId, u64_max}
use ray_exomem.Brain.Branches.{tx_branch}
use ray_exomem.Brain.Views.{
  fact_head, facts_on_branch, live_facts, newest_fact_rows, fact_revoked_in_view,
}
use ray_exomem.Brain.Views.Order.{newest_rows_sound}
use ray_exomem.Brain.Views.Heads.{depth_own, own_row_wins, fact_head_newest, facts_on_branch_newest}
use ray_exomem.Brain.Invariant.{IsWf, created-lt, revoked-lt}
use ray_exomem.Brain.Invariant.Rows.{written}
use ray_exomem.Brain.Write.Facts.{
  written_on, new_fact, assert_rows, close_row, retract_rows, tombstone, is_head_row, revoke_row,
}

-- After transaction `t` was issued on the branch, and before the rows change.
module _ {F : Foreign} (m : Memory F) (wf : IsWf m) (br : Text) (t : TxId) (time : Text)
    (in_range : t ≤ u64_max) (on_branch : tx_branch m t ≡ some br)
    (fresh : (f : Fact F) → Memᴰ f m.facts → f.created_by_tx < t) where
  module _ (a : FactArgs F) where
    assert_rows_newest :
        (g : Fact F)
        → Memᴰ g (assert_rows br a t time m).facts
        → (g ≡ new_fact a t time) ⊎ (g.created_by_tx < (new_fact a t time).created_by_tx)
    unfolding assert_rows new_fact
    assert_rows_newest g k = elim (Memᴰ-append (update_all _ _ m.facts) k) [
      | inl l ↦
          let (h, n, e) = Memᴰ-update_all _ _ m.facts l in
          inr
            (unfold close_row in ground (arith, fresh h n, ap (λ (x : Fact F). x.created_by_tx) e))
      | inr r ↦ inl (Memᴰ-single r)
    ]

    assert_rows_member : Memᴰ (new_fact a t time) (assert_rows br a t time m).facts
    unfolding assert_rows
    assert_rows_member = Memᴰ-append_right (update_all _ _ m.facts) (Memᴰ.head refl)

    assert_rows_branch :
        tx_branch (assert_rows br a t time m) (new_fact a t time).created_by_tx ≡ some br
    unfolding assert_rows new_fact tx_branch
    assert_rows_branch = on_branch

    pub fact_head-assert_rows :
        fact_head (assert_rows br a t time m) br a.fact_id ≡ some (new_fact a t time, true)
    unfolding new_fact fact_revoked_in_view
    fact_head-assert_rows =
        fact_head_newest (assert_rows br a t time m) br (new_fact a t time) assert_rows_member
          assert_rows_branch in_range assert_rows_newest

    pub facts_on_branch-assert_rows :
        Memᴰ (new_fact a t time) (facts_on_branch (assert_rows br a t time m) br)
    unfolding new_fact
    facts_on_branch-assert_rows =
        facts_on_branch_newest (assert_rows br a t time m) br (new_fact a t time) assert_rows_member
          assert_rows_branch in_range assert_rows_newest refl

  module _ (id : Text) (head : Fact F) (is_head : head.fact_id ≡ id)
      (member : Memᴰ head m.facts) where
    abbrev retracted : Memory F
    retracted = retract_rows br id head t time m

    -- A fact that is seen after the retraction was written on the branch, at or after any row
    -- that is there.
    seen_own :
        (f g : Fact F)
        → Memᴰ f (facts_on_branch retracted br)
        → f.fact_id ≡ id
        → Memᴰ g retracted.facts
        → g.fact_id ≡ id
        → tx_branch retracted g.created_by_tx ≡ some br
        → g.created_by_tx ≤ u64_max
        → (tx_branch retracted f.created_by_tx ≡ some br) × (g.created_by_tx ≤ f.created_by_tx)
    unfolding facts_on_branch live_facts
    seen_own f g k e n d on le =
        own_row_wins retracted br u64_max (λ _. true) f g (Memᴰ-retain _ _ k).0 n on le refl
          (d ∙ sym e)

    seen_unrevoked :
        (f : Fact F) (r : TxId)
        → Memᴰ f (facts_on_branch retracted br)
        → f.revoked_by_tx ≡ some r
        → tx_branch retracted r ≡ some br
        → r ≤ u64_max
        → ⊥
    unfolding facts_on_branch live_facts fact_revoked_in_view
    seen_unrevoked f r k e on le =
        let (_, u) = Memᴰ-retain _ _ k in let d = depth_own retracted r br on in ground arith

    tx_branch-retracted : (u : TxId) → tx_branch retracted u ≡ tx_branch m u
    unfolding retract_rows tx_branch
    tx_branch-retracted u = elim (Bool-cases (written_on m br head)) [ inl h ↦ rw h | inr h ↦ rw h ]

    seen_member : (f : Fact F) → Memᴰ f (facts_on_branch retracted br) → Memᴰ f retracted.facts
    unfolding facts_on_branch live_facts newest_fact_rows
    seen_member f k = (newest_rows_sound retracted _ _ _ _ _ _ (Memᴰ-retain _ _ k).0).0

    tombstone_rows :
        written_on m br head ≡ false → retracted.facts ≡ m.facts ++ tombstone head t time ∷ []
    unfolding retract_rows
    tombstone_rows h = rw h

    stamped_rows :
        written_on m br head ≡ true
        → retracted.facts ≡ update_all (is_head_row m br id) (revoke_row t time) m.facts
    unfolding retract_rows
    stamped_rows h = rw h

    -- The head stood on an ancestor: the tombstone is the newest row, and it is revoked.
    hidden_by_tombstone :
        written_on m br head ≡ false
        → (f : Fact F) → Memᴰ f (facts_on_branch retracted br)
        → f.fact_id ≡ id
        → ⊥
    unfolding tombstone
    hidden_by_tombstone h f k e =
        let rows = tombstone_rows h in
        let (_, le) =
          seen_own f (tombstone head t time) k e
            (rw rows (Memᴰ-append_right m.facts (Memᴰ.head refl))) is_head
            (tx_branch-retracted t ∙ on_branch) in_range in
        elim (Memᴰ-append m.facts (rw rows at (seen_member f k))) [
          | inl old ↦ let lt = fresh f old in omega arith
          | inr new ↦
              seen_unrevoked f t k (ap (λ (x : Fact F). x.revoked_by_tx) (Memᴰ-single new))
                (tx_branch-retracted t ∙ on_branch) in_range
        ]

    abbrev stamp : Fact F → Fact F
    stamp = change (is_head_row m br id) (revoke_row t time)

    stamp_id : (f : Fact F) → (stamp f).fact_id ≡ f.fact_id
    unfolding revoke_row
    stamp_id f = ground arith

    stamp_tx : (f : Fact F) → (stamp f).created_by_tx ≡ f.created_by_tx
    unfolding revoke_row
    stamp_tx f = ground arith

    -- A row that is seen is not older than any row of the branch.
    stamped_le :
        written_on m br head ≡ true
        → (f g : Fact F) → Memᴰ f (facts_on_branch retracted br)
        → f.fact_id ≡ id
        → Memᴰ g m.facts
        → g.fact_id ≡ id
        → tx_branch m g.created_by_tx ≡ some br
        → (tx_branch m f.created_by_tx ≡ some br) × (g.created_by_tx ≤ f.created_by_tx)
    stamped_le h f g k e n d on =
        let le = created-lt m wf g n in
        let (own, newer) =
          seen_own f (stamp g) k e (rw (stamped_rows h) (Memᴰ-update_all_of _ _ n)) (stamp_id g ∙ d)
            (tx_branch-retracted _ ∙ ap (tx_branch m) (stamp_tx g) ∙ on)
            (rw (stamp_tx g) (let r = wf.in_range in omega arith)) in
        (sym (tx_branch-retracted _) ∙ own, rw (stamp_tx g) at newer)

    -- An open row of the fact on the branch was stamped.
    stamp_open :
        (f : Fact F)
        → f.fact_id ≡ id
        → tx_branch m f.created_by_tx ≡ some br
        → f.superseded_by_tx ≡ none
        → f.revoked_by_tx ≡ none
        → (stamp f).revoked_by_tx ≡ some t
    unfolding is_head_row revoke_row
    stamp_open f d on s r = rw (d, text_eq_refl id, r, s, on, text_eq_refl br)

    stamp_revoked :
        (f : Fact F) (r : TxId) → f.revoked_by_tx ≡ some r → (stamp f).revoked_by_tx ≡ some r
    unfolding is_head_row revoke_row
    stamp_revoked f r e = ground arith

    hidden_row :
        (f h : Fact F)
        → Memᴰ f (facts_on_branch retracted br)
        → f ≡ stamp h
        → Memᴰ h m.facts
        → h.fact_id ≡ id
        → tx_branch m h.created_by_tx ≡ some br
        → h.superseded_by_tx ≡ none
        → ⊥
    hidden_row f h k e n d on s = elim (Option-cases h.revoked_by_tx) [
      | inl r ↦
          seen_unrevoked f t k (ap (λ (x : Fact F). x.revoked_by_tx) e ∙ stamp_open h d on s r)
            (tx_branch-retracted t ∙ on_branch) in_range
      | inr (u, r) ↦
          let lt = revoked-lt m wf h n u r in
          let top = wf.in_range in
          seen_unrevoked f u k (ap (λ (x : Fact F). x.revoked_by_tx) e ∙ stamp_revoked h u r)
            (tx_branch-retracted u ∙ wf.revoked_here h n u r ∙ on) (omega arith)
    ]

    -- The head stood on the branch: what is seen there would be an open row, which was stamped.
    hidden_by_stamp :
        written_on m br head ≡ true
        → (f : Fact F) → Memᴰ f (facts_on_branch retracted br)
        → f.fact_id ≡ id
        → ⊥
    hidden_by_stamp h f k e =
        let (o, n, i) = Memᴰ-update_all _ _ m.facts (rw (stamped_rows h) at (seen_member f k)) in
        let same : o.fact_id ≡ id = sym (stamp_id o) ∙ ap (λ (x : Fact F). x.fact_id) (sym i) ∙ e in
        let tx : f.created_by_tx ≡ o.created_by_tx =
          ap (λ (x : Fact F). x.created_by_tx) i ∙ stamp_tx o in
        let (own, _) =
          stamped_le h f head k e member is_head (written m wf br t time on_branch fresh head h) in
        let on : tx_branch m o.created_by_tx ≡ some br = ap (tx_branch m) (sym tx) ∙ own in
        elim (Option-cases o.superseded_by_tx) [
          | inl s ↦ hidden_row f o k i n same on s
          | inr (u, s) ↦
              let newer = wf.superseded_newer o n u s in
              let (_, le) =
                stamped_le h f newer.row k e newer.member (newer.same_id ∙ same)
                  (newer.same_branch ∙ on) in
              let lt = newer.newer in omega arith
        ]

    pub facts_on_branch-retract_rows :
        (f : Fact F) → Memᴰ f (facts_on_branch retracted br) → f.fact_id ≢ id
    facts_on_branch-retract_rows f k e = elim (Bool-cases (written_on m br head)) [
      | inl h ↦ hidden_by_stamp h f k e
      | inr h ↦ hidden_by_tombstone h f k e
    ]
