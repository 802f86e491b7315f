-- ===== src/Auth/Shares/Replay.antt =====
-- src/auth/store.rs: the log of shares against the shares in memory.
use ray_exomem.Prelude.{
  ◌≡◌, refl, ap, sym, ◌∙◌, ◌≤◌, inl, inr, Text, text_eq, text_eq_iff, text_eq_refl, Bool, true,
  false, not, List, [], ◌∷◌, ◌++◌, ltb, length, Memᴰ, Bool-cases, arith, retain, update_all,
  update_first,
}
use ray_exomem.Prelude.Sort.{AreDistinct}
use ray_exomem.Auth.{ShareGrant}
use ray_exomem.Auth.Shares.{
  Entry, with_path, has_share_id, apply_entry, replay_jsonl, moved_path, is_moved, move, is_under,
  move_entries, revoke_entries,
}

abbrev pub HaveDistinctIds : List ShareGrant → Type 0
HaveDistinctIds grants = AreDistinct (λ (g : ShareGrant). g.share_id) grants

-- No grant of the list has this id.
abbrev pub IsFresh : Text → List ShareGrant → Type 0
IsFresh share_id grants = (h : ShareGrant) → Memᴰ h grants → ¬ (share_id ≡ h.share_id)

other : (g h : ShareGrant) → (¬ (g.share_id ≡ h.share_id)) → text_eq g.share_id h.share_id ≡ false
other g h n = elim (Bool-cases (text_eq g.share_id h.share_id)) [
  | inl e ↦ absurd (n ((text_eq_iff g.share_id h.share_id).0 e))
  | inr e ↦ e
]

pub replay-append :
    (entries more : List Entry) (grants : List ShareGrant)
    → replay_jsonl (entries ++ more) grants ≡ replay_jsonl more (replay_jsonl entries grants)
unfolding replay_jsonl
replay-append [] more grants = refl
replay-append (e ∷ entries) more grants = replay-append entries more (apply_entry e grants)

-- Entries about other ids pass a grant by.
update_other :
    (share_id old new : Text) (g : ShareGrant) (rest : List ShareGrant)
    → text_eq g.share_id share_id ≡ false
    → apply_entry (Entry.share_path_update share_id old new) (g ∷ rest)
      ≡ g ∷ apply_entry (Entry.share_path_update share_id old new) rest
unfolding apply_entry update_first
update_other share_id old new g rest e = rw e

update_own :
    (old new : Text) (g : ShareGrant) (rest : List ShareGrant)
    → apply_entry (Entry.share_path_update g.share_id old new) (g ∷ rest) ≡ with_path new g ∷ rest
unfolding apply_entry update_first
update_own old new g rest = rw (text_eq_refl g.share_id)

revoke_other :
    (share_id : Text) (g : ShareGrant) (rest : List ShareGrant)
    → text_eq g.share_id share_id ≡ false
    → apply_entry (Entry.share_revoke share_id) (g ∷ rest)
      ≡ g ∷ apply_entry (Entry.share_revoke share_id) rest
unfolding apply_entry retain
revoke_other share_id g rest e = rw e

moves_hit :
    (old new : Text) (g : ShareGrant) (grants : List ShareGrant)
    → is_moved old new g ≡ true
    → move_entries old new (g ∷ grants)
      ≡ Entry.share_path_update g.share_id old (moved_path old new g) ∷ move_entries old new grants
unfolding move_entries
moves_hit old new g grants e = rw e

moves_miss :
    (old new : Text) (g : ShareGrant) (grants : List ShareGrant)
    → is_moved old new g ≡ false
    → move_entries old new (g ∷ grants) ≡ move_entries old new grants
unfolding move_entries
moves_miss old new g grants e = rw e

revokes_hit :
    (prefix : Text) (g : ShareGrant) (grants : List ShareGrant)
    → is_under prefix g ≡ true
    → revoke_entries prefix (g ∷ grants)
      ≡ Entry.share_revoke g.share_id ∷ revoke_entries prefix grants
unfolding revoke_entries
revokes_hit prefix g grants e = rw e

revokes_miss :
    (prefix : Text) (g : ShareGrant) (grants : List ShareGrant)
    → is_under prefix g ≡ false
    → revoke_entries prefix (g ∷ grants) ≡ revoke_entries prefix grants
unfolding revoke_entries
revokes_miss prefix g grants e = rw e

moves_skip :
    (old new : Text) (grants : List ShareGrant) (g : ShareGrant) (rest : List ShareGrant)
    → IsFresh g.share_id grants
    → replay_jsonl (move_entries old new grants) (g ∷ rest)
      ≡ g ∷ replay_jsonl (move_entries old new grants) rest
unfolding replay_jsonl apply_entry update_first
moves_skip old new [] g rest fresh = unfold move_entries in refl
moves_skip old new (h ∷ grants) g rest fresh =
    let apart = other g h (fresh h (Memᴰ.head refl)) in
    let later : IsFresh g.share_id grants = λ y m. fresh y (Memᴰ.tail m) in
    elim (Bool-cases (is_moved old new h)) [
      | inl e ↦ rw (moves_hit old new h grants e) (
          ap (replay_jsonl (move_entries old new grants)) (update_other _ old _ g rest apart)
          ∙ moves_skip old new grants g _ later)
      | inr e ↦ rw (moves_miss old new h grants e) (moves_skip old new grants g rest later)
    ]

pub replay-move_entries :
    (old new : Text) (grants : List ShareGrant)
    → HaveDistinctIds grants
    → replay_jsonl (move_entries old new grants) grants
      ≡ update_all (is_moved old new) (move old new) grants
unfolding replay_jsonl apply_entry update_first update_all
replay-move_entries old new [] d = unfold move_entries in refl
replay-move_entries old new (g ∷ grants) d = elim (Bool-cases (is_moved old new g)) [
  | inl e ↦
      rw (moves_hit old new g grants e, e)
        (ap (replay_jsonl (move_entries old new grants)) (update_own old _ g grants)
          ∙ moves_skip old new grants (move old new g) grants d.0
          ∙ ap (λ x. move old new g ∷ x) (replay-move_entries old new grants d.1))
  | inr e ↦
      rw (moves_miss old new g grants e, e)
        (moves_skip old new grants g grants d.0
          ∙ ap (λ x. g ∷ x) (replay-move_entries old new grants d.1))
]

revokes_skip :
    (prefix : Text) (grants : List ShareGrant) (g : ShareGrant) (rest : List ShareGrant)
    → IsFresh g.share_id grants
    → replay_jsonl (revoke_entries prefix grants) (g ∷ rest)
      ≡ g ∷ replay_jsonl (revoke_entries prefix grants) rest
unfolding replay_jsonl apply_entry retain
revokes_skip prefix [] g rest fresh = unfold revoke_entries in refl
revokes_skip prefix (h ∷ grants) g rest fresh =
    let apart = other g h (fresh h (Memᴰ.head refl)) in
    let later : IsFresh g.share_id grants = λ y m. fresh y (Memᴰ.tail m) in
    elim (Bool-cases (is_under prefix h)) [
      | inl e ↦ rw (revokes_hit prefix h grants e) (
          ap (replay_jsonl (revoke_entries prefix grants)) (revoke_other _ g rest apart)
          ∙ revokes_skip prefix grants g _ later)
      | inr e ↦ rw (revokes_miss prefix h grants e) (revokes_skip prefix grants g rest later)
    ]

retain_fresh :
    (share_id : Text) (grants : List ShareGrant)
    → IsFresh share_id grants
    → retain (λ g. not (has_share_id share_id g)) grants ≡ grants
unfolding retain
retain_fresh share_id [] fresh = refl
retain_fresh share_id (g ∷ grants) fresh =
    let apart : has_share_id share_id g ≡ false = elim (Bool-cases (has_share_id share_id g)) [
      | inl e ↦ absurd (fresh g (Memᴰ.head refl) (sym ((text_eq_iff g.share_id share_id).0 e)))
      | inr e ↦ e
    ] in
    rw apart (ap (λ x. g ∷ x) (retain_fresh share_id grants (λ y m. fresh y (Memᴰ.tail m))))

revoke_own :
    (g : ShareGrant) (rest : List ShareGrant)
    → IsFresh g.share_id rest
    → apply_entry (Entry.share_revoke g.share_id) (g ∷ rest) ≡ rest
unfolding apply_entry retain
revoke_own g rest fresh = rw (text_eq_refl g.share_id) (retain_fresh g.share_id rest fresh)

pub replay-revoke_entries :
    (prefix : Text) (grants : List ShareGrant)
    → HaveDistinctIds grants
    → replay_jsonl (revoke_entries prefix grants) grants
      ≡ retain (λ g. not (is_under prefix g)) grants
unfolding replay_jsonl apply_entry retain
replay-revoke_entries prefix [] d = unfold revoke_entries in refl
replay-revoke_entries prefix (g ∷ grants) d = elim (Bool-cases (is_under prefix g)) [
  | inl e ↦
      rw (revokes_hit prefix g grants e, e)
        (ap (replay_jsonl (revoke_entries prefix grants)) (revoke_own g grants d.0)
          ∙ replay-revoke_entries prefix grants d.1)
  | inr e ↦
      rw (revokes_miss prefix g grants e, e)
        (revokes_skip prefix grants g grants d.0
          ∙ ap (λ x. g ∷ x) (replay-revoke_entries prefix grants d.1))
]

pub retain-length :
    (p : ShareGrant → Bool) (grants : List ShareGrant)
    → (length (retain p grants) ≤ length grants)
      × (ltb (length (retain p grants)) (length grants) ≡ false → retain p grants ≡ grants)
unfolding retain
retain-length p [] = (omega arith, λ h. refl)
retain-length p (g ∷ grants) =
    let (le, same) = retain-length p grants in
    elim (Bool-cases (p g)) [
      | inl e ↦ rw e (omega arith, λ h. ap (λ x. g ∷ x) (same (ground arith)))
      | inr e ↦ rw e (omega arith, λ h. absurd (ground arith))
    ]
