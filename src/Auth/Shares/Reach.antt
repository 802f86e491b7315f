-- ===== src/Auth/Shares/Reach.antt =====
-- src/auth/store.rs without a database: what a start of the server reads back from the log.
use mathlib.Core.Path.{subst}
use mathlib.Core.List.{append_assoc, append-nil}
use ray_exomem.Prelude.{
  ℕ, ◌≡◌, refl, ap, sym, ◌∙◌, inl, inr, Text, text_eq, Bool, true, false, not, none, List, [], ◌∷◌,
  ◌++◌, if◌then◌else◌, ltb, length, Memᴰ, Memᴰ-append, Memᴰ-single, Memᴰ-retain, Memᴰ-update_all,
  change, Bool-cases, retain, update_all,
}
use ray_exomem.Auth.{ShareGrant}
use ray_exomem.Auth.Shares.{
  Entry, Backend, AuthStore, has_share_id, apply_entry, replay_jsonl, is_moved, move, is_under,
  move_entries, revoke_entries, append_entry, append_all, add_share_grant, update_share_paths,
  revoke_share_by_id, delete_shares_under,
}
use ray_exomem.Auth.Shares.Replay.{
  HaveDistinctIds, IsFresh, replay-append, replay-move_entries, replay-revoke_entries,
  retain-length,
}

distinct-append :
    (grants : List ShareGrant) (g : ShareGrant)
    → HaveDistinctIds grants
    → IsFresh g.share_id grants
    → HaveDistinctIds (grants ++ g ∷ [])
distinct-append [] g d fresh = (λ y m. elim m [ ], tt)
distinct-append (h ∷ grants) g d fresh = (
  λ y m e. elim (Memᴰ-append grants m) [
    | inl n ↦ d.0 y n e
    | inr n ↦
        fresh h (Memᴰ.head refl) (sym (e ∙ ap (λ (x : ShareGrant). x.share_id) (Memᴰ-single n)))
  ],
  distinct-append grants g d.1 (λ y m. fresh y (Memᴰ.tail m)),
)

distinct-retain :
    (p : ShareGrant → Bool) (grants : List ShareGrant)
    → HaveDistinctIds grants
    → HaveDistinctIds (retain p grants)
unfolding retain
distinct-retain p [] d = tt
distinct-retain p (g ∷ grants) d = elim (Bool-cases (p g)) [
  | inl e ↦ rw e (λ y m. d.0 y (Memᴰ-retain p grants m).0, distinct-retain p grants d.1)
  | inr e ↦ rw e (distinct-retain p grants d.1)
]

id-change :
    (p : ShareGrant → Bool) (f : ShareGrant → ShareGrant) (g : ShareGrant)
    → ((h : ShareGrant) → (f h).share_id ≡ h.share_id)
    → (change p f g).share_id ≡ g.share_id
id-change p f g same = elim (Bool-cases (p g)) [ inl e ↦ rw e (same g) | inr e ↦ rw e ]

distinct-update_all :
    (p : ShareGrant → Bool) (f : ShareGrant → ShareGrant) (grants : List ShareGrant)
    → ((h : ShareGrant) → (f h).share_id ≡ h.share_id)
    → HaveDistinctIds grants
    → HaveDistinctIds (update_all p f grants)
unfolding update_all
distinct-update_all p f [] same d = tt
distinct-update_all p f (g ∷ grants) same d = (
  λ y m e.
      let (x, n, i) = Memᴰ-update_all p f grants m in
      d.0 x n (
        sym (id-change p f g same)
        ∙ e
        ∙ ap (λ (z : ShareGrant). z.share_id) i
        ∙ id-change p f x same),
  distinct-update_all p f grants same d.1,
)

module _ {B : Backend} where
  -- A store without a database, its log written by its own operations from the empty one; a new
  -- grant has an id of its own.
  pub data IsReachable : AuthStore B → Type 0 where
    fresh_start :
        IsReachable (record { auth_db = none; share_grants = []; jsonl = []; appends = 0 })
    added :
        (s : AuthStore B) (g : ShareGrant)
        → IsReachable s
        → IsFresh g.share_id s.share_grants
        → IsReachable (add_share_grant g s)
    moved :
        (s : AuthStore B) (old new : Text)
        → IsReachable s
        → IsReachable (update_share_paths old new s)
    revoked :
        (s : AuthStore B) (share_id : Text)
        → IsReachable s
        → IsReachable (revoke_share_by_id share_id s).1
    deleted :
        (s : AuthStore B) (prefix : Text)
        → IsReachable s
        → IsReachable (delete_shares_under prefix s).1

  pub record IsLogged (s : AuthStore B) : Type 0 where
    pub local : s.auth_db ≡ none
    pub distinct : HaveDistinctIds s.share_grants
    pub logged : replay_jsonl s.jsonl [] ≡ s.share_grants

  module _ (written : (n : ℕ) → B.append_ok n ≡ true) where
    append_all-fields :
        (entries : List Entry) (s : AuthStore B)
        → ((append_all entries s).auth_db ≡ s.auth_db)
          × ((append_all entries s).share_grants ≡ s.share_grants)
          × ((append_all entries s).jsonl ≡ s.jsonl ++ entries)
    unfolding append_all append_entry
    append_all-fields [] s = (refl, refl, sym (append-nil s.jsonl))
    append_all-fields (e ∷ entries) s =
        let (a, b, c) = append_all-fields entries (append_entry e s) in
        (a, b, c ∙ rw (written s.appends) (append_assoc s.jsonl (e ∷ []) entries))

    -- Entries that lead from the old grants to the new ones are appended.
    append_all-IsLogged :
        (entries : List Entry) (s : AuthStore B) (grants : List ShareGrant)
        → IsLogged s
        → HaveDistinctIds grants
        → replay_jsonl entries s.share_grants ≡ grants
        → IsLogged (append_all entries (record s { share_grants = grants }))
    append_all-IsLogged entries s grants w d e =
        let (a, b, c) = append_all-fields entries (record s { share_grants = grants }) in
        record {
          local = a ∙ w.local;
          distinct = rw b d;
          logged =
              ap (λ l. replay_jsonl l []) c
              ∙ replay-append s.jsonl entries []
              ∙ ap (replay_jsonl entries) w.logged
              ∙ e
              ∙ sym b;
        }

    abbrev with_share : ShareGrant → AuthStore B → AuthStore B
    with_share g s =
        let logged = append_entry (Entry.share g) s in
        record logged { share_grants = logged.share_grants ++ g ∷ [] }

    abbrev with_grants : List ShareGrant → AuthStore B → AuthStore B
    with_grants grants s = record s { share_grants = grants }

    abbrev unrevoked : Text → AuthStore B → List ShareGrant
    unrevoked share_id s = retain (λ g. not (has_share_id share_id g)) s.share_grants

    -- The operations without a database.
    add_local :
        (s : AuthStore B) (g : ShareGrant) → s.auth_db ≡ none → add_share_grant g s ≡ with_share g s
    unfolding add_share_grant
    add_local s g e = rw e

    move_local :
        (s : AuthStore B) (old new : Text)
        → s.auth_db ≡ none
        → text_eq old new ≡ false
        → update_share_paths old new s
          ≡ append_all
              (move_entries old new s.share_grants)
              (with_grants (update_all (is_moved old new) (move old new) s.share_grants) s)
    unfolding update_share_paths
    move_local s old new e h = simp (e, h)

    delete_local :
        (s : AuthStore B) (prefix : Text)
        → s.auth_db ≡ none
        → (delete_shares_under prefix s).1
          ≡ append_all
              (revoke_entries prefix s.share_grants)
              (with_grants (retain (λ g. not (is_under prefix g)) s.share_grants) s)
    unfolding delete_shares_under
    delete_local s prefix e = rw e

    revoke_local :
        (s : AuthStore B) (share_id : Text)
        → s.auth_db ≡ none
        → (revoke_share_by_id share_id s).1 ≡ (
            if ltb (length (unrevoked share_id s)) (length s.share_grants)
            then append_entry (Entry.share_revoke share_id) (with_grants (unrevoked share_id s) s)
            else with_grants (unrevoked share_id s) s)
    unfolding revoke_share_by_id
    revoke_local s share_id e =
        elim (Bool-cases (ltb (length (unrevoked share_id s)) (length s.share_grants))) [
          | inl h ↦ rw (e, h)
          | inr h ↦ rw (e, h)
        ]

    add-IsLogged :
        (s : AuthStore B) (g : ShareGrant)
        → IsLogged s
        → IsFresh g.share_id s.share_grants
        → IsLogged (add_share_grant g s)
    unfolding append_entry replay_jsonl apply_entry
    add-IsLogged s g w fresh = subst IsLogged (sym (add_local s g w.local)) (record {
      local = w.local;
      distinct = distinct-append s.share_grants g w.distinct fresh;
      logged =
          rw (written s.appends)
            (replay-append s.jsonl (Entry.share g ∷ []) [] ∙ ap (λ gs. gs ++ g ∷ []) w.logged);
    })

    move-IsLogged :
        (s : AuthStore B) (old new : Text) → IsLogged s → IsLogged (update_share_paths old new s)
    move-IsLogged s old new w = elim (Bool-cases (text_eq old new)) [
      | inl e ↦ unfold update_share_paths in rw e w
      | inr e ↦ subst IsLogged (sym (move_local s old new w.local e)) (
          append_all-IsLogged (move_entries old new s.share_grants) s _ w
            (distinct-update_all (is_moved old new) (move old new) s.share_grants (λ h. refl)
              w.distinct)
            (replay-move_entries old new s.share_grants w.distinct))
    ]

    delete-IsLogged :
        (s : AuthStore B) (prefix : Text) → IsLogged s → IsLogged (delete_shares_under prefix s).1
    delete-IsLogged s prefix w = subst IsLogged (sym (delete_local s prefix w.local)) (
        append_all-IsLogged (revoke_entries prefix s.share_grants) s _ w
          (distinct-retain _ s.share_grants w.distinct)
          (replay-revoke_entries prefix s.share_grants w.distinct))

    -- Where no grant goes, no entry is written.
    revoke-IsLogged :
        (s : AuthStore B) (share_id : Text)
        → IsLogged s
        → IsLogged (revoke_share_by_id share_id s).1
    unfolding append_all replay_jsonl apply_entry
    revoke-IsLogged s share_id w =
        subst IsLogged (sym (revoke_local s share_id w.local))
          (elim (Bool-cases (ltb (length (unrevoked share_id s)) (length s.share_grants))) [
            | inl h ↦ rw h (
                append_all-IsLogged (Entry.share_revoke share_id ∷ []) s (unrevoked share_id s) w
                  (distinct-retain _ s.share_grants w.distinct) refl)
            | inr h ↦
                let same : unrevoked share_id s ≡ s.share_grants =
                  (retain-length _ s.share_grants).1 h in
                rw h (subst (λ gs. IsLogged (with_grants gs s)) (sym same) w)
          ])

    reachable-IsLogged : (s : AuthStore B) → IsReachable s → IsLogged s
    unfolding replay_jsonl
    reachable-IsLogged _ fresh_start = record { local = refl; distinct = tt; logged = refl }
    reachable-IsLogged _ (added s g r fresh) = add-IsLogged s g (reachable-IsLogged s r) fresh
    reachable-IsLogged _ (moved s old new r) = move-IsLogged s old new (reachable-IsLogged s r)
    reachable-IsLogged _ (revoked s share_id r) =
        revoke-IsLogged s share_id (reachable-IsLogged s r)
    reachable-IsLogged _ (deleted s prefix r) = delete-IsLogged s prefix (reachable-IsLogged s r)

    -- Where every line that was appended reached the log, a replay of the log gives the grants that
    -- are in memory, in their order, after any sequence of additions of grants with fresh ids, moves
    -- of a prefix, revocations and deletions on a store without a database.
    pub replay_reachable :
        (s : AuthStore B) → IsReachable s → replay_jsonl s.jsonl [] ≡ s.share_grants
    replay_reachable s r = (reachable-IsLogged s r).logged
