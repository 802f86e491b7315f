-- ===== src/Session/Founder.antt =====
-- `session_new` of src/brain.rs: `main` of the new session belongs to who made it.
use mathlib.Core.Path.{subst}
use ray_exomem.Prelude.{
  ◌≡◌, ◌≢◌, refl, sym, ap, ◌∙◌, inl, inr, Text, Bool, text_eq, text_eq_iff, arith, true, false,
  Option, List, [], ◌∷◌, ◌++◌, if◌then◌else◌, any, Memᴰ-append, Memᴰ-single, Bool-cases,
}
use ray_exomem.Prelude.Fallible.{Fallible, ok, err}
use ray_exomem.Brain.{Branch, main_branch}
use ray_exomem.Path.{TreePath, PathError}
use ray_exomem.Session.Exom.{
  ExomDir, SessionType, SessionMeta, NodeKind, new_session, session_id, Storage, WriteError,
}
use ray_exomem.Session.Claims.{loaded, IsOwned, HaveOwners, claim_branch-IsOwned}
use ray_exomem.Session.Gate.{is_exom, write_meta}
use ray_exomem.Session.Start.{
  ScaffoldError, Made, lifted, and_then, is_live_name, unclaimed_row, is_bad_label, create_loaded,
  create_branch, create_branches, start_session, session_path, made_at, start_at, in_new_dir,
  session_new,
}

and_then-eq-ok :
    (m : Made) (f : ExomDir → Made) (d' : ExomDir)
    → and_then m f ≡ (ok tt, d')
    → (m.0 ≡ ok tt) × (f m.1 ≡ (ok tt, d'))
and_then-eq-ok (ok u, d) f d' e = (refl, e)
and_then-eq-ok (err x, d) f d' e = absurd (cc (ap (λ q. q.0) e))

lifted-eq-ok :
    (m : Fallible WriteError Unit × ExomDir) (d' : ExomDir)
    → lifted m ≡ (ok tt, d')
    → m ≡ (ok tt, d')
lifted-eq-ok (ok u, d) d' e = ap (λ q. (ok tt, q.1)) e
lifted-eq-ok (err x, d) d' e = absurd (cc (ap (λ q. q.0) e))

owners-append :
    (branches : List Branch) (name : Text)
    → HaveOwners branches
    → HaveOwners (branches ++ unclaimed_row name ∷ [])
owners-append branches name h b m = elim (Memᴰ-append branches m) [
  | inl n ↦ h b n
  | inr n ↦ λ e. absurd (cc (ap (λ (x : Branch). x.claimed_by_user_email) (Memᴰ-single n), e))
]

module _ (S : Storage) where
  create_branch-HaveOwners :
      (name : Text) (d : ExomDir)
      → HaveOwners d.branches
      → HaveOwners (create_branch S name d).1.branches
  unfolding create_branch create_loaded
  create_branch-HaveOwners name d h = elim (Bool-cases (S.load_ok d.ticks)) [
    | inr l ↦ rw (create_branch, l) h
    | inl l ↦ elim (Bool-cases (any (is_live_name name) d.branches)) [
      | inl t ↦ rw (create_branch, l, t) h
      | inr f ↦ elim (Bool-cases (S.save_ok (loaded S d).1.ticks)) [
        | inl k ↦ rw (create_branch, l, f, k) (owners-append d.branches name h)
        | inr k ↦ rw (create_branch, l, f, k) h
      ]
    ]
  ]

  create_branches-HaveOwners :
      (user : Text) (participants : List Text) (d d' : ExomDir)
      → HaveOwners d.branches
      → create_branches S user participants d ≡ (ok tt, d')
      → HaveOwners d'.branches
  unfolding create_branches
  create_branches-HaveOwners user [] d d' h e =
      subst (λ (x : ExomDir). HaveOwners x.branches) (ap (λ q. q.1) e) h
  create_branches-HaveOwners user (p ∷ participants) d d' h e =
      let (_, r) =
        and_then-eq-ok (create_branch S (if text_eq p user then main_branch else p) d) _ d' e in
      create_branches-HaveOwners user participants _ d' (create_branch-HaveOwners _ d h) r

  write_meta-branches : (meta : _) (d : ExomDir) → (write_meta S meta d).1.branches ≡ d.branches
  unfolding write_meta
  write_meta-branches meta d = elim (Bool-cases (S.write_ok d.ticks)) [
    | inl h ↦ rw h
    | inr h ↦ rw h
  ]

  lifted-dir : (m : Fallible WriteError Unit × ExomDir) → (lifted m).1 ≡ m.1
  lifted-dir (ok u, d) = refl
  lifted-dir (err e, d) = refl

  start_session-IsOwned :
      (now : Text) (sess : SessionMeta) (user : Text) (agent model : Option Text) (d d' : ExomDir)
      → HaveOwners d.branches
      → start_session S now sess user agent model d ≡ (ok tt, d')
      → IsOwned main_branch user d'.branches
  unfolding start_session
  start_session-IsOwned now sess user agent model d d' h e =
      let meta = new_session now sess user in
      let (_, r) = and_then-eq-ok (lifted (write_meta S meta d)) _ d' e in
      let d1 = (lifted (write_meta S meta d)).1 in
      let (made, t) = and_then-eq-ok (create_branches S user sess.agents d1) _ d' r in
      let d2 = (create_branches S user sess.agents d1).1 in
      let same : d1.branches ≡ d.branches =
        ap (λ (x : ExomDir). x.branches) (lifted-dir (write_meta S meta d))
        ∙ write_meta-branches meta d in
      let owners : HaveOwners d2.branches =
        create_branches-HaveOwners user sess.agents d1 d2 (subst HaveOwners (sym same) h)
          (ap (λ o. (o, d2)) made) in
      claim_branch-IsOwned S main_branch user agent model d2 d' owners (lifted-eq-ok _ d' t)

  started :
      (r : Fallible PathError TreePath) (f : TreePath → Made) (p : TreePath) (d d' : ExomDir)
      → start_at r f d ≡ (ok p, d')
      → (r ≡ ok p) × (f p ≡ (ok tt, d'))
  started (err x) f p d d' e = absurd (cc (ap (λ q. q.0) e))
  started (ok q) f p d d' e = made_sound q p (f q) d' e refl
    where
      made_sound :
          (q p : TreePath) (m : Made) (d' : ExomDir)
          → ◌≡◌ {A = Fallible ScaffoldError TreePath × ExomDir} (made_at m.0 q, m.1) (ok p, d')
          → f q ≡ m
          → ◌≡◌ {A = Fallible PathError TreePath} (ok q) (ok p) × (f p ≡ (ok tt, d'))
      made_sound q p (ok u, x) d' e same =
          let i : q ≡ p = cc (ap (λ y. y.0) e) in
          (ap ok i, ap f (sym i) ∙ same ∙ ap (λ y. (ok tt, y.1)) e)
      made_sound q p (err w, x) d' e same = absurd (cc (ap (λ y. y.0) e))

  made_dir :
      (made : Bool) (f : ExomDir → Made) (d d' : ExomDir)
      → in_new_dir S made f d ≡ (ok tt, d')
      → f d ≡ (ok tt, d')
  unfolding in_new_dir
  made_dir true f d d' e = e
  made_dir false f d d' e = absurd (cc (ap (λ q. q.0) e))

  -- When `session_new` succeeds, the label is without separators and blanks, the user is named, the
  -- project has its `main`, the path is checked, and the user owns `main` of the session, so that
  -- nobody else can claim it. No row of the table in that place is claimed by the empty email.
  pub session_new-IsOwned :
      (project_main : NodeKind) (made : Bool) (ts now : Text) (project p : TreePath)
      (kind : SessionType) (label user : Text) (agent model : Option Text) (agents : List Text)
      (d d' : ExomDir)
      → HaveOwners d.branches
      → session_new S project_main made ts now project kind label user agent model agents d
        ≡ (ok p, d')
      → (is_bad_label label ≡ false)
        × (user ≢ [])
        × (is_exom project_main ≡ true)
        × (session_path project (session_id ts kind label) ≡ ok p)
        × IsOwned main_branch user d'.branches
  unfolding session_new
  session_new-IsOwned project_main made ts now project p kind label user agent model agents d d' h
        e =
      elim (Bool-cases (is_bad_label label)) [
        | inl b ↦ absurd (cc (ap (λ q. q.0) (rw (session_new, b) at e)))
        | inr b ↦ elim (Bool-cases (text_eq user [])) [
          | inl n ↦ absurd (cc (ap (λ q. q.0) (rw (session_new, b, n) at e)))
          | inr n ↦ elim (Bool-cases (is_exom project_main)) [
            | inr x ↦ absurd (cc (ap (λ q. q.0) (rw (session_new, b, n, x) at e)))
            | inl x ↦
                let (at_path, run) =
                  started (session_path project (session_id ts kind label)) _ p d d'
                    (rw (session_new, b, n, x) at e) in
                (
                  b,
                  λ i. ground (arith, (text_eq_iff user []).1 i),
                  x,
                  at_path,
                  start_session-IsOwned now _ user agent model d d' h (made_dir made _ d d' run),
                )
          ]
        ]
      ]
