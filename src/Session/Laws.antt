-- ===== src/Session/Laws.antt =====
-- What `precheck_write` of src/brain.rs lets through, and for whom.
use mathlib.Core.Path.{subst}
use ray_exomem.Prelude.{
  ℕ, ◌≡◌, ◌≢◌, ◌⊎◌, refl, sym, ap, ◌∙◌, inl, inr, Text, text_eq, text_eq_iff, Bool, true, false,
  ◌&&◌, Option, some, List, [], ◌∷◌, any, find, Bool-cases, Option-cases, arith,
}
use ray_exomem.Prelude.Fallible.{Fallible, ok, err}
use ray_exomem.Brain.{Branch, main_branch}
use ray_exomem.Brain.Write.BranchOps.{is_named, is_main_name, with_implicit_main}
use ray_exomem.Session.Exom.{
  ExomDir, ExomMeta, SessionMeta, MetaFile, absent, unreadable, readable, classify, Storage,
  WriteError,
}
use ray_exomem.Session.Claims.{
  loaded, claim_row, claim_branch, claimed_row, IsOwned, HaveOwners, claim_branch-IsOwned,
  claim_branch_refused, is_someone_else,
}
use ray_exomem.Session.Gate.{
  is_exom, is_closed, is_co_edit, open_meta, open_exom, has_branch, check_branch, check_meta,
  precheck_write, mirrored, closed_at_key, write_meta, mirror_fields, mirror_session_meta_to_disk,
}

find-any :
    (p : Branch → Bool) (xs : List Branch) {a : Branch} → find p xs ≡ some a → any p xs ≡ true
unfolding find any
find-any p [] e = absurd (cc e)
find-any p (x ∷ xs) e = elim (Bool-cases (p x)) [
  | inl h ↦ rw h
  | inr h ↦ rw h (find-any p xs (rw h at e))
]

IsOwned-has_branch :
    (branch owner : Text) (branches : List Branch)
    → IsOwned branch owner branches
    → has_branch branch branches ≡ true
unfolding with_implicit_main
IsOwned-has_branch branch owner branches w = elim (Bool-cases (text_eq branch main_branch)) [
  | inl m ↦ rw m
  | inr m ↦ elim (Bool-cases (any is_main_name branches)) [
    | inl h ↦ rw m (find-any (is_named branch) branches (let f = w.found in rw h at f))
    | inr h ↦ rw m (find-any (is_named branch) branches (let f = w.found in rw (h, m) at f))
  ]
]

open_meta_sound :
    (f : MetaFile) (meta : ExomMeta)
    → open_meta f ≡ ok meta
    → (f ≡ readable meta) × (is_closed meta.session ≡ false)
unfolding open_meta
open_meta_sound absent meta e = absurd (cc e)
open_meta_sound unreadable meta e = absurd (cc e)
open_meta_sound (readable m) meta e = elim (Bool-cases (is_closed m.session)) [
  | inl h ↦ absurd (cc (rw h at e))
  | inr h ↦
      let i : m ≡ meta = cc (rw h at e) in
      (ap readable i, ap (λ (x : ExomMeta). is_closed x.session) (sym i) ∙ h)
]

open_exom_sound :
    (d : ExomDir) (meta : ExomMeta)
    → open_exom d ≡ ok meta
    → (d.meta ≡ readable meta) × (is_closed meta.session ≡ false)
unfolding open_exom
open_exom_sound d meta e = elim (Bool-cases (is_exom (classify d))) [
  | inl h ↦ open_meta_sound d.meta meta (rw h at e)
  | inr h ↦ absurd (cc (rw h at e))
]

open_exom_same :
    (d d' : ExomDir) → d'.exists ≡ d.exists → d'.meta ≡ d.meta → open_exom d' ≡ open_exom d
unfolding open_exom classify
open_exom_same d d' e m = simp (e, m)

module _ (S : Storage) (branch user : Text) (agent model : Option Text) where
  claim_branch_frame :
      (d : ExomDir)
      → ((claim_branch S branch user agent model d).1.exists ≡ d.exists)
        × ((claim_branch S branch user agent model d).1.meta ≡ d.meta)
  unfolding claim_branch claim_row
  claim_branch_frame d = elim (Bool-cases (S.load_ok d.ticks)) [
    | inr h ↦ rw (claim_branch, h) (refl, refl)
    | inl h ↦ elim (Option-cases (claimed_row branch d.branches)) [
      | inl n ↦ rw (claim_branch, h, n) (refl, refl)
      | inr (b, f) ↦ elim (Option-cases b.claimed_by_user_email) [
        | inl o ↦ elim (Bool-cases (S.save_ok (loaded S d).1.ticks)) [
          | inl k ↦ rw (claim_branch, h, f, o, k) (refl, refl)
          | inr k ↦ rw (claim_branch, h, f, o, k) (refl, refl)
        ]
        | inr (owner, o) ↦ elim (Bool-cases (is_someone_else owner user)) [
          | inl k ↦ rw (claim_branch, h, f, o, k) (refl, refl)
          | inr k ↦ rw (claim_branch, h, f, o, k) (refl, refl)
        ]
      ]
    ]
  ]

  -- Everything that stands when a write is let through.
  pub record IsPassed (d d' : ExomDir) : Type 0 where
    pub actor : user ≢ []
    pub meta : ExomMeta
    pub opened : open_exom d ≡ ok meta
    pub there : has_branch branch d.branches ≡ true
    pub read : S.load_ok d.ticks ≡ true
    pub outcome :
        ((is_co_edit meta.acl_mode && text_eq branch main_branch) ≡ true)
        ⊎ (claim_branch S branch user agent model (loaded S d).1 ≡ (ok tt, d'))

  precheck_write-IsPassed :
      (d d' : ExomDir) → precheck_write S branch user agent model d ≡ (ok tt, d') → IsPassed d d'
  unfolding precheck_write check_meta check_branch
  precheck_write-IsPassed d d' e = elim (Bool-cases (text_eq user [])) [
    | inl n ↦ absurd (cc (ap (λ q. q.0) (rw (precheck_write, n) at e)))
    | inr n ↦
        passed_meta (open_exom d) refl (rw (precheck_write, n) at e)
          (λ i. ground (arith, (text_eq_iff user []).1 i))
  ]
    where
      passed_branch :
          (meta : ExomMeta)
          → open_exom d ≡ ok meta
          → user ≢ []
          → S.load_ok d.ticks ≡ true
          → check_branch S branch user agent model meta (some d.branches) (loaded S d).1
            ≡ (ok tt, d')
          → IsPassed d d'
      passed_branch meta o n h e = elim (Bool-cases (has_branch branch d.branches)) [
        | inl there ↦ elim (Bool-cases (is_co_edit meta.acl_mode && text_eq branch main_branch)) [
          | inl c ↦ record {
            actor = n;
            meta = meta;
            opened = o;
            there = there;
            read = h;
            outcome = inl c;
          }
          | inr c ↦ record {
            actor = n;
            meta = meta;
            opened = o;
            there = there;
            read = h;
            outcome = inr (rw (there, c) at e);
          }
        ]
        | inr missing ↦ absurd (cc (ap (λ q. q.0) (rw missing at e)))
      ]

      passed_meta :
          (r : Fallible WriteError ExomMeta)
          → open_exom d ≡ r
          → check_meta S branch user agent model r d ≡ (ok tt, d')
          → user ≢ []
          → IsPassed d d'
      passed_meta (err x) o e n = absurd (cc (ap (λ q. q.0) e))
      passed_meta (ok meta) o e n = elim (Bool-cases (S.load_ok d.ticks)) [
        | inl h ↦ passed_branch meta o n h (rw h at e)
        | inr h ↦ absurd (cc (ap (λ q. q.0) (rw h at e)))
      ]

  -- A write is let through only with a user, on an exom whose exom.json can be read and whose session
  -- is not closed, and on a branch that is there; afterwards the user owns the branch, unless it is
  -- `main` of an exom in co-edit mode. No row of the table is claimed by the empty email.
  pub precheck_write_sound :
      (d d' : ExomDir)
      → HaveOwners d.branches
      → precheck_write S branch user agent model d ≡ (ok tt, d')
      → (user ≢ [])
        × ((meta : ExomMeta) × (d.meta ≡ readable meta)
            × (is_closed meta.session ≡ false)
            × (has_branch branch d.branches ≡ true)
            × (((is_co_edit meta.acl_mode && text_eq branch main_branch) ≡ true)
                ⊎ IsOwned branch user d'.branches))
  precheck_write_sound d d' owners e =
      let p = precheck_write-IsPassed d d' e in
      let (r, c) = open_exom_sound d p.meta p.opened in
      (
        p.actor,
        (
          p.meta,
          r,
          c,
          p.there,
          elim p.outcome [
            | inl o ↦ inl o
            | inr o ↦
                inr (claim_branch-IsOwned S branch user agent model (loaded S d).1 d' owners o)
          ],
        ),
      )

  precheck_write_refused :
      (owner : Text) (d : ExomDir) (meta : ExomMeta)
      → open_exom d ≡ ok meta
      → ((is_co_edit meta.acl_mode && text_eq branch main_branch) ≡ false)
      → IsOwned branch owner d.branches
      → owner ≢ []
      → user ≢ []
      → owner ≢ user
      → ((n : ℕ) → S.load_ok n ≡ true)
      → (precheck_write S branch user agent model d).0 ≡ err (WriteError.branch_owned owner)
  unfolding precheck_write check_meta check_branch
  precheck_write_refused owner d meta o solo w named actor differs loads =
      let present : text_eq user [] ≡ false = ground (arith, (text_eq_iff user []).0) in
      rw
        (
          precheck_write,
          present,
          o,
          loads d.ticks,
          IsOwned-has_branch branch owner d.branches w,
          solo,
        )
        (ap (λ q. q.0)
          (claim_branch_refused S branch user agent model owner (loaded S d).1 w named differs
            (loads (loaded S d).1.ticks)))

module _ (S : Storage) (branch first second : Text) (agent model agent2 model2 : Option Text) where
  -- The first writer of a branch keeps it: once a write of one user was let through, one of another
  -- user on the same branch is refused with the first as the owner. Branches are loaded without an
  -- error, no row is claimed by the empty email, and the branch is not `main` in co-edit mode.
  pub precheck_write-first_writer :
      (d d' : ExomDir)
      → ((n : ℕ) → S.load_ok n ≡ true)
      → HaveOwners d.branches
      → ((meta : ExomMeta)
          → d.meta ≡ readable meta
          → (is_co_edit meta.acl_mode && text_eq branch main_branch) ≡ false)
      → precheck_write S branch first agent model d ≡ (ok tt, d')
      → second ≢ []
      → first ≢ second
      → (precheck_write S branch second agent2 model2 d').0 ≡ err (WriteError.branch_owned first)
  precheck_write-first_writer d d' loads owners solo e actor differs =
      let p = precheck_write-IsPassed S branch first agent model d d' e in
      let (r, c) = open_exom_sound d p.meta p.opened in
      elim p.outcome [
        | inl o ↦ absurd (cc (o, solo p.meta r))
        | inr o ↦
            let (x, m) = claim_branch_frame S branch first agent model (loaded S d).1 in
            let same : open_exom d' ≡ open_exom d =
              open_exom_same d d' (sym (ap (λ q. q.1.exists) o) ∙ x)
                (sym (ap (λ q. q.1.meta) o) ∙ m) in
            precheck_write_refused S branch second agent2 model2 first d' p.meta (same ∙ p.opened)
              (solo p.meta r)
              (claim_branch-IsOwned S branch first agent model (loaded S d).1 d' owners o) p.actor
              actor differs loads
      ]

abbrev IsClosedOnDisk : ExomDir → Type 0
IsClosedOnDisk d =
    (d.exists ≡ true) × ((m : ExomMeta) × (d.meta ≡ readable m) × (is_closed m.session ≡ true))

open_exom_closed : (d : ExomDir) → IsClosedOnDisk d → open_exom d ≡ err WriteError.session_closed
unfolding open_exom open_meta classify
open_exom_closed d (there, (m, r, c)) = rw (classify, there, r, c)

module _ (S : Storage) (branch user : Text) (agent model : Option Text) where
  mirror_closes :
      (d d' : ExomDir) (meta : ExomMeta) (sess : SessionMeta) (value : Text)
      → d.meta ≡ readable meta
      → meta.session ≡ some sess
      → mirror_session_meta_to_disk S closed_at_key value d ≡ (ok tt, d')
      → IsClosedOnDisk d'
  unfolding mirror_session_meta_to_disk mirror_fields mirrored write_meta text_eq
  mirror_closes d d' meta sess value r s e = elim (Bool-cases (S.write_ok d.ticks)) [
    | inl h ↦
        subst IsClosedOnDisk (ap (λ q. q.1) (rw (mirror_session_meta_to_disk, r, s, h) at e))
          (refl, (_, refl, refl))
    | inr h ↦ absurd (cc (ap (λ q. q.0) (rw (mirror_session_meta_to_disk, r, s, h) at e)))
  ]

  -- Once `session/closed_at` was mirrored into the exom.json of a session exom, every write of a user
  -- is refused, and the directory stays as it is.
  pub precheck_write-mirror_session_meta_to_disk :
      (d d' : ExomDir) (meta : ExomMeta) (sess : SessionMeta) (value : Text)
      → d.meta ≡ readable meta
      → meta.session ≡ some sess
      → mirror_session_meta_to_disk S closed_at_key value d ≡ (ok tt, d')
      → user ≢ []
      → precheck_write S branch user agent model d' ≡ (err WriteError.session_closed, d')
  unfolding precheck_write check_meta
  precheck_write-mirror_session_meta_to_disk d d' meta sess value r s e actor =
      let present : text_eq user [] ≡ false = ground (arith, (text_eq_iff user []).0) in
      rw (precheck_write, present, open_exom_closed d' (mirror_closes d d' meta sess value r s e))
