-- ===== src/Auth/Access/Batch.antt =====
-- `authorize_rayfall` of src/auth/access.rs: which batches run, and what that rests on.
use mathlib.Core.Path.{subst}
use ray_exomem.Prelude.{
  ◌≡◌, ◌≢◌, ◌↔◌, inl, inr, refl, ◌∙◌, ◌≤◌, Text, codes, text_eq, text_eq_iff, true, List, [], ◌∷◌,
  Memᴰ, Memᴰ-cons, Bool-cases, arith,
}
use ray_exomem.Prelude.Fallible.{ok, >>=-eq-ok}
use ray_exomem.Rayfall.{no_items}
use ray_exomem.Rayfall.Forms.{CanonicalQuery, CanonicalRule, CanonicalForm, form_path}
use ray_exomem.Auth.{User, AccessLevel, rank, can_read, can_write, PublicOwner, ShareGrant}
use ray_exomem.Auth.Access.{
  is_write, required, check_level, resolve_access, authorize_form, authorize_rayfall, public_root,
  permitted,
}
use ray_exomem.Auth.Access.Grants.{
  IsBelow, by_grant, by_none, resolve_access-grants, resolve_from_grants-IsDecided,
}

read_check :
    (q : CanonicalQuery) (level : AccessLevel)
    → (check_level (CanonicalForm.query q) level ≡ ok tt) ↔ (1 ≤ rank level)
unfolding can_read can_write
read_check q AccessLevel.denied = (λ h. absurd (cc h), λ h. absurd (omega arith))
read_check q AccessLevel.read_only = (λ h. omega arith, λ h. refl)
read_check q AccessLevel.read_write = (λ h. omega arith, λ h. refl)
read_check q AccessLevel.full_access = (λ h. omega arith, λ h. refl)

write_check :
    (r : CanonicalRule) (level : AccessLevel)
    → (check_level (CanonicalForm.rule r) level ≡ ok tt) ↔ (2 ≤ rank level)
unfolding can_read can_write
write_check r AccessLevel.denied = (λ h. absurd (cc h), λ h. absurd (omega arith))
write_check r AccessLevel.read_only = (λ h. absurd (cc h), λ h. absurd (omega arith))
write_check r AccessLevel.read_write = (λ h. omega arith, λ h. refl)
write_check r AccessLevel.full_access = (λ h. omega arith, λ h. refl)

check_level-ok :
    (form : CanonicalForm) (level : AccessLevel)
    → (check_level form level ≡ ok tt) ↔ (rank (required form) ≤ rank level)
check_level-ok (CanonicalForm.query e) level = read_check e level
check_level-ok (CanonicalForm.rule e) level = write_check e level
check_level-ok (CanonicalForm.assert_fact m) level =
    write_check (record { exom = m.exom; clauses = no_items }) level
check_level-ok (CanonicalForm.retract_fact r) level =
    write_check (record { exom = r.exom; clauses = no_items }) level

permitted_write : (g : ShareGrant) → 2 ≤ rank (permitted g) → g.permission ≡ codes "read-write"
permitted_write g h = elim (Bool-cases (text_eq g.permission (codes "read-write"))) [
  | inl e ↦ (text_eq_iff g.permission (codes "read-write")).0 e
  | inr e ↦ elim (Bool-cases (text_eq g.permission (codes "read"))) [
    | inl i ↦ absurd (omega (arith, rw (e, i) at h))
    | inr i ↦ absurd (omega (arith, rw (e, i) at h))
  ]
]

module _ (user : User) (shares : Text → List ShareGrant) (owner_for : Text → PublicOwner) where
  -- What a form needs: a path, and the level for what it does.
  abbrev pub IsAllowed : CanonicalForm → Type 0
  IsAllowed form =
      (form_path form ≢ [])
      × (rank (required form)
          ≤ rank (resolve_access user (form_path form) shares (owner_for (form_path form))))

  authorize_form-IsAllowed :
      (form : CanonicalForm) → (authorize_form user shares owner_for form ≡ ok tt) ↔ IsAllowed form
  unfolding authorize_form can_read can_write
  authorize_form-IsAllowed form =
      let level = resolve_access user (form_path form) shares (owner_for (form_path form)) in
      elim (Bool-cases (text_eq (form_path form) [])) [
        | inl e ↦
            rw e (λ h. absurd (cc h), λ a. absurd (a.0 ((text_eq_iff (form_path form) []).0 e)))
        | inr e ↦ rw e (
          λ h. (
            λ i. ground (arith, (text_eq_iff (form_path form) []).1 i),
            (check_level-ok form level).0 h,
          ),
          λ a. (check_level-ok form level).1 a.1,
        )
      ]

  -- A batch is let through exactly when each of its forms names an exom and the user has the level
  -- there that the form needs: read-only for a query, read-write for the others.
  pub authorize_rayfall-IsAllowed :
      (forms : List CanonicalForm)
      → (authorize_rayfall user shares owner_for forms ≡ ok tt)
        ↔ ((form : CanonicalForm) → Memᴰ form forms → IsAllowed form)
  unfolding authorize_rayfall
  authorize_rayfall-IsAllowed [] = (λ h form m. elim m [ ], λ h. refl)
  authorize_rayfall-IsAllowed (form ∷ forms) = (
    λ h f m.
        let (u, e, r) = >>=-eq-ok (authorize_form user shares owner_for form) _ h in
        elim (Memᴰ-cons m) [
          | inl same ↦ rw same ((authorize_form-IsAllowed form).0 e)
          | inr n ↦ (authorize_rayfall-IsAllowed forms).0 r f n
        ],
    λ h.
        rw ((authorize_form-IsAllowed form).1 (h form (Memᴰ.head refl)))
          ((authorize_rayfall-IsAllowed forms).1 (λ f m. h f (Memᴰ.tail m))),
  )

  -- In a batch that is let through, a form that writes outside `public` and outside the user's own
  -- namespace rests on a grant of the user's that says `read-write`, on the exom's path or above it.
  pub authorize_rayfall-grant :
      (forms : List CanonicalForm) (form : CanonicalForm)
      → authorize_rayfall user shares owner_for forms ≡ ok tt
      → Memᴰ form forms
      → is_write form ≡ true
      → (¬ IsBelow public_root (form_path form))
      → (¬ IsBelow user.email (form_path form))
      → (g : ShareGrant) × Memᴰ g (shares user.email)
        × IsBelow g.path (form_path form)
        × (g.permission ≡ codes "read-write")
  authorize_rayfall-grant forms form h m w private foreign =
      let allowed = ((authorize_rayfall-IsAllowed forms).0 h form m).1 in
      let two : 2
          ≤ rank (resolve_access user (form_path form) shares (owner_for (form_path form))) =
        rw w at allowed in
      let by_grants =
        resolve_access-grants user (form_path form) shares (owner_for (form_path form)) private
          foreign in
      elim (resolve_from_grants-IsDecided (form_path form) (shares user.email)) [
        | by_grant g n b same deepest ↦
            (g, n, b, permitted_write g (subst (λ l. 2 ≤ rank l) (by_grants ∙ same) two))
        | by_none same alone ↦
            absurd (omega (arith, subst (λ l. 2 ≤ rank l) (by_grants ∙ same) two))
      ]
