-- ===== src/Auth/Access/Grants.antt =====
-- `resolve_from_grants` and `resolve_access` of src/auth/access.rs against what they are for.
use mathlib.Core.Path.{subst}
use mathlib.Core.List.{append_assoc}
use ray_exomem.Prelude.{
  ℕ, ◌≡◌, ◌≢◌, ◌↔◌, ◌⊎◌, inl, inr, refl, ap, sym, ◌∙◌, ◌≤◌, Text, text_eq, text_eq_iff,
  text_eq_refl, starts_with, starts_with-append, starts_with_sound, codes, true, false, ◌&&◌,
  Option, none, some, List, [], ◌∷◌, ◌++◌, ltb, length, Memᴰ, Memᴰ-cons, Bool-cases, Option-cases,
  arith, ==_iff,
}
use ray_exomem.Auth.{User, AccessLevel, PublicOwner, ShareGrant}
use ray_exomem.Auth.Access.{
  slash, byte_at, is_byte, matches, depth, is_deeper, better, find_best, permitted, level_of,
  resolve_from_grants, public_root, is_within, resolve_access,
}

-- A folder, or something in it.
abbrev pub IsBelow : Text → Text → Type 0
IsBelow root path = (path ≡ root) ⊎ ((rest : Text) × (path ≡ root ++ slash ∷ rest))

starts_split :
    (root path : Text)
    → starts_with path root ≡ true
    → is_byte (byte_at path (length root)) slash ≡ true
    → (rest : Text) × (path ≡ root ++ slash ∷ rest)
unfolding starts_with byte_at
starts_split [] [] s b = absurd (cc b)
starts_split [] (c ∷ cs) s b = (cs, ap (λ x. x ∷ cs) ((==_iff c slash).0 b))
starts_split (r ∷ root) [] s b = absurd (cc s)
starts_split (r ∷ root) (c ∷ cs) s b =
    let (rest, e) = starts_split root cs (ground arith) b in
    let i : c ≡ r = ground (arith, ==_iff c r) in (rest, cc (e, i))

byte_below :
    (root rest : Text) → is_byte (byte_at (root ++ slash ∷ rest) (length root)) slash ≡ true
unfolding byte_at
byte_below [] rest = refl
byte_below (r ∷ root) rest = byte_below root rest

-- A grant matches the paths at and below its own, and no other.
pub matches-IsBelow : (path : Text) (g : ShareGrant) → (matches path g ≡ true) ↔ IsBelow g.path path
unfolding matches
matches-IsBelow path g = (
  λ h. elim (Bool-cases (text_eq path g.path)) [
    | inl e ↦ inl ((text_eq_iff path g.path).0 e)
    | inr e ↦ inr (starts_split g.path path (ground arith) (ground arith))
  ],
  λ h. elim h [
    | inl e ↦ rw (e, text_eq_refl g.path)
    | inr (rest, e) ↦
        rw (e, starts_with-append g.path (slash ∷ rest), byte_below g.path rest) (ground arith)
  ],
)

better-some :
    (path : Text) (g b : ShareGrant) (m : ℕ)
    → (x : ShareGrant × ℕ) × (better path g (some (b, m)) ≡ some x) × (m ≤ x.1)
unfolding better
better-some path g b m = elim (Bool-cases (matches path g && ltb m (depth g))) [
  | inl e ↦ ((g, depth g), rw e, ground arith)
  | inr e ↦ ((b, m), rw e, omega arith)
]

better_matching :
    (path : Text) (g : ShareGrant) (best : Option (ShareGrant × ℕ))
    → matches path g ≡ true
    → (x : ShareGrant × ℕ) × (better path g best ≡ some x) × (depth g ≤ x.1)
unfolding better
better_matching path g none h = ((g, depth g), rw h, omega arith)
better_matching path g (some (b, m)) h = elim (Bool-cases (ltb m (depth g))) [
  | inl e ↦ ((g, depth g), rw (h, e), omega arith)
  | inr e ↦ ((b, m), rw (h, e), ground arith)
]

find_best-some :
    (path : Text) (grants : List ShareGrant) (b : ShareGrant) (m : ℕ)
    → (x : ShareGrant × ℕ) × (find_best path grants (some (b, m)) ≡ some x) × (m ≤ x.1)
unfolding find_best
find_best-some path [] b m = ((b, m), refl, omega arith)
find_best-some path (g ∷ grants) b m =
    let ((c, k), e, le) = better-some path g b m in
    let (x, f, more) = find_best-some path grants c k in (x, rw e f, omega arith)

-- No matching grant is deeper than the one that is found, and one is found.
find_best-bound :
    (path : Text) (grants : List ShareGrant) (best : Option (ShareGrant × ℕ)) (h : ShareGrant)
    → Memᴰ h grants
    → matches path h ≡ true
    → (x : ShareGrant × ℕ) × (find_best path grants best ≡ some x) × (depth h ≤ x.1)
unfolding find_best
find_best-bound path [] best h n k = elim n [ ]
find_best-bound path (g ∷ grants) best h n k = elim (Memᴰ-cons n) [
  | inl e ↦
      let ((c, d), f, le) = better_matching path g best (subst (λ y. matches path y ≡ true) e k) in
      let (x, i, more) = find_best-some path grants c d in
      (x, rw f i, let same = ap depth e in omega (arith, same))
  | inr t ↦ find_best-bound path grants (better path g best) h t k
]

better-source :
    (path : Text) (g : ShareGrant) (best : Option (ShareGrant × ℕ)) (x : ShareGrant × ℕ)
    → better path g best ≡ some x
    → (best ≡ some x) ⊎ ((x ≡ (g, depth g)) × (matches path g ≡ true))
unfolding better
better-source path g best x e = elim (Bool-cases (matches path g && is_deeper best (depth g))) [
  | inl h ↦ inr (cc (e, h), ground arith)
  | inr h ↦ inl (cc (e, h))
]

find_best-source :
    (path : Text) (grants : List ShareGrant) (best : Option (ShareGrant × ℕ)) (x : ShareGrant × ℕ)
    → find_best path grants best ≡ some x
    → (best ≡ some x) ⊎ (Memᴰ x.0 grants × (matches path x.0 ≡ true) × (x.1 ≡ depth x.0))
unfolding find_best
find_best-source path [] best x e = inl e
find_best-source path (g ∷ grants) best x e =
    elim (find_best-source path grants (better path g best) x e) [
      | inl same ↦ elim (better-source path g best x same) [
        | inl old ↦ inl old
        | inr (i, m) ↦ inr (rw i (Memᴰ.head refl, m, refl))
      ]
      | inr (n, m, d) ↦ inr (Memᴰ.tail n, m, d)
    ]

-- What a level is decided by: a matching grant that no matching grant is deeper than, or none.
pub data IsDecided (path : Text) (grants : List ShareGrant) (level : AccessLevel) : Type 0 where
  by_grant :
      (g : ShareGrant)
      → Memᴰ g grants
      → IsBelow g.path path
      → level ≡ permitted g
      → ((h : ShareGrant) → Memᴰ h grants → IsBelow h.path path → depth h ≤ depth g)
      → IsDecided path grants level
  by_none :
      level ≡ AccessLevel.denied
      → ((h : ShareGrant) → Memᴰ h grants → ¬ IsBelow h.path path)
      → IsDecided path grants level

-- The level that grants give at a path is that of a grant on the path or above it that no other
-- such grant is deeper than; where there is no such grant, access is denied.
pub resolve_from_grants-IsDecided :
    (path : Text) (grants : List ShareGrant)
    → IsDecided path grants (resolve_from_grants path grants)
unfolding resolve_from_grants
resolve_from_grants-IsDecided path grants = elim (Option-cases (find_best path grants none)) [
  | inl e ↦ by_none (ap level_of e) (λ h n below.
      let (x, f, le) = find_best-bound path grants none h n ((matches-IsBelow path h).1 below) in
      absurd (cc (e, f)))
  | inr (x, e) ↦ elim (find_best-source path grants none x e) [
    | inl f ↦ absurd (cc f)
    | inr (n, m, d) ↦ by_grant x.0 n ((matches-IsBelow path x.0).0 m) (ap level_of e) (λ h k below.
        let (y, f, le) = find_best-bound path grants none h k ((matches-IsBelow path h).1 below) in
        let same : x.1 ≡ y.1 = cc (e, f) in omega (arith, d, same))
  ]
]

pub is_within-IsBelow : (root path : Text) → (is_within root path ≡ true) ↔ IsBelow root path
unfolding is_within
is_within-IsBelow root path = (
  λ h. elim (Bool-cases (text_eq path root)) [
    | inl e ↦ inl ((text_eq_iff path root).0 e)
    | inr e ↦
        let (rest, i) = starts_with_sound (root ++ slash ∷ []) path (ground arith) in
        inr (rest, i ∙ append_assoc root (slash ∷ []) rest)
  ],
  λ h. elim h [
    | inl e ↦ rw (e, text_eq_refl root)
    | inr (rest, e) ↦
        let i : path ≡ (root ++ slash ∷ []) ++ rest =
          e ∙ sym (append_assoc root (slash ∷ []) rest) in
        rw (i, starts_with-append (root ++ slash ∷ []) rest) (ground arith)
  ],
)

permitted_below : (g : ShareGrant) → permitted g ≢ AccessLevel.full_access
permitted_below g e = elim (Bool-cases (text_eq g.permission (codes "read-write"))) [
  | inl h ↦ absurd (cc (rw h at e))
  | inr h ↦ elim (Bool-cases (text_eq g.permission (codes "read"))) [
    | inl i ↦ absurd (cc (rw (h, i) at e))
    | inr i ↦ absurd (cc (rw (h, i) at e))
  ]
]

from_grants_below :
    (path : Text) (grants : List ShareGrant)
    → resolve_from_grants path grants ≢ AccessLevel.full_access
from_grants_below path grants e = elim (resolve_from_grants-IsDecided path grants) [
  | by_grant g n b same deepest ↦ permitted_below g (sym same ∙ e)
  | by_none same alone ↦ absurd (cc (same, e))
]

not_within : (root path : Text) → (¬ IsBelow root path) → is_within root path ≡ false
not_within root path h = elim (Bool-cases (is_within root path)) [
  | inl e ↦ absurd (h ((is_within-IsBelow root path).0 e))
  | inr e ↦ e
]

pub resolve_access-grants :
    (user : User) (path : Text) (shares : Text → List ShareGrant) (o : PublicOwner)
    → (¬ IsBelow public_root path)
    → (¬ IsBelow user.email path)
    → resolve_access user path shares o ≡ resolve_from_grants path (shares user.email)
unfolding resolve_access
resolve_access-grants user path shares o private foreign =
    rw (not_within public_root path private, not_within user.email path foreign)

-- Outside `public` a user has full access at the paths of the namespace named by their email and at
-- no other, whatever their role and their grants.
pub resolve_access-owner :
    (user : User) (path : Text) (shares : Text → List ShareGrant) (o : PublicOwner)
    → (¬ IsBelow public_root path)
    → (resolve_access user path shares o ≡ AccessLevel.full_access) ↔ IsBelow user.email path
unfolding resolve_access
resolve_access-owner user path shares o private =
    let outside = not_within public_root path private in
    elim (Bool-cases (is_within user.email path)) [
      | inl h ↦ rw (outside, h) (λ e. (is_within-IsBelow user.email path).0 h, λ b. refl)
      | inr h ↦
          rw (outside, h)
            (
              λ e. absurd (from_grants_below path (shares user.email) e),
              λ b. absurd (cc ((is_within-IsBelow user.email path).1 b, h)),
            )
    ]
