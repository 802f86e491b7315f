-- ===== src/Session/Claims.antt =====
-- src/brain.rs: who owns a branch. A claim is made by the first who writes, and is kept.
use mathlib.Core.Path.{subst}
use ray_exomem.Prelude.{
  ◌+◌, ◌≡◌, ◌≢◌, refl, ap, ◌∙◌, inl, inr, Text, text_eq, text_eq_iff, Bool, true, false, not, ◌&&◌,
  Option, none, some, List, [], ◌∷◌, ◌++◌, if◌then◌else◌, any, find, find-Memᴰ, update_first, Memᴰ,
  Memᴰ-append, Memᴰ-single, Bool-cases, Option-cases, arith,
}
use ray_exomem.Prelude.Fallible.{Fallible, ok, err}
use ray_exomem.Brain.{Branch, main_branch, main_row}
use ray_exomem.Brain.Write.BranchOps.{set_claim, is_named, is_main_name, with_implicit_main}
use ray_exomem.Session.Exom.{ExomDir, Storage, WriteError}

abbrev pub is_someone_else : Text → Text → Bool
is_someone_else [] user_email = false
is_someone_else (c ∷ owner) user_email = not (text_eq (c ∷ owner) user_email)

module _ (S : Storage) where
  -- `load_branches_from_disk` and `save_branches_to_disk`.
  abbrev pub loaded : ExomDir → Option (List Branch) × ExomDir
  loaded d = (if S.load_ok d.ticks then some d.branches else none, record d { ticks = d.ticks + 1 })

  abbrev pub saved : List Branch → ExomDir → Fallible WriteError Unit × ExomDir
  saved branches d =
      if S.save_ok d.ticks
      then (ok tt, record d { branches = branches; ticks = d.ticks + 1 })
      else (err WriteError.io, record d { ticks = d.ticks + 1 })

  unfoldable pub claim_row :
      (branch_name user_email : Text)
      → (agent model : Option Text) → List Branch
      → Option Branch
      → ExomDir
      → Fallible WriteError Unit × ExomDir
  claim_row branch_name user_email agent model branches none d =
      (err (WriteError.branch_missing branch_name), d)
  claim_row branch_name user_email agent model branches (some b) d = elim b.claimed_by_user_email [
    | some owner ↦
        if is_someone_else owner user_email
        then (err (WriteError.branch_owned owner), d)
        else (ok tt, d)
    | none ↦
        saved
          (update_first (is_named branch_name) (set_claim (some (user_email, agent, model)))
            branches)
          d
  ]

  unfoldable pub claim_branch :
      (branch_name user_email : Text)
      → (agent model : Option Text) → ExomDir
      → Fallible WriteError Unit × ExomDir
  claim_branch branch_name user_email agent model d =
      let read = loaded d in
      elim read.0 [
        | none ↦ (err WriteError.io, read.1)
        | some branches ↦
            let all_branches = with_implicit_main branch_name branches in
            claim_row branch_name user_email agent model all_branches
              (find (is_named branch_name) all_branches) read.1
      ]

-- The row that a claim of this name is about.
abbrev pub claimed_row : Text → List Branch → Option Branch
claimed_row branch_name branches =
    find (is_named branch_name) (with_implicit_main branch_name branches)

pub record IsOwned (branch_name owner : Text) (branches : List Branch) : Type 0 where
  pub row : Branch
  pub found : claimed_row branch_name branches ≡ some row
  pub owned : row.claimed_by_user_email ≡ some owner

-- No branch is claimed by the empty email.
abbrev pub HaveOwners : List Branch → Type 0
HaveOwners branches = (b : Branch) → Memᴰ b branches → b.claimed_by_user_email ≢ some []

find-update_first :
    (p : Branch → Bool) (f : Branch → Branch) (xs : List Branch) {a : Branch}
    → ((x : Branch) → p (f x) ≡ p x)
    → find p xs ≡ some a
    → find p (update_first p f xs) ≡ some (f a)
unfolding find update_first
find-update_first p f [] same e = absurd (cc e)
find-update_first p f (x ∷ xs) {a} same e = elim (Bool-cases (p x)) [
  | inl h ↦
      let i : some x ≡ some a = rw h at e in
      rw (h, same x, h) (ap (λ (o : Option Branch). elim o [ none ↦ none | some y ↦ some (f y) ]) i)
  | inr h ↦ rw (h, h) (find-update_first p f xs same (rw h at e))
]

any-update_first :
    (q p : Branch → Bool) (f : Branch → Branch) (xs : List Branch)
    → ((x : Branch) → q (f x) ≡ q x)
    → any q (update_first p f xs) ≡ any q xs
unfolding any update_first
any-update_first q p f [] same = refl
any-update_first q p f (x ∷ xs) same = elim (Bool-cases (p x)) [
  | inl h ↦ rw (h, same x)
  | inr h ↦ rw (h, any-update_first q p f xs same)
]

any-main : (branches : List Branch) → any is_main_name (branches ++ main_row ∷ []) ≡ true
unfolding any text_eq
any-main [] = refl
any-main (b ∷ branches) = ground (arith, any-main branches)

implicit_main_once :
    (name : Text) (branches more : List Branch)
    → any is_main_name more ≡ any is_main_name (with_implicit_main name branches)
    → with_implicit_main name more ≡ more
unfolding with_implicit_main
implicit_main_once name branches more same = elim (Bool-cases (any is_main_name branches)) [
  | inl h ↦ let i : any is_main_name more ≡ true = (rw h at same) ∙ h in rw i
  | inr h ↦ elim (Bool-cases (text_eq name main_branch)) [
    | inl m ↦ let i : any is_main_name more ≡ true = (rw (h, m) at same) ∙ any-main branches in rw i
    | inr m ↦ let i : any is_main_name more ≡ false = (rw (h, m) at same) ∙ h in rw (i, m)
  ]
]

claimed_row-HaveOwners :
    (name : Text) (branches : List Branch) (b : Branch)
    → HaveOwners branches
    → claimed_row name branches ≡ some b
    → b.claimed_by_user_email ≢ some []
unfolding with_implicit_main
claimed_row-HaveOwners name branches b owners e =
    let (m, t) = find-Memᴰ (is_named name) (with_implicit_main name branches) e in
    elim (Bool-cases (not (any is_main_name branches) && text_eq name main_branch)) [
      | inl h ↦ elim (Memᴰ-append branches (rw h at m)) [
        | inl n ↦ owners b n
        | inr n ↦ λ i. absurd (cc (ap (λ (x : Branch). x.claimed_by_user_email) (Memᴰ-single n), i))
      ]
      | inr h ↦ owners b (rw h at m)
    ]

same_owner : (owner user : Text) → is_someone_else owner user ≡ false → owner ≢ [] → owner ≡ user
same_owner [] user h n = absurd (n refl)
same_owner (c ∷ owner) user h n = (text_eq_iff (c ∷ owner) user).0 (ground arith)

is_someone_else-differs :
    (owner user : Text) → owner ≢ [] → owner ≢ user → is_someone_else owner user ≡ true
is_someone_else-differs [] user n d = absurd (n refl)
is_someone_else-differs (c ∷ owner) user n d = elim (Bool-cases (text_eq (c ∷ owner) user)) [
  | inl e ↦ absurd (d ((text_eq_iff (c ∷ owner) user).0 e))
  | inr e ↦ rw e
]

module _ (S : Storage) (name user : Text) (agent model : Option Text) where
  abbrev claim : Branch → Branch
  claim = set_claim (some (user, agent, model))

  set_claim-is_named : (x : Branch) → is_named name (claim x) ≡ is_named name x
  unfolding set_claim
  set_claim-is_named x = refl

  set_claim-is_main_name : (x : Branch) → is_main_name (claim x) ≡ is_main_name x
  unfolding set_claim
  set_claim-is_main_name x = refl

  claimed-IsOwned :
      (branches : List Branch) (b : Branch)
      → claimed_row name branches ≡ some b
      → IsOwned name user (update_first (is_named name) claim (with_implicit_main name branches))
  claimed-IsOwned branches b found =
      let all_branches = with_implicit_main name branches in
      let once =
        implicit_main_once name branches (update_first (is_named name) claim all_branches) (
          any-update_first is_main_name (is_named name) claim all_branches
            set_claim-is_main_name) in
      record {
        row = claim b;
        found =
            ap (find (is_named name)) once
            ∙ find-update_first (is_named name) claim all_branches set_claim-is_named found;
        owned = unfold set_claim in refl;
      }

  claim_row-IsOwned :
      (branches : List Branch) (b : Branch) (d d' : ExomDir)
      → claimed_row name branches ≡ some b
      → b.claimed_by_user_email ≢ some []
      → d.branches ≡ branches
      → claim_row S name user agent model (with_implicit_main name branches) (some b) d
        ≡ (ok tt, d')
      → IsOwned name user d'.branches
  unfolding claim_row
  claim_row-IsOwned branches b d d' found named same e =
      elim (Option-cases b.claimed_by_user_email) [
        | inr (owner, o) ↦ elim (Bool-cases (is_someone_else owner user)) [
          | inl h ↦ absurd (cc (ap (λ q. q.0) (rw (o, h) at e)))
          | inr h ↦
              let i : owner ≡ user = same_owner owner user h (λ j. named (o ∙ ap some j)) in
              let k : d ≡ d' = ap (λ q. q.1) (rw (o, h) at e) in
              subst (λ (x : ExomDir). IsOwned name user x.branches) k
                (rw same (record { row = b; found = found; owned = o ∙ ap some i }))
        ]
        | inl o ↦ elim (Bool-cases (S.save_ok d.ticks)) [
          | inl h ↦
              subst (λ (x : ExomDir). IsOwned name user x.branches) (ap (λ q. q.1) (rw (o, h) at e))
                (claimed-IsOwned branches b found)
          | inr h ↦ absurd (cc (ap (λ q. q.0) (rw (o, h) at e)))
        ]
      ]

  -- A claim that succeeds leaves the branch to the one who made it.
  pub claim_branch-IsOwned :
      (d d' : ExomDir)
      → HaveOwners d.branches
      → claim_branch S name user agent model d ≡ (ok tt, d')
      → IsOwned name user d'.branches
  unfolding claim_branch claim_row
  claim_branch-IsOwned d d' owners e = elim (Bool-cases (S.load_ok d.ticks)) [
    | inl h ↦ elim (Option-cases (claimed_row name d.branches)) [
      | inl n ↦ absurd (cc (ap (λ q. q.0) (rw (claim_branch, h, n) at e)))
      | inr (b, f) ↦
          claim_row-IsOwned d.branches b _ d' f (claimed_row-HaveOwners name d.branches b owners f)
            refl (rw (claim_branch, h, f) at e)
    ]
    | inr h ↦ absurd (cc (ap (λ q. q.0) (rw (claim_branch, h) at e)))
  ]

  -- Nobody else can claim a branch that is owned, and a refused claim leaves the table as it was.
  pub claim_branch_refused :
      (owner : Text) (d : ExomDir)
      → IsOwned name owner d.branches
      → owner ≢ []
      → owner ≢ user
      → S.load_ok d.ticks ≡ true
      → claim_branch S name user agent model d
        ≡ (err (WriteError.branch_owned owner), (loaded S d).1)
  unfolding claim_branch claim_row
  claim_branch_refused owner d w named differs h =
      rw (claim_branch, h, w.found, w.owned, is_someone_else-differs owner user named differs)
