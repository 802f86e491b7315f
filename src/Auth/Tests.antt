-- ===== src/Auth/Tests.antt =====
-- Runs of src/auth/access.rs and of the shares of src/auth/store.rs, and theorems applied to them.
use ray_exomem.Prelude.{
  ◌≡◌, ◌↔◌, inl, inr, refl, ℕ, Text, codes, text_eq, starts_with, true, none, List, [], ◌∷◌, Memᴰ,
  arith,
}
use ray_exomem.Prelude.Fallible.{ok}
use ray_exomem.Rayfall.{no_items}
use ray_exomem.Rayfall.Forms.{CanonicalForm}
use ray_exomem.Auth.{
  User, UserRole, AccessLevel, AclMode, PublicOwner, ShareGrant, can_read, can_write,
}
use ray_exomem.Auth.Access.{
  byte_at, matches, count_slashes, find_best, better, resolve_from_grants, is_within, public_root,
  public_level, resolve_access, authorize_form, authorize_rayfall,
}
use ray_exomem.Auth.Access.Grants.{
  IsBelow, IsDecided, resolve_from_grants-IsDecided, resolve_access-owner,
}
use ray_exomem.Auth.Access.Batch.{IsAllowed, authorize_rayfall-IsAllowed, authorize_rayfall-grant}
use ray_exomem.Auth.Shares.{Backend, AuthStore, add_share_grant, update_share_paths, replay_jsonl}
use ray_exomem.Auth.Shares.Reach.{fresh_start, added, moved, replay_reachable}

abbrev bob : User
bob = record {
  email = codes "bob@co.com";
  display_name = codes "Bob";
  provider = codes "mock";
  session_id = none;
  api_key_label = none;
  role = UserRole.admin;
}

abbrev grant : (share_id path permission : Text) → ShareGrant
grant share_id path permission = record {
  share_id = share_id;
  owner_email = codes "alice@co.com";
  path = path;
  grantee_email = bob.email;
  permission = permission;
  created_at = codes "2026-01-01T00:00:00Z";
}

abbrev proj : ShareGrant
proj = grant (codes "s1") (codes "alice@co.com/proj") (codes "read")

abbrev secret : ShareGrant
secret = grant (codes "s2") (codes "alice@co.com/proj/secret") (codes "read-write")

abbrev grants : Text → List ShareGrant
grants email = proj ∷ secret ∷ []

abbrev note : Text
note = codes "alice@co.com/proj/secret/note"

abbrev asked : CanonicalForm
asked = CanonicalForm.query (record { exom = codes "bob@co.com"; clauses = no_items })

abbrev noted : CanonicalForm
noted =
    CanonicalForm.assert_fact
      (record { exom = note; fact_id = codes "f"; predicate = codes "p"; value = codes "v" })

abbrev writes : List CanonicalForm
writes = asked ∷ noted ∷ []

deeper_wins : resolve_from_grants note (grants bob.email) ≡ AccessLevel.read_write
unfolding resolve_from_grants find_best better matches starts_with text_eq byte_at count_slashes
deeper_wins = refl

no_partial_path :
    resolve_from_grants (codes "alice@co.com/projects") (grants bob.email) ≡ AccessLevel.denied
unfolding resolve_from_grants find_best better matches starts_with text_eq byte_at count_slashes
no_partial_path = refl

co_edit_opens :
    resolve_access bob
      (codes "public/wiki")
      grants
      (PublicOwner.owner (codes "alice@co.com") AclMode.co_edit)
    ≡ AccessLevel.read_write
unfolding resolve_access is_within public_level text_eq starts_with
co_edit_opens = refl

writes_pass : authorize_rayfall bob grants (λ _. PublicOwner.unknown) writes ≡ ok tt
unfolding authorize_rayfall authorize_form resolve_access resolve_from_grants is_within find_best
    better matches starts_with text_eq byte_at count_slashes can_read can_write
writes_pass = refl

note_private : ¬ IsBelow public_root note
note_private h = elim h [ inl e ↦ absurd (first_byte e) | inr (rest, e) ↦ absurd (first_byte e) ]
  where
    first_byte : {s t : Text} → ◌≡◌ {A = Text} (97 ∷ s) (112 ∷ t) → ⊥
    first_byte e = let same : ◌≡◌ {A = ℕ} 97 112 = cc e in omega (arith, same)

note_foreign : ¬ IsBelow bob.email note
note_foreign h = elim h [ inl e ↦ absurd (first_byte e) | inr (rest, e) ↦ absurd (first_byte e) ]
  where
    first_byte : {s t : Text} → ◌≡◌ {A = Text} (97 ∷ s) (98 ∷ t) → ⊥
    first_byte e = let same : ◌≡◌ {A = ℕ} 97 98 = cc e in omega (arith, same)

resolve_from_grants-IsDecided_example :
    IsDecided note (grants bob.email) (resolve_from_grants note (grants bob.email))
resolve_from_grants-IsDecided_example = resolve_from_grants-IsDecided note (grants bob.email)

resolve_access-owner_example :
    (resolve_access bob note grants PublicOwner.unknown ≡ AccessLevel.full_access)
    ↔ IsBelow bob.email note
resolve_access-owner_example = resolve_access-owner bob note grants PublicOwner.unknown note_private

authorize_rayfall-IsAllowed_example :
    (authorize_rayfall bob grants (λ _. PublicOwner.unknown) writes ≡ ok tt) ↔ (
      (form : CanonicalForm)
      → Memᴰ form writes
      → IsAllowed bob grants (λ _. PublicOwner.unknown) form)
authorize_rayfall-IsAllowed_example =
    authorize_rayfall-IsAllowed bob grants (λ _. PublicOwner.unknown) writes

authorize_rayfall-grant_example :
    (g : ShareGrant) × Memᴰ g (grants bob.email)
    × IsBelow g.path note
    × (g.permission ≡ codes "read-write")
authorize_rayfall-grant_example =
    authorize_rayfall-grant bob grants (λ _. PublicOwner.unknown) writes noted writes_pass
      (Memᴰ.tail (Memᴰ.head refl)) refl note_private note_foreign

abbrev Local : Backend
Local = record {
  Db = Unit;
  add_share = λ g db. db;
  shares_for_grantee = λ email db. none;
  list_all_shares = λ db. none;
  update_share_paths = λ old new db. db;
  revoke_share = λ share_id db. (none, db);
  append_ok = λ n. true;
}

abbrev empty_store : AuthStore Local
empty_store = record { auth_db = none; share_grants = []; jsonl = []; appends = 0 }

abbrev shared : AuthStore Local
shared = add_share_grant proj empty_store

abbrev renamed : AuthStore Local
renamed = update_share_paths (codes "alice@co.com") (codes "alice@new.com") shared

replay_reachable_example : replay_jsonl renamed.jsonl [] ≡ renamed.share_grants
replay_reachable_example =
    replay_reachable (λ n. refl) renamed
      (moved shared (codes "alice@co.com") (codes "alice@new.com")
        (added empty_store proj fresh_start (λ h m. elim m [ ])))
