-- ===== src/Auth/Shares.antt =====
-- src/auth/store.rs: shares, in memory with a log of entries, or in a database. Sessions, keys and
-- the lists of who may log in are not here.
pub mod Replay
pub mod Reach
use ray_exomem.Prelude.{
  ℕ, zero, suc, Text, text_eq, starts_with, Bool, true, false, not, ◌&&◌, ◌||◌, ◌+◌, ◌-◌, Option,
  none, some, List, [], ◌∷◌, ◌++◌, if◌then◌else◌, ltb, length, map, retain, update_all,
  update_first, unwrap_or,
}
use ray_exomem.Auth.{ShareGrant}
use ray_exomem.Auth.Access.{is_within}

-- The entries about shares of the log; an entry is a line of JSON.
pub data Entry : Type 0 where
  share : ShareGrant → Entry
  share_revoke : (share_id : Text) → Entry
  share_path_update : (share_id old_path new_path : Text) → Entry

-- The trait `AuthDb` as far as shares go (`none` is an error), and whether the n-th line that is
-- appended reaches the log.
pub record Backend : Type 1 where
  pub Db : Type 0
  pub add_share : ShareGrant → Db → Db
  pub shares_for_grantee : Text → Db → Option (List ShareGrant)
  pub list_all_shares : Db → Option (List ShareGrant)
  pub update_share_paths : (old new : Text) → Db → Db
  pub revoke_share : Text → Db → Option Bool × Db
  pub append_ok : ℕ → Bool

pub record AuthStore (B : Backend) : Type 0 where
  pub auth_db : Option B.Db
  pub share_grants : List ShareGrant
  pub jsonl : List Entry
  pub appends : ℕ

abbrev pub with_path : Text → ShareGrant → ShareGrant
with_path path g = record g { path = path }

abbrev pub has_share_id : Text → ShareGrant → Bool
has_share_id share_id g = text_eq g.share_id share_id

-- `apply_entry`, on the grants.
unfoldable pub apply_entry : Entry → List ShareGrant → List ShareGrant
apply_entry (Entry.share g) grants = grants ++ g ∷ []
apply_entry (Entry.share_revoke share_id) grants =
    retain (λ g. not (has_share_id share_id g)) grants
apply_entry (Entry.share_path_update share_id old_path new_path) grants =
    update_first (has_share_id share_id) (with_path new_path) grants

unfoldable pub replay_jsonl : List Entry → List ShareGrant → List ShareGrant
replay_jsonl [] grants = grants
replay_jsonl (e ∷ entries) grants = replay_jsonl entries (apply_entry e grants)

unfoldable pub drop : ℕ → Text → Text
drop zero t = t
drop (suc n) [] = []
drop (suc n) (c ∷ t) = drop n t

abbrev pub moved_path : (old new : Text) → ShareGrant → Text
moved_path old new g = new ++ drop (length old) g.path

-- The grants of the folder whose path changes.
abbrev pub is_moved : (old new : Text) → ShareGrant → Bool
is_moved old new g = is_within old g.path && not (text_eq g.path (moved_path old new g))

abbrev pub move : (old new : Text) → ShareGrant → ShareGrant
move old new g = with_path (moved_path old new g) g

abbrev pub is_under : Text → ShareGrant → Bool
is_under prefix g = is_within prefix g.path

-- One entry for each grant that moves, with the new path.
unfoldable pub move_entries : (old new : Text) → List ShareGrant → List Entry
move_entries old new [] = []
move_entries old new (g ∷ grants) =
    let rest = move_entries old new grants in
    if is_moved old new g
    then Entry.share_path_update g.share_id old (moved_path old new g) ∷ rest
    else rest

unfoldable pub revoke_entries : Text → List ShareGrant → List Entry
revoke_entries prefix [] = []
revoke_entries prefix (g ∷ grants) =
    let rest = revoke_entries prefix grants in
    if is_under prefix g then Entry.share_revoke g.share_id ∷ rest else rest

-- In a database every grant below the prefix is revoked by its id, and those that were count.
unfoldable pub revoke_under : (B : Backend) → Text → List ShareGrant → B.Db → ℕ × B.Db
revoke_under B prefix [] db = (0, db)
revoke_under B prefix (g ∷ grants) db = elim (is_under prefix g) [
  | true ↦
      let answer = B.revoke_share g.share_id db in
      let rest = revoke_under B prefix grants answer.1 in
      (if unwrap_or answer.0 false then rest.0 + 1 else rest.0, rest.1)
  | false ↦ revoke_under B prefix grants db
]

module _ {B : Backend} where
  unfoldable pub append_entry : Entry → AuthStore B → AuthStore B
  append_entry e s = record s {
    jsonl = if B.append_ok s.appends then s.jsonl ++ e ∷ [] else s.jsonl;
    appends = s.appends + 1;
  }

  unfoldable pub append_all : List Entry → AuthStore B → AuthStore B
  append_all [] s = s
  append_all (e ∷ entries) s = append_all entries (append_entry e s)

  unfoldable pub add_share_grant : ShareGrant → AuthStore B → AuthStore B
  add_share_grant grant s = elim s.auth_db [
    | some db ↦ record s { auth_db = some (B.add_share grant db) }
    | none ↦
        let logged = append_entry (Entry.share grant) s in
        record logged { share_grants = logged.share_grants ++ grant ∷ [] }
  ]

  unfoldable pub shares_for_grantee : Text → AuthStore B → List ShareGrant
  shares_for_grantee grantee_email s = elim s.auth_db [
    | some db ↦ unwrap_or (B.shares_for_grantee grantee_email db) []
    | none ↦ retain (λ (g : ShareGrant). text_eq g.grantee_email grantee_email) s.share_grants
  ]

  unfoldable pub update_share_paths : (old_prefix new_prefix : Text) → AuthStore B → AuthStore B
  update_share_paths old new s = if text_eq old new then s else elim s.auth_db [
    | some db ↦ record s { auth_db = some (B.update_share_paths old new db) }
    | none ↦
        append_all (move_entries old new s.share_grants)
          (record s { share_grants = update_all (is_moved old new) (move old new) s.share_grants })
  ]

  unfoldable pub revoke_share_by_id : Text → AuthStore B → Bool × AuthStore B
  revoke_share_by_id share_id s = elim s.auth_db [
    | some db ↦
        let answer = B.revoke_share share_id db in
        (unwrap_or answer.0 false, record s { auth_db = some answer.1 })
    | none ↦
        let grants = retain (λ g. not (has_share_id share_id g)) s.share_grants in
        let kept = record s { share_grants = grants } in
        if ltb (length grants) (length s.share_grants)
        then (true, append_entry (Entry.share_revoke share_id) kept)
        else (false, kept)
  ]

  unfoldable pub delete_shares_under : Text → AuthStore B → ℕ × AuthStore B
  delete_shares_under prefix s = elim s.auth_db [
    | some db ↦ elim (B.list_all_shares db) [
      | none ↦ (0, s)
      | some grants ↦
          let done = revoke_under B prefix grants db in (done.0, record s { auth_db = some done.1 })
    ]
    | none ↦
        let grants = retain (λ g. not (is_under prefix g)) s.share_grants in
        (
          length s.share_grants - length grants,
          append_all (revoke_entries prefix s.share_grants) (record s { share_grants = grants }),
        )
  ]
