-- ===== src/Session/Gate.antt =====
-- src/brain.rs: the check before every mutation, and what changes its answer.
use ray_exomem.Prelude.{
  Text, codes, text_eq, Bool, true, false, not, ◌&&◌, ◌||◌, Option, none, some, List, [], ◌+◌,
  if◌then◌else◌, any, is_some,
}
use ray_exomem.Prelude.Fallible.{Fallible, ok, err}
use ray_exomem.Brain.{Branch, main_branch}
use ray_exomem.Brain.Write.BranchOps.{is_named}
use ray_exomem.Auth.{AclMode, solo_edit, co_edit}
use ray_exomem.Session.Exom.{
  ExomDir, ExomMeta, SessionMeta, MetaFile, absent, unreadable, readable, NodeKind, missing, folder,
  exom, classify, Storage, WriteError,
}
use ray_exomem.Session.Claims.{loaded, claim_branch}

abbrev pub is_exom : NodeKind → Bool
is_exom missing = false
is_exom folder = false
is_exom exom = true

abbrev pub is_closed : Option SessionMeta → Bool
is_closed none = false
is_closed (some s) = is_some s.closed_at

abbrev pub is_co_edit : AclMode → Bool
is_co_edit solo_edit = false
is_co_edit co_edit = true

-- `read_meta` and the check of the session that `precheck_write` and `session_join` begin with.
unfoldable pub open_meta : MetaFile → Fallible WriteError ExomMeta
open_meta absent = err WriteError.no_such_exom
open_meta unreadable = err WriteError.io
open_meta (readable meta) =
    if is_closed meta.session then err WriteError.session_closed else ok meta

unfoldable pub open_exom : ExomDir → Fallible WriteError ExomMeta
open_exom d = if is_exom (classify d) then open_meta d.meta else err WriteError.no_such_exom

abbrev is_main : Text → Bool
is_main branch = text_eq branch main_branch

-- `main` is there even when the table is not.
abbrev pub has_branch : Text → List Branch → Bool
has_branch branch branches = is_main branch || any (is_named branch) branches

-- `session_join` goes by the name alone.
abbrev pub has_branch_name : Text → List Branch → Bool
has_branch_name name branches =
    is_main name || any (λ b. text_eq b.name name && not b.archived) branches

module _ (S : Storage) (branch user_email : Text) (agent model : Option Text) where
  abbrev claim : ExomDir → Fallible WriteError Unit × ExomDir
  claim = claim_branch S branch user_email agent model

  unfoldable pub check_branch :
      ExomMeta → Option (List Branch) → ExomDir → Fallible WriteError Unit × ExomDir
  check_branch meta none d = (err WriteError.io, d)
  check_branch meta (some branches) d =
      if not (has_branch branch branches)
      then (err (WriteError.branch_missing branch), d)
      else (if is_co_edit meta.acl_mode && is_main branch then (ok tt, d) else claim d)

  unfoldable pub check_meta :
      Fallible WriteError ExomMeta → ExomDir → Fallible WriteError Unit × ExomDir
  check_meta (err e) d = (err e, d)
  check_meta (ok meta) d = let read = loaded S d in check_branch meta read.0 read.1

  unfoldable pub precheck_write : ExomDir → Fallible WriteError Unit × ExomDir
  precheck_write d =
      if text_eq user_email []
      then (err WriteError.actor_required, d)
      else check_meta (open_exom d) d

  -- Joining a session: the branch, by its name, must be there; then it is claimed.
  unfoldable pub join_branch : Option (List Branch) → ExomDir → Fallible WriteError Unit × ExomDir
  join_branch none d = (err WriteError.io, d)
  join_branch (some branches) d =
      if not (has_branch_name branch branches)
      then (err (WriteError.branch_missing branch), d)
      else claim d

  unfoldable pub join_meta :
      Fallible WriteError ExomMeta → ExomDir → Fallible WriteError Unit × ExomDir
  join_meta (err e) d = (err e, d)
  join_meta (ok meta) d = let read = loaded S d in join_branch read.0 read.1

  unfoldable pub session_join : ExomDir → Fallible WriteError Unit × ExomDir
  session_join d = join_meta (open_exom d) d

abbrev pub label_key : Text
label_key = codes "session/label"

abbrev pub closed_at_key : Text
closed_at_key = codes "session/closed_at"

abbrev pub archived_at_key : Text
archived_at_key = codes "session/archived_at"

-- The field that a predicate stands for; `none` for a predicate that is not mirrored.
unfoldable pub mirrored : (predicate value : Text) → SessionMeta → Option SessionMeta
mirrored predicate value sess =
    if text_eq predicate label_key
    then some (record sess { label = value })
    else (if text_eq predicate closed_at_key
        then some (record sess { closed_at = some value })
        else (if text_eq predicate archived_at_key
            then some (record sess { archived_at = some value })
            else none))

-- `write_meta` creates the directory, and writes or fails.
unfoldable pub write_meta : Storage → ExomMeta → ExomDir → Fallible WriteError Unit × ExomDir
write_meta S meta d =
    if S.write_ok d.ticks
    then (ok tt, record d { exists = true; meta = readable meta; ticks = d.ticks + 1 })
    else (err WriteError.io, record d { ticks = d.ticks + 1 })

unfoldable pub mirror_fields :
    Storage
    → (predicate value : Text) → ExomMeta
    → Option SessionMeta
    → ExomDir
    → Fallible WriteError Unit × ExomDir
mirror_fields S predicate value meta none d = (ok tt, d)
mirror_fields S predicate value meta (some sess) d = elim (mirrored predicate value sess) [
  | none ↦ (ok tt, d)
  | some changed ↦ write_meta S (record meta { session = some changed }) d
]

unfoldable pub mirror_session_meta_to_disk :
    Storage → (predicate value : Text) → ExomDir → Fallible WriteError Unit × ExomDir
mirror_session_meta_to_disk S predicate value d = elim d.meta [
  | absent ↦ (err WriteError.io, d)
  | unreadable ↦ (err WriteError.io, d)
  | readable meta ↦ mirror_fields S predicate value meta meta.session d
]
