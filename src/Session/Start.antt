-- ===== src/Session/Start.antt =====
-- src/brain.rs: `create_branch` on the table of an exom, and `session_new`, which makes the exom of a
-- session with a branch for each participant.
use ray_exomem.Prelude.{
  Text, codes, text_eq, text_mem, Bool, false, true, not, ◌&&◌, ◌||◌, Option, none, some, List, [],
  ◌∷◌, ◌++◌, ◌==◌, if◌then◌else◌, any,
}
use ray_exomem.Prelude.Fallible.{Fallible, ok, err}
use ray_exomem.Brain.{Branch, main_branch}
use ray_exomem.Path.{TreePath, PathError, join, slash, colon}
use ray_exomem.Session.Exom.{
  ExomDir, SessionType, SessionMeta, NodeKind, new_session, session_id, Storage, WriteError,
}
use ray_exomem.Session.Claims.{loaded, saved, claim_branch}
use ray_exomem.Session.Gate.{is_exom, write_meta}

pub data ScaffoldError : Type 0 where
  path : PathError → ScaffoldError
  bad_label bad_email : Text → ScaffoldError
  nest_inside_exom : TreePath → ScaffoldError
  failed : WriteError → ScaffoldError

abbrev pub Made : Type 0
Made = Fallible ScaffoldError Unit × ExomDir

abbrev pub lifted : Fallible WriteError Unit × ExomDir → Made
lifted (ok u, d) = (ok u, d)
lifted (err e, d) = (err (ScaffoldError.failed e), d)

abbrev pub and_then : Made → (ExomDir → Made) → Made
and_then (ok u, d) f = f d
and_then (err e, d) f = (err e, d)

abbrev pub is_live_name : Text → Branch → Bool
is_live_name name b = text_eq b.name name && not b.archived

abbrev pub unclaimed_row : Text → Branch
unclaimed_row branch_name = record {
  branch_id = branch_name;
  name = branch_name;
  parent_branch_id = if text_eq branch_name main_branch then none else some main_branch;
  created_tx_id = 0;
  archived = false;
  claimed_by_user_email = none;
  claimed_by_agent = none;
  claimed_by_model = none;
}

-- A slash, two colons or a blank in a row.
unfoldable pub has_double_colon : Text → Bool
has_double_colon [] = false
has_double_colon (a ∷ []) = false
has_double_colon (a ∷ b ∷ rest) = (a == colon && b == colon) || has_double_colon (b ∷ rest)

unfoldable pub is_bad_label : Text → Bool
is_bad_label label =
    text_eq label []
    || (any (λ c. c == slash) label || (has_double_colon label || any (λ c. c == 32) label))

-- The participants: the orchestrator first, each once.
unfoldable pub add_agents : List Text → List Text → List Text
add_agents seen [] = seen
add_agents seen (a ∷ agents) = add_agents (if text_mem a seen then seen else seen ++ a ∷ []) agents

-- The path of the session, with the segments checked.
unfoldable pub session_path : TreePath → Text → Fallible PathError TreePath
session_path project dir = elim (join project (codes "sessions")) [
  | err e ↦ err e
  | ok p ↦ join p dir
]

abbrev pub made_at : Fallible ScaffoldError Unit → TreePath → Fallible ScaffoldError TreePath
made_at (ok u) p = ok p
made_at (err e) p = err e

abbrev pub start_at :
    Fallible PathError TreePath
    → (TreePath → Made)
    → ExomDir
    → Fallible ScaffoldError TreePath × ExomDir
start_at (err e) f d = (err (ScaffoldError.path e), d)
start_at (ok p) f d = let made = f p in (made_at made.0 p, made.1)

module _ (S : Storage) where
  unfoldable pub create_loaded : Text → Option (List Branch) → ExomDir → Made
  create_loaded branch_name none d = (err (ScaffoldError.failed WriteError.io), d)
  create_loaded branch_name (some branches) d =
      if any (is_live_name branch_name) branches
      then (ok tt, d)
      else lifted (saved S (branches ++ unclaimed_row branch_name ∷ []) d)

  unfoldable pub create_branch : Text → ExomDir → Made
  create_branch branch_name d = let read = loaded S d in create_loaded branch_name read.0 read.1

  unfoldable pub create_branches : (user_email : Text) → List Text → ExomDir → Made
  create_branches user_email [] d = (ok tt, d)
  create_branches user_email (p ∷ participants) d =
      and_then (create_branch (if text_eq p user_email then main_branch else p) d)
        (create_branches user_email participants)

  -- exom.json, a branch for each participant, and the claim of `main`, on the new directory.
  unfoldable pub start_session :
      (now : Text)
      → SessionMeta
      → (user_email : Text) → (agent model : Option Text) → ExomDir
      → Made
  start_session now sess user_email agent model d =
      and_then (lifted (write_meta S (new_session now sess user_email) d)) (λ d1.
        and_then (create_branches user_email sess.agents d1)
          (λ d2. lifted (claim_branch S main_branch user_email agent model d2)))

  -- The directory of the session, which is made or could not be made, and then what goes into it.
  unfoldable pub in_new_dir : (made : Bool) → (ExomDir → Made) → ExomDir → Made
  in_new_dir false f d = (err (ScaffoldError.failed WriteError.io), d)
  in_new_dir true f d = f d

  -- `project_main` is the node `<project>/main`, `d` what stands in the place of the session, `ts`
  -- and `now` the two readings of the clock, and `made` whether `create_dir_all` works.
  unfoldable pub session_new :
      (project_main : NodeKind) (made : Bool) (ts now : Text)
      → TreePath
      → SessionType
      → (label user_email : Text) → (agent model : Option Text) → List Text
      → ExomDir
      → Fallible ScaffoldError TreePath × ExomDir
  session_new project_main made ts now project_path session_type label user_email agent model agents
        d =
      if is_bad_label label
      then (err (ScaffoldError.bad_label label), d)
      else (if text_eq user_email []
          then (err (ScaffoldError.bad_email user_email), d)
          else (if not (is_exom project_main)
              then (err (ScaffoldError.nest_inside_exom project_path), d)
              else start_at (session_path project_path (session_id ts session_type label))
                  (λ p.
                    in_new_dir made
                      (start_session now
                        (record {
                          session_type = session_type;
                          label = label;
                          initiated_by = user_email;
                          agents = add_agents (user_email ∷ []) agents;
                          closed_at = none;
                          archived_at = none;
                        })
                        user_email agent model)
                      d)
                  d))
