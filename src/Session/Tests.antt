-- ===== src/Session/Tests.antt =====
-- Runs of the gate of src/brain.rs, and its theorems applied to them.
use mathlib.Core.Path.{subst}
use ray_exomem.Prelude.{
  ◌≡◌, ◌≢◌, ◌⊎◌, refl, Text, codes, text_eq, text_eq_refl, text_mem, true, false, ◌&&◌, none, some,
  [], ◌∷◌, any, all, find, update_first,
}
use ray_exomem.Prelude.Fallible.{Fallible, ok, err}
use ray_exomem.Brain.{main_branch}
use ray_exomem.Brain.Write.BranchOps.{set_claim, with_implicit_main}
use ray_exomem.Path.{TreePath, join, validate_segment}
use ray_exomem.Session.Exom.{
  ExomDir, ExomMeta, SessionMeta, SessionType, MetaFile, readable, NodeKind, classify, new_bare,
  new_project_main, new_session, session_id, Storage, WriteError,
}
use ray_exomem.Session.Claims.{IsOwned, HaveOwners, claim_branch, claim_row}
use ray_exomem.Session.Gate.{
  is_exom, is_closed, is_co_edit, open_meta, open_exom, has_branch, check_branch, check_meta,
  precheck_write, closed_at_key, mirrored, mirror_fields, mirror_session_meta_to_disk, write_meta,
}
use ray_exomem.Session.Laws.{
  precheck_write_sound, precheck_write-first_writer, precheck_write-mirror_session_meta_to_disk,
}
use ray_exomem.Session.Start.{
  ScaffoldError, is_bad_label, has_double_colon, session_path, in_new_dir, session_new,
  start_session, create_branches, create_branch, create_loaded, add_agents,
}
use ray_exomem.Session.Founder.{session_new-IsOwned}

abbrev storage : Storage
storage = record { load_ok = λ n. true; save_ok = λ n. true; write_ok = λ n. true }

abbrev now : Text
now = codes "20260101T000000Z"

abbrev ann : Text
ann = codes "ann@co.com"

abbrev bob : Text
bob = codes "bob@co.com"

abbrev bare_dir : ExomDir
bare_dir = record { exists = true; meta = readable (new_bare now ann); branches = []; ticks = 0 }

abbrev sess : SessionMeta
sess = record {
  session_type = SessionType.multi;
  label = codes "plan";
  initiated_by = ann;
  agents = ann ∷ [];
  closed_at = none;
  archived_at = none;
}

abbrev session_dir : ExomDir
session_dir = record bare_dir { meta = readable (new_session now sess ann) }

abbrev project : TreePath
project = record { segments = codes "work" ∷ [] }

abbrev place : TreePath
place = record {
  segments = codes "work" ∷ codes "sessions" ∷ codes "20260101T000000Z_multi_agent_plan" ∷ [];
}

abbrev nothing : ExomDir
nothing = record { exists = false; meta = MetaFile.absent; branches = []; ticks = 0 }

abbrev claimed_dir : ExomDir
claimed_dir = (precheck_write storage main_branch ann none none bare_dir).1

claimed_ok : precheck_write storage main_branch ann none none bare_dir ≡ (ok tt, claimed_dir)
unfolding precheck_write check_meta check_branch open_exom open_meta classify new_bare
    new_project_main claim_branch claim_row with_implicit_main any find text_eq update_first
    set_claim
claimed_ok = refl

bare_solo :
    (meta : ExomMeta)
    → bare_dir.meta ≡ readable meta
    → (is_co_edit meta.acl_mode && text_eq main_branch main_branch) ≡ false
unfolding new_bare new_project_main
bare_solo meta e =
    let i : new_bare now ann ≡ meta = cc e in
    subst (λ (m : ExomMeta). (is_co_edit m.acl_mode && text_eq main_branch main_branch) ≡ false) i
      refl

apart : text_eq ann bob ≡ false
unfolding text_eq
apart = refl

ann_differs : ann ≢ bob
ann_differs e =
    let same : text_eq ann bob ≡ true = subst (λ t. text_eq ann t ≡ true) e (text_eq_refl ann) in
    absurd (cc (same, apart))

no_rows : HaveOwners []
no_rows b m = elim m [ ]

precheck_write-first_writer_example :
    (precheck_write storage main_branch bob none none claimed_dir).0
    ≡ err (WriteError.branch_owned ann)
precheck_write-first_writer_example =
    precheck_write-first_writer storage main_branch ann bob none none none none bare_dir claimed_dir
      (λ n. refl) no_rows bare_solo claimed_ok (λ e. cc e) ann_differs

precheck_write_sound_example :
    (ann ≢ [])
    × ((meta : ExomMeta) × (bare_dir.meta ≡ readable meta)
        × (is_closed meta.session ≡ false)
        × (has_branch main_branch bare_dir.branches ≡ true)
        × (((is_co_edit meta.acl_mode && text_eq main_branch main_branch) ≡ true)
            ⊎ IsOwned main_branch ann claimed_dir.branches))
precheck_write_sound_example =
    precheck_write_sound storage main_branch ann none none bare_dir claimed_dir no_rows claimed_ok

abbrev closed_dir : ExomDir
closed_dir = (mirror_session_meta_to_disk storage closed_at_key now session_dir).1

closed_ok : mirror_session_meta_to_disk storage closed_at_key now session_dir ≡ (ok tt, closed_dir)
unfolding mirror_session_meta_to_disk mirror_fields mirrored write_meta text_eq new_session
closed_ok = refl

session_kept : (new_session now sess ann).session ≡ some sess
unfolding new_session
session_kept = refl

precheck_write-mirror_session_meta_to_disk_example :
    precheck_write storage main_branch ann none none closed_dir
    ≡ (err WriteError.session_closed, closed_dir)
precheck_write-mirror_session_meta_to_disk_example =
    precheck_write-mirror_session_meta_to_disk storage main_branch ann none none session_dir
      closed_dir (new_session now sess ann) sess now refl session_kept closed_ok (λ e. cc e)

abbrev made : Fallible ScaffoldError TreePath × ExomDir
made =
    session_new storage NodeKind.exom true now now project SessionType.multi (codes "plan") ann none
      none (bob ∷ []) nothing

made_ok :
    session_new storage NodeKind.exom true now now project SessionType.multi
      (codes "plan")
      ann
      none
      none
      (bob ∷ [])
      nothing
    ≡ (ok place, made.1)
unfolding session_new in_new_dir is_bad_label has_double_colon any text_eq session_path session_id
    join validate_segment all start_session write_meta create_branches create_branch create_loaded
    add_agents text_mem claim_branch claim_row with_implicit_main find update_first set_claim
    new_session
made_ok = refl

session_new-IsOwned_example :
    (is_bad_label (codes "plan") ≡ false)
    × (ann ≢ [])
    × (is_exom NodeKind.exom ≡ true)
    × (session_path project (session_id now SessionType.multi (codes "plan")) ≡ ok place)
    × IsOwned main_branch ann made.1.branches
session_new-IsOwned_example =
    session_new-IsOwned storage NodeKind.exom true now now project place SessionType.multi
      (codes "plan") ann none none (bob ∷ []) nothing made.1 no_rows made_ok
