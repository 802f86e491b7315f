-- ===== src/Session/Exom.antt =====
-- src/exom.rs: exom.json; with the branch table and the kind of the node (src/tree.rs) it makes up
-- the directory of an exom.
use ray_exomem.Prelude.{ℕ, Text, codes, Bool, true, false, Option, none, some, List, ◌++◌}
use ray_exomem.Brain.{Branch}
use ray_exomem.Auth.{AclMode}

pub data ExomKind : Type 0 where
  project_main session bare : ExomKind

pub data SessionType : Type 0 where
  multi single : SessionType

pub record SessionMeta : Type 0 where
  pub session_type : SessionType
  pub label : Text
  pub initiated_by : Text
  pub agents : List Text
  pub closed_at : Option Text
  pub archived_at : Option Text

pub record ForkLineage : Type 0 where
  pub source_path : Text
  pub source_tx_id : ℕ
  pub forked_at : Text

pub record ExomMeta : Type 0 where
  pub format_version : ℕ
  pub kind : ExomKind
  pub created_at : Text
  pub created_by : Text
  pub acl_mode : AclMode
  pub session : Option SessionMeta
  pub forked_from : Option ForkLineage

abbrev pub format_version : ℕ
format_version = 2

-- The constructors read the clock: `now` is what `now_iso8601_basic` gives.
unfoldable pub new_project_main : (now created_by : Text) → ExomMeta
new_project_main now created_by = record {
  format_version = format_version;
  kind = ExomKind.project_main;
  created_at = now;
  created_by = created_by;
  acl_mode = AclMode.solo_edit;
  session = none;
  forked_from = none;
}

unfoldable pub new_bare : (now created_by : Text) → ExomMeta
new_bare now created_by = record (new_project_main now created_by) { kind = ExomKind.bare }

unfoldable pub new_session : (now : Text) → SessionMeta → (created_by : Text) → ExomMeta
new_session now sess created_by = record {
  format_version = format_version;
  kind = ExomKind.session;
  created_at = now;
  created_by = created_by;
  acl_mode = AclMode.solo_edit;
  session = some sess;
  forked_from = none;
}

abbrev type_tag : SessionType → Text
type_tag SessionType.multi = codes "multi"
type_tag SessionType.single = codes "single"

unfoldable pub session_id : Text → SessionType → Text → Text
session_id ts_utc kind label =
    ts_utc ++ (codes "_" ++ (type_tag kind ++ (codes "_agent_" ++ label)))

pub data NodeKind : Type 0 where
  missing folder exom : NodeKind

-- What `read_meta` finds in the place of exom.json.
pub data MetaFile : Type 0 where
  absent unreadable : MetaFile
  readable : ExomMeta → MetaFile

-- A branch table that is not there reads as the empty list. `ticks` counts the calls of the
-- environment.
pub record ExomDir : Type 0 where
  pub exists : Bool
  pub meta : MetaFile
  pub branches : List Branch
  pub ticks : ℕ

abbrev pub node_kind : (exists : Bool) → MetaFile → NodeKind
node_kind false meta = NodeKind.missing
node_kind true MetaFile.absent = NodeKind.folder
node_kind true MetaFile.unreadable = NodeKind.exom
node_kind true (MetaFile.readable m) = NodeKind.exom

unfoldable pub classify : ExomDir → NodeKind
classify d = node_kind d.exists d.meta

-- The outcomes of the storage layer and of the file system at the n-th call.
pub record Storage : Type 0 where
  pub load_ok : ℕ → Bool
  pub save_ok : ℕ → Bool
  pub write_ok : ℕ → Bool

pub data WriteError : Type 0 where
  no_such_exom session_closed : WriteError
  branch_missing : Text → WriteError
  branch_owned : Text → WriteError
  actor_required io : WriteError
