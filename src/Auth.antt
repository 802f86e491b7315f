-- ===== src/Auth.antt =====
-- src/auth/mod.rs and the rows of src/auth/store.rs: users, levels of access, shares.
pub mod Access
pub mod Shares
mod Tests
use ray_exomem.Prelude.{ℕ, Text, Bool, true, false, Option, none, some, leb, or_else}
use ray_exomem.Brain.{MutationContext}

pub data UserRole : Type 0 where
  regular admin top_admin : UserRole

pub record User : Type 0 where
  pub email : Text
  pub display_name : Text
  pub provider : Text
  pub session_id : Option Text
  pub api_key_label : Option Text
  pub role : UserRole

unfoldable pub is_admin : User → Bool
is_admin u = elim u.role [ regular ↦ false | admin ↦ true | top_admin ↦ true ]

unfoldable pub is_top_admin : User → Bool
is_top_admin u = elim u.role [ regular ↦ false | admin ↦ false | top_admin ↦ true ]

pub data AccessLevel : Type 0 where
  denied read_only read_write full_access : AccessLevel

-- The order that is derived from the order of the constructors.
abbrev pub rank : AccessLevel → ℕ
rank AccessLevel.denied = 0
rank AccessLevel.read_only = 1
rank AccessLevel.read_write = 2
rank AccessLevel.full_access = 3

unfoldable pub can_read : AccessLevel → Bool
can_read level = leb (rank AccessLevel.read_only) (rank level)

unfoldable pub can_write : AccessLevel → Bool
can_write level = leb (rank AccessLevel.read_write) (rank level)

-- `AclMode` of src/exom.rs.
pub data AclMode : Type 0 where
  solo_edit co_edit : AclMode

pub data PublicOwner : Type 0 where
  unknown ownerless : PublicOwner
  owner : (email : Text) → AclMode → PublicOwner

pub record ShareGrant : Type 0 where
  pub share_id : Text
  pub owner_email : Text
  pub path : Text
  pub grantee_email : Text
  pub permission : Text
  pub created_at : Text

-- `MutationContext::from_user` of src/context.rs.
unfoldable pub from_user : User → (agent model : Option Text) → MutationContext
from_user u agent model = record {
  user_email = some u.email;
  agent = or_else agent u.api_key_label;
  model = model;
  session = u.session_id;
}
