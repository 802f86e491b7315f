-- ===== src/Auth/Access.antt =====
-- src/auth/access.rs: the level of access of a user at a path, and the check of a batch of forms.
-- A path is its bytes; the grants are those that the store gives for the user.
pub mod Grants
pub mod Batch
use ray_exomem.Prelude.{
  ℕ, suc, zero, Text, codes, text_eq, starts_with, Bool, true, false, not, ◌&&◌, ◌||◌, Option, none,
  some, List, [], ◌∷◌, ◌++◌, ◌==◌, ltb, if◌then◌else◌, length,
}
use ray_exomem.Prelude.Fallible.{Fallible, ok, err, ◌>>=◌, ◌>>◌}
use ray_exomem.Rayfall.Forms.{CanonicalForm, form_path}
use ray_exomem.Auth.{
  User, AccessLevel, can_read, can_write, AclMode, solo_edit, co_edit, PublicOwner, ShareGrant,
}

abbrev pub slash : ℕ
slash = 47

-- `as_bytes().get(n)`
unfoldable pub byte_at : Text → ℕ → Option ℕ
byte_at [] n = none
byte_at (c ∷ cs) zero = some c
byte_at (c ∷ cs) (suc n) = byte_at cs n

abbrev pub is_byte : Option ℕ → ℕ → Bool
is_byte none c = false
is_byte (some d) c = d == c

-- The whole path, or a part of it that ends before a slash.
unfoldable pub matches : Text → ShareGrant → Bool
matches path grant =
    if text_eq path grant.path
    then true
    else starts_with path grant.path && is_byte (byte_at path (length grant.path)) slash

unfoldable pub count_slashes : Text → ℕ
count_slashes [] = 0
count_slashes (c ∷ cs) = let n = count_slashes cs in if c == slash then suc n else n

abbrev pub depth : ShareGrant → ℕ
depth grant = count_slashes grant.path

abbrev pub is_deeper : Option (ShareGrant × ℕ) → ℕ → Bool
is_deeper none n = true
is_deeper (some (best, m)) n = ltb m n

unfoldable pub better : Text → ShareGrant → Option (ShareGrant × ℕ) → Option (ShareGrant × ℕ)
better path grant best =
    if matches path grant && is_deeper best (depth grant) then some (grant, depth grant) else best

-- The loop over the grants, with the best so far.
unfoldable pub find_best :
    Text → List ShareGrant → Option (ShareGrant × ℕ) → Option (ShareGrant × ℕ)
find_best path [] best = best
find_best path (grant ∷ grants) best = find_best path grants (better path grant best)

abbrev pub permitted : ShareGrant → AccessLevel
permitted grant =
    if text_eq grant.permission (codes "read-write")
    then AccessLevel.read_write
    else (if text_eq grant.permission (codes "read")
        then AccessLevel.read_only
        else AccessLevel.denied)

abbrev pub level_of : Option (ShareGrant × ℕ) → AccessLevel
level_of none = AccessLevel.denied
level_of (some (grant, n)) = permitted grant

unfoldable pub resolve_from_grants : Text → List ShareGrant → AccessLevel
resolve_from_grants path grants = level_of (find_best path grants none)

abbrev pub public_root : Text
public_root = codes "public"

-- The folder itself, or a path in it: `path == root || path.starts_with("{root}/")`.
unfoldable pub is_within : Text → Text → Bool
is_within root path = text_eq path root || starts_with path (root ++ slash ∷ [])

unfoldable pub public_level : User → PublicOwner → AccessLevel
public_level user PublicOwner.unknown = AccessLevel.full_access
public_level user PublicOwner.ownerless = AccessLevel.read_only
public_level user (PublicOwner.owner email mode) =
    if text_eq email user.email
    then AccessLevel.full_access
    else elim mode [ co_edit ↦ AccessLevel.read_write | solo_edit ↦ AccessLevel.read_only ]

-- `grants` is what `shares_for_grantee` gives for the email of the user.
unfoldable pub resolve_access : User → Text → (Text → List ShareGrant) → PublicOwner → AccessLevel
resolve_access user path shares_for_grantee public_owner =
    if is_within public_root path
    then public_level user public_owner
    else (if is_within user.email path
        then AccessLevel.full_access
        else resolve_from_grants path (shares_for_grantee user.email))

abbrev pub is_write : CanonicalForm → Bool
is_write (CanonicalForm.query q) = false
is_write (CanonicalForm.rule r) = true
is_write (CanonicalForm.assert_fact m) = true
is_write (CanonicalForm.retract_fact r) = true

-- `required` is a level here, and a label in the code.
pub data AuthzError : Type 0 where
  access_denied : (path : Text) → (required actual : AccessLevel) → AuthzError

abbrev pub required : CanonicalForm → AccessLevel
required form = if is_write form then AccessLevel.read_write else AccessLevel.read_only

abbrev pub empty_label : Text
empty_label = codes "(empty)"

abbrev pub check_level : CanonicalForm → AccessLevel → Fallible AuthzError Unit
check_level form level =
    if is_write form && not (can_write level)
    then err (AuthzError.access_denied (form_path form) AccessLevel.read_write level)
    else (if not (is_write form) && not (can_read level)
        then err (AuthzError.access_denied (form_path form) AccessLevel.read_only level)
        else ok tt)

module _ (user : User) (shares_for_grantee : Text → List ShareGrant)
    (owner_for : Text → PublicOwner) where
  unfoldable pub authorize_form : CanonicalForm → Fallible AuthzError Unit
  authorize_form form =
      if text_eq (form_path form) []
      then err (AuthzError.access_denied empty_label (required form) AccessLevel.denied)
      else check_level form
          (resolve_access user (form_path form) shares_for_grantee (owner_for (form_path form)))

  unfoldable pub authorize_rayfall : List CanonicalForm → Fallible AuthzError Unit
  authorize_rayfall [] = ok tt
  authorize_rayfall (form ∷ forms) = do authorize_form form; authorize_rayfall forms
