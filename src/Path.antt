-- ===== src/Path.antt =====
-- src/path.rs: tree paths, their two spellings, and the bytes that a segment may hold. A `&str` is
-- its UTF-8 bytes; every test of the code is on ASCII, where a char is its byte, and no byte of
-- another char is ASCII.
pub mod Laws
mod Tests
use ray_exomem.Prelude.{
  ℕ, Text, codes, text_eq, text_mem, Bool, true, false, not, ◌&&◌, ◌||◌, Option, none, some, List,
  [], ◌∷◌, ◌++◌, ◌==◌, leb, ltb, if◌then◌else◌, length, all, retain, last,
}
use ray_exomem.Prelude.Fallible.{Fallible, ok, err, ◌>>=◌, ◌>>◌}

pub record TreePath : Type 0 where
  pub segments : List Text

pub data Reason : Type 0 where
  is_empty_segment too_long bad_first bad_char : Reason

pub data PathError : Type 0 where
  empty : PathError
  invalid_segment : Text → Reason → PathError
  reserved_segment : Text → PathError

abbrev pub max_segment_len : ℕ
max_segment_len = 255

abbrev pub slash : ℕ
slash = 47

abbrev pub colon : ℕ
colon = 58

abbrev pub is_alphanumeric : ℕ → Bool
is_alphanumeric c = (leb 48 c && leb c 57) || ((leb 65 c && leb c 90) || (leb 97 c && leb c 122))

abbrev pub is_first : ℕ → Bool
is_first c = is_alphanumeric c || (c == 95 || c == 45)

-- The bytes after the first: also `.` and `@`.
abbrev pub is_later : ℕ → Bool
is_later c = is_alphanumeric c || (c == 95 || (c == 45 || (c == 46 || c == 64)))

unfoldable pub validate_segment : Text → Fallible PathError Unit
validate_segment [] = err (PathError.invalid_segment [] Reason.is_empty_segment)
validate_segment (first ∷ chars) =
    if ltb max_segment_len (length (first ∷ chars))
    then err (PathError.invalid_segment (first ∷ chars) Reason.too_long)
    else (if is_first first
        then (if all is_later chars
            then ok tt
            else err (PathError.invalid_segment (first ∷ chars) Reason.bad_char))
        else err (PathError.invalid_segment (first ∷ chars) Reason.bad_first))

-- `TreePath::root`, and `parent`, which gives the root to no path.
abbrev pub root : TreePath
root = record { segments = [] }

unfoldable pub init : List Text → List Text
init [] = []
init (s ∷ []) = []
init (s ∷ t ∷ rest) = s ∷ init (t ∷ rest)

unfoldable pub parent : TreePath → Option TreePath
parent p = if leb (length p.segments) 1 then none else some (record { segments = init p.segments })

unfoldable pub join : TreePath → Text → Fallible PathError TreePath
join p segment = do validate_segment segment; ok (record { segments = p.segments ++ segment ∷ [] })

-- `[String]::join`
unfoldable pub join_with : Text → List Text → Text
join_with sep [] = []
join_with sep (s ∷ []) = s
join_with sep (s ∷ t ∷ rest) = s ++ (sep ++ join_with sep (t ∷ rest))

unfoldable pub to_cli_string : TreePath → Text
to_cli_string p = join_with (colon ∷ colon ∷ []) p.segments

unfoldable pub to_slash_string : TreePath → Text
to_slash_string p = join_with (slash ∷ []) p.segments

-- `s.replace("::", "/")`, from the left.
unfoldable pub replace_colons : Text → Text
replace_colons [] = []
replace_colons (a ∷ []) = a ∷ []
replace_colons (a ∷ b ∷ rest) = elim (a == colon && b == colon) [
  | true ↦ slash ∷ replace_colons rest
  | false ↦ a ∷ replace_colons (b ∷ rest)
]

abbrev pub push_front : ℕ → List Text → List Text
push_front c [] = (c ∷ []) ∷ []
push_front c (s ∷ ss) = (c ∷ s) ∷ ss

-- `split('/')`: one part more than there are slashes.
unfoldable pub split : Text → List Text
split [] = [] ∷ []
split (c ∷ cs) = let rest = split cs in if c == slash then [] ∷ rest else push_front c rest

abbrev pub is_nonempty : Text → Bool
is_nonempty [] = false
is_nonempty (c ∷ cs) = true

unfoldable pub validate_all : List Text → Fallible PathError Unit
validate_all [] = ok tt
validate_all (seg ∷ segments) = do validate_segment seg; validate_all segments

unfoldable pub check_segments : List Text → Fallible PathError TreePath
check_segments [] = err PathError.empty
check_segments (seg ∷ segments) = do
  validate_all (seg ∷ segments)
  ok (record { segments = seg ∷ segments })

-- `from_str`
unfoldable pub parse : Text → Fallible PathError TreePath
parse [] = err PathError.empty
parse (c ∷ s) = check_segments (retain is_nonempty (split (replace_colons (c ∷ s))))

abbrev pub reserved_exom_names : List Text
reserved_exom_names = codes "sessions" ∷ []

unfoldable pub ensure_not_reserved_as_exom : Text → Fallible PathError Unit
ensure_not_reserved_as_exom name =
    if text_mem name reserved_exom_names then err (PathError.reserved_segment name) else ok tt

-- The parts that `to_disk_path` pushes after those of the root of the tree.
abbrev pub to_disk_path : List Text → TreePath → List Text
to_disk_path tree_root p = tree_root ++ p.segments
