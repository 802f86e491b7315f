-- ===== src/Path/Laws.antt =====
-- src/path.rs: what is parsed, and the round trips of the two spellings.
use ray_exomem.Prelude.{
  ◌≡◌, ◌≢◌, refl, ap, ◌∙◌, Text, codes, Bool, true, false, ◌||◌, List, [], ◌∷◌, ◌++◌, ◌==◌, Memᴰ,
  arith, any, all, retain, inl, inr, Memᴰ-cons, length, ◌≤◌, leb, some, ℕ,
}
use ray_exomem.Prelude.Fallible.{ok, >>=-eq-ok}
use ray_exomem.Path.{
  TreePath, slash, colon, is_later, validate_segment, validate_all, check_segments, parse,
  join_with, to_cli_string, to_slash_string, replace_colons, split, is_nonempty, join, parent, init,
  max_segment_len,
}

-- A segment that the code lets through.
abbrev pub IsSegment : Text → Type 0
IsSegment seg = validate_segment seg ≡ ok tt

abbrev pub AreSegments : List Text → Type 0
AreSegments segments = (seg : Text) → Memᴰ seg segments → IsSegment seg

-- The bytes that the two spellings give a meaning to.
abbrev pub has_separator : Text → Bool
has_separator t = any (λ c. c == slash || c == colon) t

later_plain : (chars : Text) → all is_later chars ≡ true → has_separator chars ≡ false
unfolding all any
later_plain [] h = refl
later_plain (c ∷ cs) h = ground (arith, later_plain cs)

pub IsSegment-plain : (seg : Text) → IsSegment seg → has_separator seg ≡ false
unfolding validate_segment any
IsSegment-plain [] h = refl
IsSegment-plain (c ∷ cs) h = ground (arith, later_plain cs)

pub IsSegment-nonempty : (seg : Text) → IsSegment seg → is_nonempty seg ≡ true
unfolding validate_segment
IsSegment-nonempty [] h = absurd (cc h)
IsSegment-nonempty (c ∷ cs) h = refl

validate_all_sound : (segments : List Text) → validate_all segments ≡ ok tt → AreSegments segments
unfolding validate_all
validate_all_sound [] h seg m = elim m [ ]
validate_all_sound (s ∷ rest) h seg m =
    let (u, e, r) = >>=-eq-ok (validate_segment s) _ h in
    elim (Memᴰ-cons m) [ inl same ↦ rw same e | inr n ↦ validate_all_sound rest r seg n ]

validate_all_complete :
    (segments : List Text) → AreSegments segments → validate_all segments ≡ ok tt
unfolding validate_all
validate_all_complete [] h = refl
validate_all_complete (s ∷ rest) h =
    rw (h s (Memᴰ.head refl)) (validate_all_complete rest (λ t m. h t (Memᴰ.tail m)))

pub check_segments_sound :
    (segments : List Text) (p : TreePath)
    → check_segments segments ≡ ok p
    → (p.segments ≢ []) × AreSegments p.segments
unfolding check_segments
check_segments_sound [] p h = absurd (cc h)
check_segments_sound (s ∷ rest) p h =
    let (u, e, r) = >>=-eq-ok (validate_all (s ∷ rest)) _ h in
    let i : p.segments ≡ s ∷ rest = cc r in rw i (λ j. cc j, validate_all_sound (s ∷ rest) e)

check_segments_complete :
    (segments : List Text)
    → segments ≢ []
    → AreSegments segments
    → check_segments segments ≡ ok (record { segments = segments })
unfolding check_segments
check_segments_complete [] n h = absurd (n refl)
check_segments_complete (s ∷ rest) n h = rw (validate_all_complete (s ∷ rest) h)

replace_plain : (t : Text) → any (λ c. c == colon) t ≡ false → replace_colons t ≡ t
unfolding replace_colons any
replace_plain [] h = refl
replace_plain (a ∷ []) h = refl
replace_plain (a ∷ b ∷ rest) h = ground (arith, replace_plain (b ∷ rest))

-- A separator after plain bytes: either is read as one slash.
replace-cli :
    (t rest : Text)
    → has_separator t ≡ false
    → replace_colons (t ++ colon ∷ colon ∷ rest) ≡ t ++ slash ∷ replace_colons rest
unfolding replace_colons any
replace-cli [] rest h = refl
replace-cli (a ∷ []) rest h = ground arith
replace-cli (a ∷ b ∷ t) rest h = ground (arith, replace-cli (b ∷ t) rest)

replace_slash_front : (rest : Text) → replace_colons (slash ∷ rest) ≡ slash ∷ replace_colons rest
unfolding replace_colons
replace_slash_front [] = refl
replace_slash_front (c ∷ rest) = ground arith

replace-slash :
    (t rest : Text)
    → has_separator t ≡ false
    → replace_colons (t ++ slash ∷ rest) ≡ t ++ slash ∷ replace_colons rest
unfolding replace_colons any
replace-slash [] rest h = replace_slash_front rest
replace-slash (a ∷ []) rest h = ground (arith, replace_slash_front rest)
replace-slash (a ∷ b ∷ t) rest h = ground (arith, replace-slash (b ∷ t) rest)

split_plain : (t : Text) → has_separator t ≡ false → split t ≡ t ∷ []
unfolding split any
split_plain [] h = refl
split_plain (a ∷ t) h = ground (arith, split_plain t)

split-slash : (t rest : Text) → has_separator t ≡ false → split (t ++ slash ∷ rest) ≡ t ∷ split rest
unfolding split any
split-slash [] rest h = refl
split-slash (a ∷ t) rest h = ground (arith, split-slash t rest)

no_colon : (t : Text) → has_separator t ≡ false → any (λ c. c == colon) t ≡ false
unfolding any
no_colon [] h = refl
no_colon (c ∷ t) h = ground (arith, no_colon t)

-- The two spellings with the slash for a separator are one text.
replace-join_with :
    (segments : List Text)
    → AreSegments segments
    → (replace_colons (join_with (colon ∷ colon ∷ []) segments) ≡ join_with (slash ∷ []) segments)
      × (replace_colons (join_with (slash ∷ []) segments) ≡ join_with (slash ∷ []) segments)
unfolding replace_colons join_with
replace-join_with [] h = (refl, refl)
replace-join_with (s ∷ []) h =
    let plain = replace_plain s (no_colon s (IsSegment-plain s (h s (Memᴰ.head refl)))) in
    (plain, plain)
replace-join_with (s ∷ t ∷ rest) h =
    let plain = IsSegment-plain s (h s (Memᴰ.head refl)) in
    let (a, b) = replace-join_with (t ∷ rest) (λ x m. h x (Memᴰ.tail m)) in
    (
      replace-cli s _ plain ∙ ap (λ x. s ++ slash ∷ x) a,
      replace-slash s _ plain ∙ ap (λ x. s ++ slash ∷ x) b,
    )

split-join_with :
    (segments : List Text)
    → segments ≢ []
    → AreSegments segments
    → retain is_nonempty (split (join_with (slash ∷ []) segments)) ≡ segments
unfolding join_with retain
split-join_with [] n h = absurd (n refl)
split-join_with (s ∷ []) n h = rw (
  split_plain s (IsSegment-plain s (h s (Memᴰ.head refl))),
  IsSegment-nonempty s (h s (Memᴰ.head refl)),
)
split-join_with (s ∷ t ∷ rest) n h = rw (
  split-slash s (join_with (slash ∷ []) (t ∷ rest)) (IsSegment-plain s (h s (Memᴰ.head refl))),
  IsSegment-nonempty s (h s (Memᴰ.head refl)),
  split-join_with (t ∷ rest) (λ e. cc e) (λ x m. h x (Memᴰ.tail m)),
)

parse_nonempty :
    (t : Text)
    → is_nonempty t ≡ true
    → parse t ≡ check_segments (retain is_nonempty (split (replace_colons t)))
unfolding parse
parse_nonempty [] h = absurd (cc h)
parse_nonempty (c ∷ t) h = refl

join_with-nonempty :
    (sep : Text) (segments : List Text)
    → segments ≢ []
    → AreSegments segments
    → is_nonempty (join_with sep segments) ≡ true
unfolding join_with
join_with-nonempty sep [] n h = absurd (n refl)
join_with-nonempty sep (s ∷ []) n h = IsSegment-nonempty s (h s (Memᴰ.head refl))
join_with-nonempty sep ([] ∷ t ∷ rest) n h =
    absurd (cc (IsSegment-nonempty [] (h [] (Memᴰ.head refl))))
join_with-nonempty sep ((c ∷ s) ∷ t ∷ rest) n h = refl

-- A path of one segment or more, each of which `validate_segment` lets through, is read back from
-- either of its spellings.
pub parse-to_cli_string :
    (p : TreePath)
    → p.segments ≢ []
    → AreSegments p.segments
    → (parse (to_cli_string p) ≡ ok p) × (parse (to_slash_string p) ≡ ok p)
unfolding to_cli_string to_slash_string
parse-to_cli_string p n h =
    let (a, b) = replace-join_with p.segments h in
    let back = split-join_with p.segments n h in
    (
      parse_nonempty _ (join_with-nonempty _ p.segments n h)
          ∙ ap (λ t. check_segments (retain is_nonempty (split t))) a
          ∙ ap check_segments back
          ∙ check_segments_complete p.segments n h,
      parse_nonempty _ (join_with-nonempty _ p.segments n h)
          ∙ ap (λ t. check_segments (retain is_nonempty (split t))) b
          ∙ ap check_segments back
          ∙ check_segments_complete p.segments n h,
    )

parse_sound :
    (t : Text) (p : TreePath) → parse t ≡ ok p → (p.segments ≢ []) × AreSegments p.segments
unfolding parse
parse_sound [] p h = absurd (cc h)
parse_sound (c ∷ t) p h = check_segments_sound _ p h

-- Whatever text was parsed, both spellings of the path that came out are read back as that path.
pub parse_canonical :
    (t : Text) (p : TreePath)
    → parse t ≡ ok p
    → (parse (to_cli_string p) ≡ ok p) × (parse (to_slash_string p) ≡ ok p)
parse_canonical t p h = let (n, all_valid) = parse_sound t p h in parse-to_cli_string p n all_valid

no_slash : (t : Text) → has_separator t ≡ false → any (λ c. c == slash) t ≡ false
unfolding any
no_slash [] h = refl
no_slash (c ∷ t) h = ground (arith, no_slash t)

head_eq : {c d : ℕ} {s t : Text} → (c ∷ s) ≡ d ∷ t → c ≡ d
head_eq e = cc e

IsSegment-safe :
    (seg : Text)
    → IsSegment seg
    → (any (λ c. c == slash) seg ≡ false)
      × (seg ≢ codes ".")
      × (seg ≢ codes "..")
      × (length seg ≤ max_segment_len)
unfolding validate_segment
IsSegment-safe [] h = absurd (cc h)
IsSegment-safe (c ∷ cs) h = (
  no_slash (c ∷ cs) (IsSegment-plain (c ∷ cs) h),
  λ e. ground (arith, head_eq e),
  λ e. ground (arith, head_eq e),
  ground arith,
)

-- No segment of a parsed path holds a slash, is `.` or `..`, or is longer than 255 bytes, so that
-- none leads out of the tree.
pub parse_safe :
    (t : Text) (p : TreePath) (seg : Text)
    → parse t ≡ ok p
    → Memᴰ seg p.segments
    → (any (λ c. c == slash) seg ≡ false)
      × (seg ≢ codes ".")
      × (seg ≢ codes "..")
      × (length seg ≤ max_segment_len)
parse_safe t p seg h m =
    let (n, all_valid) = parse_sound t p h in IsSegment-safe seg (all_valid seg m)

init-append : (segments : List Text) (seg : Text) → init (segments ++ seg ∷ []) ≡ segments
unfolding init
init-append [] seg = refl
init-append (s ∷ []) seg = refl
init-append (s ∷ t ∷ rest) seg = ap (λ x. s ∷ x) (init-append (t ∷ rest) seg)

two_or_more :
    (segments : List Text) (seg : Text)
    → segments ≢ []
    → leb (length (segments ++ seg ∷ [])) 1 ≡ false
two_or_more [] seg n = absurd (n refl)
two_or_more (s ∷ []) seg n = refl
two_or_more (s ∷ t ∷ rest) seg n = ground arith

-- A segment that is joined to a path of one segment or more gives a path whose parent is the first.
pub parent-join :
    (p q : TreePath) (seg : Text) → p.segments ≢ [] → join p seg ≡ ok q → parent q ≡ some p
unfolding parent join
parent-join p q seg n h =
    let (u, e, r) = >>=-eq-ok (validate_segment seg) _ h in
    let i : q.segments ≡ p.segments ++ seg ∷ [] = cc r in
    rw (i, two_or_more p.segments seg n, init-append p.segments seg)
