-- ===== src/Path/Tests.antt =====
-- Runs of src/path.rs, and its theorems applied to them.
use ray_exomem.Prelude.{
  ◌≡◌, ◌≢◌, refl, ◌≤◌, codes, false, some, [], ◌∷◌, ◌==◌, Memᴰ, any, all, retain, length, text_mem,
  text_eq, Memᴰ-cons, inl, inr,
}
use ray_exomem.Prelude.Fallible.{ok, err}
use ray_exomem.Path.{
  TreePath, PathError, Reason, slash, max_segment_len, validate_segment, validate_all,
  check_segments, parse, to_cli_string, to_slash_string, replace_colons, split, join, parent,
  ensure_not_reserved_as_exom,
}
use ray_exomem.Path.Laws.{parse-to_cli_string, parse_canonical, parse_safe, parent-join}

abbrev team : TreePath
team = record { segments = codes "work" ∷ codes "team" ∷ [] }

abbrev repo : TreePath
repo = record { segments = codes "work" ∷ codes "team" ∷ codes "repo" ∷ [] }

team_parsed : parse (codes "work::/team/") ≡ ok team
unfolding parse check_segments retain split replace_colons validate_all validate_segment all
team_parsed = refl

blank_in_segment :
    parse (codes "work::a b") ≡ err (PathError.invalid_segment (codes "a b") Reason.bad_char)
unfolding parse check_segments retain split replace_colons validate_all validate_segment all
blank_in_segment = refl

sessions_reserved :
    ensure_not_reserved_as_exom (codes "sessions")
    ≡ err (PathError.reserved_segment (codes "sessions"))
unfolding ensure_not_reserved_as_exom text_mem text_eq
sessions_reserved = refl

valid_work : validate_segment (codes "work") ≡ ok tt
unfolding validate_segment all
valid_work = refl

repo_joined : join team (codes "repo") ≡ ok repo
unfolding join validate_segment all
repo_joined = refl

parse-to_cli_string_example :
    (parse (to_cli_string (record { segments = codes "work" ∷ [] }))
      ≡ ok (record { segments = codes "work" ∷ [] }))
    × (parse (to_slash_string (record { segments = codes "work" ∷ [] }))
        ≡ ok (record { segments = codes "work" ∷ [] }))
parse-to_cli_string_example =
    parse-to_cli_string (record { segments = codes "work" ∷ [] }) (λ e. cc e)
      (λ seg m. elim (Memᴰ-cons m) [ inl e ↦ rw e valid_work | inr n ↦ elim n [ ] ])

parse_canonical_example :
    (parse (to_cli_string team) ≡ ok team) × (parse (to_slash_string team) ≡ ok team)
parse_canonical_example = parse_canonical (codes "work::/team/") team team_parsed

parse_safe_example :
    (any (λ c. c == slash) (codes "team") ≡ false)
    × (codes "team" ≢ codes ".")
    × (codes "team" ≢ codes "..")
    × (length (codes "team") ≤ max_segment_len)
parse_safe_example =
    parse_safe (codes "work::/team/") team (codes "team") team_parsed (Memᴰ.tail (Memᴰ.head refl))

parent-join_example : parent repo ≡ some team
parent-join_example = parent-join team repo (codes "repo") (λ e. cc e) repo_joined
