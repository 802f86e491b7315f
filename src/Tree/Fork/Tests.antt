-- ===== src/Tree/Fork/Tests.antt =====
-- Targets of forks of src/exom.rs, and the theorem applied to one.
use ray_exomem.Prelude.{◌≡◌, refl, ℕ, Text, codes, text_eq, starts_with, Bool, true, none, some}
use ray_exomem.Prelude.Fallible.{ok}
use ray_exomem.Auth.Access.{is_within}
use ray_exomem.Tree.Fork.{
  strip_prefix, subpath, fork_base, decimal, fork_loop, default_fork_target, candidate_at,
  IsFirstFree, default_fork_target-IsFirstFree,
}

abbrev taken : Text → Bool
taken t = text_eq t (codes "a@t/forked/work/wiki")

suffix_run :
    default_fork_target taken (codes "a@t") (codes "public/work/wiki") (some (codes "wiki"))
    ≡ ok (codes "a@t/forked/work/wiki-2")
unfolding default_fork_target fork_loop fork_base subpath strip_prefix is_within starts_with text_eq
    decimal
suffix_run = refl

other_owner_run :
    default_fork_target taken (codes "a@t") (codes "bob@t/notes") none
    ≡ ok (codes "a@t/forked/bob@t/notes")
unfolding default_fork_target fork_loop fork_base subpath strip_prefix is_within starts_with text_eq
    decimal
other_owner_run = refl

default_fork_target-IsFirstFree_example :
    IsFirstFree taken
      (fork_base (codes "a@t") (codes "public/work/wiki") none)
      (default_fork_target taken (codes "a@t") (codes "public/work/wiki") none)
    × ((k : ℕ)
        → is_within
            (codes "a@t")
            (candidate_at (fork_base (codes "a@t") (codes "public/work/wiki") none) k)
          ≡ true)
default_fork_target-IsFirstFree_example =
    default_fork_target-IsFirstFree taken (codes "a@t") (codes "public/work/wiki") none
