-- ===== src/Brain/Views/Order.antt =====
-- The rows that a view keeps: one for each id, the nearest and then the newest.
use ray_exomem.Prelude.{
  ◌≡◌, ◌<◌, ◌≤◌, ◌⊎◌, refl, Text, Bool, true, List, Memᴰ, arith, Memᴰ-retain, Memᴰ-retain_of,
  text_mem,
}
use ray_exomem.Prelude.Sort.{
  IsTotal, IsTransitive, sort-IsSorted, Memᴰ-sort, Memᴰ-sort_of, Memᴰ-keep_first,
  keep_first-AreDistinct, keep_first-HasKey, keep_first-le, HasKey, AreDistinct,
}
use ray_exomem.Brain.Branches.{branch_depth_of_tx}
use ray_exomem.Brain.{Foreign, Memory, TxId}
use ray_exomem.Brain.Views.{before, is_eligible, newest_rows}

module _ {F : Foreign} (m : Memory F) {T : Type 0} (id : T → Text) (tx : T → TxId)
    (ancestors : List Text) where
  before_self : (r : T) → before m id tx ancestors r r ≡ true
  unfolding before
  before_self r = ground arith

  before_sound :
      (r s : T)
      → before m id tx ancestors r s ≡ true
      → (branch_depth_of_tx m (tx r) ancestors < branch_depth_of_tx m (tx s) ancestors)
        ⊎ ((branch_depth_of_tx m (tx r) ancestors ≡ branch_depth_of_tx m (tx s) ancestors)
            × (tx s ≤ tx r))
  unfolding before
  before_sound r s h = ground arith

  before-IsTotal : IsTotal (before m id tx ancestors)
  unfolding before
  before-IsTotal r s h = ground arith

  before-IsTransitive : IsTransitive (before m id tx ancestors)
  unfolding before
  before-IsTransitive r s t h k = ground arith

  module _ (rows : List T) (as_of : TxId) (keep : T → Bool) where
    -- A row of the view is a row of the table that is eligible.
    pub newest_rows_sound :
        {r : T}
        → Memᴰ r (newest_rows m id tx ancestors rows as_of keep)
        → Memᴰ r rows × (is_eligible m id tx ancestors as_of keep r ≡ true)
    unfolding newest_rows
    newest_rows_sound n = Memᴰ-retain _ rows (Memᴰ-sort _ _ (Memᴰ-keep_first id _ _ n).0)

    pub newest_rows-AreDistinct : AreDistinct id (newest_rows m id tx ancestors rows as_of keep)
    unfolding newest_rows
    newest_rows-AreDistinct = keep_first-AreDistinct id _ _

    -- Every row of the table that is eligible has a row of its id in the view.
    pub newest_rows_complete :
        {r : T}
        → Memᴰ r rows
        → is_eligible m id tx ancestors as_of keep r ≡ true
        → HasKey id (id r) (newest_rows m id tx ancestors rows as_of keep)
    unfolding newest_rows text_mem
    newest_rows_complete n e =
        keep_first-HasKey id _ _ (Memᴰ-sort_of _ _ (Memᴰ-retain_of _ n e)) refl

    -- In the order of the view, a row of it comes before every eligible row with its id.
    pub newest_rows-before :
        {r s : T}
        → Memᴰ r (newest_rows m id tx ancestors rows as_of keep)
        → Memᴰ s rows
        → is_eligible m id tx ancestors as_of keep s ≡ true
        → id s ≡ id r
        → before m id tx ancestors r s ≡ true
    unfolding newest_rows
    newest_rows-before n k e same =
        keep_first-le id (before m id tx ancestors) before_self _ _
          (sort-IsSorted _ before-IsTotal before-IsTransitive _) n
          (Memᴰ-sort_of _ _ (Memᴰ-retain_of _ k e)) same

    -- A row of the view, against any eligible row of the table with its id: its branch comes earlier
    -- in the chain of branches, or the branch is as near and its transaction is as new or newer.
    pub newest_rows_nearest :
        {r s : T}
        → Memᴰ r (newest_rows m id tx ancestors rows as_of keep)
        → Memᴰ s rows
        → is_eligible m id tx ancestors as_of keep s ≡ true
        → id s ≡ id r
        → (branch_depth_of_tx m (tx r) ancestors < branch_depth_of_tx m (tx s) ancestors)
          ⊎ ((branch_depth_of_tx m (tx r) ancestors ≡ branch_depth_of_tx m (tx s) ancestors)
              × (tx s ≤ tx r))
    newest_rows_nearest {r} {s} n k e same = before_sound r s (newest_rows-before n k e same)
