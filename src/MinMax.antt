-- ===== src/MinMax.antt =====
-- lib/lib_swplugins.c, the minimum and maximum plugin of a sliding window: a search tree of the items
-- in the window, and what it reports when one comes or goes. The pipe that the user gives is the list
-- of what it was called with. The disposers are left out.
pub mod Totals
pub mod Tracking
pub mod Reports
pub mod Plugin
pub mod InWindow
mod Tests
use devclego.Prelude.{Bool, List, Option, [], if◌then◌else◌, some, ℕ, ◌++◌, ◌∷◌, ◌>>=◌, ◌>>◌}
use devclego.Store.{Ptr, null}
use devclego.BinTree.{BinTree, make_bintree, insert_data}
use devclego.BinTree.Remove.{delete_value, get_top_data, get_bottom_data}

-- `swminmaxstat_t`
pub record Stat : Type 0 where
  pub minimum : Ptr
  pub maximum : Ptr

-- `swminmax_t`
pub record MinMax : Type 0 where
  pub tree : BinTree
  pub has_pipe : Bool
  pub stat : Stat
  pub reports : List Stat

-- `_swminmaxpriv_ctor`
unfoldable pub minmaxpriv_ctor : (junk : Option Ptr) → (has_pipe : Bool) → MinMax
unfolding make_bintree
minmaxpriv_ctor junk has_pipe = record {
  tree = make_bintree junk;
  has_pipe = has_pipe;
  stat = record { minimum = null; maximum = null };
  reports = [];
}

-- The end of both pipes: the two numbers are read from the tree, and reported.
unfoldable pub report : MinMax → Option MinMax
unfolding get_top_data get_bottom_data
report p = do
  low ← get_bottom_data p.tree
  high ← get_top_data p.tree
  let stat : Stat = record { minimum = low; maximum = high } in
      some (record p {
        stat = stat;
        reports = if p.has_pipe then p.reports ++ stat ∷ [] else p.reports;
      })

module _ (memory : ℕ → ℕ) where
  unfoldable pub minmax_add_pipe : (fresh : Ptr) → MinMax → Ptr → Option MinMax
  unfolding insert_data report
  minmax_add_pipe fresh p item = do
    tree' ← insert_data memory fresh p.tree item
    report (record p { tree = tree' })

  unfoldable pub minmax_rem_pipe : (fuel : ℕ) → MinMax → Ptr → Option MinMax
  unfolding delete_value report
  minmax_rem_pipe fuel p item = do
    tree' ← delete_value memory fuel p.tree item
    report (record p { tree = tree' })
