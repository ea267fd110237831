-- ===== src/Tests/Split.antt =====
-- The theorem on the split of the dataset at a concrete input; ratios count thousandths.
use mathlib.Core.List.{Perm}
use mousinator.Tools.Split.Ordering.{IsOrdered}
use mousinator.Tools.Split.Leakage.{build-FollowsGroups, FollowsGroups}
use mousinator.Tools.Split.{
  build, ManifestRow, score, choose_split, assign_entries, targets_of, insert, sort, append_item,
  train, group_items, val, Split, assign_stratum, Item, Each, assign_groups,
}
use mousinator.Prelude.{
  map, some, ◌≡◌, ◌*ℤ◌, ◌+ℤ◌, ◌-ℤ◌, Bool, String, refl, true, false, List, [], ◌∷◌, ℤ, pos,
}
use mousinator.Tests.Fixed.{fixed}

abbrev item : String → Bool → String → Item
item name positive group = record { filename = name; positive = positive; group = group }

-- Two near duplicates, one of which is a negative image, and two images on their own.
abbrev dataset : List Item
dataset =
    item "a" true "ND0001"
    ∷ item "b" true "FILE:b"
    ∷ item "c" false "ND0001"
    ∷ item "d" true "FILE:d"
    ∷ []

abbrev parts : Each ℤ
parts = record { of_train = pos 500; of_val = pos 500; of_test = pos 0 }

abbrev assigned : List (String × Split)
assigned = ("FILE:d", val) ∷ ("FILE:b", train) ∷ ("ND0001", train) ∷ []

build-FollowsGroups_example :
    (rows : List ManifestRow) × (build fixed (λ s gs. gs) parts dataset ≡ some rows)
    × Perm (map (λ r. r.filename) rows) (map (λ x. x.filename) dataset)
    × IsOrdered rows
    × FollowsGroups assigned rows
unfolding assign_groups assign_stratum group_items append_item sort insert targets_of assign_entries
    choose_split score ◌-ℤ◌ ◌+ℤ◌ ◌*ℤ◌
build-FollowsGroups_example =
    build-FollowsGroups fixed (λ s gs. gs) parts dataset assigned (λ s gs gid. refl) refl
