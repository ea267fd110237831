-- ===== src/Tools/Split.antt =====
-- The split of the dataset, tools/build_mouse_yolo_v1.py. The random generator is a parameter.
pub mod Leakage
pub mod Ordering
use mousinator.Prelude.Floats.{Floats}
use mousinator.Prelude.Text.{codes, eq_text, ltb_text}
use mousinator.Prelude.{
  ltb_ℤ, ◌++◌, ◌-ℤ◌, pos, ◌&&◌, ◌==◌, ℤ, ltb, [], none, some, ◌∷◌, keep, if◌then◌else◌, Option,
  String, length, if◌then◌else◌, List, ℕ, suc, ◌+◌, ◌-◌, Bool, true, false,
}

pub data Split : Type 0 where
  train val test : Split

pub record Item : Type 0 where
  pub filename : String
  pub positive : Bool
  pub group : String

pub record Group : Type 0 where
  pub gid : String
  pub items : List Item

-- A dictionary over the three splits.
pub record Each (A : Type 0) : Type 0 where
  pub of_train : A
  pub of_val : A
  pub of_test : A

abbrev pub get : {A : Type 0} → Split → Each A → A
get train e = e.of_train
get val e = e.of_val
get test e = e.of_test

abbrev pub add : Split → ℕ → Each ℕ → Each ℕ
add train n e = record e { of_train = e.of_train + n }
add val n e = record e { of_val = e.of_val + n }
add test n e = record e { of_test = e.of_test + n }

-- `groups[gid].append(item)`
unfoldable pub append_item : Item → List Group → List Group
append_item x [] = record { gid = x.group; items = x ∷ [] } ∷ []
append_item x (g ∷ gs) =
    let rest = append_item x gs in
    if g.gid == x.group then record g { items = g.items ++ x ∷ [] } ∷ gs else g ∷ rest

unfoldable pub group_items : List Item → List Group → List Group
unfolding append_item
group_items [] gs = gs
group_items (x ∷ xs) gs = group_items xs (append_item x gs)

pub data Stratum : Type 0 where
  mixed negative positives : Stratum

abbrev pub count_positive : List Item → ℕ
count_positive [] = 0
count_positive (x ∷ xs) = (if x.positive then 1 else 0) + count_positive xs

-- The stratum of `k` positive items of `n`.
abbrev pub stratum_key : ℕ → ℕ → Stratum
stratum_key n k =
    if ltb 0 k && ltb 0 (n - k) then mixed else if ltb 0 k then positives else negative

abbrev pub is_in_stratum : Stratum → Group → Bool
is_in_stratum s g = elim (stratum_key (length g.items) (count_positive g.items)) [
  | mixed ↦ elim s [ mixed ↦ true | _ ↦ false ]
  | negative ↦ elim s [ negative ↦ true | _ ↦ false ]
  | positives ↦ elim s [ positives ↦ true | _ ↦ false ]
]

-- `entries.sort(key=..., reverse=True)`: groups of one size keep their order.
unfoldable pub insert : Group → List Group → List Group
insert g [] = g ∷ []
insert g (h ∷ hs) =
    let rest = insert g hs in if ltb (length h.items) (length g.items) then g ∷ h ∷ hs else h ∷ rest

unfoldable pub sort : List Group → List Group → List Group
unfolding insert
sort [] sorted = sorted
sort (g ∷ gs) sorted = sort gs (insert g sorted)

abbrev pub total_items : List Group → ℕ
total_items [] = 0
total_items (g ∷ gs) = length g.items + total_items gs

abbrev pub targets_from : ℤ → Option ℤ → Option ℤ → Option (Each ℤ)
targets_from total none v = none
targets_from total (some t) none = none
targets_from total (some t) (some v) =
    some (record { of_train = t; of_val = v; of_test = (total -ℤ t) -ℤ v })

abbrev pub then_assign :
    (List (String × Split) → Option (List (String × Split)))
    → Option (List (String × Split))
    → Option (List (String × Split))
then_assign f none = none
then_assign f (some acc) = f acc

module _ {F : Type 0} (fl : Floats F) where
  -- The score of a split in `choose_split`.
  unfoldable pub score : Each ℕ → Each ℤ → ℕ → Split → F
  score counts targets size s =
      let target = get s targets in
      let deficit = target -ℤ pos (get s counts) in
      let scale = fl.of_int (if ltb_ℤ target (pos 1) then pos 1 else target) in
      let fraction = fl.div (fl.of_int deficit) scale in
      if ltb_ℤ deficit (pos size)
      then fl.sub fraction (fl.div (fl.of_int (pos size -ℤ deficit)) scale)
      else fraction

  abbrev pub better : (Split → F) → Split → Split → Split
  better f best s = if fl.lt (f best) (f s) then s else best

  unfoldable pub choose_split : Each ℕ → Each ℤ → ℕ → Split
  unfolding score
  choose_split counts targets size =
      let f = score counts targets size in better f (better f train val) test

  -- The targets of a stratum; nothing where `round` raises.
  unfoldable pub targets_of : Each F → ℕ → Option (Each ℤ)
  targets_of ratios total =
      targets_from (pos total) (fl.round (fl.mul (fl.of_int (pos total)) ratios.of_train))
        (fl.round (fl.mul (fl.of_int (pos total)) ratios.of_val))

  -- The loop over the entries of a stratum; the newest assignment comes first.
  unfoldable pub assign_entries :
      Each ℤ → List Group → Each ℕ → List (String × Split) → List (String × Split)
  unfolding choose_split
  assign_entries targets [] counts acc = acc
  assign_entries targets (g ∷ gs) counts acc =
      let s = choose_split counts targets (length g.items) in
      assign_entries targets gs (add s (length g.items) counts) ((g.gid, s) ∷ acc)

  abbrev pub assign_targets :
      Option (Each ℤ) → List Group → List (String × Split) → Option (List (String × Split))
  assign_targets none gs acc = none
  assign_targets (some targets) gs acc =
      some (assign_entries targets gs (record { of_train = 0; of_val = 0; of_test = 0 }) acc)

  -- `rng.shuffle` of the entries of each stratum is `shuffle`.
  unfoldable pub assign_stratum :
      (Stratum → List Group → List Group)
      → Each F
      → List Group
      → Stratum
      → List (String × Split)
      → Option (List (String × Split))
  unfolding sort targets_of assign_entries
  assign_stratum shuffle ratios groups s acc =
      let entries = sort (shuffle s (keep (is_in_stratum s) groups)) [] in
      assign_targets (targets_of ratios (total_items entries)) entries acc

  unfoldable pub assign_groups :
      (Stratum → List Group → List Group) → Each F → List Group → Option (List (String × Split))
  unfolding assign_stratum
  assign_groups shuffle ratios groups =
      let f = assign_stratum shuffle ratios groups in
      then_assign (f positives) (then_assign (f negative) (f mixed []))

abbrev pub find_split : String → List (String × Split) → Option Split
find_split gid [] = none
find_split gid (a ∷ made) = if a.0 == gid then some a.1 else find_split gid made

pub record ManifestRow : Type 0 where
  pub filename : String
  pub split : Split
  pub positive : Bool
  pub group : String

abbrev pub row_with : Item → Option Split → Option (List ManifestRow) → Option (List ManifestRow)
row_with x none rows = none
row_with x (some s) none = none
row_with x (some s) (some rows) =
    some
      (record { filename = x.filename; split = s; positive = x.positive; group = x.group } ∷ rows)

-- `manifest_rows`, in the order of the records; nothing where a group has no split.
unfoldable pub manifest : List (String × Split) → List Item → Option (List ManifestRow)
manifest made [] = some []
manifest made (x ∷ xs) = row_with x (find_split x.group made) (manifest made xs)

abbrev pub manifest_of : Option (List (String × Split)) → List Item → Option (List ManifestRow)
manifest_of none xs = none
manifest_of (some made) xs = manifest made xs

-- The names of the splits.
abbrev pub split_name : Split → String
split_name train = "train"
split_name val = "val"
split_name test = "test"

-- `(r["split"], r["filename"])` of one row comes before that of another.
unfoldable pub comes_before : ManifestRow → ManifestRow → Bool
unfolding ltb_text
comes_before r t =
    let a = codes (split_name r.split) in
    let b = codes (split_name t.split) in
    if eq_text a b then ltb_text (codes r.filename) (codes t.filename) else ltb_text a b

-- `sorted(manifest_rows, key=...)`: rows of one key keep their order.
unfoldable pub insert_row : ManifestRow → List ManifestRow → List ManifestRow
unfolding comes_before
insert_row r [] = r ∷ []
insert_row r (t ∷ ts) =
    let rest = insert_row r ts in if comes_before r t then r ∷ t ∷ ts else t ∷ rest

unfoldable pub sort_rows : List ManifestRow → List ManifestRow → List ManifestRow
unfolding insert_row
sort_rows [] sorted = sorted
sort_rows (r ∷ rs) sorted = sort_rows rs (insert_row r sorted)

unfoldable pub written_rows : Option (List ManifestRow) → Option (List ManifestRow)
unfolding sort_rows
written_rows none = none
written_rows (some rows) = some (sort_rows rows [])

-- The rows that `main` writes to the manifest for the items of the images; nothing where it raises.
unfoldable pub build :
    {F : Type 0}
    → Floats F
    → (Stratum → List Group → List Group)
    → Each F
    → List Item
    → Option (List ManifestRow)
unfolding group_items assign_groups manifest written_rows
build fl shuffle ratios xs =
    written_rows (manifest_of (assign_groups fl shuffle ratios (group_items xs [])) xs)
