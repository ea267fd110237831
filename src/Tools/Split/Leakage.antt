-- ===== src/Tools/Split/Leakage.antt =====
-- No group of near duplicates is divided by the split of tools/build_mouse_yolo_v1.py.
use mousinator.Prelude.Floats.{Floats}
use mousinator.Tools.Split.{
  ManifestRow, sort_rows, written_rows, manifest, build, assign_groups, total_items, add,
  targets_of, assign_targets, choose_split, assign_stratum, positives, negative, mixed,
  is_in_stratum, find_split, Each, Item, Split, assign_entries, Group, insert, sort, group_items,
  append_item, Stratum,
}
use mathlib.Core.Path.{subst}
use mathlib.Core.List.{Perm, append-nil}
use mathlib.Core.List.Perm
use mousinator.Tools.Split.Ordering.{IsOrdered, sort_rows-IsOrdered, sort_rows-perm, sort_rows-All}
use mousinator.Prelude.{
  All-weaken, map, ap, ◌∙◌, ℤ, Option-cases, none, if◌then◌else◌, length, inr, some, Option, inl, ℤ,
  ◌==◌, [], is_some, ◌||◌, eq_iff, ◌∷◌, keep, All, List, String, ℕ, Bool, true, false, ◌≡◌, refl,
  arith,
}

abbrev pub has_gid : String → List Group → Bool
has_gid gid [] = false
has_gid gid (g ∷ gs) = (g.gid == gid) || has_gid gid gs

-- `random.shuffle` permutes: it keeps the groups of a list.
abbrev pub IsShuffle : (Stratum → List Group → List Group) → Type 0
IsShuffle shuffle =
    (s : Stratum) (gs : List Group) (gid : String) → has_gid gid (shuffle s gs) ≡ has_gid gid gs

-- Every group has a split in the assignment.
abbrev IsAssigned : String → List (String × Split) → Type 0
IsAssigned gid made = is_some (find_split gid made) ≡ true

some_injective {ℓ} : {A : Type ℓ} {a b : A} → some a ≡ some b → a ≡ b
some_injective h = cc

append_item-old :
    (x : Item) (gs : List Group) (gid : String)
    → has_gid gid gs ≡ true
    → has_gid gid (append_item x gs) ≡ true
unfolding append_item
append_item-old x [] gid h = absurd (cc)
append_item-old x (g ∷ gs) gid h = ground (arith, append_item-old x gs gid)

append_item-own : (x : Item) (gs : List Group) → has_gid x.group (append_item x gs) ≡ true
unfolding append_item
append_item-own x [] = ground (arith, (eq_iff x.group x.group).1 refl)
append_item-own x (g ∷ gs) = ground (arith, append_item-own x gs)

group_items-old :
    (xs : List Item) (gs : List Group) (gid : String)
    → has_gid gid gs ≡ true
    → has_gid gid (group_items xs gs) ≡ true
unfolding group_items
group_items-old [] gs gid h = h
group_items-old (x ∷ xs) gs gid h =
    group_items-old xs (append_item x gs) gid (append_item-old x gs gid h)

group_items-own :
    (xs : List Item) (gs : List Group) → All (λ x. has_gid x.group (group_items xs gs) ≡ true) xs
unfolding group_items
group_items-own [] gs = tt
group_items-own (x ∷ xs) gs = (
  group_items-old xs (append_item x gs) x.group (append_item-own x gs),
  group_items-own xs (append_item x gs),
)

has_gid-insert :
    (g : Group) (gs : List Group) (gid : String) → has_gid gid (insert g gs) ≡ has_gid gid (g ∷ gs)
unfolding insert
has_gid-insert g [] gid = refl
has_gid-insert g (h ∷ hs) gid = ground (arith, has_gid-insert g hs gid)

has_gid-sort :
    (gs sorted : List Group) (gid : String)
    → (has_gid gid gs || has_gid gid sorted) ≡ true
    → has_gid gid (sort gs sorted) ≡ true
unfolding sort
has_gid-sort [] sorted gid h = h
has_gid-sort (g ∷ gs) sorted gid h =
    has_gid-sort gs (insert g sorted) gid (ground (arith, has_gid-insert g sorted gid))

-- The group is in one of the strata.
abbrev in_strata : String → List Group → Bool
in_strata gid gs =
    has_gid gid (keep (is_in_stratum mixed) gs)
    || has_gid gid (keep (is_in_stratum negative) gs)
    || has_gid gid (keep (is_in_stratum positives) gs)

has_gid-strata : (gs : List Group) (gid : String) → has_gid gid gs ≡ true → in_strata gid gs ≡ true
has_gid-strata [] gid h = absurd (cc)
has_gid-strata (g ∷ gs) gid h = ground (arith, has_gid-strata gs gid)

either : (a b c : Bool) → (a ≡ true → b ≡ true) → (a || c) ≡ true → (b || c) ≡ true
either true b c f h = ground (arith, f)
either false b c f h = ground (arith, f)

chain :
    (a b c first second third : Bool)
    → (a || b || c) ≡ true
    → ((a || false) ≡ true → first ≡ true)
    → ((b || first) ≡ true → second ≡ true)
    → ((c || second) ≡ true → third ≡ true)
    → third ≡ true
chain true b c first second third h f g k = ground (arith, f, g, k)
chain false true c first second third h f g k = ground (arith, g, k)
chain false false c first second third h f g k = ground (arith, k)

found :
    (own later : Bool) (old : Option Split) (s : Split)
    → ((own || later) || is_some old) ≡ true
    → (later || is_some (if own then some s else old)) ≡ true
found true later old s h = ground arith
found false later old s h = h

module _ {F : Type 0} (fl : Floats F) where
  assign_entries-IsAssigned :
      (targets : Each ℤ) (gs : List Group) (counts : Each ℕ) (acc : List (String × Split))
      (gid : String)
      → (has_gid gid gs || is_some (find_split gid acc)) ≡ true
      → IsAssigned gid (assign_entries fl targets gs counts acc)
  unfolding assign_entries
  assign_entries-IsAssigned targets [] counts acc gid h = h
  assign_entries-IsAssigned targets (g ∷ gs) counts acc gid h =
      let s = choose_split fl counts targets (length g.items) in
      assign_entries-IsAssigned targets gs (add s (length g.items) counts) ((g.gid, s) ∷ acc) gid
        (found (g.gid == gid) (has_gid gid gs) (find_split gid acc) s h)

  targets-IsAssigned :
      (o : Option (Each ℤ)) (gs : List Group) (acc made : List (String × Split)) (gid : String)
      → (has_gid gid gs || is_some (find_split gid acc)) ≡ true
      → assign_targets fl o gs acc ≡ some made
      → IsAssigned gid made
  targets-IsAssigned none gs acc made gid h e = absurd (cc)
  targets-IsAssigned (some targets) gs acc made gid h e =
      subst (IsAssigned gid) (some_injective e) (assign_entries-IsAssigned targets gs _ acc gid h)

  -- What a stratum adds to the assignment, where its targets are computed.
  assign_stratum-IsAssigned :
      (shuffle : Stratum → List Group → List Group) (ratios : Each F) (groups : List Group)
      (s : Stratum) (acc made : List (String × Split)) (gid : String)
      → IsShuffle shuffle
      → (has_gid gid (keep (is_in_stratum s) groups) || is_some (find_split gid acc)) ≡ true
      → assign_stratum fl shuffle ratios groups s acc ≡ some made
      → IsAssigned gid made
  unfolding assign_stratum
  assign_stratum-IsAssigned shuffle ratios groups s acc made gid permutes h e =
      let entries = sort (shuffle s (keep (is_in_stratum s) groups)) [] in
      targets-IsAssigned (targets_of fl ratios (total_items entries)) entries acc made gid
        (either (has_gid gid (keep (is_in_stratum s) groups)) (has_gid gid entries) _
          (λ k.
            has_gid-sort (shuffle s (keep (is_in_stratum s) groups)) [] gid
              (ground (arith, permutes s (keep (is_in_stratum s) groups) gid)))
          h)
        e

  -- An assignment that is kept by the strata after it.
  assign_groups-IsAssigned :
      (shuffle : Stratum → List Group → List Group) (ratios : Each F) (groups : List Group)
      (made : List (String × Split)) (gid : String)
      → IsShuffle shuffle
      → has_gid gid groups ≡ true
      → assign_groups fl shuffle ratios groups ≡ some made
      → IsAssigned gid made
  unfolding assign_groups
  assign_groups-IsAssigned shuffle ratios groups made gid permutes h e =
      elim (Option-cases (assign_stratum fl shuffle ratios groups mixed [])) [
        | inl gone ↦ absurd (let k = rw gone at e in cc)
        | inr (first, e1) ↦
            elim (Option-cases (assign_stratum fl shuffle ratios groups negative first)) [
              | inl gone ↦ absurd (let k = rw (e1, gone) at e in cc)
              | inr (second, e2) ↦
                  let e3 = rw (e1, e2) at e in
                  let in_strata = has_gid-strata groups gid h in
                  chain (has_gid gid (keep (is_in_stratum mixed) groups))
                    (has_gid gid (keep (is_in_stratum negative) groups))
                    (has_gid gid (keep (is_in_stratum positives) groups))
                    (is_some (find_split gid first)) (is_some (find_split gid second))
                    (is_some (find_split gid made)) in_strata
                    (λ k.
                      assign_stratum-IsAssigned shuffle ratios groups mixed [] first gid permutes k
                        e1)
                    (λ k.
                      assign_stratum-IsAssigned shuffle ratios groups negative first second gid
                        permutes k e2)
                    (λ k.
                      assign_stratum-IsAssigned shuffle ratios groups positives second made gid
                        permutes k e3)
            ]
      ]

-- Every row has the split of its group.
abbrev pub FollowsGroups : List (String × Split) → List ManifestRow → Type 0
FollowsGroups made rows = All (λ r. find_split r.group made ≡ some r.split) rows

manifest-FollowsGroups :
    (made : List (String × Split)) (xs : List Item)
    → All (λ x. IsAssigned x.group made) xs
    → (rows : List ManifestRow) × (manifest made xs ≡ some rows)
      × (map (λ r. r.filename) rows ≡ map (λ x. x.filename) xs)
      × FollowsGroups made rows
unfolding manifest
manifest-FollowsGroups made [] a = ([], refl, refl, tt)
manifest-FollowsGroups made (x ∷ xs) a =
    let (rows, e, names, follows) = manifest-FollowsGroups made xs a.1 in
    elim (Option-cases (find_split x.group made)) [
      | inl gone ↦ absurd (let k = rw gone at a.0 in cc)
      | inr (s, there) ↦ (
        record { filename = x.filename; split = s; positive = x.positive; group = x.group } ∷ rows,
        rw (there, e) refl,
        ap (λ l. x.filename ∷ l) names,
        (there, follows),
      )
    ]

module _ {F : Type 0} (fl : Floats F) where
  -- Where the targets can be computed, the split of a dataset, with any shuffle that keeps the groups,
  -- does not raise: every group gets a split, the manifest that is written has one row for each image,
  -- in the order of the splits' names and in a split in that of the file names, and the split of a row
  -- is the one that its group was assigned, so that a group of near duplicates is in one split.
  pub build-FollowsGroups :
      (shuffle : Stratum → List Group → List Group) (ratios : Each F) (xs : List Item)
      (made : List (String × Split))
      → IsShuffle shuffle
      → assign_groups fl shuffle ratios (group_items xs []) ≡ some made
      → (rows : List ManifestRow) × (build fl shuffle ratios xs ≡ some rows)
        × Perm (map (λ r. r.filename) rows) (map (λ x. x.filename) xs)
        × IsOrdered rows
        × FollowsGroups made rows
  unfolding build written_rows
  build-FollowsGroups shuffle ratios xs made permutes e =
      let assigned =
        All-weaken (λ x. has_gid x.group (group_items xs []) ≡ true) (λ x. IsAssigned x.group made)
          xs
          (λ x h.
            assign_groups-IsAssigned fl shuffle ratios (group_items xs []) made x.group permutes h
              e)
          (group_items-own xs []) in
      let (rows, f, names, follows) = manifest-FollowsGroups made xs assigned in
      (
        sort_rows rows [],
        rw (e, f) refl,
        subst (λ l. Perm (map (λ r. r.filename) (sort_rows rows [])) l)
            (ap (map (λ r. r.filename)) (append-nil rows) ∙ names)
            (Perm.map (λ r. r.filename) (sort_rows-perm rows [])),
        sort_rows-IsOrdered rows [] tt,
        sort_rows-All (λ r. find_split r.group made ≡ some r.split) rows [] follows tt,
      )
