-- ===== src/Tools/CleanUp/Scan.antt =====
-- The scan of `main` of tools/cleanup_mouse_positives.py: exact duplicates by their hash, the pairs of
-- near duplicates, and the images that are kept.
use mousinator.Tools.CleanUp.UnionFind.{group_near}
use mathlib.Core.List.{reverse}
use mousinator.Prelude.{
  ◌/◌, ◌+◌, ◌||◌, map, length, ◌%◌, ◌==◌, leb, ◌++◌, some, eqb, ltb, [], ◌∷◌, none, if◌then◌else◌,
  String, if◌then◌else◌, Option, List, ℕ, zero, suc, Bool, false,
}

-- What the calls on an image file give: its size, its `sha256_file` and its `phash64`; nothing where
-- a call raises.
pub record ImageFile : Type 0 where
  pub name : String
  pub size : Option (ℕ × ℕ)
  pub sha : Option String
  pub phash : Option ℕ

pub data Flag : Type 0 where
  small extreme_aspect exact_duplicate unreadable near_duplicate : Flag

pub data Status : Type 0 where
  kept keep_flagged exclude_unreadable : Status
  exclude_exact_duplicate : String → Status

-- A row of the report; `status` is `kept` until the end of the scan, which may flag it.
pub record Record : Type 0 where
  pub filename : String
  pub sha256 : String
  pub status : Status
  pub flags : List Flag

-- A record of `valid_unique`.
pub record Unique : Type 0 where
  pub filename : String
  pub sha256 : String
  pub phash : ℕ
  pub flags : List Flag

-- `records`, `hash_owner` and `valid_unique`, each with the newest first.
pub record Scan : Type 0 where
  pub records : List Record
  pub hash_owner : List (String × String)
  pub valid_unique : List Unique

abbrev pub find_owner : String → List (String × String) → Option String
find_owner sha [] = none
find_owner sha (o ∷ os) = if o.0 == sha then some o.1 else find_owner sha os

-- A test of a width and a height, `min(width, height) < min_side` and `aspect > max_aspect`.
abbrev pub size_flags : ℕ → (ℕ → ℕ → Bool) → ℕ × ℕ → List Flag
size_flags min_side is_extreme wh =
    (if ltb (if leb wh.0 wh.1 then wh.0 else wh.1) min_side then small ∷ [] else [])
    ++ (if is_extreme wh.0 wh.1 then extreme_aspect ∷ [] else [])

-- The clause for an exception: the flags set before stay.
abbrev pub excluded : ImageFile → String → List Flag → Scan → Scan
excluded f sha flags s = record s {
  records =
      record {
        filename = f.name;
        sha256 = sha;
        status = exclude_unreadable;
        flags = flags ++ unreadable ∷ [];
      }
      ∷ s.records;
}

-- The end of the `try` for an image that has no owner yet.
abbrev pub owned : ImageFile → String → List Flag → Option ℕ → Scan → Scan
owned f sha flags none s =
    excluded f sha flags (record s { hash_owner = (sha, f.name) ∷ s.hash_owner })
owned f sha flags (some h) s = record {
  records = record { filename = f.name; sha256 = sha; status = kept; flags = flags } ∷ s.records;
  hash_owner = (sha, f.name) ∷ s.hash_owner;
  valid_unique =
      record { filename = f.name; sha256 = sha; phash = h; flags = flags } ∷ s.valid_unique;
}

abbrev pub hashed : ImageFile → String → List Flag → Option String → Scan → Scan
hashed f sha flags none s = owned f sha flags f.phash s
hashed f sha flags (some owner) s = record s {
  records =
      record {
        filename = f.name;
        sha256 = sha;
        status = exclude_exact_duplicate owner;
        flags = flags ++ exact_duplicate ∷ [];
      }
      ∷ s.records;
}

abbrev pub read_sha : ImageFile → List Flag → Option String → Scan → Scan
read_sha f flags none s = excluded f "" flags s
read_sha f flags (some sha) s = hashed f sha flags (find_owner sha s.hash_owner) s

module _ (min_side : ℕ) (is_extreme : ℕ → ℕ → Bool) where
  abbrev pub read_size : ImageFile → Option (ℕ × ℕ) → Scan → Scan
  read_size f none s = excluded f "" [] s
  read_size f (some wh) s = read_sha f (size_flags min_side is_extreme wh) f.sha s

  -- One round of the loop over the images.
  unfoldable pub scan_image : ImageFile → Scan → Scan
  scan_image f s = read_size f f.size s

  unfoldable pub scan_from : List ImageFile → Scan → Scan
  unfolding scan_image
  scan_from [] s = s
  scan_from (f ∷ fs) s = scan_from fs (scan_image f s)

  unfoldable pub scan : List ImageFile → Scan
  unfolding scan_from
  scan fs = scan_from fs (record { records = []; hash_owner = []; valid_unique = [] })

-- `hamming` of two hashes of 64 bits.
unfoldable pub hamming_bits : ℕ → ℕ → ℕ → ℕ
hamming_bits zero a b = 0
hamming_bits (suc k) a b = (if eqb (a % 2) (b % 2) then 0 else 1) + hamming_bits k (a / 2) (b / 2)

unfoldable pub hamming : ℕ → ℕ → ℕ
unfolding hamming_bits
hamming a b = hamming_bits 64 a b

-- The near pairs of one record with those after it.
unfoldable pub pairs_with : ℕ → Unique → List Unique → List (String × String)
unfolding hamming
pairs_with distance a [] = []
pairs_with distance a (b ∷ bs) =
    let rest = pairs_with distance a bs in
    if leb (hamming a.phash b.phash) distance then (a.filename, b.filename) ∷ rest else rest

unfoldable pub near_pairs : ℕ → List Unique → List (String × String)
unfolding pairs_with
near_pairs distance [] = []
near_pairs distance (a ∷ bs) = pairs_with distance a bs ++ near_pairs distance bs

-- The groups of more than one image.
abbrev pub duplicate_groups : List (String × List String) → List (List String)
duplicate_groups [] = []
duplicate_groups (g ∷ groups) =
    if ltb 1 (length g.1) then g.1 ∷ duplicate_groups groups else duplicate_groups groups

abbrev pub is_member : String → List String → Bool
is_member n [] = false
is_member n (m ∷ ms) = (m == n) || is_member n ms

abbrev pub in_some_group : String → List (List String) → Bool
in_some_group n [] = false
in_some_group n (g ∷ gs) = is_member n g || in_some_group n gs

-- The status of a record of `valid_unique` at the end: flagged if any flag is left.
abbrev pub flagged : List Flag → Status
flagged [] = kept
flagged (f ∷ fs) = keep_flagged

unfoldable pub final_status : List (List String) → Unique → Status
final_status groups r =
    flagged (r.flags ++ (if in_some_group r.filename groups then near_duplicate ∷ [] else []))

-- The copied images with their status; nothing if the rounds of the union-find ran out.
abbrev pub copied :
    Option (List (String × List String)) → List Unique → Option (List (String × Status))
copied none rs = none
copied (some groups) rs =
    some (map (λ r. (r.filename, final_status (duplicate_groups groups) r)) rs)

-- The rest of `main`, on `valid_unique` in the order of the scan.
unfoldable pub finalize : ℕ → List Unique → Option (List (String × Status))
unfolding near_pairs final_status
finalize distance rs = copied (group_near (map (λ r. r.filename) rs) (near_pairs distance rs)) rs

-- `main`: the scan and then the rest, where the records are in the order of the scan.
unfoldable pub clean_up : ℕ → (ℕ → ℕ → Bool) → ℕ → List ImageFile → Option (List (String × Status))
unfolding scan finalize
clean_up min_side is_extreme distance fs =
    finalize distance (reverse (scan min_side is_extreme fs).valid_unique)
