-- ===== src/Tools/CleanUp/Duplicates.antt =====
-- Which exact duplicates the scan of tools/cleanup_mouse_positives.py excludes.
use mousinator.Tools.CleanUp.Scan.{
  exclude_unreadable, keep_flagged, kept, Status, hashed, exclude_exact_duplicate, find_owner,
  excluded, Flag, Record, Unique, ImageFile, scan_image, scan_from, scan, Scan,
}
use mathlib.Core.Path.{subst}
use mousinator.Prelude.{
  All-weaken, eq_iff, ap, ◌==◌, Bool-cases, inr, [], some, none, Option, inl, ◌∷◌, is_some, All,
  Option-cases, String, List, ℕ, Bool, true, ◌≡◌, refl,
}

abbrev pub owners : List Unique → List (String × String)
owners [] = []
owners (r ∷ rs) = (r.sha256, r.filename) ∷ owners rs

-- No two records have one hash.
abbrev pub AreDistinct : List Unique → Type 0
AreDistinct [] = Unit
AreDistinct (r ∷ rs) = (find_owner r.sha256 (owners rs) ≡ none) × AreDistinct rs

-- An excluded duplicate names a kept image with its hash.
abbrev pub NamesOwner : List (String × String) → String → Status → Type 0
NamesOwner os sha kept = Unit
NamesOwner os sha keep_flagged = Unit
NamesOwner os sha exclude_unreadable = Unit
NamesOwner os sha (exclude_exact_duplicate owner) = find_owner sha os ≡ some owner

abbrev pub IsFounded : List (String × String) → Record → Type 0
IsFounded os r = NamesOwner os r.sha256 r.status

-- The kept images have distinct hashes, and every image excluded as an exact duplicate names one of
-- them that has its hash.
pub record IsSound (s : Scan) : Type 0 where
  pub kept_owners : s.hash_owner ≡ owners s.valid_unique
  pub distinct : AreDistinct s.valid_unique
  pub founded : All (IsFounded s.hash_owner) s.records

-- The perceptual hash of the image does not raise if the calls before it do not.
abbrev pub IsHashable : ImageFile → Type 0
IsHashable f = is_some f.phash ≡ true

NamesOwner-later :
    (sha name : String) (os : List (String × String)) (other : String) (status : Status)
    → find_owner sha os ≡ none
    → NamesOwner os other status
    → NamesOwner ((sha, name) ∷ os) other status
NamesOwner-later sha name os other kept new h = tt
NamesOwner-later sha name os other keep_flagged new h = tt
NamesOwner-later sha name os other exclude_unreadable new h = tt
NamesOwner-later sha name os other (exclude_exact_duplicate owner) new h =
    elim (Bool-cases (sha == other)) [
      | inl test ↦
          let same : sha ≡ other = (eq_iff sha other).0 test in
          absurd (let gone = ap (λ x. find_owner x os) same in cc)
      | inr apart ↦ simp apart h
    ]

excluded-IsSound :
    (f : ImageFile) (sha : String) (flags : List Flag) (s : Scan)
    → IsSound s
    → IsSound (excluded f sha flags s)
excluded-IsSound f sha flags s v = record {
  kept_owners = v.kept_owners;
  distinct = v.distinct;
  founded = (tt, v.founded);
}

hashed-IsSound :
    (f : ImageFile) (sha : String) (flags : List Flag) (o : Option String) (s : Scan)
    → IsHashable f
    → find_owner sha s.hash_owner ≡ o
    → IsSound s
    → IsSound (hashed f sha flags o s)
hashed-IsSound f sha flags (some owner) s h e v = record {
  kept_owners = v.kept_owners;
  distinct = v.distinct;
  founded = (e, v.founded);
}
hashed-IsSound f sha flags none s h e v = elim (Option-cases f.phash) [
  | inl gone ↦ absurd (cc)
  | inr (hash, found) ↦ simp found (record {
    kept_owners = ap (λ l. (sha, f.name) ∷ l) v.kept_owners;
    distinct = (subst (λ l. find_owner sha l ≡ none) v.kept_owners e, v.distinct);
    founded = (
      tt,
      All-weaken _ _ s.records (λ r. NamesOwner-later sha f.name s.hash_owner r.sha256 r.status e)
          v.founded,
    );
  })
]

module _ (min_side : ℕ) (is_extreme : ℕ → ℕ → Bool) where
  scan_image-IsSound :
      (f : ImageFile) (s : Scan)
      → IsHashable f
      → IsSound s
      → IsSound (scan_image min_side is_extreme f s)
  unfolding scan_image
  scan_image-IsSound f s h v = elim (Option-cases f.size) [
    | inl gone ↦ simp gone (excluded-IsSound f "" [] s v)
    | inr (wh, size) ↦ simp size (elim (Option-cases f.sha) [
      | inl gone ↦ simp gone (excluded-IsSound f "" _ s v)
      | inr (sha, found) ↦ simp found (hashed-IsSound f sha _ _ s h refl v)
    ])
  ]

  scan_from-IsSound :
      (fs : List ImageFile) (s : Scan)
      → All IsHashable fs
      → IsSound s
      → IsSound (scan_from min_side is_extreme fs s)
  unfolding scan_from
  scan_from-IsSound [] s h v = v
  scan_from-IsSound (f ∷ fs) s h v = scan_from-IsSound fs _ h.1 (scan_image-IsSound f s h.0 v)

  -- If no perceptual hash raises, then after the scan no two kept images have one hash, and every
  -- image excluded as an exact duplicate names a kept image that has its hash.
  pub scan-IsSound :
      (fs : List ImageFile) → All IsHashable fs → IsSound (scan min_side is_extreme fs)
  unfolding scan
  scan-IsSound fs h =
      scan_from-IsSound fs (record { records = []; hash_owner = []; valid_unique = [] }) h
        (record { kept_owners = refl; distinct = tt; founded = tt })
