-- ===== src/Camera/Storage/Naming.antt =====
-- What `_unique_path` of host/camera/storage.py finds.
use mousinator.Prelude.{
  ℕ, zero, suc, ◌+◌, ◌≤◌, ◌<◌, ◌≡◌, refl, Bool, true, false, arith, Bool-cases, if◌then◌else◌, inl,
  inr, ◌⊎◌,
}
use mousinator.Prelude.Exec.{ok}
use mousinator.Prelude.Text.{Text}
use mathlib.Core.Path.{sym, ◌∙◌, subst}
use mousinator.Camera.Storage.{Folder, candidate, Disk, taken, unique_path}

if_true : {B : Type 0} (b : Bool) → b ≡ true → (x y : B) → (if b then x else y) ≡ x
if_true true e x y = refl
if_true false e x y = absurd (cc)

if_false : {B : Type 0} (b : Bool) → b ≡ false → (x y : B) → (if b then x else y) ≡ y
if_false true e x y = absurd (cc)
if_false false e x y = refl

true-ne-false : true ≡ false → ⊥
true-ne-false h = cc

module _ {A T W : Type 0} (disk : Disk A T W) (d : Folder) (stem suffix : Text) (w : W) where
  -- The candidate at `found` is free, and every one from `start` to it is taken.
  pub record IsFirstFree (start found : ℕ) : Type 0 where
    pub after : start ≤ found
    pub free : taken disk (candidate d stem suffix found) w ≡ false
    pub first : (i : ℕ) → start ≤ i → i < found → taken disk (candidate d stem suffix i) w ≡ true

  IsFirstFree-later :
      (start found : ℕ)
      → taken disk (candidate d stem suffix start) w ≡ true
      → IsFirstFree (suc start) found
      → IsFirstFree start found
  IsFirstFree-later start found here rest = record {
    after = omega (arith, rest.after);
    free = rest.free;
    first = λ i low high. elim (same-or-after start i low) [
      | inl e ↦ rw (← e, here)
      | inr l ↦ rest.first i l high
    ];
  }
    where
      same-or-after : (start i : ℕ) → start ≤ i → (start ≡ i) ⊎ (suc start ≤ i)
      same-or-after start i low = ground arith

  IsFirstFree-start :
      (start : ℕ) → taken disk (candidate d stem suffix start) w ≡ false → IsFirstFree start start
  IsFirstFree-start start open_name = record {
    after = omega arith;
    free = open_name;
    first = λ i low high. absurd (omega (arith, low, high));
  }

  -- The free name as the rounds that are left count it.
  free-next :
      (k start : ℕ)
      → taken disk (candidate d stem suffix (start + k)) w ≡ false
      → taken disk (candidate d stem suffix start) w ≡ true
      → (j : ℕ) × (k ≡ suc j) × (start + k ≡ suc start + j)
  free-next zero start free here = absurd (
      true-ne-false (
        sym here
        ∙ subst (λ n. taken disk (candidate d stem suffix n) w ≡ false) (omega arith) free))
  free-next (suc k) start free here = (k, refl, omega arith)

  -- Where one of the names that the rounds allow is free, `_unique_path` finds one, and it is the
  -- first: all the names it passed over are taken by a file or by one that is being written.
  pub unique_path-IsFirstFree :
      (rounds k start : ℕ)
      → taken disk (candidate d stem suffix (start + k)) w ≡ false
      → k < rounds
      → (found : ℕ) × (unique_path disk rounds d stem suffix start w
          ≡ ok (candidate d stem suffix found))
        × IsFirstFree start found
  unfolding unique_path
  unique_path-IsFirstFree zero k start free enough = absurd (omega (arith, enough))
  unique_path-IsFirstFree (suc rounds) k start free enough =
      elim (Bool-cases (taken disk (candidate d stem suffix start) w)) [
        | inr open_name ↦ (start, if_false _ open_name _ _, IsFirstFree-start start open_name)
        | inl here ↦
            let next = free-next k start free here in
            let rest =
              unique_path-IsFirstFree rounds next.0 (suc start)
                (subst (λ n. taken disk (candidate d stem suffix n) w ≡ false) next.2 free)
                (omega (arith, enough, next.1)) in
            (rest.0, if_true _ here _ _ ∙ rest.1, IsFirstFree-later start rest.0 here rest.2)
      ]
