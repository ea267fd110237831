-- ===== src/Camera/Storage/Saving.antt =====
-- What a capture that `save_capture` of host/camera/storage.py saved has changed on the disk.
use mousinator.Prelude.{
  false, true, if◌then◌else◌, ℕ, ◌≡◌, refl, ap, sym, ◌∙◌, Done, Bool, not, Option, none, some, List,
  [], ◌∷◌, ◌++◌, arith, inl, inr, ◌⊎◌, if_both,
}
use mousinator.Prelude.Exec.{Result, ok, err, Exec, continue, continue-lem, pure, ◌>>=◌, ◌>>◌}
use mousinator.Prelude.Text.{Text}
use mathlib.Core.Path.{subst}
use mathlib.Core.List.{append-nil, append_assoc}
use mousinator.Camera.Storage.{
  raw_captures, part_of, relative_to_data, Frame, CaptureRecord, Change, wrote_jpeg, replaced,
  wrote_header, wrote_row, on_disk, write_header_if, append_metadata, write_files, capture_record,
  Disk, Store, MediaStorage, row_of, ensure_free_space, normalize_timestamp, check_capture,
  write_jpeg, write_capture, validate_metadata_header, save_locked, free_path, changing, noted,
  save_capture,
}

-- The changes of a capture that is saved, in order; `b` says whether the metadata file is new.
abbrev pub saved_changes : Bool → CaptureRecord → List (Text × Text) → List Change
saved_changes b r metadata =
    wrote_jpeg (part_of r.path)
      ∷ replaced (part_of r.path) r.path
      ∷ (if b then wrote_header ∷ [] else [])
    ++ wrote_row (row_of r metadata) ∷ []

-- The names in a record are those of its path.
pub record IsNamed (r : CaptureRecord) : Type 0 where
  pub relative_path : r.relative_path ≡ relative_to_data r.path
  pub filename : r.filename ≡ r.path.name

-- What a part of the code changed: all of these changes where it returned, the first of them where it
-- raised.
abbrev Extends : {B W : Type 0} → List Change → List Change → Result B → Store W → Type 0
Extends all before (ok b) s' = s'.changes ≡ before ++ all
Extends all before (err e) s' =
    (front : List Change) × (rest : List Change) × (front ++ rest ≡ all)
    × (s'.changes ≡ before ++ front)

-- The changes of a capture: all of them where it was saved, and none or the first of them where it
-- raised.
abbrev pub Saved :
    {W : Type 0} → List (Text × Text) → List Change → Result CaptureRecord → Store W → Type 0
Saved metadata before (ok r) s' =
    (b : Bool) × (s'.changes ≡ before ++ saved_changes b r metadata) × IsNamed r
Saved metadata before (err e) s' =
    (s'.changes ≡ before)
    ⊎ ((r : CaptureRecord) × (b : Bool) × (front : List Change) × (rest : List Change) × (front
            ++ rest
          ≡ saved_changes b r metadata)
        × (s'.changes ≡ before ++ front)
        × IsNamed r)

module _ {A T W : Type 0} (disk : Disk A T W) where
  validate_metadata_header-changes :
      (s : Store W) → (validate_metadata_header disk s).1.changes ≡ s.changes
  validate_metadata_header-changes s =
      if_both {A = Result Bool × Store W} (λ x. x.1.changes ≡ s.changes)
        (disk.metadata_exists s.world)
        (continue-lem {S = Store W} {B = Bool} (λ r s'. s'.changes ≡ s.changes)
          (disk.header s.world).0 _ _ (λ e h. refl) (λ o h. ground arith))
        refl

  noted-Extends :
      (c : Change) (x : Result Done × W) (s : Store W)
      → Extends (c ∷ []) s.changes (noted disk c s x).0 (noted disk c s x).1
  noted-Extends c (ok u, w) s = refl
  noted-Extends c (err e, w) s = ([], c ∷ [], refl, sym (append-nil s.changes))

  quiet-Extends :
      (r : Result Done) (s t : Store W) → t.changes ≡ s.changes → Extends [] s.changes r t
  quiet-Extends (ok u) s t same = same ∙ sym (append-nil s.changes)
  quiet-Extends (err e) s t same = ([], [], refl, same ∙ sym (append-nil s.changes))

  on_disk-Extends :
      (m : W → Result Done × W) (s : Store W)
      → Extends [] s.changes (on_disk disk m s).0 (on_disk disk m s).1
  on_disk-Extends m s = quiet-Extends (m s.world).0 s (on_disk disk m s).1 refl

  -- The second part adds its changes to those of the first.
  after-Extends :
      (xs ys before : List Change) (t : Store W) (r : Result Done) (t' : Store W)
      → t.changes ≡ before ++ xs
      → Extends ys t.changes r t'
      → Extends (xs ++ ys) before r t'
  after-Extends xs ys before t (ok u) t' e h = h ∙ ap (λ l. l ++ ys) e ∙ append_assoc before xs ys
  after-Extends xs ys before t (err x) t' e (front, rest, whole, h) = (
    xs ++ front,
    rest,
    append_assoc xs front rest ∙ ap (λ l. xs ++ l) whole,
    h ∙ ap (λ l. l ++ front) e ∙ append_assoc before xs front,
  )

  continue-Extends :
      (xs ys before : List Change) (r : Result Done) (f : Done → Exec (Store W) Done) (t : Store W)
      → Extends xs before r t
      → Extends ys t.changes (f tt t).0 (f tt t).1
      → Extends (xs ++ ys) before (continue r f t).0 (continue r f t).1
  continue-Extends xs ys before (ok u) f t h next =
      after-Extends xs ys before t (f u t).0 (f u t).1 h next
  continue-Extends xs ys before (err e) f t (front, rest, whole, h) next =
      (front, rest ++ ys, sym (append_assoc front rest ys) ∙ ap (λ l. l ++ ys) whole, h)

  then-Extends :
      (xs ys : List Change) (m : Exec (Store W) Done) (f : Exec (Store W) Done) (s : Store W)
      → Extends xs s.changes (m s).0 (m s).1
      → ((t : Store W) → Extends ys t.changes (f t).0 (f t).1)
      → Extends (xs ++ ys) s.changes ((m >> f) s).0 ((m >> f) s).1
  then-Extends xs ys m f s h next =
      continue-Extends xs ys s.changes (m s).0 (λ u. f) (m s).1 h (next (m s).1)

  -- The end of a `finally`, whose second part writes nothing.
  ended-Extends :
      (xs before : List Change) (r r' : Result Done) (t t' : Store W)
      → t'.changes ≡ t.changes
      → Extends xs before r t
      → let out : Result Done × Store W = elim r' [ ok u ↦ (r, t') | err e ↦ (err e, t') ] in
        Extends xs before out.0 out.1
  ended-Extends xs before (ok u) (ok u') t t' same h = same ∙ h
  ended-Extends xs before (err e) (ok u') t t' same (front, rest, whole, h) =
      (front, rest, whole, same ∙ h)
  ended-Extends xs before (ok u) (err e') t t' same h = (xs, [], append-nil xs, same ∙ h)
  ended-Extends xs before (err e) (err e') t t' same (front, rest, whole, h) =
      (front, rest, whole, same ∙ h)

  write_header_if-Extends :
      (b : Bool) (s : Store W)
      → Extends
          (if b then wrote_header ∷ [] else [])
          s.changes
          (write_header_if disk b s).0
          (write_header_if disk b s).1
  write_header_if-Extends true s = noted-Extends wrote_header (disk.write_header s.world) s
  write_header_if-Extends false s = quiet-Extends (ok tt) s s refl

  append_metadata-Extends :
      (b : Bool) (row : List Text) (s : Store W)
      → Extends
          ((if b then wrote_header ∷ [] else []) ++ wrote_row row ∷ [])
          s.changes
          (append_metadata disk b row s).0
          (append_metadata disk b row s).1
  unfolding append_metadata
  append_metadata-Extends b row s =
      then-Extends [] _ (on_disk disk disk.open_metadata) _ s (on_disk-Extends disk.open_metadata s)
        (λ t.
          ended-Extends _ t.changes (body t).0 (on_disk disk disk.close_metadata (body t).1).0
            (body t).1 (on_disk disk disk.close_metadata (body t).1).1 refl
            (then-Extends _ (wrote_row row ∷ []) (write_header_if disk b) _ t
              (write_header_if-Extends b t)
              (λ t'.
                then-Extends (wrote_row row ∷ []) []
                  (changing disk (wrote_row row) (disk.write_row row)) _ t'
                  (noted-Extends (wrote_row row) (disk.write_row row t'.world) t')
                  (λ u.
                    then-Extends [] [] (on_disk disk disk.flush) (on_disk disk disk.fsync) u
                      (on_disk-Extends disk.flush u) (on_disk-Extends disk.fsync)))))
    where
      body : Exec (Store W) Done
      body = do
        write_header_if disk b
        changing disk (wrote_row row) (disk.write_row row)
        on_disk disk disk.flush
        on_disk disk disk.fsync

  write_files-Extends :
      (r : CaptureRecord) (frame : A) (b : Bool) (metadata : List (Text × Text)) (s : Store W)
      → Extends
          (saved_changes b r metadata)
          s.changes
          (write_files disk r.path frame b (row_of r metadata) s).0
          (write_files disk r.path frame b (row_of r metadata) s).1
  unfolding write_files
  write_files-Extends r frame b metadata s =
      let p = r.path in
      let row = row_of r metadata in
      let write = changing disk (wrote_jpeg (part_of p)) (write_jpeg disk frame (part_of p)) in
      let rename = changing disk (replaced (part_of p) p) (disk.replace (part_of p) p) in
      let entry = append_metadata disk b row in
      then-Extends (wrote_jpeg (part_of p) ∷ []) _ write (rename >> entry) s
        (noted-Extends (wrote_jpeg (part_of p)) (write_jpeg disk frame (part_of p) s.world) s)
        (λ t.
          then-Extends (replaced (part_of p) p ∷ []) _ rename entry t
            (noted-Extends (replaced (part_of p) p) (disk.replace (part_of p) p t.world) t)
            (append_metadata-Extends b row))

  written-Saved :
      (b : Bool) (r : CaptureRecord) (metadata : List (Text × Text)) (before : List Change)
      (x : Result Done) (t : Store W)
      → IsNamed r
      → Extends (saved_changes b r metadata) before x t
      → let out = continue x (λ u. pure r) t in Saved metadata before out.0 out.1
  written-Saved b r metadata before (ok u) t named h = (b, h, named)
  written-Saved b r metadata before (err e) t named (front, rest, whole, h) =
      inr (r, b, front, rest, whole, h, named)

  write_capture-Saved :
      (frame : A) (b : Bool) (r : CaptureRecord) (metadata : List (Text × Text)) (s : Store W)
      → IsNamed r
      → Saved metadata s.changes
          (write_capture disk r.path frame b r metadata s).0
          (write_capture disk r.path frame b r metadata s).1
  unfolding write_capture
  write_capture-Saved frame b r metadata s named =
      written-Saved (not b) r metadata s.changes _
        (write_files disk r.path frame (not b) (row_of r metadata) s).1 named
        (write_files-Extends r frame (not b) metadata s)

  pub ensure_free_space-changes :
      (m : MediaStorage) (s : Store W) → (ensure_free_space disk m s).1.changes ≡ s.changes
  unfolding ensure_free_space
  ensure_free_space-changes m s =
      continue-lem {S = Store W} {B = ℕ} (λ r s'. s'.changes ≡ s.changes)
        (disk.disk_usage s.world).0 _ _ (λ e h. refl) (λ n h. ground arith)

  -- A part that writes nothing may come before.
  then-Saved :
      {B : Type 0} (metadata : List (Text × Text)) (m : Exec (Store W) B)
      (f : B → Exec (Store W) CaptureRecord)
      → ((s : Store W) → (m s).1.changes ≡ s.changes)
      → (s : Store W) → ((b : B) (s' : Store W) → Saved metadata s'.changes (f b s').0 (f b s').1)
      → Saved metadata s.changes ((m >>= f) s).0 ((m >>= f) s).1
  then-Saved metadata m f quiet s next =
      continue-lem (Saved metadata s.changes) (m s).0 f (m s).1 (λ e h. inl (quiet s))
        (λ b h.
          subst (λ c. Saved metadata c (f b (m s).1).0 (f b (m s).1).1) (quiet s) (next b (m s).1))

  save_locked-Saved :
      (m : MediaStorage) (frame : Frame A) (capture_mode source_mode : Text)
      (metadata : List (Text × Text)) (timestamp : T) (s : Store W)
      → let out = save_locked disk m frame capture_mode source_mode metadata timestamp s in
        Saved metadata s.changes out.0 out.1
  unfolding save_locked free_path
  save_locked-Saved m frame capture_mode source_mode metadata timestamp s =
      then-Saved metadata (ensure_free_space disk m) _ (λ s'. ensure_free_space-changes m s') s
        (λ free s1.
          then-Saved metadata (validate_metadata_header disk) _ validate_metadata_header-changes s1
            (λ b s2.
              then-Saved metadata (free_path disk m.rounds raw_captures _ _) _ (λ s'. refl) s2
                (λ p s3.
                  write_capture-Saved frame.array b
                    (capture_record disk frame capture_mode source_mode timestamp p) metadata s3
                    (record { relative_path = refl; filename = refl }))))

  check_capture-quiet :
      (frame : Frame A) (capture_mode source_mode : Text) (s : Store W)
      → (check_capture disk frame capture_mode source_mode s).1.changes ≡ s.changes
  check_capture-quiet frame capture_mode source_mode s = ground arith

  normalize_timestamp-quiet :
      (now : Option T) (s : Store W) → (normalize_timestamp disk now s).1.changes ≡ s.changes
  normalize_timestamp-quiet none s = refl
  normalize_timestamp-quiet (some t) s = refl

  pub save_capture-Saved :
      (m : MediaStorage) (frame : Frame A) (capture_mode source_mode : Text)
      (metadata : List (Text × Text)) (now : Option T) (s : Store W)
      → Saved metadata s.changes
          (save_capture disk m frame capture_mode source_mode metadata now s).0
          (save_capture disk m frame capture_mode source_mode metadata now s).1
  unfolding save_capture
  save_capture-Saved m frame capture_mode source_mode metadata now s =
      then-Saved metadata (check_capture disk frame capture_mode source_mode) _
        (check_capture-quiet frame capture_mode source_mode) s
        (λ u s1.
          then-Saved metadata (normalize_timestamp disk now) _ (normalize_timestamp-quiet now) s1
            (λ t s2. save_locked-Saved m frame capture_mode source_mode metadata t s2))
