-- ===== src/Efi/Files/Ends.antt =====
-- That the search for the kernel ends.
use gemiboot.Base.{
  sym, if◌then◌else◌, inl, inr, refl, arith, ℕ, zero, suc, ◌<◌, ◌≤◌, ◌≡◌, ◌≢◌, ◌==◌, ◌&&◌, ◌||◌,
  not, Option, none, some, Bool, true, false, List, [], ◌∷◌, ◌++◌, Arch, Bool-cases, Option-cases,
}
use gemiboot.Efi.Firmware.{Firmware}
use gemiboot.Efi.Files.{
  Call, Files, Found, paths, is_empty, units_at, is_kernel_entry, open_file, try_paths, list_root,
  with_root, try_open_file_on_fs, try_file_system, try_handles, try_boot_device, try_default,
  try_all, or_else, read_kernel_file,
}

-- The entries that are left before the end of the directory: a Read that gives an entry takes one
-- away, Open takes none back, and there are fewer than `fuel` of them in each state.
pub record IsFinite {S : Type 0} (fw : Firmware S) (left : S → ℕ) (fuel : ℕ) : Type 0 where
  pub read_one :
      (root : ℕ) (st : S)
      → (not ((fw.read_file root 512 st).0 == 0) || (fw.read_file root 512 st).1 == 0) ≡ false
      → left (fw.read_file root 512 st).3 < left st
  pub open_keeps :
      (root : ℕ) (path : List ℕ) (st : S) → left (fw.open_file root path st).2 ≤ left st
  pub few : (st : S) → left st < fuel

if_some {ℓ} :
    {A : Type ℓ} (b : Bool) (x y : A) → (r : A) × ((if b then some x else some y) ≡ some r)
if_some true x y = (x, refl)
if_some false x y = (y, refl)

module _ {S : Type 0} (fw : Firmware S) (left : S → ℕ) (fuel : ℕ)
    (finite : IsFinite fw left fuel) where
  list_root-some :
      (n root : ℕ) (f : Files S)
      → left f.firmware < n
      → (r : ℕ × Files S) × (list_root fw n root f ≡ some r)
  unfolding list_root open_file
  list_root-some zero root f lt = absurd (omega arith)
  list_root-some (suc n) root f lt =
      let rd = fw.read_file root 512 f.firmware in
      let op = fw.open_file root (units_at 216 rd.2 80) rd.3 in
      elim (Bool-cases (not (rd.0 == 0) || rd.1 == 0)) [
        | inl over ↦ rw over (_, refl)
        | inr entry ↦
            let one = finite.read_one root f.firmware entry in
            let kept = finite.open_keeps root (units_at 216 rd.2 80) rd.3 in
            elim (Bool-cases (is_kernel_entry rd.2)) [
              | inl kernel ↦ elim (Bool-cases (op.0 == 0 && not (op.1 == 0))) [
                | inl ok ↦ rw (entry, kernel, ok) (_, refl)
                | inr failed ↦
                    rw (entry, kernel, failed)
                      (list_root-some n root (record f { firmware = op.2 }) (omega arith))
              ]
              | inr other ↦
                  rw (entry, other)
                    (list_root-some n root (record f { firmware = rd.3 }) (omega arith))
            ]
      ]

  with_root-some :
      (arch : Arch) (root dest_buf max_size : ℕ) (f : Files S)
      → (r : Found S) × (with_root fw arch fuel root dest_buf max_size f ≡ some r)
  unfolding with_root
  with_root-some arch root dest_buf max_size f =
      let d = try_paths fw root paths f in
      let rewound : Files S = record d.1 { firmware = fw.set_position root 0 d.1.firmware } in
      let listed = list_root-some fuel root rewound (finite.few rewound.firmware) in
      elim (Bool-cases (d.0 == 0)) [
        | inr direct ↦ rw (with_root, direct) (if_some (d.0 == 0) _ _)
        | inl missing ↦ elim (Bool-cases (listed.0.0 == 0)) [
          | inl absent ↦ rw (with_root, missing, listed.1, absent) (_, refl)
          | inr present ↦ rw (with_root, missing, listed.1, present) (_, refl)
        ]
      ]

  try_open-some :
      (arch : Arch) (fs dest_buf max_size : ℕ) (f : Files S)
      → (r : Found S) × (try_open_file_on_fs fw arch fuel fs dest_buf max_size f ≡ some r)
  unfolding try_open_file_on_fs
  try_open-some arch fs dest_buf max_size f =
      let op = fw.open_volume fs f.firmware in
      elim (Bool-cases (fs == 0)) [
        | inl null ↦ rw (try_open_file_on_fs, null) (_, refl)
        | inr given ↦ elim (Bool-cases (not (op.0 == 0) || op.1 == 0)) [
          | inl failed ↦ rw (try_open_file_on_fs, given, failed) (_, refl)
          | inr ok ↦
              rw (try_open_file_on_fs, given, ok)
                (with_root-some arch op.1 dest_buf max_size
                  (record f { log = f.log ++ Call.opened op.1 ∷ []; firmware = op.2 }))
        ]
      ]

  abbrev Ends : Option (Bool × Option ℕ × Files S) → Type 0
  Ends o = (r : Bool × Option ℕ × Files S) × (o ≡ some r)

  try_file_system-some :
      (arch : Arch) (status fs dest_buf max_size : ℕ) (f : Files S)
      → Ends (try_file_system fw arch fuel status fs dest_buf max_size f)
  unfolding try_file_system
  try_file_system-some arch status fs dest_buf max_size f =
      let tried = try_open-some arch fs dest_buf max_size f in
      elim (Bool-cases (status == 0 && not (fs == 0))) [
        | inr failed ↦ rw (try_file_system, failed) (_, refl)
        | inl ok ↦ rw (try_file_system, ok, tried.1) (_, refl)
      ]

  try_handles-some :
      (arch : Arch) (handles : List ℕ) (dest_buf max_size : ℕ) (f : Files S)
      → Ends (try_handles fw arch fuel handles dest_buf max_size f)
  unfolding try_handles
  try_handles-some arch [] dest_buf max_size f = (_, refl)
  try_handles-some arch (h ∷ handles) dest_buf max_size f =
      let op = fw.handle_file_system h f.firmware in
      let f1 : Files S = record f { firmware = op.2 } in
      elim (Option-cases (try_file_system fw arch fuel op.0 op.1 dest_buf max_size f1)) [
        | inl out ↦ absurd (out_of (try_file_system-some arch op.0 op.1 dest_buf max_size f1) out)
        | inr ((true, size, f2), e) ↦ rw (try_handles, e) (_, refl)
        | inr ((false, size, f2), e) ↦
            rw (try_handles, e) (try_handles-some arch handles dest_buf max_size f2)
      ]
    where
      out_of : {o : Option (Bool × Option ℕ × Files S)} → Ends o → o ≢ none
      out_of (r, e) h = cc

  try_boot_device-some :
      (arch : Arch) (image dest_buf max_size : ℕ) (f : Files S)
      → Ends (try_boot_device fw arch fuel image dest_buf max_size f)
  unfolding try_boot_device
  try_boot_device-some arch image dest_buf max_size f =
      let op = fw.loaded_image image f.firmware in
      let op' = fw.handle_file_system op.1 op.2 in
      elim (Bool-cases (op.0 == 0 && not (op.1 == 0))) [
        | inl ok ↦
            rw (try_boot_device, ok)
              (try_file_system-some arch op'.0 op'.1 dest_buf max_size
                (record f { firmware = op'.2 }))
        | inr failed ↦ rw (try_boot_device, failed) (_, refl)
      ]

  try_default-some :
      (arch : Arch) (dest_buf max_size : ℕ) (f : Files S)
      → Ends (try_default fw arch fuel dest_buf max_size f)
  unfolding try_default
  try_default-some arch dest_buf max_size f =
      let op = fw.locate_file_system f.firmware in
      try_file_system-some arch op.0 op.1 dest_buf max_size (record f { firmware = op.2 })

  try_all-some :
      (arch : Arch) (dest_buf max_size : ℕ) (f : Files S)
      → Ends (try_all fw arch fuel dest_buf max_size f)
  unfolding try_all
  try_all-some arch dest_buf max_size f =
      let op = fw.locate_handles f.firmware in
      let tried = try_handles-some arch op.1 dest_buf max_size (record f { firmware = op.2 }) in
      elim (Bool-cases (op.0 == 0 && not (is_empty op.1))) [
        | inr failed ↦ rw (try_all, failed) (_, refl)
        | inl ok ↦ rw (try_all, ok, tried.1) (_, refl)
      ]

  or_else-some :
      (o : Option (Bool × Option ℕ × Files S)) (next : Files S → Option (Bool × Option ℕ × Files S))
      → Ends o
      → ((f : Files S) → Ends (next f))
      → Ends (or_else fw o next)
  or_else-some none next (r, e) h = let same : some r ≡ none = sym e in cc
  or_else-some (some (true, size, f)) next ended h = (_, refl)
  or_else-some (some (false, size, f)) next ended h = h f

  -- Where the firmware's directories are finite, and the fuel exceeds the number of their entries,
  -- the search for the kernel ends, on every branch.
  pub read_kernel_file-some :
      (arch : Arch) (image_handle dest_buf max_size : ℕ) (f : Files S)
      → (r : Bool × Option ℕ × Files S) × (read_kernel_file fw arch fuel image_handle dest_buf
            max_size f
          ≡ some r)
  unfolding read_kernel_file
  read_kernel_file-some arch image_handle dest_buf max_size f =
      or_else-some
        (or_else fw (try_boot_device fw arch fuel image_handle dest_buf max_size f)
          (try_default fw arch fuel dest_buf max_size))
        (try_all fw arch fuel dest_buf max_size)
        (or_else-some (try_boot_device fw arch fuel image_handle dest_buf max_size f)
          (try_default fw arch fuel dest_buf max_size)
          (try_boot_device-some arch image_handle dest_buf max_size f)
          (try_default-some arch dest_buf max_size))
        (try_all-some arch dest_buf max_size)
