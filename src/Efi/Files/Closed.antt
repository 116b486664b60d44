-- ===== src/Efi/Files/Closed.antt =====
-- The handles that read_kernel_file opens.
use gemiboot.Base.{
  if◌then◌else◌, Mem, ◌==◌, ◌||◌, ◌&&◌, not, inl, inr, ℕ, zero, suc, ◌≡◌, refl, arith, Option, none,
  some, Bool, true, false, List, [], ◌∷◌, ◌++◌, Arch, Bool-cases, Option-cases,
}
use mathlib.Core.Path.{subst}
use gemiboot.Efi.Firmware.{Firmware}
use gemiboot.Efi.Files.{
  units_at, is_kernel_entry, Call, Files, Found, efi_error, paths, open_file, try_paths, list_root,
  with_root, read_contents, close_file, try_open_file_on_fs, try_file_system, try_handles,
  try_boot_device, try_default, is_empty, try_all, or_else, read_kernel_file,
}

-- A log after a search for a file that gives a handle, or 0.
data Opened (log : List Call) : ℕ → List Call → Type 0 where
  nothing : Opened log 0 log
  handle : (file : ℕ) → (file == 0) ≡ false → Opened log file (log ++ Call.opened file ∷ [])

-- What holds of the result, if there is one.
unfoldable pub Every {ℓ} : {A : Type ℓ} → (A → Type 0) → Option A → Type 0
Every P none = Unit
Every P (some a) = P a

-- The second log is the first with some rounds after it. A round opens a root directory, may open
-- a file, and closes what it opened in the reverse order.
pub data IsTidy (log : List Call) : List Call → Type 0 where
  same : IsTidy log log
  root_only :
      (r : ℕ) (before : List Call)
      → IsTidy log before
      → IsTidy log ((before ++ Call.opened r ∷ []) ++ Call.closed r ∷ [])
  root_and_file :
      (r file : ℕ) (before : List Call)
      → IsTidy log before
      → IsTidy log (
          (((before ++ Call.opened r ∷ []) ++ Call.opened file ∷ []) ++ Call.closed file ∷ [])
          ++ Call.closed r ∷ [])

module _ {S : Type 0} (fw : Firmware S) where
  try_paths-Opened :
      (root : ℕ) (ps : List (List ℕ)) (f : Files S)
      → Opened f.log (try_paths fw root ps f).0 (try_paths fw root ps f).1.log
  unfolding try_paths open_file
  try_paths-Opened root [] f = nothing
  try_paths-Opened root (p ∷ ps) f =
      let st = fw.open_file root p f.firmware in
      elim (Bool-cases (st.0 == 0 && not (st.1 == 0))) [
        | inl ok ↦ rw ok (handle st.1 (ground arith))
        | inr failed ↦ rw failed (try_paths-Opened root ps (record f { firmware = st.2 }))
      ]

  list_root-Opened :
      (fuel root : ℕ) (f : Files S)
      → Every (λ r. Opened f.log r.0 r.1.log) (list_root fw fuel root f)
  unfolding list_root open_file Every
  list_root-Opened zero root f = tt
  list_root-Opened (suc fuel) root f =
      let rd = fw.read_file root 512 f.firmware in
      let op = fw.open_file root (units_at 216 rd.2 80) rd.3 in
      elim (Bool-cases (not (rd.0 == 0) || rd.1 == 0)) [
        | inl over ↦ rw over nothing
        | inr entry ↦ elim (Bool-cases (is_kernel_entry rd.2)) [
          | inl kernel ↦ elim (Bool-cases (op.0 == 0 && not (op.1 == 0))) [
            | inl ok ↦ rw (entry, kernel, ok) (handle op.1 (ground arith))
            | inr failed ↦
                rw (entry, kernel, failed)
                  (list_root-Opened fuel root (record f { firmware = op.2 }))
          ]
          | inr other ↦
              rw (entry, other) (list_root-Opened fuel root (record f { firmware = rd.3 }))
        ]
      ]

  Opened-zero : {log l : List Call} {file : ℕ} → Opened log file l → (file == 0) ≡ true → l ≡ log
  Opened-zero nothing h = refl
  Opened-zero (handle file none_zero) h = cc

  Every_some {ℓ} :
      {A : Type ℓ} (P : A → Type 0) {o : Option A} {a : A} → Every P o → o ≡ some a → P a
  unfolding Every
  Every_some P {o} h e = subst (Every P) e h

  -- What follows the search for the file in a root directory.
  close-IsTidy :
      (arch : Arch) (root dest_buf max_size : ℕ) (log : List Call) (m : Mem) (st : S) (file : ℕ)
      (l : List Call)
      → Opened (log ++ Call.opened root ∷ []) file l
      → Every
          (λ (r : Found S). IsTidy log r.files.log)
          (if file == 0
            then some (record {
              status = efi_error arch 14;
              out_size = none;
              files = close_file fw root (record { mem = m; log = l; firmware = st });
            })
            else some (
                read_contents fw root file dest_buf max_size
                  (record { mem = m; log = l; firmware = st })))
  unfolding Every close_file read_contents
  close-IsTidy arch root dest_buf max_size log m st _ _ nothing = root_only root log same
  close-IsTidy arch root dest_buf max_size log m st _ _ (handle file h) =
      rw h (root_and_file root file log same)

  with_root-IsTidy :
      (arch : Arch) (fuel root dest_buf max_size : ℕ) (log : List Call) (f : Files S)
      → f.log ≡ log ++ Call.opened root ∷ []
      → Every (λ r. IsTidy log r.files.log) (with_root fw arch fuel root dest_buf max_size f)
  unfolding with_root Every
  with_root-IsTidy arch fuel root dest_buf max_size log f e =
      let d = try_paths fw root paths f in
      let tried = subst (λ l. Opened l d.0 d.1.log) e (try_paths-Opened root paths f) in
      let rewound : Files S = record d.1 { firmware = fw.set_position root 0 d.1.firmware } in
      elim (Bool-cases (d.0 == 0)) [
        | inl missing ↦ elim (Option-cases (list_root fw fuel root rewound)) [
          | inl out ↦ rw (with_root, missing, out) tt
          | inr ((file, f2), found) ↦
              rw (with_root, missing, found)
                (close-IsTidy arch root dest_buf max_size log f2.mem f2.firmware file f2.log (
                  Every_some (λ r. Opened (log ++ Call.opened root ∷ []) r.0 r.1.log)
                    (subst (λ l. Every (λ r. Opened l r.0 r.1.log) (list_root fw fuel root rewound))
                      (Opened-zero tried missing) (list_root-Opened fuel root rewound))
                    found))
        ]
        | inr direct ↦
            rw (with_root, direct)
              (close-IsTidy arch root dest_buf max_size log d.1.mem d.1.firmware d.0 d.1.log tried)
      ]

  try_open-IsTidy :
      (arch : Arch) (fuel fs dest_buf max_size : ℕ) (f : Files S)
      → Every
          (λ r. IsTidy f.log r.files.log)
          (try_open_file_on_fs fw arch fuel fs dest_buf max_size f)
  unfolding try_open_file_on_fs Every
  try_open-IsTidy arch fuel fs dest_buf max_size f =
      let op = fw.open_volume fs f.firmware in
      elim (Bool-cases (fs == 0)) [
        | inl null ↦ rw (try_open_file_on_fs, null) same
        | inr given ↦ elim (Bool-cases (not (op.0 == 0) || op.1 == 0)) [
          | inl failed ↦ rw (try_open_file_on_fs, given, failed) same
          | inr ok ↦
              rw (try_open_file_on_fs, given, ok)
                (with_root-IsTidy arch fuel op.1 dest_buf max_size f.log
                  (record f { log = f.log ++ Call.opened op.1 ∷ []; firmware = op.2 }) refl)
        ]
      ]

  -- What a search of some places promises.
  abbrev Tidy : List Call → Option (Bool × Option ℕ × Files S) → Type 0
  Tidy log = Every (λ r. IsTidy log r.2.log)

  try_file_system-IsTidy :
      (arch : Arch) (fuel status fs dest_buf max_size : ℕ) (f : Files S)
      → Tidy f.log (try_file_system fw arch fuel status fs dest_buf max_size f)
  unfolding try_file_system Every
  try_file_system-IsTidy arch fuel status fs dest_buf max_size f =
      elim (Bool-cases (status == 0 && not (fs == 0))) [
        | inr failed ↦ rw (try_file_system, failed) same
        | inl ok ↦ elim (Option-cases (try_open_file_on_fs fw arch fuel fs dest_buf max_size f)) [
          | inl out ↦ rw (try_file_system, ok, out) tt
          | inr (found, e) ↦
              let tidy =
                Every_some (λ (r : Found S). IsTidy f.log r.files.log)
                  (try_open-IsTidy arch fuel fs dest_buf max_size f) e in
              elim (Bool-cases (found.status == 0)) [
                | inl read ↦ rw (try_file_system, ok, e, read) tidy
                | inr missed ↦ rw (try_file_system, ok, e, missed) tidy
              ]
        ]
      ]

  IsTidy-trans : {a b c : List Call} → IsTidy a b → IsTidy b c → IsTidy a c
  IsTidy-trans h same = h
  IsTidy-trans h (root_only r before k) = root_only r before (IsTidy-trans h k)
  IsTidy-trans h (root_and_file r file before k) = root_and_file r file before (IsTidy-trans h k)

  Tidy-after :
      {a b : List Call} (o : Option (Bool × Option ℕ × Files S)) → IsTidy a b → Tidy b o → Tidy a o
  unfolding Every
  Tidy-after none h k = tt
  Tidy-after (some r) h k = IsTidy-trans h k

  or_else-IsTidy :
      (log : List Call) (o : Option (Bool × Option ℕ × Files S))
      (next : Files S → Option (Bool × Option ℕ × Files S))
      → Tidy log o
      → ((f : Files S) → Tidy f.log (next f))
      → Tidy log (or_else fw o next)
  unfolding Every
  or_else-IsTidy log none next h k = tt
  or_else-IsTidy log (some (true, size, f)) next h k = h
  or_else-IsTidy log (some (false, size, f)) next h k = Tidy-after (next f) h (k f)

  try_handles-IsTidy :
      (arch : Arch) (fuel : ℕ) (handles : List ℕ) (dest_buf max_size : ℕ) (f : Files S)
      → Tidy f.log (try_handles fw arch fuel handles dest_buf max_size f)
  unfolding try_handles Every
  try_handles-IsTidy arch fuel [] dest_buf max_size f = same
  try_handles-IsTidy arch fuel (h ∷ handles) dest_buf max_size f =
      let op = fw.handle_file_system h f.firmware in
      let f1 : Files S = record f { firmware = op.2 } in
      elim (Option-cases (try_file_system fw arch fuel op.0 op.1 dest_buf max_size f1)) [
        | inl out ↦ rw (try_handles, out) tt
        | inr ((true, size, f2), e) ↦
            rw (try_handles, e)
              (Every_some (λ r. IsTidy f.log r.2.log)
                (try_file_system-IsTidy arch fuel op.0 op.1 dest_buf max_size f1) e)
        | inr ((false, size, f2), e) ↦
            rw (try_handles, e)
              (Tidy-after (try_handles fw arch fuel handles dest_buf max_size f2)
                (Every_some (λ r. IsTidy f.log r.2.log)
                  (try_file_system-IsTidy arch fuel op.0 op.1 dest_buf max_size f1) e)
                (try_handles-IsTidy arch fuel handles dest_buf max_size f2))
      ]

  try_boot_device-IsTidy :
      (arch : Arch) (fuel image dest_buf max_size : ℕ) (f : Files S)
      → Tidy f.log (try_boot_device fw arch fuel image dest_buf max_size f)
  unfolding try_boot_device Every
  try_boot_device-IsTidy arch fuel image dest_buf max_size f =
      let op = fw.loaded_image image f.firmware in
      let op' = fw.handle_file_system op.1 op.2 in
      elim (Bool-cases (op.0 == 0 && not (op.1 == 0))) [
        | inl ok ↦
            rw (try_boot_device, ok)
              (try_file_system-IsTidy arch fuel op'.0 op'.1 dest_buf max_size
                (record f { firmware = op'.2 }))
        | inr failed ↦ rw (try_boot_device, failed) same
      ]

  try_default-IsTidy :
      (arch : Arch) (fuel dest_buf max_size : ℕ) (f : Files S)
      → Tidy f.log (try_default fw arch fuel dest_buf max_size f)
  unfolding try_default
  try_default-IsTidy arch fuel dest_buf max_size f =
      let op = fw.locate_file_system f.firmware in
      try_file_system-IsTidy arch fuel op.0 op.1 dest_buf max_size (record f { firmware = op.2 })

  try_all-IsTidy :
      (arch : Arch) (fuel dest_buf max_size : ℕ) (f : Files S)
      → Tidy f.log (try_all fw arch fuel dest_buf max_size f)
  unfolding try_all Every
  try_all-IsTidy arch fuel dest_buf max_size f =
      let op = fw.locate_handles f.firmware in
      let f1 : Files S = record f { firmware = op.2 } in
      elim (Bool-cases (op.0 == 0 && not (is_empty op.1))) [
        | inr failed ↦ rw (try_all, failed) same
        | inl ok ↦ elim (Option-cases (try_handles fw arch fuel op.1 dest_buf max_size f1)) [
          | inl out ↦ rw (try_all, ok, out) tt
          | inr (r, e) ↦
              rw (try_all, ok, e)
                (Every_some (λ (r : Bool × Option ℕ × Files S). IsTidy f.log r.2.log)
                  (try_handles-IsTidy arch fuel op.1 dest_buf max_size f1) e)
        ]
      ]

  -- Whatever the firmware does, and whether the kernel is found or not, the log that the search
  -- leaves, where it ends, is the one before it with whole rounds after it: each root directory and
  -- each file that was opened has been closed, the file before its root, and nothing else is closed.
  pub read_kernel_file-IsTidy :
      (arch : Arch) (fuel image_handle dest_buf max_size : ℕ) (f f' : Files S) (ok : Bool)
      (size : Option ℕ)
      → read_kernel_file fw arch fuel image_handle dest_buf max_size f ≡ some (ok, size, f')
      → IsTidy f.log f'.log
  unfolding read_kernel_file
  read_kernel_file-IsTidy arch fuel image_handle dest_buf max_size f f' ok size e =
      let places =
        or_else-IsTidy f.log
          (or_else fw (try_boot_device fw arch fuel image_handle dest_buf max_size f)
            (try_default fw arch fuel dest_buf max_size))
          (try_all fw arch fuel dest_buf max_size)
          (or_else-IsTidy f.log (try_boot_device fw arch fuel image_handle dest_buf max_size f)
            (try_default fw arch fuel dest_buf max_size)
            (try_boot_device-IsTidy arch fuel image_handle dest_buf max_size f)
            (try_default-IsTidy arch fuel dest_buf max_size))
          (try_all-IsTidy arch fuel dest_buf max_size) in
      Every_some (λ (r : Bool × Option ℕ × Files S). IsTidy f.log r.2.log) places e
