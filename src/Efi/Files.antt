-- ===== src/Efi/Files.antt =====
-- utf16_case_equals, try_open_file_on_fs and read_kernel_file of src/efi64/efi64.c: looking for the
-- kernel on the file systems of the firmware. The opened and closed files are noted in a log.
pub mod Names
pub mod Closed
pub mod Ends
use gemiboot.Base.{
  ℕ, zero, suc, ◌+◌, ◌-◌, ◌*◌, ◌/◌, ◌%◌, Bool, true, false, not, ◌&&◌, ◌||◌, Option, none, some,
  List, [], ◌∷◌, ◌++◌, map, leb, ◌==◌, if◌then◌else◌, Mem, byte, le16, le64, blit, Arch, ia32, x64,
}
use gemiboot.Fat.Name.{to_upper}
use gemiboot.Efi.Firmware.{Firmware}

-- The loop of utf16_case_equals from index `i` on. The characters of `ascii` are those before its
-- NUL; `u` holds 16-bit units.
unfoldable pub utf16_case_equals : ℕ → Mem → List ℕ → Bool
unfolding to_upper
utf16_case_equals i u [] = u i % 65536 == 0
utf16_case_equals i u (c ∷ ascii) =
    let more = utf16_case_equals (i + 1) u ascii in
    if to_upper c == to_upper (u i % 256) then more else false

pub data Call : Type 0 where
  opened closed : ℕ → Call

-- The memory, the log and the firmware.
pub record Files (S : Type 0) : Type 0 where
  pub mem : Mem
  pub log : List Call
  pub firmware : S

-- The result of a search: the status, and the size where it was written.
pub record Found (S : Type 0) : Type 0 where
  pub status : ℕ
  pub out_size : Option ℕ
  pub files : Files S

-- EFI_INVALID_PARAMETER and EFI_NOT_FOUND: the top bit of uintptr_t and a number.
abbrev pub efi_error : Arch → ℕ → ℕ
efi_error ia32 n = 0x80000000 + n
efi_error x64 n = 0x8000000000000000 + n

-- gemios.elf, GEMIOS.ELF and the directory \EFI\BOOT\.
abbrev pub lower_name : List ℕ
lower_name = b'g' ∷ b'e' ∷ b'm' ∷ b'i' ∷ b'o' ∷ b's' ∷ b'.' ∷ b'e' ∷ b'l' ∷ b'f' ∷ []

abbrev pub upper_name : List ℕ
upper_name = b'G' ∷ b'E' ∷ b'M' ∷ b'I' ∷ b'O' ∷ b'S' ∷ b'.' ∷ b'E' ∷ b'L' ∷ b'F' ∷ []

abbrev pub boot_path : List ℕ → List ℕ
boot_path name = b'E' ∷ b'F' ∷ b'I' ∷ 92 ∷ b'B' ∷ b'O' ∷ b'O' ∷ b'T' ∷ 92 ∷ name

abbrev pub is_empty : List ℕ → Bool
is_empty [] = true
is_empty (h ∷ handles) = false

-- The eight paths that are tried; 92 is a backslash.
abbrev pub paths : List (List ℕ)
paths =
    upper_name
    ∷ (92 ∷ upper_name)
    ∷ lower_name
    ∷ (92 ∷ lower_name)
    ∷ boot_path upper_name
    ∷ boot_path lower_name
    ∷ (92 ∷ boot_path upper_name)
    ∷ (92 ∷ boot_path lower_name)
    ∷ []

-- The units of a UTF-16 string in memory up to its NUL, at most `n`.
unfoldable pub units_at : ℕ → Mem → ℕ → List ℕ
units_at zero m a = []
units_at (suc n) m a =
    let rest = units_at n m (a + 2) in if le16 m a == 0 then [] else le16 m a ∷ rest

-- info->Attribute & EFI_FILE_DIRECTORY, and a name that fits; the name is at offset 80.
unfoldable pub is_kernel_entry : Mem → Bool
is_kernel_entry buf =
    let name = λ (i : ℕ). le16 buf (80 + 2 * i) in
    not (le64 buf 72 / 16 % 2 == 1)
    && (utf16_case_equals 0 name lower_name || utf16_case_equals 0 name upper_name)

module _ {S : Type 0} (fw : Firmware S) where
  -- Open and Close. A handle that Open gives with success is noted.
  unfoldable pub open_file : ℕ → List ℕ → Files S → ℕ × ℕ × Files S
  open_file root path f =
      let (status, file, st) = fw.open_file root path f.firmware in
      let log = if status == 0 && not (file == 0) then f.log ++ opened file ∷ [] else f.log in
      (status, file, record f { log = log; firmware = st })

  unfoldable pub close_file : ℕ → Files S → Files S
  close_file h f = record f { log = f.log ++ closed h ∷ []; firmware = fw.close_file h f.firmware }

  -- The loop over the paths: the handle of the first that opens, or 0. A failing Open is taken to
  -- leave no handle.
  unfoldable pub try_paths : ℕ → List (List ℕ) → Files S → ℕ × Files S
  try_paths root [] f = (0, f)
  try_paths root (path ∷ more) f =
      let (status, file, f') = open_file root path f in
      let rest = try_paths root more f' in
      if status == 0 && not (file == 0) then (file, f') else rest

  -- The loop over the entries of the root directory; `none` means that the fuel ran out.
  unfoldable pub list_root : ℕ → ℕ → Files S → Option (ℕ × Files S)
  list_root zero root f = none
  list_root (suc fuel) root f =
      let (status, size, buf, st) = fw.read_file root 512 f.firmware in
      let f1 : Files S = record f { firmware = st } in
      let (status', file, f2) = open_file root (units_at 216 buf 80) f1 in
      let is_kernel = is_kernel_entry buf in
      let rest = list_root fuel root (if is_kernel then f2 else f1) in
      if not (status == 0) || size == 0
      then some (0, f1)
      else if is_kernel && status' == 0 && not (file == 0)
      then some (file, f2)
      else rest

  -- The kernel's bytes, read into memory, and both handles closed.
  unfoldable pub read_contents : ℕ → ℕ → ℕ → ℕ → Files S → Found S
  read_contents root file dest_buf max_size f =
      let (status, read_bytes, bytes, st) = fw.read_file file max_size f.firmware in
      let read : Files S = record f {
        mem = if status == 0 then blit f.mem dest_buf bytes read_bytes else f.mem;
        firmware = st;
      } in
      record {
        status = status;
        out_size = if status == 0 then some read_bytes else none;
        files = close_file root (close_file file read);
      }

  unfoldable pub with_root : Arch → ℕ → ℕ → ℕ → ℕ → Files S → Option (Found S)
  with_root arch fuel root dest_buf max_size f =
      let (direct, f1) = try_paths root paths f in
      let rewound : Files S = record f1 { firmware = fw.set_position root 0 f1.firmware } in
      let search : Option (ℕ × Files S) =
        if direct == 0 then list_root fuel root rewound else some (direct, f1) in
      elim search [
        | none ↦ none
        | some (file, f2) ↦
            if file == 0
            then some
                (record { status = efi_error arch 14; out_size = none; files = close_file root f2 })
            else some (read_contents root file dest_buf max_size f2)
      ]

  unfoldable pub try_open_file_on_fs : Arch → ℕ → ℕ → ℕ → ℕ → Files S → Option (Found S)
  try_open_file_on_fs arch fuel fs dest_buf max_size f =
      let (status, root, st) = fw.open_volume fs f.firmware in
      let closed_state : Files S = record f { firmware = st } in
      let open_state : Files S = record f { log = f.log ++ opened root ∷ []; firmware = st } in
      let failed : Option (Found S) =
        some (record { status = status; out_size = none; files = closed_state }) in
      let null : Option (Found S) =
        some (record { status = efi_error arch 2; out_size = none; files = f }) in
      let found = with_root arch fuel root dest_buf max_size open_state in
      if fs == 0 then null else if not (status == 0) || root == 0 then failed else found

  -- A file system that a lookup gave with success and that is not null; the status, where it is
  -- not EFI_SUCCESS, lets the next place be tried.
  unfoldable pub try_file_system :
      Arch → ℕ → ℕ → ℕ → ℕ → ℕ → Files S → Option (Bool × Option ℕ × Files S)
  try_file_system arch fuel status fs dest_buf max_size f =
      let tried : Option (Bool × Option ℕ × Files S) =
        elim (try_open_file_on_fs arch fuel fs dest_buf max_size f) [
          | none ↦ none
          | some found ↦ some (
              if found.status == 0
              then (true, found.out_size, found.files)
              else (false, none, found.files))
        ] in
      if status == 0 && not (fs == 0) then tried else some (false, none, f)

  -- The loop over all handles.
  unfoldable pub try_handles :
      Arch → ℕ → List ℕ → ℕ → ℕ → Files S → Option (Bool × Option ℕ × Files S)
  try_handles arch fuel [] dest_buf max_size f = some (false, none, f)
  try_handles arch fuel (h ∷ handles) dest_buf max_size f =
      let (status, fs, st) = fw.handle_file_system h f.firmware in
      let f1 : Files S = record f { firmware = st } in
      elim (try_file_system arch fuel status fs dest_buf max_size f1) [
        | none ↦ none
        | some (true, size, f2) ↦ some (true, size, f2)
        | some (false, size, f2) ↦ try_handles arch fuel handles dest_buf max_size f2
      ]

  -- 1. The device of the loaded image.
  unfoldable pub try_boot_device :
      Arch → ℕ → ℕ → ℕ → ℕ → Files S → Option (Bool × Option ℕ × Files S)
  try_boot_device arch fuel image dest_buf max_size f =
      let (status, device, st) = fw.loaded_image image f.firmware in
      let (status', fs, st') = fw.handle_file_system device st in
      let tried =
        try_file_system arch fuel status' fs dest_buf max_size (record f { firmware = st' }) in
      if status == 0 && not (device == 0)
      then tried
      else some (false, none, record f { firmware = st })

  -- 2. The default file system.
  unfoldable pub try_default : Arch → ℕ → ℕ → ℕ → Files S → Option (Bool × Option ℕ × Files S)
  try_default arch fuel dest_buf max_size f =
      let (status, fs, st) = fw.locate_file_system f.firmware in
      try_file_system arch fuel status fs dest_buf max_size (record f { firmware = st })

  -- 3. All file systems; the list of handles is freed.
  unfoldable pub try_all : Arch → ℕ → ℕ → ℕ → Files S → Option (Bool × Option ℕ × Files S)
  try_all arch fuel dest_buf max_size f =
      let (status, handles, st) = fw.locate_handles f.firmware in
      let f1 : Files S = record f { firmware = st } in
      let tried : Option (Bool × Option ℕ × Files S) =
        elim (try_handles arch fuel handles dest_buf max_size f1) [
          | none ↦ none
          | some (ok, size, f2) ↦ some (ok, size, record f2 { firmware = fw.free_pool f2.firmware })
        ] in
      if status == 0 && not (is_empty handles) then tried else some (false, none, f1)

  -- The next place, where the last one had no kernel.
  abbrev pub or_else :
      Option (Bool × Option ℕ × Files S)
      → (Files S → Option (Bool × Option ℕ × Files S))
      → Option (Bool × Option ℕ × Files S)
  or_else none next = none
  or_else (some (true, size, f)) next = some (true, size, f)
  or_else (some (false, size, f)) next = next f

  -- Whether the kernel was read (EFI_SUCCESS) or not (EFI_NOT_FOUND), and its size.
  unfoldable pub read_kernel_file :
      Arch → ℕ → ℕ → ℕ → ℕ → Files S → Option (Bool × Option ℕ × Files S)
  read_kernel_file arch fuel image_handle dest_buf max_size f =
      or_else
        (or_else (try_boot_device arch fuel image_handle dest_buf max_size f)
          (try_default arch fuel dest_buf max_size))
        (try_all arch fuel dest_buf max_size)
