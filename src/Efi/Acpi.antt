-- ===== src/Efi/Acpi.antt =====
-- find_acpi_rsdp of src/efi64/efi64.c.
pub mod First
use gemiboot.Base.{
  ℕ, zero, suc, ◌+◌, ◌*◌, Bool, true, false, Option, none, some, List, [], ◌∷◌, get_or, ◌==◌,
  if◌then◌else◌, Mem, le32, le64, Arch, ia32, x64,
}
use gemiboot.Str.{memcmp}
use gemiboot.Fat.Find.{is_zero}

-- The 16 bytes of the two GUIDs.
abbrev pub acpi20_guid : List ℕ
acpi20_guid =
    0x71 ∷ 0xe8 ∷ 0x68 ∷ 0x88 ∷ 0xf1 ∷ 0xe4 ∷ 0xd3 ∷ 0x11 ∷ 0xbc ∷ 0x22 ∷ 0x00 ∷ 0x80 ∷ 0xc7 ∷ 0x3c
    ∷ 0x88 ∷ 0x81 ∷ []

abbrev pub acpi10_guid : List ℕ
acpi10_guid =
    0x30 ∷ 0x2d ∷ 0x9d ∷ 0xeb ∷ 0x88 ∷ 0x2d ∷ 0xd3 ∷ 0x11 ∷ 0x9a ∷ 0x16 ∷ 0x00 ∷ 0x90 ∷ 0x27 ∷ 0x3f
    ∷ 0xc1 ∷ 0x4d ∷ []

-- EFI_CONFIGURATION_TABLE: a GUID and a pointer.
abbrev pub entry_size : Arch → ℕ
entry_size ia32 = 20
entry_size x64 = 24

abbrev pub vendor_table : Arch → Mem → ℕ → ℕ
vendor_table ia32 m a = le32 m (a + 16)
vendor_table x64 m a = le64 m (a + 16)

-- Entry `a` has the GUID.
abbrev pub has_guid : Mem → ℕ → List ℕ → Bool
has_guid m a guid = is_zero (memcmp (λ k. m (a + k)) (λ k. get_or guid k 0) 16)

-- A loop over the entries from the one at `a` on, with `left` entries left.
unfoldable pub find_guid : ℕ → ℕ → Arch → List ℕ → Mem → Option ℕ
find_guid zero a arch guid m = none
find_guid (suc left) a arch guid m =
    let rest = find_guid left (a + entry_size arch) arch guid m in
    if has_guid m a guid then some (vendor_table arch m a) else rest

-- The fields of the system table that the code reads.
pub record ConfigTables : Type 0 where
  pub number_of_table_entries : ℕ
  pub configuration_table : ℕ

-- 0 is NULL. `none` for the system table is a null pointer.
unfoldable pub find_acpi_rsdp : Arch → Option ConfigTables → Mem → ℕ
find_acpi_rsdp arch none m = 0
find_acpi_rsdp arch (some st) m =
    let first = find_guid st.number_of_table_entries st.configuration_table arch acpi20_guid m in
    let second = find_guid st.number_of_table_entries st.configuration_table arch acpi10_guid m in
    let older : ℕ = elim second [ some table ↦ table | none ↦ 0 ] in
    if st.configuration_table == 0 then 0 else elim first [ some table ↦ table | none ↦ older ]
