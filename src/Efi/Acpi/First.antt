-- ===== src/Efi/Acpi/First.antt =====
-- Which table find_acpi_rsdp returns.
use gemiboot.Base.{
  ap, ◌∙◌, inl, inr, refl, ℕ, zero, suc, ◌+◌, ◌*◌, ◌<◌, ◌≡◌, ◌≢◌, ◌==◌, ◌⊎◌, arith, none, some,
  true, false, Bool-cases, List, Mem, Arch, ia32, x64, eq_or_lt,
}
use mathlib.Core.Path.{subst}
use gemiboot.Efi.Acpi.{
  acpi20_guid, acpi10_guid, entry_size, vendor_table, has_guid, find_guid, ConfigTables,
  find_acpi_rsdp,
}

-- Entry `k` of the tables.
abbrev pub entry_at : Arch → ConfigTables → ℕ → ℕ
entry_at arch st k = st.configuration_table + k * entry_size arch

-- No entry of the tables has the GUID.
abbrev pub HasNone : Arch → ConfigTables → Mem → List ℕ → Type 0
HasNone arch st m guid =
    (k : ℕ) → k < st.number_of_table_entries → has_guid m (entry_at arch st k) guid ≡ false

-- The table is the one of the first entry that has the GUID.
pub record IsFirst (arch : Arch) (st : ConfigTables) (m : Mem) (guid : List ℕ) (table : ℕ)
    : Type 0 where
  pub index : ℕ
  pub in_tables : index < st.number_of_table_entries
  pub matching : has_guid m (entry_at arch st index) guid ≡ true
  pub first : (k : ℕ) → k < index → has_guid m (entry_at arch st k) guid ≡ false
  pub is_table : table ≡ vendor_table arch m (entry_at arch st index)

next_entry :
    (arch : Arch) (st : ConfigTables) (k : ℕ)
    → entry_at arch st k + entry_size arch ≡ entry_at arch st (k + 1)
next_entry ia32 st k = omega arith
next_entry x64 st k = omega arith

module _ (arch : Arch) (st : ConfigTables) (m : Mem) (guid : List ℕ) where
  find_guid-IsFirst :
      (left i : ℕ)
      → i + left ≡ st.number_of_table_entries
      → ((k : ℕ) → k < i → has_guid m (entry_at arch st k) guid ≡ false)
      → ((find_guid left (entry_at arch st i) arch guid m ≡ none) × HasNone arch st m guid)
        ⊎ ((table : ℕ) × (find_guid left (entry_at arch st i) arch guid m ≡ some table)
            × IsFirst arch st m guid table)
  unfolding find_guid
  find_guid-IsFirst zero i at_end before = inl (refl, λ k lt. before k (omega arith))
  find_guid-IsFirst (suc left) i at_end before =
      elim (Bool-cases (has_guid m (entry_at arch st i) guid)) [
        | inl found ↦ rw found (
            inr (
              _,
              refl,
              record {
                index = i;
                in_tables = omega arith;
                matching = found;
                first = before;
                is_table = refl;
              },
            ))
        | inr other ↦
            rw (other, next_entry arch st i)
              (find_guid-IsFirst left (i + 1) (omega arith) (λ k lt.
                elim (eq_or_lt k i (omega arith)) [
                  | inl e ↦ ap (λ n. has_guid m (entry_at arch st n) guid) e ∙ other
                  | inr less ↦ before k less
                ]))
      ]

-- What is returned: the table of the first ACPI 2.0 entry; if there is none, of the first ACPI 1.0
-- entry; if there is none, 0.
pub data IsRsdp (arch : Arch) (st : ConfigTables) (m : Mem) : ℕ → Type 0 where
  acpi20 : (table : ℕ) → IsFirst arch st m acpi20_guid table → IsRsdp arch st m table
  acpi10 :
      (table : ℕ)
      → HasNone arch st m acpi20_guid
      → IsFirst arch st m acpi10_guid table
      → IsRsdp arch st m table
  not_found : HasNone arch st m acpi20_guid → HasNone arch st m acpi10_guid → IsRsdp arch st m 0

-- Where the system table has configuration tables, find_acpi_rsdp returns the table of the first
-- entry with the ACPI 2.0 GUID, or of the first with the ACPI 1.0 GUID where none has the former, or
-- 0 where none has either.
pub find_acpi_rsdp-IsRsdp :
    (arch : Arch) (st : ConfigTables) (m : Mem)
    → st.configuration_table ≢ 0
    → IsRsdp arch st m (find_acpi_rsdp arch (some st) m)
unfolding find_acpi_rsdp
find_acpi_rsdp-IsRsdp arch st m given =
    let some_table : (st.configuration_table == 0) ≡ false = ground arith in
    elim (search acpi20_guid) [
      | inr (table, e, f) ↦ rw (find_acpi_rsdp, some_table, e) (acpi20 table f)
      | inl (e, n) ↦ elim (search acpi10_guid) [
        | inr (table, e', f) ↦ rw (find_acpi_rsdp, some_table, e, e') (acpi10 table n f)
        | inl (e', n') ↦ rw (find_acpi_rsdp, some_table, e, e') (not_found n n')
      ]
    ]
  where
    at_start : entry_at arch st 0 ≡ st.configuration_table
    at_start = omega arith

    search :
        (guid : List ℕ)
        → ((find_guid st.number_of_table_entries st.configuration_table arch guid m ≡ none)
            × HasNone arch st m guid)
          ⊎ ((table : ℕ) × (find_guid st.number_of_table_entries st.configuration_table arch guid m
                ≡ some table)
              × IsFirst arch st m guid table)
    search guid =
        subst
          (λ a.
            ((find_guid st.number_of_table_entries a arch guid m ≡ none) × HasNone arch st m guid)
            ⊎ ((table : ℕ) × (find_guid st.number_of_table_entries a arch guid m ≡ some table)
                × IsFirst arch st m guid table))
          at_start
          (find_guid-IsFirst arch st m guid st.number_of_table_entries 0 (omega arith)
            (λ k lt. ground arith))
