-- ===== src/Efi/MemoryMap/Convert.antt =====
-- convert_memory_map of src/efi64/efi64.c converts the first 120 descriptors in order.
use gemiboot.Base.{
  ℕ, zero, suc, ◌+◌, ◌-◌, ◌*◌, ◌/◌, ◌≡◌, ◌≤◌, ◌<◌, ◌⊎◌, inl, inr, refl, sym, ◌∙◌, arith, true,
  false, some, min, ltb, ◌==◌, if◌then◌else◌, Mem, byte, le64, put32, put32_outside, u64, u32,
  lt_or_le, eq_or_lt,
}
use mathlib.Core.Path.{subst}
use native.Mathlib.Nat.{mul-le-mul_right, add-mul, div-mul-le_self}
use gemiboot.Elf.Spec.{SameOn}
use gemiboot.Elf.Load.{le32_same}
use gemiboot.Multiboot.{MultibootInfo}
use gemiboot.Efi.MemoryMap.{
  Descriptor, descriptor_at, is_available, descriptor_length, Converting, put_map_entry,
  convert_descriptor, convert_loop, finish_map, convert_memory_map,
}
use gemiboot.Efi.MemoryMap.Entries.{IsEntry, put_map_entry-IsEntry, put_map_entry_outside}

le64_same :
    (m m' : Mem) (lo hi a : ℕ) → SameOn m m' lo hi → lo ≤ a → a + 8 ≤ hi → le64 m a ≡ le64 m' a
le64_same m m' lo hi a h p q = omega (
  arith,
  le32_same m m' lo hi a h p (omega arith),
  le32_same m m' lo hi (a + 4) h (omega arith) (omega arith),
)

-- The 40 bytes of a descriptor determine it.
descriptor_same :
    (m m' : Mem) (a : ℕ) → SameOn m m' a (a + 40) → descriptor_at m a ≡ descriptor_at m' a
unfolding descriptor_at
descriptor_same m m' a h =
    rw
      (
        le32_same m m' a (a + 40) a h (omega arith) (omega arith),
        le64_same m m' a (a + 40) (a + 8) h (omega arith) (omega arith),
        le64_same m m' a (a + 40) (a + 24) h (omega arith) (omega arith),
      )
      refl

IsEntry-same :
    (m m' : Mem) (k : ℕ) (d : Descriptor)
    → SameOn m' m (0x8004 + k * 24) (0x8004 + k * 24 + 24)
    → IsEntry m k d
    → IsEntry m' k d
IsEntry-same m m' k d h e =
    let at = 0x8004 + k * 24 in
    record {
      size = le32_same m' m at (at + 24) at h (omega arith) (omega arith) ∙ e.size;
      start = le64_same m' m at (at + 24) (at + 4) h (omega arith) (omega arith) ∙ e.start;
      length = le64_same m' m at (at + 24) (at + 12) h (omega arith) (omega arith) ∙ e.length;
      type = le32_same m' m at (at + 24) (at + 20) h (omega arith) (omega arith) ∙ e.type;
    }

start_lt : (m : Mem) (a : ℕ) → (descriptor_at m a).physical_start < 18446744073709551616
unfolding descriptor_at
start_lt m a = omega arith

-- The memory that the firmware calls available in the first `n` descriptors.
unfoldable pub ram_bytes : ℕ → ℕ → ℕ → Mem → ℕ
ram_bytes zero mmap desc_size m = 0
ram_bytes (suc n) mmap desc_size m =
    let d = descriptor_at m (mmap + n * desc_size) in
    let before = ram_bytes n mmap desc_size m in
    if is_available d.type then u64 (before + descriptor_length d) else before

-- The first `n` descriptors of `m` are converted, and nothing but the map has changed.
record Converted (m : Mem) (mmap desc_size n : ℕ) (st : Converting) : Type 0 where
  count : st.entry_count ≡ n
  entries : (k : ℕ) → k < n → IsEntry st.mem k (descriptor_at m (mmap + k * desc_size))
  outside : (x : ℕ) → (x < 0x8004) ⊎ (0x8b44 ≤ x) → byte st.mem x ≡ byte m x
  total : st.total_ram_bytes ≡ ram_bytes n mmap desc_size m

convert_descriptor-Converted :
    (m : Mem) (mmap desc_size n : ℕ) (st : Converting)
    → Converted m mmap desc_size n st
    → n < 120
    → (mmap + n * desc_size + 40 ≤ 0x8004) ⊎ (0x8b44 ≤ mmap)
    → Converted m mmap desc_size (suc n) (convert_descriptor (mmap + n * desc_size) st)
unfolding convert_descriptor ram_bytes
convert_descriptor-Converted m mmap desc_size n st c small apart =
    let a = mmap + n * desc_size in
    let same : descriptor_at st.mem a ≡ descriptor_at m a =
      descriptor_same st.mem m a (λ x lo hi. c.outside x (omega arith)) in
    let d = descriptor_at m a in
    let written = put_map_entry (0x8004 + n * 24) d st.mem in
    let earlier = λ (k : ℕ) (before : k < n).
      IsEntry-same st.mem written k (descriptor_at m (mmap + k * desc_size))
        (λ x lo hi. put_map_entry_outside (0x8004 + n * 24) x d st.mem (inl (omega arith)))
        (c.entries k before) in
    rw (same, c.count)
      (record {
        count = omega arith;
        entries = λ k below. elim (eq_or_lt k n (omega arith)) [
          | inl e ↦
              subst (λ (j : ℕ). IsEntry written j (descriptor_at m (mmap + j * desc_size))) (sym e)
                (put_map_entry-IsEntry n d st.mem (start_lt m a))
          | inr before ↦ earlier k before
        ];
        outside = λ x out.
            put_map_entry_outside (0x8004 + n * 24) x d st.mem (omega arith) ∙ c.outside x out;
        total = rw c.total refl;
      })

convert_loop-Converted :
    (m : Mem) (mmap desc_size left i : ℕ) (st : Converting)
    → Converted m mmap desc_size i st
    → i ≤ 120
    → ((n : ℕ) → n < i + left → (mmap + n * desc_size + 40 ≤ 0x8004) ⊎ (0x8b44 ≤ mmap))
    → Converted m mmap desc_size (min (i + left) 120) (convert_loop left i mmap desc_size st)
unfolding convert_loop
convert_loop-Converted m mmap desc_size zero i st c small apart =
    subst (λ (j : ℕ). Converted m mmap desc_size j st) (omega arith) c
convert_loop-Converted m mmap desc_size (suc left) i st c small apart = elim (lt_or_le i 120) [
  | inr full ↦
      let test : ltb st.entry_count 120 ≡ false = ground (arith, c.count) in
      rw test (subst (λ (j : ℕ). Converted m mmap desc_size j st) (omega arith) c)
  | inl room ↦
      let test : ltb st.entry_count 120 ≡ true = ground (arith, c.count) in
      let next =
        convert_descriptor-Converted m mmap desc_size i st c room (apart i (omega arith)) in
      let after =
        convert_loop-Converted m mmap desc_size left (suc i)
          (convert_descriptor (mmap + i * desc_size) st) next (omega arith)
          (λ n below. apart n (omega arith)) in
      let index : i + 1 ≡ suc i = omega arith in
      rw (test, index)
        (subst
          (λ (j : ℕ). Converted m mmap desc_size j (
            convert_loop left (suc i) mmap desc_size
              (convert_descriptor (mmap + i * desc_size) st)))
          (omega arith) after)
]

-- A descriptor of the map does not meet the entries.
descriptor_apart :
    (mmap mmap_size desc_size n : ℕ)
    → 40 ≤ desc_size
    → n < mmap_size / desc_size
    → (mmap + mmap_size ≤ 0x8004) ⊎ (0x8b44 ≤ mmap)
    → (mmap + n * desc_size + 40 ≤ 0x8004) ⊎ (0x8b44 ≤ mmap)
descriptor_apart mmap mmap_size desc_size n big below apart =
    let ends : suc n * desc_size ≤ mmap_size / desc_size * desc_size =
      mul-le-mul_right desc_size below in
    let next : suc n * desc_size ≡ n * desc_size + desc_size =
      omega (arith, add-mul 1 n desc_size) in
    let whole = div-mul-le_self mmap_size desc_size in omega arith

-- For a map of the firmware whose descriptors have 40 bytes or more and do not meet the place of the
-- multiboot map, convert_memory_map converts the first 120 descriptors in order: each entry has the
-- start, the length and the type of its descriptor, the structure says where the map is and how
-- long, and the upper memory is that of the available descriptors, or 127 MB where these have no
-- more than 1 MB. No byte outside 0x8000 to 0x8b44 changes.
pub convert_memory_map-IsEntry :
    (mmap mmap_size desc_size : ℕ) (mbi : MultibootInfo) (m : Mem)
    → 40 ≤ desc_size
    → (mmap + mmap_size ≤ 0x8000) ⊎ (0x8b44 ≤ mmap)
    → let n = min (mmap_size / desc_size) 120 in
      (r : MultibootInfo × Mem) × (convert_memory_map mmap mmap_size desc_size mbi m ≡ some r)
      × (r.0.mmap_addr ≡ 0x8004)
      × (r.0.mmap_length ≡ n * 24)
      × (r.0.mem_upper
          ≡ u32 (
              if ltb 1048576 (ram_bytes n mmap desc_size m)
              then (ram_bytes n mmap desc_size m - 1048576) / 1024
              else 130048))
      × ((k : ℕ) → k < n → IsEntry r.1 k (descriptor_at m (mmap + k * desc_size)))
      × ((x : ℕ) → (x < 0x8000) ⊎ (0x8b44 ≤ x) → byte r.1 x ≡ byte m x)
unfolding convert_memory_map finish_map
convert_memory_map-IsEntry mmap mmap_size desc_size mbi m big apart =
    let n = min (mmap_size / desc_size) 120 in
    let start : Converting = record { mem = m; entry_count = 0; total_ram_bytes = 0 } in
    let begin : Converted m mmap desc_size 0 start = record {
      count = refl;
      entries = λ k below. absurd (omega arith);
      outside = λ x out. refl;
      total = unfold ram_bytes in refl;
    } in
    let at_end =
      convert_loop-Converted m mmap desc_size (mmap_size / desc_size) 0 start begin (omega arith)
        (λ k below. descriptor_apart mmap mmap_size desc_size k big (omega arith) (omega arith)) in
    let st = convert_loop (mmap_size / desc_size) 0 mmap desc_size start in
    let index : min (0 + mmap_size / desc_size) 120 ≡ n = omega arith in
    let c : Converted m mmap desc_size n st =
      subst (λ (j : ℕ). Converted m mmap desc_size j st) index at_end in
    let divides : (desc_size == 0) ≡ false = ground arith in
    (
      finish_map st mbi,
      rw divides refl,
      refl,
      omega (arith, c.count),
      rw c.total refl,
      λ k below.
          IsEntry-same st.mem (put32 st.mem 0x8000 st.entry_count) k
            (descriptor_at m (mmap + k * desc_size))
            (λ x lo hi. put32_outside st.mem 0x8000 st.entry_count x (omega arith))
            (c.entries k below),
      λ x out.
          put32_outside st.mem 0x8000 st.entry_count x (omega arith) ∙ c.outside x (omega arith),
    )
