-- ===== src/Mkdisk/Entries.antt =====
-- add_dir_entry of tools/mkdisk.c: the slot that it takes and the entry that it writes there.
pub mod Fields
pub mod Add
use mathlib.Core.Path.{subst}
use gemiboot.Base.{
  sym, ◌∙◌, ap, min, ℕ, zero, suc, ◌+◌, ◌-◌, ◌*◌, ◌/◌, ◌%◌, ◌≡◌, ◌≢◌, ◌≤◌, ◌<◌, ◌⊎◌, inl, inr, refl,
  arith, Mem, byte, blit, blit_in, blit_out, ltb, leb, ◌==◌, if◌then◌else◌, lt_or_le, lt→ltb,
  le→not_ltb, Bool-cases, Bool, true, false, u32, List, [], ◌∷◌, Option, some, none, le16, le32,
  put8, put16, put32, Status, success, failure, ◌&&◌, ◌||◌, not, some_eq, Option-cases,
}
use gemiboot.Str.{memset}
use gemiboot.Mkdisk.{
  Image, get_sector, cluster_to_lba, format_83, write_entry, free_entry, free_slot, add_dir_entry,
}
use gemiboot.Mkdisk.Frame.{data_at, cluster_at, HasLayout, Kept, Below, cluster-exact}

-- An entry that is free: the end of the directory, or deleted.
abbrev pub IsFree : Mem → ℕ → Type 0
IsFree m at = (byte m at ≡ 0) ⊎ (byte m at ≡ 0xe5)

-- None of the first `r` entries from `at` on is free.
abbrev pub InUse : Mem → ℕ → ℕ → Type 0
InUse m at r = (j : ℕ) → j < r → (byte m (at + j * 32) ≢ 0) × (byte m (at + j * 32) ≢ 0xe5)

-- The search stops at a free entry, one of the `n` from `at` on.
pub record IsSlot (m : Mem) (at n x : ℕ) : Type 0 where
  pub slot_index : ℕ
  pub within : slot_index < n
  pub place : x ≡ at + slot_index * 32
  pub is_free : IsFree m x

pub free_entry-IsSlot :
    (left at : ℕ) (m : Mem) (x : ℕ) → free_entry left at m ≡ some x → IsSlot m at left x
unfolding free_entry
free_entry-IsSlot zero at m x e = absurd cc
free_entry-IsSlot (suc left) at m x e = elim (Bool-cases (byte m at == 0 || byte m at == 0xe5)) [
  | inl free ↦
      let same : at ≡ x = some_eq (rw free at e) in
      record {
        slot_index = 0;
        within = omega arith;
        place = omega (arith, same);
        is_free = subst (IsFree m) same (ground arith);
      }
  | inr used ↦
      let s = free_entry-IsSlot left (at + 32) m x (rw used at e) in
      record {
        slot_index = s.slot_index + 1;
        within = omega (arith, s.within);
        place = omega (arith, s.place);
        is_free = s.is_free;
      }
]

InUse-tail : (m : Mem) (at r : ℕ) → InUse m at (suc r) → InUse m (at + 32) r
InUse-tail m at r used j lt =
    let e : at + suc j * 32 ≡ at + 32 + j * 32 = omega arith in
    subst (λ (x : ℕ). (byte m x ≢ 0) × (byte m x ≢ 0xe5)) e (used (suc j) (omega arith))

pub free_entry-first :
    (left r at : ℕ) (m : Mem)
    → r < left
    → InUse m at r
    → IsFree m (at + r * 32)
    → free_entry left at m ≡ some (at + r * 32)
unfolding free_entry
free_entry-first zero r at m lt used free = absurd (omega arith)
free_entry-first (suc left) zero at m lt used free =
    let start : at + 0 ≡ at = omega arith in
    let free' : IsFree m at = subst (IsFree m) start free in
    let here : (byte m at == 0 || byte m at == 0xe5) ≡ true = ground arith in
    rw here (ap some (sym start))
free_entry-first (suc left) (suc r) at m lt used free =
    let (not_end, kept) = used 0 (omega arith) in
    let start : at + 0 ≡ at = omega arith in
    let live : byte m at ≢ 0 = subst (λ (x : ℕ). byte m x ≢ 0) start not_end in
    let kept' : byte m at ≢ 0xe5 = subst (λ (x : ℕ). byte m x ≢ 0xe5) start kept in
    let here : (byte m at == 0 || byte m at == 0xe5) ≡ false = ground arith in
    let next : at + 32 + r * 32 ≡ at + suc r * 32 = omega arith in
    rw (here, sym next)
      (free_entry-first left r (at + 32) m (omega arith) (InUse-tail m at r used)
        (subst (IsFree m) (sym next) free))

-- The entries of the sectors one after the other.
first_of : Option ℕ → Option ℕ → Option ℕ
first_of (some x) rest = some x
first_of none rest = rest

free_entry_split :
    (a b at : ℕ) (m : Mem)
    → free_entry (a + b) at m ≡ first_of (free_entry a at m) (free_entry b (at + a * 32) m)
unfolding free_entry first_of
free_entry_split zero b at m =
    let e : 0 + b ≡ b = omega arith in let f : at + 0 * 32 ≡ at = omega arith in rw (e, f) refl
free_entry_split (suc a) b at m =
    let e : suc a + b ≡ suc (a + b) = omega arith in
    let f : at + suc a * 32 ≡ at + 32 + a * 32 = omega arith in
    elim (Bool-cases (byte m at == 0 || byte m at == 0xe5)) [
      | inl free ↦ rw (e, free) refl
      | inr used ↦ rw (e, f, used) (free_entry_split a b (at + 32) m)
    ]

free_entry-none : (at : ℕ) (m : Mem) → free_entry 0 at m ≡ none
unfolding free_entry
free_entry-none at m = refl

free_slot-free_entry :
    (left lba : ℕ) (m : Mem)
    → (lba + left) * 512 < 4294967296
    → free_slot left lba m ≡ free_entry (left * 16) (lba * 512) m
unfolding free_slot first_of
free_slot-free_entry zero lba m small = sym (free_entry-none (lba * 512) m)
free_slot-free_entry (suc left) lba m small =
    let e : suc left * 16 ≡ 16 + left * 16 = omega arith in
    let at : lba * 512 % 4294967296 ≡ lba * 512 = omega arith in
    let next : (lba + 1) % 4294967296 ≡ lba + 1 = omega arith in
    let there : (lba + 1) * 512 ≡ lba * 512 + 16 * 32 = omega arith in
    let rest = free_slot-free_entry left (lba + 1) m (omega arith) in
    let split = free_entry_split 16 (left * 16) (lba * 512) m in
    elim (Option-cases (free_entry 16 (lba * 512) m)) [
      | inl full ↦ rw (e, split, free_slot, at, full, next, rest, there) refl
      | inr (x, free) ↦ rw (e, split, free_slot, at, free) refl
    ]

-- The search in a directory's cluster.
pub free_slot-cluster :
    (img : Image) (dir : ℕ)
    → HasLayout img
    → 2 ≤ dir
    → dir < 130044
    → free_slot 4 (cluster_to_lba img dir) img.g_disk ≡ free_entry 64 (cluster_at dir) img.g_disk
unfolding cluster_to_lba
free_slot-cluster img dir l two small =
    let sub : (dir + 4294967296 - 2) % 4294967296 ≡ dir - 2 = omega arith in
    let lba = cluster_to_lba img dir in
    let exact : lba ≡ 4120 + (dir - 2) * 4 = rw sub (omega (arith, l.data_start)) in
    let at : lba * 512 ≡ cluster_at dir = omega (arith, exact) in
    free_slot-free_entry 4 lba img.g_disk (omega (arith, exact))
    ∙ ap (λ (x : ℕ). free_entry 64 x img.g_disk) at
