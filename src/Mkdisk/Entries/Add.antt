-- ===== src/Mkdisk/Entries/Add.antt =====
-- What add_dir_entry of tools/mkdisk.c leaves alone, and the slot of the root directory.
use gemiboot.Base.{
  sym, ◌∙◌, ℕ, ◌+◌, ◌*◌, ◌≡◌, ◌≢◌, ◌≤◌, ◌<◌, ◌⊎◌, inl, inr, refl, arith, Mem, byte, lt_or_le, List,
  success, Option-cases,
}
use mathlib.Core.Path.{subst}
use gemiboot.Mkdisk.{Image, cluster_to_lba, write_entry, free_slot, add_dir_entry}
use gemiboot.Mkdisk.Frame.{data_at, cluster_at, HasLayout, Below, Kept, Kept-weaken}
use gemiboot.Mkdisk.Entries.{InUse, IsSlot, free_entry-IsSlot, free_entry-first, free_slot-cluster}
use gemiboot.Mkdisk.Entries.Fields.{write_entry_out}

-- A step of main that allocates `n` clusters: it keeps the layout and what is below cluster `f` and
-- the first `r` entries of the root directory.
pub record Keeps (f r n : ℕ) (img img' : Image) : Type 0 where
  pub layout : HasLayout img'
  pub next_free : img'.g_next_free_clus ≡ img.g_next_free_clus + n
  pub kept : Kept f r img.g_disk img'.g_disk

-- `n'` clusters after `n`, for a sum that is written some other way.
pub Keeps-trans :
    (f r n n' k : ℕ) (img img' img'' : Image)
    → n + n' ≡ k
    → Keeps f r n img img'
    → Keeps f r n' img' img''
    → Keeps f r k img img''
Keeps-trans f r n n' k img img' img'' e h h' = record {
  layout = h'.layout;
  next_free = omega (arith, h.next_free, h'.next_free);
  kept = λ x below. h'.kept x below ∙ h.kept x below;
}

pub Keeps-more :
    (f r n : ℕ) (img img' img'' : Image)
    → Keeps f r n img img'
    → Keeps f r 0 img' img''
    → Keeps f r n img img''
Keeps-more f r n img img' img'' = Keeps-trans f r n 0 n img img' img'' (omega arith)

pub Keeps-weaken :
    (f r f' r' n : ℕ) (img img' : Image)
    → f ≤ f'
    → r ≤ r'
    → Keeps f' r' n img img'
    → Keeps f r n img img'
Keeps-weaken f r f' r' n img img' fs rs h = record {
  layout = h.layout;
  next_free = h.next_free;
  kept = Kept-weaken f r f' r' img.g_disk img'.g_disk fs rs h.kept;
}

pub InUse-Kept :
    (f r : ℕ) (m m' : Mem) → r ≤ 64 → Kept f r m m' → InUse m data_at r → InUse m' data_at r
InUse-Kept f r m m' few h used j lt =
    let same = h (data_at + j * 32) (inr (inl (omega arith, omega arith))) in
    let (live, present) = used j lt in (λ e. live (sym same ∙ e), λ e. present (sym same ∙ e))

add_dir_entry-Keeps :
    (dir f r attr first_clus size : ℕ) (name : List ℕ) (img : Image)
    → HasLayout img
    → 2 ≤ dir
    → dir < 130044
    → ((x : ℕ)
        → IsSlot img.g_disk (cluster_at dir) 64 x
        → (y : ℕ) → Below f r y
        → (y < x) ⊎ (x + 32 ≤ y))
    → Keeps f r 0 img (add_dir_entry dir name attr first_clus size img).1
unfolding add_dir_entry
add_dir_entry-Keeps dir f r attr first_clus size name img l two small apart =
    let slot = free_slot-cluster img dir l two small in
    elim (Option-cases (free_slot 4 (cluster_to_lba img dir) img.g_disk)) [
      | inl full ↦
          rw (add_dir_entry, full)
            (record { layout = l; next_free = omega arith; kept = λ x below. refl })
      | inr (x, free) ↦
          rw (add_dir_entry, free)
            (record {
              layout = record {
                fat_start = l.fat_start;
                fat_size = l.fat_size;
                data_start = l.data_start;
              };
              next_free = omega arith;
              kept = λ y below. write_entry_out x name attr first_clus size img.g_disk y (
                  apart x (free_entry-IsSlot 64 (cluster_at dir) img.g_disk x (sym slot ∙ free)) y
                    below);
            })
    ]

-- An entry in a directory from cluster `f` on.
pub add_dir_entry-Keeps_above :
    (dir f attr first_clus size : ℕ) (name : List ℕ) (img : Image)
    → HasLayout img
    → 3 ≤ f
    → f ≤ dir
    → dir < 130044
    → Keeps f 64 0 img (add_dir_entry dir name attr first_clus size img).1
add_dir_entry-Keeps_above dir f attr first_clus size name img l three le small =
    add_dir_entry-Keeps dir f 64 attr first_clus size name img l (omega arith) small
      (λ x s y below. omega (arith, s.place, s.within))

-- An entry in the root directory.
pub add_dir_entry-Keeps_root :
    (f r attr first_clus size : ℕ) (name : List ℕ) (img : Image)
    → HasLayout img
    → 3 ≤ f
    → f ≤ 130044
    → InUse img.g_disk data_at r
    → r ≤ 64
    → Keeps f r 0 img (add_dir_entry 2 name attr first_clus size img).1
add_dir_entry-Keeps_root f r attr first_clus size name img l three small used few =
    add_dir_entry-Keeps 2 f r attr first_clus size name img l (omega arith) (omega arith)
      (λ x s y below.
        let past : r ≤ s.slot_index = elim (lt_or_le s.slot_index r) [
          | inr le ↦ le
          | inl lt ↦
              let (live, present) =
                subst (λ (z : ℕ). (byte img.g_disk z ≢ 0) × (byte img.g_disk z ≢ 0xe5))
                  (sym s.place) (used s.slot_index lt) in
              absurd (elim s.is_free [ inl e ↦ live e | inr e ↦ present e ])
        ] in
        omega (arith, s.place, s.within))

-- The first free entry of the root directory, the one with index `r`, is the one that is written.
pub add_dir_entry_root :
    (r attr first_clus size : ℕ) (name : List ℕ) (img : Image)
    → HasLayout img
    → InUse img.g_disk data_at r
    → r < 64
    → byte img.g_disk (data_at + r * 32) ≡ 0
    → add_dir_entry 2 name attr first_clus size img ≡ (
      success,
      record img { g_disk = write_entry (data_at + r * 32) name attr first_clus size img.g_disk },
    )
unfolding add_dir_entry
add_dir_entry_root r attr first_clus size name img l used few free =
    let slot =
      free_slot-cluster img 2 l (omega arith) (omega arith)
      ∙ free_entry-first 64 r data_at img.g_disk few used (inl free) in
    rw (add_dir_entry, slot) refl
