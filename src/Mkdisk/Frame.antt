-- ===== src/Mkdisk/Frame.antt =====
-- What the functions of tools/mkdisk.c that write the volume leave alone.
pub mod Allocate
use gemiboot.Base.{
  ◌≢◌, le32-put32, le32-put32_apart, le32, blit_in, put32, put32_outside, ap, ◌∙◌, ℕ, ◌+◌, ◌-◌, ◌*◌,
  ◌%◌, ◌≡◌, ◌≤◌, ◌<◌, ◌⊎◌, inl, refl, arith, Mem, byte, blit, blit_out, u32,
}
use mathlib.Core.Path.{ap₂}
use gemiboot.Str.{memset}
use gemiboot.Str.Copy.{memset-blit}
use gemiboot.Mkdisk.{Image, get_sector, cluster_to_lba, fat32_set_fat_entry, allocate_cluster}
use gemiboot.Mkdisk.Table.{set_exact}

-- The bytes of the image at which the first table and the clusters start.
abbrev pub table_at : ℕ
table_at = 1064960

abbrev pub data_at : ℕ
data_at = 2109440

abbrev pub cluster_at : ℕ → ℕ
cluster_at c = data_at + (c - 2) * 2048

-- The places of the tables and of the clusters in the image that main lays out.
pub record HasLayout (img : Image) : Type 0 where
  pub fat_start : img.g_fat_start ≡ 2080
  pub fat_size : img.g_fat_size ≡ 1020
  pub data_start : img.g_data_start ≡ 4120

-- The bytes in front of the first table's entry for cluster `f`, the first `r` entries of the root
-- directory, and the clusters between the root's and `f`.
abbrev pub Below : ℕ → ℕ → ℕ → Type 0
Below f r x =
    (x < table_at + f * 4)
    ⊎ ((data_at ≤ x) × (x < data_at + r * 32))
    ⊎ ((data_at + 2048 ≤ x) × (x < cluster_at f))

abbrev pub Kept : ℕ → ℕ → Mem → Mem → Type 0
Kept f r m m' = (x : ℕ) → Below f r x → byte m' x ≡ byte m x

pub Kept-trans :
    (f r f' r' : ℕ) (m m' m'' : Mem)
    → f ≤ f'
    → r ≤ r'
    → Kept f r m m'
    → Kept f' r' m' m''
    → Kept f r m m''
Kept-trans f r f' r' m m' m'' fs rs h h' x below = h' x (omega arith) ∙ h x below

pub Kept-weaken : (f r f' r' : ℕ) (m m' : Mem) → f ≤ f' → r ≤ r' → Kept f' r' m m' → Kept f r m m'
Kept-weaken f r f' r' m m' fs rs h x below = h x (omega arith)

pub set-HasLayout :
    (img : Image) (c v : ℕ) → HasLayout img → HasLayout (fat32_set_fat_entry c v img)
unfolding fat32_set_fat_entry
set-HasLayout img c v l = record {
  fat_start = l.fat_start;
  fat_size = l.fat_size;
  data_start = l.data_start;
}

pub set-next_free :
    (img : Image) (c v : ℕ) → (fat32_set_fat_entry c v img).g_next_free_clus ≡ img.g_next_free_clus
unfolding fat32_set_fat_entry
set-next_free img c v = refl

pub layout_set :
    (img : Image) (c v : ℕ)
    → HasLayout img
    → c < 130560
    → (fat32_set_fat_entry c v img).g_disk
      ≡ put32
          (put32 img.g_disk (table_at + c * 4) (v % 0x10000000))
          (1587200 + c * 4)
          (v % 0x10000000)
layout_set img c v l small =
    let first : img.g_fat_start * 512 + c * 4 ≡ table_at + c * 4 = omega (arith, l.fat_start) in
    let second : (img.g_fat_start + img.g_fat_size) * 512 + c * 4 ≡ 1587200 + c * 4 =
      omega (arith, l.fat_start, l.fat_size) in
    set_exact img c v (omega (arith, l.fat_start, l.fat_size)) (omega (arith, l.fat_size))
    ∙ ap₂ (λ (a b : ℕ). put32 (put32 img.g_disk a (v % 0x10000000)) b (v % 0x10000000)) first second

-- An entry of the table changes no byte but its own four, and those of the copy.
pub set_out :
    (img : Image) (c v x : ℕ)
    → HasLayout img
    → c < 130560
    → (x < table_at + c * 4) ⊎ ((table_at + c * 4 + 4 ≤ x) × (x < 1587200)) ⊎ (data_at ≤ x)
    → byte (fat32_set_fat_entry c v img).g_disk x ≡ byte img.g_disk x
set_out img c v x l small out =
    let w = v % 0x10000000 in
    ap (λ (m : Mem). byte m x) (layout_set img c v l small)
    ∙ put32_outside (put32 img.g_disk (table_at + c * 4) w) (1587200 + c * 4) w x (omega arith)
    ∙ put32_outside img.g_disk (table_at + c * 4) w x (omega arith)

pub set-Kept :
    (img : Image) (c v f r : ℕ)
    → HasLayout img
    → c < 130560
    → f ≤ c
    → Kept f r img.g_disk (fat32_set_fat_entry c v img).g_disk
set-Kept img c v f r l small le x below = set_out img c v x l small (omega arith)

-- No arithmetic of cluster_to_lba and get_sector wraps.
pub cluster-exact :
    (img : Image) (c : ℕ)
    → HasLayout img
    → 2 ≤ c
    → c < 130560
    → get_sector (cluster_to_lba img c) ≡ cluster_at c
unfolding cluster_to_lba
cluster-exact img c l two small =
    let e : (c + 4294967296 - 2) % 4294967296 ≡ c - 2 = omega arith in
    rw e (omega (arith, l.data_start))

pub blit-Kept :
    (m : Mem) (c : ℕ) (src : Mem) (n f r : ℕ)
    → 3 ≤ f
    → f ≤ c
    → r ≤ 64
    → Kept f r m (blit m (cluster_at c) src n)
blit-Kept m c src n f r three le few x below =
    ap (λ (v : ℕ). v % 256) (blit_out m (cluster_at c) src n x (inl (omega arith)))

-- The entry of the first table for a cluster.
abbrev pub link_of : Mem → ℕ → ℕ
link_of m c = le32 m (table_at + c * 4) % 0x10000000

pub link_of-set :
    (img : Image) (c v : ℕ)
    → HasLayout img
    → c < 130560
    → link_of (fat32_set_fat_entry c v img).g_disk c ≡ v % 0x10000000
link_of-set img c v l small =
    let w = v % 0x10000000 in
    let a = table_at + c * 4 in
    ap (λ (m : Mem). le32 m a % 0x10000000) (layout_set img c v l small)
    ∙ ap (λ (n : ℕ). n % 0x10000000)
        (le32-put32_apart (put32 img.g_disk a w) (1587200 + c * 4) a w (inl (omega arith)))
    ∙ ap (λ (n : ℕ). n % 0x10000000) (le32-put32 img.g_disk a w (omega arith))
    ∙ omega arith

pub le32_same :
    (a : ℕ) (m m' : Mem)
    → ((x : ℕ) → a ≤ x → x < a + 4 → byte m' x ≡ byte m x)
    → le32 m' a ≡ le32 m a
le32_same a m m' h = omega (
  arith,
  h a (omega arith) (omega arith),
  h (a + 1) (omega arith) (omega arith),
  h (a + 2) (omega arith) (omega arith),
  h (a + 2 + 1) (omega arith) (omega arith),
)

pub link_of-same :
    (c : ℕ) (m m' : Mem)
    → ((x : ℕ) → table_at + c * 4 ≤ x → x < table_at + c * 4 + 4 → byte m' x ≡ byte m x)
    → link_of m' c ≡ link_of m c
link_of-same c m m' h = ap (λ (n : ℕ). n % 0x10000000) (le32_same (table_at + c * 4) m m' h)

pub link_of-Kept : (f r c : ℕ) (m m' : Mem) → Kept f r m m' → c < f → link_of m' c ≡ link_of m c
link_of-Kept f r c m m' h lt = link_of-same c m m' (λ x above below. h x (inl (omega arith)))

pub link_of-set_apart :
    (img : Image) (c c' v : ℕ)
    → HasLayout img
    → c < 130560
    → c' < 130560
    → c' ≢ c
    → link_of (fat32_set_fat_entry c v img).g_disk c' ≡ link_of img.g_disk c'
link_of-set_apart img c c' v l small small' other =
    link_of-same c' img.g_disk _ (λ x above below. set_out img c v x l small (apart x above below))
  where
    apart :
        (x : ℕ)
        → table_at + c' * 4 ≤ x
        → x < table_at + c' * 4 + 4
        → (x < table_at + c * 4) ⊎ ((table_at + c * 4 + 4 ≤ x) × (x < 1587200)) ⊎ (data_at ≤ x)
    apart x above below = grind arith
