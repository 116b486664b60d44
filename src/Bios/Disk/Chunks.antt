-- ===== src/Bios/Disk/Chunks.antt =====
-- bios_read_sectors of src/bios/bios_disk.c reads a run of sectors chunk by chunk.
use gemiboot.Base.{
  blit_out, blit_in, ℕ, zero, suc, ◌+◌, ◌-◌, ◌*◌, ◌/◌, ◌%◌, ◌≡◌, ◌≢◌, ◌≤◌, ◌<◌, ◌⊎◌, inl, inr, refl,
  ap, ◌∙◌, arith, false, ◌||◌, none, some, ltb, ◌==◌, if◌then◌else◌, Mem, byte, u16, success,
  lt_or_le, lt→ltb, Bool-cases,
}
use mathlib.Core.Path.{subst}
use gemiboot.Str.{memcpy}
use gemiboot.Str.Copy.{memcpy-copied}
use gemiboot.Fat.Disk.{Disk}
use gemiboot.Bios.Disk.{
  Machine, ReadRaw, bounce_buf_paddr, bounce_buf_seg, max_sectors_chunk, read_loop,
  bios_read_sectors,
}

-- The firmware reads from the first `n` sectors: with up to 64 sectors at a time it returns 0,
-- with the bytes of the sectors at the segment and the offset, and changes no other memory.
pub record ServesRaw {S : Type 0} (read_raw : ReadRaw S) (disk : Disk) (n : ℕ) : Type 0 where
  pub returns :
      (lba count seg off : ℕ) (m : Mem) (st : S)
      → count ≤ max_sectors_chunk
      → lba + count ≤ n
      → (read_raw lba count seg off m st).0 ≡ 0
  pub reads :
      (lba count seg off : ℕ) (m : Mem) (st : S) (k : ℕ)
      → count ≤ max_sectors_chunk
      → lba + count ≤ n
      → k < count * 512
      → byte (read_raw lba count seg off m st).1 (seg * 16 + off + k)
        ≡ byte (disk (lba + k / 512)) (k % 512)
  pub outside :
      (lba count seg off : ℕ) (m : Mem) (st : S) (x : ℕ)
      → count ≤ max_sectors_chunk
      → lba + count ≤ n
      → (x < seg * 16 + off) ⊎ (seg * 16 + off + count * 512 ≤ x)
      → byte (read_raw lba count seg off m st).1 x ≡ byte m x

-- The destination does not meet the bounce buffer, which has 64 sectors.
abbrev pub ApartFromBounce : ℕ → ℕ → Type 0
ApartFromBounce dest count = (dest + count * 512 ≤ 0x20000) ⊎ (0x28000 ≤ dest)

-- What a read of `count` sectors does: the sectors' bytes at `dest`, and no other change but in
-- the bounce buffer; no output.
pub record HasRead {S : Type 0} (disk : Disk) (lba count dest : ℕ) (w w' : Machine S) : Type 0 where
  pub bytes :
      (k : ℕ) → k < count * 512 → byte w'.mem (dest + k) ≡ byte (disk (lba + k / 512)) (k % 512)
  pub outside :
      (x : ℕ)
      → (x < dest) ⊎ (dest + count * 512 ≤ x)
      → (x < 0x20000) ⊎ (0x28000 ≤ x)
      → byte w'.mem x ≡ byte w.mem x
  pub silent : w'.out ≡ w.out

abbrev chunk_of : ℕ → ℕ
chunk_of count = if ltb max_sectors_chunk count then max_sectors_chunk else count

module _ {S : Type 0} (read_raw : ReadRaw S) where
  -- The machine after one chunk.
  abbrev after_chunk : ℕ → ℕ → ℕ → Machine S → Machine S
  after_chunk lba chunk dest w =
      let r = read_raw lba chunk bounce_buf_seg 0 w.mem w.disk in
      record { mem = memcpy dest bounce_buf_paddr (chunk * 512) r.1; out = w.out; disk = r.2 }

  read_loop_ends :
      (fuel lba dest : ℕ) (w : Machine S)
      → read_loop read_raw (suc fuel) lba 0 dest w ≡ some (success, w)
  unfolding read_loop
  read_loop_ends fuel lba dest w = refl

module _ {S : Type 0} (read_raw : ReadRaw S) (disk : Disk) (n : ℕ) (small : n < 4294967296)
    (serves : ServesRaw read_raw disk n) where
  read_loop_goes :
      (fuel lba count dest : ℕ) (w : Machine S)
      → 0 < count
      → lba + count ≤ n
      → read_loop read_raw (suc fuel) lba count dest w
        ≡ read_loop read_raw fuel
            (lba + chunk_of count)
            (count - chunk_of count)
            (dest + chunk_of count * 512)
            (after_chunk read_raw lba (chunk_of count) dest w)
  unfolding read_loop
  read_loop_goes fuel lba count dest w more fits =
      let few : chunk_of count ≤ 64 = ground arith in
      let within : chunk_of count ≤ count = ground arith in
      let ok =
        serves.returns lba (chunk_of count) bounce_buf_seg 0 w.mem w.disk few (omega arith) in
      let exact : chunk_of count % 65536 ≡ chunk_of count = omega arith in
      let next : (lba + chunk_of count) % 4294967296 ≡ lba + chunk_of count = omega arith in
      rw (lt→ltb 0 count more, exact, ok, next) refl

  -- One chunk read right: the sectors at the destination.
  chunk-HasRead :
      (lba chunk dest : ℕ) (w : Machine S)
      → chunk ≤ 64
      → lba + chunk ≤ n
      → ApartFromBounce dest chunk
      → HasRead disk lba chunk dest w (after_chunk read_raw lba chunk dest w)
  chunk-HasRead lba chunk dest w few fits apart =
      let m1 = (read_raw lba chunk bounce_buf_seg 0 w.mem w.disk).1 in
      let copy = λ (x : ℕ). memcpy-copied dest bounce_buf_paddr (chunk * 512) m1 x (omega arith) in
      record {
        bytes = λ k below.
            let back : bounce_buf_paddr + (dest + k - dest) ≡ bounce_buf_seg * 16 + 0 + k =
              omega arith in
            copy (dest + k)
            ∙ ap (λ (v : ℕ). v % 256)
                (blit_in m1 dest (λ j. m1 (bounce_buf_paddr + j)) (chunk * 512) (dest + k)
                  (omega arith) (omega arith))
            ∙ ap (byte m1) back
            ∙ serves.reads lba chunk bounce_buf_seg 0 w.mem w.disk k few fits below;
        outside = λ x out apart_x.
            copy x
            ∙ ap (λ (v : ℕ). v % 256)
                (blit_out m1 dest (λ j. m1 (bounce_buf_paddr + j)) (chunk * 512) x out)
            ∙ serves.outside lba chunk bounce_buf_seg 0 w.mem w.disk x few fits (omega arith);
        silent = refl;
      }

  HasRead-trans :
      (lba chunk rest dest : ℕ) (w w1 w2 : Machine S)
      → HasRead disk lba chunk dest w w1
      → HasRead disk (lba + chunk) rest (dest + chunk * 512) w1 w2
      → ApartFromBounce dest (chunk + rest)
      → HasRead disk lba (chunk + rest) dest w w2
  HasRead-trans lba chunk rest dest w w1 w2 first later apart = record {
    bytes = λ k below. elim (lt_or_le k (chunk * 512)) [
      | inl here ↦ later.outside (dest + k) (omega arith) (omega arith) ∙ first.bytes k here
      | inr there ↦
          let at : dest + chunk * 512 + (k - chunk * 512) ≡ dest + k = omega arith in
          let sector : lba + chunk + (k - chunk * 512) / 512 ≡ lba + k / 512 = omega arith in
          let offset : (k - chunk * 512) % 512 ≡ k % 512 = omega arith in
          let tail = later.bytes (k - chunk * 512) (omega arith) in rw (at, sector, offset) at tail
    ];
    outside = λ x out apart_x.
        later.outside x (omega arith) apart_x ∙ first.outside x (omega arith) apart_x;
    silent = later.silent ∙ first.silent;
  }

  read_loop-HasRead :
      (fuel lba count dest : ℕ) (w : Machine S)
      → count < fuel
      → lba + count ≤ n
      → ApartFromBounce dest count
      → (w' : Machine S) × (read_loop read_raw fuel lba count dest w ≡ some (success, w'))
        × HasRead disk lba count dest w w'
  read_loop-HasRead zero lba count dest w enough fits apart = absurd (omega arith)
  read_loop-HasRead (suc fuel) lba zero dest w enough fits apart = (
    w,
    read_loop_ends read_raw fuel lba dest w,
    record {
      bytes = λ k below. absurd (omega arith);
      outside = λ x out apart_x. refl;
      silent = refl;
    },
  )
  read_loop-HasRead (suc fuel) lba (suc left) dest w enough fits apart =
      let count = suc left in
      let more : 0 < count = omega arith in
      let chunk = chunk_of count in
      let size : (0 < chunk) × (chunk ≤ 64) × (chunk ≤ count) =
        (ground arith, ground arith, ground arith) in
      let w1 = after_chunk read_raw lba chunk dest w in
      let (w2, ends, later) =
        read_loop-HasRead fuel (lba + chunk) (count - chunk) (dest + chunk * 512) w1 (omega arith)
          (omega arith) (omega arith) in
      let first = chunk-HasRead lba chunk dest w size.1 (omega arith) (omega arith) in
      let whole : chunk + (count - chunk) ≡ count = omega arith in
      (
        w2,
        read_loop_goes fuel lba count dest w more fits ∙ ends,
        subst (λ (c : ℕ). HasRead disk lba c dest w w2) whole
            (HasRead-trans lba chunk (count - chunk) dest w w1 w2 first later (omega arith)),
      )

-- Where the firmware reads every sector of the run and the destination does not meet the bounce
-- buffer, bios_read_sectors returns 0 with the sectors' bytes at the destination, one after the
-- other, and changes no other byte outside the bounce buffer; it prints nothing.
pub bios_read_sectors-HasRead :
    {S : Type 0} (read_raw : ReadRaw S) (disk : Disk) (n lba count buffer : ℕ) (w : Machine S)
    → n < 4294967296
    → ServesRaw read_raw disk n
    → lba + count ≤ n
    → 0 < buffer
    → ApartFromBounce buffer count
    → (w' : Machine S) × (bios_read_sectors read_raw lba count buffer w ≡ some (success, w'))
      × HasRead disk lba count buffer w w'
unfolding bios_read_sectors
bios_read_sectors-HasRead read_raw disk n lba zero buffer w small serves fits real apart = (
  w,
  refl,
  record {
    bytes = λ k below. absurd (omega arith);
    outside = λ x out apart_x. refl;
    silent = refl;
  },
)
bios_read_sectors-HasRead read_raw disk n lba (suc left) buffer w small serves fits real apart =
    let (w', ends, reads) =
      read_loop-HasRead read_raw disk n small serves (suc (suc left)) lba (suc left) buffer w
        (omega arith) fits apart in
    let given : (buffer == 0) ≡ false = ground arith in
    let some_left : (suc left == 0) ≡ false = ground arith in
    (w', rw (some_left, given) ends, reads)

read_loop-ne-none :
    {S : Type 0} (read_raw : ReadRaw S) (fuel lba count dest : ℕ) (w : Machine S)
    → count < fuel
    → read_loop read_raw fuel lba count dest w ≢ none
unfolding read_loop
read_loop-ne-none read_raw zero lba count dest w enough = absurd (omega arith)
read_loop-ne-none read_raw (suc fuel) lba count dest w enough = elim (lt_or_le 0 count) [
  | inr none_left ↦ let test : ltb 0 count ≡ false = ground arith in rw test (λ e. cc e)
  | inl more ↦
      elim (Bool-cases
        ((read_raw lba (u16 (chunk_of count)) bounce_buf_seg 0 w.mem w.disk).0 == 0)) [
          | inr fails ↦ rw (lt→ltb 0 count more, fails) (λ e. cc e)
          | inl reads ↦
              rw (lt→ltb 0 count more, reads)
                (read_loop-ne-none read_raw fuel _ (count - chunk_of count) _ _ (ground arith))
        ]
]

-- bios_read_sectors ends, whatever the firmware answers.
pub bios_read_sectors-ne-none :
    {S : Type 0} (read_raw : ReadRaw S) (lba count buffer : ℕ) (w : Machine S)
    → bios_read_sectors read_raw lba count buffer w ≢ none
unfolding bios_read_sectors
bios_read_sectors-ne-none read_raw lba count buffer w =
    elim (Bool-cases (count == 0 || buffer == 0)) [
      | inl nothing ↦ rw nothing (λ e. cc e)
      | inr something ↦
          rw something (read_loop-ne-none read_raw (suc count) lba count buffer w (omega arith))
    ]
