-- ===== src/Mkdisk/Host.antt =====
-- read_host_file of tools/mkdisk.c, and main: the C library is a parameter. What main prints is left
-- out. A FILE and a block of memory are numbers.
use gemiboot.Base.{
  ℕ, ◌-◌, ◌%◌, Bool, false, Option, none, some, List, ltb, ◌==◌, if◌then◌else◌, Mem, u32, ℤ, pos,
  negsuc,
}
use gemiboot.Mkdisk.Make.{HostFile}

pub data Whence : Type 0 where
  seek_set seek_end : Whence

-- A block of memory: its address and what it holds.
pub record Block : Type 0 where
  pub address : ℕ
  pub contents : Mem

-- The functions of the C library that mkdisk calls, over a state of the host. `fopen` takes the
-- path and whether the mode is "wb" in place of "rb"; `none` is a null pointer. `fread` takes what
-- the buffer holds and returns what it holds then and the count of bytes. The result of fseek is not
-- used.
pub record Host (H : Type 0) : Type 0 where
  pub fopen : List ℕ → Bool → H → Option ℕ × H
  pub fseek : ℕ → ℕ → Whence → H → H
  pub ftell : ℕ → H → ℤ × H
  pub fread : ℕ → ℕ → Mem → H → (Mem × ℕ) × H
  pub fwrite : ℕ → Mem → ℕ → ℕ → H → ℕ × H
  pub fclose : ℕ → H → H
  pub malloc : ℕ → H → Option Block × H
  pub calloc : ℕ → ℕ → H → Option ℕ × H
  pub free : ℕ → H → H

-- (uint32_t)sz of a long.
abbrev pub word_of : ℤ → ℕ
word_of (pos n) = u32 n
word_of (negsuc n) = 4294967295 - n % 4294967296

-- sz > 0 ? sz : 1
abbrev pub block_size : ℤ → ℕ
block_size (pos n) = if ltb 0 n then n else 1
block_size (negsuc n) = 1

-- sz > 0, with sz as a size_t, or 0.
abbrev pub bytes_wanted : ℤ → ℕ
bytes_wanted (pos n) = n
bytes_wanted (negsuc n) = 0

-- A file of the host in a block.
pub record Loaded : Type 0 where
  pub address : ℕ
  pub file : HostFile

module _ {H : Type 0} (host : Host H) where
  -- After fopen: `none` is the null pointer that is returned.
  unfoldable pub read_open_file : ℕ → H → Option Loaded × H
  read_open_file f h =
      let (sz, told) = host.ftell f (host.fseek f 0 seek_end h) in
      let (block, h1) = host.malloc (block_size sz) (host.fseek f 0 seek_set told) in
      elim block [
        | none ↦ (none, host.fclose f h1)
        | some buf ↦
            let ((contents, count), h2) = host.fread f (bytes_wanted sz) buf.contents h1 in
            let full : Option Loaded = some (record {
              address = buf.address;
              file = record { contents = contents; size = word_of sz };
            }) in
            let empty : Option Loaded = some (record {
              address = buf.address;
              file = record { contents = buf.contents; size = word_of sz };
            }) in
            if ltb 0 (bytes_wanted sz)
            then (if count == bytes_wanted sz
                then (full, host.fclose f h2)
                else (none, host.fclose f (host.free buf.address h2)))
            else (empty, host.fclose f h1)
      ]

  unfoldable pub read_host_file : List ℕ → H → Option Loaded × H
  read_host_file path h =
      let (file, h1) = host.fopen path false h in
      elim file [ none ↦ (none, h1) | some f ↦ read_open_file f h1 ]
