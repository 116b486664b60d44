-- ===== src/Mkdisk/Main/Files.antt =====
-- read_host_file and main of tools/mkdisk.c on a host whose files can be read.
use gemiboot.Base.{
  ap, ℕ, ◌%◌, ◌≡◌, ◌<◌, inl, inr, refl, arith, Mem, byte, ltb, ◌==◌, if◌then◌else◌, Bool-cases,
  true, false, List, some, ℤ, pos,
}
use gemiboot.Mkdisk.Make.{HostFile}
use gemiboot.Mkdisk.Host.{Host, Loaded, Block, seek_set, seek_end, read_open_file, read_host_file}

-- The host's file at `path`: it can be opened, ftell at its end gives its size, there is memory for
-- it, and fread from its start gives its bytes.
pub record Provides {H : Type 0} (host : Host H) (path : List ℕ) (content : HostFile) : Type 0 where
  pub handle : ℕ
  pub short : content.size < 4294967296
  pub opens : (h : H) → (host.fopen path false h).0 ≡ some handle
  pub tells : (h : H) → (host.ftell handle (host.fseek handle 0 seek_end h)).0 ≡ pos content.size
  pub has_memory : (k : ℕ) (h : H) → (b : Block) × ((host.malloc k h).0 ≡ some b)
  pub reads :
      (k : ℕ) (b : Mem) (h : H)
      → let r =
          (host.fread handle content.size b (host.malloc k (host.fseek handle 0 seek_set h)).1).0 in
        (r.1 ≡ content.size) × ((j : ℕ) → j < content.size → byte r.0 j ≡ byte content.contents j)

-- The buffer and the size are those of the file.
pub record IsCopy (content file : HostFile) : Type 0 where
  pub same_size : file.size ≡ content.size
  pub same_bytes : (j : ℕ) → j < content.size → byte file.contents j ≡ byte content.contents j

module _ {H : Type 0} (host : Host H) where
  read_open_file-IsCopy :
      (path : List ℕ) (content : HostFile) (h told : H)
      → (p : Provides host path content)
      → host.ftell p.handle (host.fseek p.handle 0 seek_end h) ≡ (pos content.size, told)
      → (l : Loaded) × ((read_open_file host p.handle h).0 ≡ some l) × IsCopy content l.file
  unfolding read_open_file
  read_open_file-IsCopy path content h told p tells =
      let n = content.size in
      let k = if ltb 0 n then n else 1 in
      let (b, room) = p.has_memory k (host.fseek p.handle 0 seek_set told) in
      let (count, bytes) = p.reads k b.contents told in
      let fits : n % 4294967296 ≡ n = omega (arith, p.short) in
      elim (Bool-cases (ltb 0 n)) [
        | inl more ↦
            let full : (n == n) ≡ true = ground arith in
            rw (read_open_file, tells, room, tells, count, full, more)
              (_, refl, record { same_size = fits; same_bytes = rw more at bytes })
        | inr empty ↦
            rw (read_open_file, tells, room, tells, empty)
              (_, refl, record { same_size = fits; same_bytes = λ j lt. absurd (ground arith) })
      ]

  -- read_host_file returns a copy of a file that the host provides.
  pub read_host_file-IsCopy :
      (path : List ℕ) (content : HostFile) (h : H)
      → Provides host path content
      → (l : Loaded) × ((read_host_file host path h).0 ≡ some l) × IsCopy content l.file
  unfolding read_host_file
  read_host_file-IsCopy path content h p =
      let h1 = (host.fopen path false h).1 in
      let told = (host.ftell p.handle (host.fseek p.handle 0 seek_end h1)).1 in
      rw (read_host_file, p.opens h)
        (read_open_file-IsCopy path content h1 told p (ap (λ (z : ℤ). (z, told)) (p.tells h1)))
