-- ===== src/Str/Examples.antt =====
-- The memory and string functions on a small memory that holds two strings.
use gemiboot.Base.{
  ◌+◌, ◌-◌, ◌≡◌, refl, some, [], ◌∷◌, get_or, leb, if◌then◌else◌, Mem, byte, put8, pos, negsuc,
}
use gemiboot.Str.{memcpy, memmove, memset, memcmp, strlen, strcmp, strncmp}
use gemiboot.Str.Copy.{copied, memmove-copied}

-- "elf" at 100 and "elk" at 104.
abbrev sample : Mem
sample x =
    if leb 100 x
    then get_or (b'e' ∷ b'l' ∷ b'f' ∷ 0 ∷ b'e' ∷ b'l' ∷ b'k' ∷ 0 ∷ []) (x - 100) 0
    else 0

abbrev elf_text : Mem
elf_text k = sample (100 + k)

abbrev elk_text : Mem
elk_text k = sample (104 + k)

runs :
    (byte (memcpy 200 100 3 sample) 202 ≡ b'f')
    × (byte (memmove 101 100 4 sample) 103 ≡ b'f')
    × (byte (memset 100 0x141 2 sample) 101 ≡ 0x41)
    × (memcmp elf_text elk_text 2 ≡ pos 0)
    × (memcmp elf_text elk_text 3 ≡ negsuc 4)
    × (strlen 9 100 sample ≡ some 3)
    × (strcmp 9 104 100 sample ≡ some (pos 5))
    × (strncmp 100 104 2 sample ≡ pos 0)
unfolding memcpy memmove memset memcmp strlen strcmp strncmp put8
runs = (refl, refl, refl, refl, refl, refl, refl, refl)

memmove-copied_example : byte (memmove 101 100 4 sample) 103 ≡ byte (copied sample 101 100 4) 103
memmove-copied_example = memmove-copied 101 100 4 sample 103
