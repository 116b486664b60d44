-- ===== src/Samples.antt =====
-- Data that the examples of several parts use.
use gemiboot.Base.{ℕ, List, [], ◌∷◌, ◌++◌, replicate}

abbrev pub dword : ℕ → ℕ → ℕ → ℕ → List ℕ
dword a b c d = a ∷ b ∷ c ∷ d ∷ []

-- 84 bytes of headers and 4 bytes of code that go to 0x100000, with 4 bytes of bss.
abbrev pub image_bytes : List ℕ
image_bytes =
    0x7f ∷ b'E' ∷ b'L' ∷ b'F' ∷ 1 ∷ 1 ∷ 1 ∷ replicate 9 0
    ++ 2 ∷ 0 ∷ 3 ∷ 0 ∷ 1 ∷ 0 ∷ 0 ∷ 0 ∷ []
    ++ dword 0 0 0x10 0
    ++ dword 52 0 0 0
    ++ replicate 8 0
    ++ 52 ∷ 0 ∷ 32 ∷ 0 ∷ 1 ∷ 0 ∷ replicate 6 0
    ++ dword 1 0 0 0
    ++ dword 84 0 0 0
    ++ dword 0 0 0x10 0
    ++ dword 0 0 0x10 0
    ++ dword 4 0 0 0
    ++ dword 8 0 0 0
    ++ replicate 8 0
    ++ dword 0xfa 0xf4 0xeb 0xfe
