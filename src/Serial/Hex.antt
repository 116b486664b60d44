-- ===== src/Serial/Hex.antt =====
-- serial_put_hex of src/common/string.c prints a number in hexadecimal.
use gemiboot.Base.{ℕ, zero, suc, ◌+◌, ◌-◌, ◌*◌, ◌/◌, ◌%◌, ◌^◌, List, [], ◌∷◌, leb, if◌then◌else◌}
use gemiboot.Serial.{hex_char}

-- The number that a run of hexadecimal digits, in capitals, stands for, after the digits before it
-- gave `acc`.
unfoldable pub hexadecimal : ℕ → List ℕ → ℕ
hexadecimal acc [] = acc
hexadecimal acc (c ∷ cs) =
    hexadecimal (acc * 16 + (if leb c b'9' then c - b'0' else c - b'A' + 10)) cs

-- The digits that the loop sends.
hex_digits : ℕ → ℕ → List ℕ
hex_digits zero val = []
hex_digits (suc left) val = hex_char (val / 16 ^ left % 16) ∷ hex_digits left val
