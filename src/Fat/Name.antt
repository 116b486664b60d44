-- ===== src/Fat/Name.antt =====
-- to_upper and format_83_name of src/common/fat.c. A C string is the list of its bytes before the
-- NUL; a NUL in the list ends it.
use gemiboot.Base.{
  ℕ, ◌+◌, ◌-◌, Bool, true, false, ◌&&◌, List, [], ◌∷◌, ltb, leb, ◌==◌, if◌then◌else◌, Mem, put8,
}
use gemiboot.Str.{memset}

unfoldable pub to_upper : ℕ → ℕ
to_upper c = if leb b'a' c && leb c b'z' then c - 32 else c

-- The variables of the loop.
pub record NameState : Type 0 where
  pub output_83 : Mem
  pub name_idx : ℕ
  pub ext_idx : ℕ
  pub in_ext : Bool

-- The body of the loop for a character.
unfoldable pub format_char : NameState → ℕ → NameState
format_char st c =
    if c == b'.'
    then record st { in_ext = true }
    else if st.in_ext
    then (if ltb st.ext_idx 3
        then record st {
          output_83 = put8 st.output_83 (8 + st.ext_idx) (to_upper c);
          ext_idx = st.ext_idx + 1;
        }
        else st)
    else if ltb st.name_idx 8
    then record st {
      output_83 = put8 st.output_83 st.name_idx (to_upper c);
      name_idx = st.name_idx + 1;
    }
    else st

-- The loop over the characters from index `i` on.
unfoldable pub format_loop : List ℕ → ℕ → NameState → NameState
format_loop [] i st = st
format_loop (c ∷ cs) i st =
    let rest = format_loop cs (i + 1) (format_char st c) in
    if c == 0 then st else if ltb i 64 then rest else st

-- Eleven blanks, over whatever the buffer held.
abbrev pub blank_state : Mem → NameState
blank_state buffer = record {
  output_83 = memset 0 b' ' 11 buffer;
  name_idx = 0;
  ext_idx = 0;
  in_ext = false;
}

unfoldable pub format_83_name : List ℕ → Mem → Mem
unfolding format_loop format_char to_upper
format_83_name input buffer = (format_loop input 0 (blank_state buffer)).output_83
