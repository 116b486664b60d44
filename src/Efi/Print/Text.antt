-- ===== src/Efi/Print/Text.antt =====
-- What uefi_puts of src/efi64/efi64.c draws and what it sends to the firmware's console.
use gemiboot.Base.{
  ◌⊎◌, inl, inr, ℕ, ◌+◌, ◌≡◌, ◌≤◌, refl, ap, sym, ◌∙◌, arith, true, false, List, [], ◌∷◌, ◌++◌,
  append-nil, append_assoc, length, length-append, ◌==◌, if◌then◌else◌, Bool-cases, Mem, Arch,
  lt→ltb, le→not_ltb, lt_or_le,
}
use gemiboot.Efi.Screen.{Screen, gop_draw_char}
use gemiboot.Efi.Screen.Bounds.{IsFrame, IsOnScreen, Draws, Draws-IsFrame}
use gemiboot.Efi.Screen.Draw.{gop_draw_char-Draws, Draws-trans}
use gemiboot.Efi.Print.{Console, Puts, draw_if_mapped, fill_loop, draw_loop, uefi_puts}

-- The UTF-16 text of a string, with a carriage return before each newline.
unfoldable pub with_returns : List ℕ → List ℕ
with_returns [] = []
with_returns (c ∷ cs) = let rest = with_returns cs in if c == 10 then 13 ∷ c ∷ rest else c ∷ rest

module _ (arch : Arch) (font : Mem) where
  record Filled (str buf : List ℕ) (j : ℕ) (s : Screen) (r : Puts) : Type 0 where
    done : List ℕ
    all : str ≡ done ++ r.rest
    text : r.buf ≡ buf ++ with_returns done
    drawn : draw_loop arch font r.rest r.screen ≡ draw_loop arch font str s
    bound : r.j ≤ 255
    index : r.j ≡ length r.buf
    stops : (r.rest ≡ []) ⊎ (254 ≤ r.j)

  fill_loop-Filled :
      (str buf : List ℕ) (j : ℕ) (s : Screen)
      → j ≡ length buf
      → j ≤ 255
      → Filled str buf j s (fill_loop arch font str j buf s)
  unfolding fill_loop draw_loop with_returns
  fill_loop-Filled [] buf j s e small = record {
    done = [];
    all = refl;
    text = sym (append-nil buf);
    drawn = refl;
    bound = small;
    index = e;
    stops = inl refl;
  }
  fill_loop-Filled (c ∷ cs) buf j s e small =
      let t = draw_if_mapped arch font c s in
      elim (lt_or_le j 254) [
        | inr full ↦ rw (le→not_ltb j 254 full) (record {
          done = [];
          all = refl;
          text = sym (append-nil buf);
          drawn = refl;
          bound = small;
          index = e;
          stops = inr full;
        })
        | inl room ↦ elim (Bool-cases (c == 10)) [
          | inl newline ↦
              let buf1 = (buf ++ 13 ∷ []) ++ c ∷ [] in
              let r =
                fill_loop-Filled cs buf1 (j + 1 + 1) t
                  (omega (
                    arith,
                    e,
                    length-append (buf ++ 13 ∷ []) (c ∷ []),
                    length-append buf (13 ∷ []),
                  ))
                  (omega arith) in
              rw (lt→ltb j 254 room, newline)
                (record {
                  done = c ∷ r.done;
                  all = ap (λ l. c ∷ l) r.all;
                  text = rw newline (
                      r.text
                      ∙ append_assoc (buf ++ 13 ∷ []) (c ∷ []) (with_returns r.done)
                      ∙ append_assoc buf (13 ∷ []) (c ∷ with_returns r.done));
                  drawn = r.drawn;
                  bound = r.bound;
                  index = r.index;
                  stops = r.stops;
                })
          | inr other ↦
              let r =
                fill_loop-Filled cs (buf ++ c ∷ []) (j + 1) t
                  (omega (arith, e, length-append buf (c ∷ []))) (omega arith) in
              rw (lt→ltb j 254 room, other)
                (record {
                  done = c ∷ r.done;
                  all = ap (λ l. c ∷ l) r.all;
                  text = rw other (r.text ∙ append_assoc buf (c ∷ []) (with_returns r.done));
                  drawn = r.drawn;
                  bound = r.bound;
                  index = r.index;
                  stops = r.stops;
                })
        ]
      ]

  draw_loop-Draws :
      (str : List ℕ) (s : Screen)
      → IsFrame arch s
      → IsOnScreen s
      → Draws s (draw_loop arch font str s)
  unfolding draw_loop draw_if_mapped
  draw_loop-Draws [] s f on = record {
    on_screen = on;
    base = refl;
    width = refl;
    height = refl;
    pitch = refl;
    inside = λ x out. refl;
  }
  draw_loop-Draws (c ∷ cs) s f on =
      let mapped : (s.g_fb_base == 0) ≡ false = ground (arith, f.base) in
      let t = gop_draw_char arch font c s in
      let first = gop_draw_char-Draws arch font c s f on in
      let frame = Draws-IsFrame arch s t first f in
      rw mapped (
        Draws-trans s t (draw_loop arch font cs t) first
          (draw_loop-Draws cs t frame first.on_screen))

  -- With a console of the firmware and a framebuffer that is set up, and whatever the string is:
  -- uefi_puts draws each of its characters once and in order, inside the framebuffer only. It sends one
  -- text, for the first characters of the string, with a carriage return before each newline; the text
  -- and its NUL fit the 256 units of the buffer, and characters are left out only where the text
  -- has 254 units or more.
  pub uefi_puts-text :
      (str : List ℕ) (con : Console)
      → con.has_con_out ≡ true
      → IsFrame arch con.screen
      → IsOnScreen con.screen
      → (done rest : List ℕ) × (str ≡ done ++ rest)
        × ((uefi_puts arch font str con).sent ≡ con.sent ++ with_returns done ∷ [])
        × (length (with_returns done) + 1 ≤ 256)
        × ((rest ≡ []) ⊎ (254 ≤ length (with_returns done)))
        × ((uefi_puts arch font str con).screen ≡ draw_loop arch font str con.screen)
        × Draws con.screen (uefi_puts arch font str con).screen
  unfolding uefi_puts
  uefi_puts-text str con has f on =
      let r = fill_loop-Filled str [] 0 con.screen (omega arith) (omega arith) in
      let first = fill_loop arch font str 0 [] con.screen in
      (
        r.done,
        first.rest,
        r.all,
        rw has (ap (λ (t : List ℕ). con.sent ++ t ∷ []) r.text),
        omega (arith, r.bound, r.index, ap length r.text),
        elim r.stops [
          | inl whole ↦ inl whole
          | inr full ↦ inr (omega (arith, full, r.index, ap length r.text))
        ],
        rw has r.drawn,
        rw (has, r.drawn) (draw_loop-Draws str con.screen f on),
      )
