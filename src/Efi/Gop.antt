-- ===== src/Efi/Gop.antt =====
-- init_gop of src/efi64/efi64.c: the choice of the video mode, the framebuffer of the console, and
-- the kernel's description of it.
pub mod Choice
use Prim.Native.Nat.{bit_or}
use gemiboot.Base.{
  ℕ, zero, suc, ◌+◌, ◌*◌, ◌/◌, Bool, true, false, not, ◌&&◌, ◌||◌, Option, none, some, ltb, ◌==◌,
  if◌then◌else◌, u32, Arch, ◌%◌, size_mod,
}
use gemiboot.Multiboot.{MultibootInfo}
use gemiboot.Efi.Firmware.{Firmware, ModeInfo, GopMode}
use gemiboot.Efi.Screen.{Screen, gop_clear_screen}

abbrev pub no_mode : ℕ
no_mode = 0xffffffff

-- PixelRedGreenBlueReserved8BitPerColor is 0 and PixelBlueGreenRedReserved8BitPerColor is 1.
abbrev pub is_usable : ModeInfo → Bool
is_usable info = info.pixel_format == 0 || info.pixel_format == 1

abbrev pub is_640_480 : ModeInfo → Bool
is_640_480 info = info.horizontal_resolution == 640 && info.vertical_resolution == 480

-- The variables of the loop over the modes.
pub record Modes (S : Type 0) : Type 0 where
  pub best_mode : ℕ
  pub fallback_mode : ℕ
  pub firmware : S

-- What a mode does: the loop goes on with the fallback mode, or ends with the best one.
pub data Look : Type 0 where
  go_on : ℕ → Look
  stop_at : ℕ → ℕ → Look

unfoldable pub look_at : ℕ → ℕ → ℕ → Option ModeInfo → Look
look_at mode fallback status none = go_on fallback
look_at mode fallback status (some info) =
    let fallback' = if fallback == no_mode then mode else fallback in
    if not (status == 0)
    then go_on fallback
    else if is_usable info
    then (if is_640_480 info then stop_at mode fallback' else go_on fallback')
    else go_on fallback

module _ {S : Type 0} (fw : Firmware S) where
  -- The loop from a mode on; `none` means that the fuel ran out.
  unfoldable pub scan_modes : ℕ → ℕ → ℕ → S → Option (Modes S)
  scan_modes zero mode fallback st = none
  scan_modes (suc fuel) mode fallback st =
      let (status, info, st') = fw.query_mode mode st in
      let more : Option (Modes S) = elim (look_at mode fallback status info) [
        | go_on fallback' ↦ scan_modes fuel (mode + 1) fallback' st'
        | stop_at best fallback' ↦
            some (record { best_mode = best; fallback_mode = fallback'; firmware = st' })
      ] in
      let over : Option (Modes S) =
        some (record { best_mode = no_mode; fallback_mode = fallback; firmware = st }) in
      if ltb mode (fw.gop_mode st).max_mode then more else over

  -- The mode to use after the loop.
  unfoldable pub mode_after : Modes S → ℕ
  mode_after found =
      if found.best_mode == no_mode
      then (if not (found.fallback_mode == no_mode)
          then found.fallback_mode
          else (fw.gop_mode found.firmware).mode)
      else found.best_mode

  -- The state of the firmware with that mode set.
  unfoldable pub use_mode : Modes S → S
  use_mode found =
      let best = mode_after found in
      if not (best == (fw.gop_mode found.firmware).mode)
      then fw.set_mode best found.firmware
      else found.firmware

-- The framebuffer of the console, cleared.
unfoldable pub map_screen : Arch → ℕ → ModeInfo → Screen → Screen
map_screen arch base info s = gop_clear_screen (record s {
  g_fb_base = base % size_mod arch;
  g_fb_width = info.horizontal_resolution;
  g_fb_height = info.vertical_resolution;
  g_fb_pitch = u32 (info.pixels_per_scan_line * 4);
})

unfoldable pub describe_screen : ℕ → ModeInfo → MultibootInfo → MultibootInfo
describe_screen base info mbi =
    let filled : MultibootInfo = record mbi {
      framebuffer_addr_low = base % 4294967296;
      framebuffer_addr_hi = u32 (base / 4294967296);
      framebuffer_width = info.horizontal_resolution;
      framebuffer_height = info.vertical_resolution;
      framebuffer_pitch = u32 (info.pixels_per_scan_line * 4);
      framebuffer_bpp = 32;
      framebuffer_type = 1;
      green_field_position = 8;
      green_mask_size = 8;
      red_mask_size = 8;
      blue_mask_size = 8;
      flags = bit_or mbi.flags 4096;
    } in
    if info.pixel_format == 0
    then record filled { red_field_position = 0; blue_field_position = 16 }
    else record filled { red_field_position = 16; blue_field_position = 0 }

-- What init_gop leaves: its status, the console, the structure and the firmware.
pub record Graphics (S : Type 0) : Type 0 where
  pub status : ℕ
  pub screen : Screen
  pub mbi : MultibootInfo
  pub firmware : S

unfoldable pub record_mode : {S : Type 0} → Arch → GopMode → Screen → MultibootInfo → S → Graphics S
record_mode arch g s mbi st = elim g.info [
  | none ↦ record { status = 0; screen = s; mbi = mbi; firmware = st }
  | some info ↦ record {
    status = 0;
    screen = map_screen arch g.frame_buffer_base info s;
    mbi = describe_screen g.frame_buffer_base info mbi;
    firmware = st;
  }
]

-- `none` means that the fuel ran out. The returned pointer to the protocol is not used.
unfoldable pub init_gop :
    {S : Type 0} → Arch → Firmware S → ℕ → Screen → MultibootInfo → S → Option (Graphics S)
init_gop {S} arch fw fuel s mbi st =
    let (status, found, st') = fw.locate_gop st in
    let ready : Option (Graphics S) = elim (scan_modes fw fuel 0 no_mode st') [
      | none ↦ none
      | some modes ↦
          let after = use_mode fw modes in some (record_mode arch (fw.gop_mode after) s mbi after)
    ] in
    let failed : Option (Graphics S) =
      some (record { status = status; screen = s; mbi = mbi; firmware = st' }) in
    if not (status == 0) || not found then failed else ready
