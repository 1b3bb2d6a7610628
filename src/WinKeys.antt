-- ===== src/WinKeys.antt =====
-- sanzu/src/utils_win.rs: the two tables between scan codes of Windows and key codes of X11. A match
-- is a list of its arms.
pub mod RoundTrip
use sanzu.Prelude.{
  ℕ, ◌%◌, Bool, true, false, List, [], ◌∷◌, Option, none, some, ◌==◌, if◌then◌else◌,
}

-- The first arm that matches.
unfoldable pub lookup {ℓ} : {A : Type ℓ} → ℕ → List (ℕ × A) → Option A
lookup key [] = none
lookup key ((k, a) ∷ rest) = let later = lookup key rest in if key == k then some a else later

-- The arms where the lowest flag is not set.
abbrev pub plain_scancodes : List (ℕ × ℕ)
plain_scancodes =
    (0x52, 0x5A)
    ∷ (0x4F, 0x57)
    ∷ (0x50, 0x58)
    ∷ (0x51, 0x59)
    ∷ (0x4B, 0x53)
    ∷ (0x4C, 0x54)
    ∷ (0x4D, 0x55)
    ∷ (0x47, 0x4F)
    ∷ (0x48, 0x50)
    ∷ (0x49, 0x51)
    ∷ (0x37, 0x3F)
    ∷ (0x4A, 0x52)
    ∷ (0x4E, 0x56)
    ∷ (0x46, 0x4E)
    ∷ (0x45, 0x7F)
    ∷ (0x38, 0x40)
    ∷ (0x1D, 0x25)
    ∷ (0x1, 0x09)
    ∷ (0x2, 0x0A)
    ∷ (0x3, 0x0B)
    ∷ (0x4, 0x0C)
    ∷ (0x5, 0x0D)
    ∷ (0x6, 0x0E)
    ∷ (0x7, 0x0F)
    ∷ (0x8, 0x10)
    ∷ (0x9, 0x11)
    ∷ (0xA, 0x12)
    ∷ (0xB, 0x13)
    ∷ (0xC, 0x14)
    ∷ (0xD, 0x15)
    ∷ (0xE, 0x16)
    ∷ (0x0F, 0x17)
    ∷ (0x10, 0x18)
    ∷ (0x11, 0x19)
    ∷ (0x12, 0x1A)
    ∷ (0x13, 0x1B)
    ∷ (0x14, 0x1C)
    ∷ (0x15, 0x1D)
    ∷ (0x16, 0x1E)
    ∷ (0x17, 0x1F)
    ∷ (0x18, 0x20)
    ∷ (0x19, 0x21)
    ∷ (0x1A, 0x22)
    ∷ (0x1B, 0x23)
    ∷ (0x1C, 0x24)
    ∷ (0x1E, 0x26)
    ∷ (0x1F, 0x27)
    ∷ (0x20, 0x28)
    ∷ (0x21, 0x29)
    ∷ (0x22, 0x2A)
    ∷ (0x23, 0x2B)
    ∷ (0x24, 0x2C)
    ∷ (0x25, 0x2D)
    ∷ (0x26, 0x2E)
    ∷ (0x27, 0x2F)
    ∷ (0x28, 0x30)
    ∷ (0x29, 0x31)
    ∷ (0x2B, 0x33)
    ∷ (0x2A, 0x32)
    ∷ (0x2C, 0x34)
    ∷ (0x2D, 0x35)
    ∷ (0x2E, 0x36)
    ∷ (0x2F, 0x37)
    ∷ (0x30, 0x38)
    ∷ (0x31, 0x39)
    ∷ (0x32, 0x3A)
    ∷ (0x33, 0x3B)
    ∷ (0x34, 0x3C)
    ∷ (0x35, 0x3D)
    ∷ (0x39, 0x41)
    ∷ (0x3A, 0x42)
    ∷ (0x3B, 0x43)
    ∷ (0x3C, 0x44)
    ∷ (0x3D, 0x45)
    ∷ (0x3E, 0x46)
    ∷ (0x3F, 0x47)
    ∷ (0x40, 0x48)
    ∷ (0x41, 0x49)
    ∷ (0x42, 0x4A)
    ∷ (0x43, 0x4B)
    ∷ (0x44, 0x4C)
    ∷ (0x53, 0x5B)
    ∷ (0x56, 0x5E)
    ∷ (0x57, 0x5F)
    ∷ (0x58, 0x60)
    ∷ []

-- Those where it is.
abbrev pub extended_scancodes : List (ℕ × ℕ)
extended_scancodes =
    (0x4B, 0x71)
    ∷ (0x4D, 0x72)
    ∷ (0x48, 0x6F)
    ∷ (0x50, 0x74)
    ∷ (0x35, 0x6A)
    ∷ (0x1C, 0x24)
    ∷ (0x52, 0x76)
    ∷ (0x53, 0x77)
    ∷ (0x47, 0x6E)
    ∷ (0x4F, 0x73)
    ∷ (0x49, 0x70)
    ∷ (0x51, 0x75)
    ∷ (0x38, 0x6C)
    ∷ (0x1D, 0x69)
    ∷ (0x36, 0x3E)
    ∷ (0x45, 0x4D)
    ∷ (0x5B, 0x85)
    ∷ (0x5C, 0x86)
    ∷ (0x5D, 0x87)
    ∷ []

unfoldable pub windows_scancode_to_hardware_keycode : (keycode flags : ℕ) → Option ℕ
unfolding lookup
windows_scancode_to_hardware_keycode keycode flags =
    if flags % 2 == 0 then lookup keycode plain_scancodes else lookup keycode extended_scancodes

-- The scan code, and whether it is an extended one.
abbrev pub hardware_keycodes : List (ℕ × (ℕ × Bool))
hardware_keycodes =
    (0x0009, (0x01, false))
    ∷ (0x000A, (0x02, false))
    ∷ (0x000B, (0x03, false))
    ∷ (0x000C, (0x04, false))
    ∷ (0x000D, (0x05, false))
    ∷ (0x000E, (0x06, false))
    ∷ (0x000F, (0x07, false))
    ∷ (0x0010, (0x08, false))
    ∷ (0x0011, (0x09, false))
    ∷ (0x0012, (0x0A, false))
    ∷ (0x0013, (0x0B, false))
    ∷ (0x0014, (0x0C, false))
    ∷ (0x0015, (0x0D, false))
    ∷ (0x0016, (0x0E, false))
    ∷ (0x0017, (0x0F, false))
    ∷ (0x0018, (0x10, false))
    ∷ (0x0019, (0x11, false))
    ∷ (0x001A, (0x12, false))
    ∷ (0x001B, (0x13, false))
    ∷ (0x001C, (0x14, false))
    ∷ (0x001D, (0x15, false))
    ∷ (0x001E, (0x16, false))
    ∷ (0x001F, (0x17, false))
    ∷ (0x0020, (0x18, false))
    ∷ (0x0021, (0x19, false))
    ∷ (0x0022, (0x1A, false))
    ∷ (0x0023, (0x1B, false))
    ∷ (0x0024, (0x1C, false))
    ∷ (0x0025, (0x1D, false))
    ∷ (0x0026, (0x1E, false))
    ∷ (0x0027, (0x1F, false))
    ∷ (0x0028, (0x20, false))
    ∷ (0x0029, (0x21, false))
    ∷ (0x002A, (0x22, false))
    ∷ (0x002B, (0x23, false))
    ∷ (0x002C, (0x24, false))
    ∷ (0x002D, (0x25, false))
    ∷ (0x002E, (0x26, false))
    ∷ (0x002F, (0x27, false))
    ∷ (0x0030, (0x28, false))
    ∷ (0x0031, (0x29, false))
    ∷ (0x0033, (0x2B, false))
    ∷ (0x0032, (0x2A, false))
    ∷ (0x0034, (0x2C, false))
    ∷ (0x0035, (0x2D, false))
    ∷ (0x0036, (0x2E, false))
    ∷ (0x0037, (0x2F, false))
    ∷ (0x0038, (0x30, false))
    ∷ (0x0039, (0x31, false))
    ∷ (0x003A, (0x32, false))
    ∷ (0x003B, (0x33, false))
    ∷ (0x003C, (0x34, false))
    ∷ (0x003D, (0x35, false))
    ∷ (0x003E, (0x36, false))
    ∷ (0x003F, (0x37, false))
    ∷ (0x0040, (0x38, false))
    ∷ (0x0041, (0x39, false))
    ∷ (0x0042, (0x3A, false))
    ∷ (0x0043, (0x3B, false))
    ∷ (0x0044, (0x3C, false))
    ∷ (0x0045, (0x3D, false))
    ∷ (0x0046, (0x3E, false))
    ∷ (0x0047, (0x3F, false))
    ∷ (0x0048, (0x40, false))
    ∷ (0x0049, (0x41, false))
    ∷ (0x004A, (0x42, false))
    ∷ (0x004B, (0x43, false))
    ∷ (0x004C, (0x44, false))
    ∷ (0x004D, (0x45, false))
    ∷ (0x004E, (0x46, false))
    ∷ (0x004F, (0x47, false))
    ∷ (0x0052, (0x4A, false))
    ∷ (0x0054, (0x4C, false))
    ∷ (0x0056, (0x4E, false))
    ∷ (0x005E, (0x56, false))
    ∷ (0x005F, (0x57, false))
    ∷ (0x0060, (0x58, false))
    ∷ (0x6C, (0x38, true))
    ∷ (0x50, (0x48, false))
    ∷ (0x51, (0x49, false))
    ∷ (0x53, (0x4B, false))
    ∷ (0x55, (0x4D, false))
    ∷ (0x57, (0x4F, false))
    ∷ (0x58, (0x50, false))
    ∷ (0x59, (0x51, false))
    ∷ (0x5A, (0x52, false))
    ∷ (0x5B, (0x53, false))
    ∷ (0x6F, (0x48, true))
    ∷ (0x70, (0x49, true))
    ∷ (0x71, (0x4B, true))
    ∷ (0x72, (0x4D, true))
    ∷ (0x73, (0x4F, true))
    ∷ (0x74, (0x50, true))
    ∷ (0x75, (0x51, true))
    ∷ (0x76, (0x52, true))
    ∷ (0x77, (0x53, true))
    ∷ []

unfoldable pub hardware_keycode_to_windows_scancode : (hw_keycode : ℕ) → Option (ℕ × Bool)
unfolding lookup
hardware_keycode_to_windows_scancode hw_keycode = lookup hw_keycode hardware_keycodes
