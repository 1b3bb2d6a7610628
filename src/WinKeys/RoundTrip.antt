-- ===== src/WinKeys/RoundTrip.antt =====
-- A key code of X11 that has a scan code comes back from it.
use sanzu.Prelude.{
  ℕ, ◌<◌, ◌≡◌, refl, ◌≢◌, Bool, true, false, ◌||◌, Option, none, some, ◌==◌, all_below,
  all_below_sound, arith,
}
use sanzu.WinKeys.{windows_scancode_to_hardware_keycode, hardware_keycode_to_windows_scancode}

abbrev pub key_right_shift : ℕ
key_right_shift = 0x3E

abbrev pub key_num_lock : ℕ
key_num_lock = 0x4D

-- The flags of a scan code.
abbrev pub flags_of : Bool → ℕ
flags_of true = 1
flags_of false = 0

is_key : Option ℕ → ℕ → Bool
is_key none key = false
is_key (some k) key = k == key

agrees : Option (ℕ × Bool) → ℕ → Bool
unfolding is_key
agrees none key = true
agrees (some (scancode, extended)) key =
    is_key (windows_scancode_to_hardware_keycode scancode (flags_of extended)) key

comes_back : ℕ → Bool
unfolding agrees
comes_back key =
    key == key_right_shift
    || key == key_num_lock
    || agrees (hardware_keycode_to_windows_scancode key) key

table : all_below 256 comes_back ≡ true
unfolding comes_back agrees is_key hardware_keycode_to_windows_scancode
    windows_scancode_to_hardware_keycode
table = refl

is_key-eq : (o : Option ℕ) (key : ℕ) → is_key o key ≡ true → o ≡ some key
unfolding is_key
is_key-eq none key h = ground (arith, h)
is_key-eq (some m) key h = ground (arith, h)

agrees-eq :
    (key scancode : ℕ) (extended : Bool) (o : Option (ℕ × Bool))
    → agrees o key ≡ true
    → o ≡ some (scancode, extended)
    → windows_scancode_to_hardware_keycode scancode (flags_of extended) ≡ some key
unfolding agrees
agrees-eq key scancode extended none h e = absurd (ground (arith, e))
agrees-eq key scancode extended (some (s, x)) h e =
    let back = is_key-eq (windows_scancode_to_hardware_keycode s (flags_of x)) key h in
    ground (arith, e, back)

-- Every key code below 256 that has a scan code is the key code of that scan code, with its mark of
-- being extended as the lowest flag, but for the right shift and num lock keys.
pub keycode-scancode :
    (key scancode : ℕ) (extended : Bool)
    → key < 256
    → key ≢ key_right_shift
    → key ≢ key_num_lock
    → hardware_keycode_to_windows_scancode key ≡ some (scancode, extended)
    → windows_scancode_to_hardware_keycode scancode (flags_of extended) ≡ some key
unfolding comes_back
keycode-scancode key scancode extended below not_shift not_lock e =
    agrees-eq key scancode extended (hardware_keycode_to_windows_scancode key)
      (ground (arith, all_below_sound 256 comes_back key table below, not_shift, not_lock)) e
