-- ===== src/Tests/WinKeys.antt =====
-- The result on the key codes, at the arrow up.
use sanzu.Prelude.{ℕ, ◌≡◌, refl, true, some, arith}
use sanzu.WinKeys.{windows_scancode_to_hardware_keycode, hardware_keycode_to_windows_scancode}
use sanzu.WinKeys.RoundTrip.{keycode-scancode}

abbrev up : ℕ
up = 0x6F

keycode-scancode_example : windows_scancode_to_hardware_keycode 0x48 1 ≡ some up
unfolding hardware_keycode_to_windows_scancode
keycode-scancode_example =
    keycode-scancode up 0x48 true (omega arith) (λ e. omega (arith, e)) (λ e. omega (arith, e)) refl
