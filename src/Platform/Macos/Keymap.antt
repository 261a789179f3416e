-- ===== src/Platform/Macos/Keymap.antt =====
-- crates/ud-input/src/platform/macos/keymap.rs: virtual key codes of macOS.
use uniondesk.Common.{ℕ, ◌≡◌, refl, true, Option, some, List, [], ◌∷◌}
use uniondesk.Input.{KeyCode}
use uniondesk.Platform.Keys.{key_of, code_of, are_codes_unique, key_of-code_of}

-- `VK_TO_HID`
abbrev pub vk_table : List (ℕ × ℕ)
vk_table =
    (0x0, 0x4)
    ∷ (0x1, 0x16)
    ∷ (0x2, 0x7)
    ∷ (0x3, 0x9)
    ∷ (0x4, 0xb)
    ∷ (0x5, 0xa)
    ∷ (0x6, 0x1d)
    ∷ (0x7, 0x1b)
    ∷ (0x8, 0x6)
    ∷ (0x9, 0x19)
    ∷ (0xa, 0x64)
    ∷ (0xb, 0x5)
    ∷ (0xc, 0x14)
    ∷ (0xd, 0x1a)
    ∷ (0xe, 0x8)
    ∷ (0xf, 0x15)
    ∷ (0x10, 0x1c)
    ∷ (0x11, 0x17)
    ∷ (0x12, 0x1e)
    ∷ (0x13, 0x1f)
    ∷ (0x14, 0x20)
    ∷ (0x15, 0x21)
    ∷ (0x16, 0x23)
    ∷ (0x17, 0x22)
    ∷ (0x18, 0x2e)
    ∷ (0x19, 0x26)
    ∷ (0x1a, 0x24)
    ∷ (0x1b, 0x2d)
    ∷ (0x1c, 0x25)
    ∷ (0x1d, 0x27)
    ∷ (0x1e, 0x30)
    ∷ (0x1f, 0x12)
    ∷ (0x20, 0x18)
    ∷ (0x21, 0x2f)
    ∷ (0x22, 0xc)
    ∷ (0x23, 0x13)
    ∷ (0x24, 0x28)
    ∷ (0x25, 0xf)
    ∷ (0x26, 0xd)
    ∷ (0x27, 0x34)
    ∷ (0x28, 0xe)
    ∷ (0x29, 0x33)
    ∷ (0x2a, 0x31)
    ∷ (0x2b, 0x36)
    ∷ (0x2c, 0x38)
    ∷ (0x2d, 0x11)
    ∷ (0x2e, 0x10)
    ∷ (0x2f, 0x37)
    ∷ (0x30, 0x2b)
    ∷ (0x31, 0x2c)
    ∷ (0x32, 0x35)
    ∷ (0x33, 0x2a)
    ∷ (0x34, 0x58)
    ∷ (0x35, 0x29)
    ∷ (0x36, 0xe7)
    ∷ (0x37, 0xe3)
    ∷ (0x38, 0xe1)
    ∷ (0x39, 0x39)
    ∷ (0x3a, 0xe2)
    ∷ (0x3b, 0xe0)
    ∷ (0x3c, 0xe5)
    ∷ (0x3d, 0xe6)
    ∷ (0x3e, 0xe4)
    ∷ (0x40, 0x6c)
    ∷ (0x41, 0x63)
    ∷ (0x43, 0x55)
    ∷ (0x44, 0x57)
    ∷ (0x45, 0x53)
    ∷ (0x47, 0x53)
    ∷ (0x4b, 0x54)
    ∷ (0x4c, 0x58)
    ∷ (0x4e, 0x56)
    ∷ (0x4f, 0x6d)
    ∷ (0x50, 0x6e)
    ∷ (0x51, 0x67)
    ∷ (0x52, 0x62)
    ∷ (0x53, 0x59)
    ∷ (0x54, 0x5a)
    ∷ (0x55, 0x5b)
    ∷ (0x56, 0x5c)
    ∷ (0x57, 0x5d)
    ∷ (0x58, 0x5e)
    ∷ (0x59, 0x5f)
    ∷ (0x5a, 0x6f)
    ∷ (0x5b, 0x60)
    ∷ (0x5c, 0x61)
    ∷ (0x60, 0x3e)
    ∷ (0x61, 0x3f)
    ∷ (0x62, 0x40)
    ∷ (0x63, 0x3c)
    ∷ (0x64, 0x41)
    ∷ (0x65, 0x42)
    ∷ (0x67, 0x44)
    ∷ (0x69, 0x68)
    ∷ (0x6a, 0x6b)
    ∷ (0x6b, 0x69)
    ∷ (0x6d, 0x43)
    ∷ (0x6f, 0x45)
    ∷ (0x71, 0x6a)
    ∷ (0x72, 0x49)
    ∷ (0x73, 0x4a)
    ∷ (0x74, 0x4b)
    ∷ (0x75, 0x4c)
    ∷ (0x76, 0x3d)
    ∷ (0x77, 0x4d)
    ∷ (0x78, 0x3b)
    ∷ (0x79, 0x4e)
    ∷ (0x7a, 0x3a)
    ∷ (0x7b, 0x50)
    ∷ (0x7c, 0x4f)
    ∷ (0x7d, 0x51)
    ∷ (0x7e, 0x52)
    ∷ []

unfoldable pub vk_to_hid : ℕ → Option KeyCode
unfolding key_of
vk_to_hid vk = key_of vk_table vk

unfoldable pub hid_to_vk : KeyCode → Option ℕ
unfolding code_of
hid_to_vk hid = code_of vk_table hid

vk_table-codes : are_codes_unique vk_table ≡ true
unfolding key_of
vk_table-codes = refl

-- The virtual key that is chosen for a key is read back as that key.
pub vk_to_hid-hid_to_vk : (hid vk : ℕ) → hid_to_vk hid ≡ some vk → vk_to_hid vk ≡ some hid
unfolding hid_to_vk vk_to_hid
vk_to_hid-hid_to_vk hid vk h = key_of-code_of vk_table hid vk vk_table-codes h
