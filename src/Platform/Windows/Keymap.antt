-- ===== src/Platform/Windows/Keymap.antt =====
-- crates/ud-input/src/platform/windows/keymap.rs: scan codes and virtual key codes of Windows.
use Prim.Native.Nat.{bit_and}
use uniondesk.Common.{
  ℕ, ◌+◌, ◌-◌, Bool, true, false, ◌&&◌, ◌≡◌, refl, Option, none, some, List, [], ◌∷◌, ◌==◌, leb,
  if◌then◌else◌, get_elem?,
}
use uniondesk.Input.{KeyCode}
use uniondesk.Platform.Keys.{
  key_of, code_of, are_codes_unique, are_keys_unique, key_of-code_of, code_of-key_of,
}

-- `SCAN_TO_HID`
abbrev pub scan_table : List (ℕ × ℕ)
scan_table =
    (0x1, 0x29)
    ∷ (0x2, 0x1e)
    ∷ (0x3, 0x1f)
    ∷ (0x4, 0x20)
    ∷ (0x5, 0x21)
    ∷ (0x6, 0x22)
    ∷ (0x7, 0x23)
    ∷ (0x8, 0x24)
    ∷ (0x9, 0x25)
    ∷ (0xa, 0x26)
    ∷ (0xb, 0x27)
    ∷ (0xc, 0x2d)
    ∷ (0xd, 0x2e)
    ∷ (0xe, 0x2a)
    ∷ (0xf, 0x2b)
    ∷ (0x10, 0x14)
    ∷ (0x11, 0x1a)
    ∷ (0x12, 0x8)
    ∷ (0x13, 0x15)
    ∷ (0x14, 0x17)
    ∷ (0x15, 0x1c)
    ∷ (0x16, 0x18)
    ∷ (0x17, 0xc)
    ∷ (0x18, 0x12)
    ∷ (0x19, 0x13)
    ∷ (0x1a, 0x2f)
    ∷ (0x1b, 0x30)
    ∷ (0x1c, 0x28)
    ∷ (0x1d, 0xe0)
    ∷ (0x1e, 0x4)
    ∷ (0x1f, 0x16)
    ∷ (0x20, 0x7)
    ∷ (0x21, 0x9)
    ∷ (0x22, 0xa)
    ∷ (0x23, 0xb)
    ∷ (0x24, 0xd)
    ∷ (0x25, 0xe)
    ∷ (0x26, 0xf)
    ∷ (0x27, 0x33)
    ∷ (0x28, 0x34)
    ∷ (0x29, 0x35)
    ∷ (0x2a, 0xe1)
    ∷ (0x2b, 0x31)
    ∷ (0x2c, 0x1d)
    ∷ (0x2d, 0x1b)
    ∷ (0x2e, 0x6)
    ∷ (0x2f, 0x19)
    ∷ (0x30, 0x5)
    ∷ (0x31, 0x11)
    ∷ (0x32, 0x10)
    ∷ (0x33, 0x36)
    ∷ (0x34, 0x37)
    ∷ (0x35, 0x38)
    ∷ (0x36, 0xe5)
    ∷ (0x37, 0x55)
    ∷ (0x38, 0xe2)
    ∷ (0x39, 0x2c)
    ∷ (0x3a, 0x39)
    ∷ (0x3b, 0x3a)
    ∷ (0x3c, 0x3b)
    ∷ (0x3d, 0x3c)
    ∷ (0x3e, 0x3d)
    ∷ (0x3f, 0x3e)
    ∷ (0x40, 0x3f)
    ∷ (0x41, 0x40)
    ∷ (0x42, 0x41)
    ∷ (0x43, 0x42)
    ∷ (0x44, 0x43)
    ∷ (0x45, 0x53)
    ∷ (0x46, 0x47)
    ∷ (0x47, 0x5f)
    ∷ (0x48, 0x60)
    ∷ (0x49, 0x61)
    ∷ (0x4a, 0x56)
    ∷ (0x4b, 0x5c)
    ∷ (0x4c, 0x5d)
    ∷ (0x4d, 0x5e)
    ∷ (0x4e, 0x57)
    ∷ (0x4f, 0x59)
    ∷ (0x50, 0x5a)
    ∷ (0x51, 0x5b)
    ∷ (0x52, 0x62)
    ∷ (0x53, 0x63)
    ∷ (0x56, 0x64)
    ∷ (0x57, 0x44)
    ∷ (0x58, 0x45)
    ∷ (0x59, 0x67)
    ∷ (0x64, 0x68)
    ∷ (0x65, 0x69)
    ∷ (0x66, 0x6a)
    ∷ (0x67, 0x6b)
    ∷ (0x68, 0x6c)
    ∷ (0x69, 0x6d)
    ∷ (0x6a, 0x6e)
    ∷ (0x6b, 0x6f)
    ∷ (0x6c, 0x70)
    ∷ (0x6d, 0x71)
    ∷ (0x6e, 0x72)
    ∷ (0x76, 0x73)
    ∷ (0xe01c, 0x58)
    ∷ (0xe01d, 0xe4)
    ∷ (0xe035, 0x54)
    ∷ (0xe037, 0x46)
    ∷ (0xe038, 0xe6)
    ∷ (0xe047, 0x4a)
    ∷ (0xe048, 0x52)
    ∷ (0xe049, 0x4b)
    ∷ (0xe04b, 0x50)
    ∷ (0xe04d, 0x4f)
    ∷ (0xe04f, 0x4d)
    ∷ (0xe050, 0x51)
    ∷ (0xe051, 0x4e)
    ∷ (0xe052, 0x49)
    ∷ (0xe053, 0x4c)
    ∷ (0xe05b, 0xe3)
    ∷ (0xe05c, 0xe7)
    ∷ (0xe05d, 0x65)
    ∷ []

-- `VK_TO_HID`
abbrev pub vk_table : List (ℕ × ℕ)
vk_table =
    (0x13, 0x48)
    ∷ (0x2c, 0x46)
    ∷ (0xa0, 0xe1)
    ∷ (0xa1, 0xe5)
    ∷ (0xa2, 0xe0)
    ∷ (0xa3, 0xe4)
    ∷ (0xa4, 0xe2)
    ∷ (0xa5, 0xe6)
    ∷ (0x5b, 0xe3)
    ∷ (0x5c, 0xe7)
    ∷ (0xad, 0x2103)
    ∷ (0xae, 0x2102)
    ∷ (0xaf, 0x2101)
    ∷ (0xb0, 0x2105)
    ∷ (0xb1, 0x2106)
    ∷ (0xb3, 0x2104)
    ∷ []

unfoldable pub scan_to_hid : ℕ → Option KeyCode
unfolding key_of
scan_to_hid scan = key_of scan_table scan

-- `PAD`
abbrev pub pad_keys : List ℕ
pad_keys = 0x62 ∷ 0x59 ∷ 0x5a ∷ 0x5b ∷ 0x5c ∷ 0x5d ∷ 0x5e ∷ 0x5f ∷ 0x60 ∷ 0x61 ∷ []

abbrev in_range : ℕ → ℕ → ℕ → Bool
in_range lo hi vk = leb lo vk && leb vk hi

-- The `match` at the end of `vk_to_hid`.
unfoldable pub vk_pattern : ℕ → Option KeyCode
vk_pattern vk =
    if in_range 0x41 0x5a vk
    then some (0x04 + (vk - 0x41))
    else if in_range 0x31 0x39 vk
    then some (0x1e + (vk - 0x31))
    else if vk == 0x30
    then some 0x27
    else if in_range 0x60 0x69 vk
    then get_elem? pad_keys (vk - 0x60)
    else if in_range 0x70 0x7b vk
    then some (0x3a + (vk - 0x70))
    else if in_range 0x7c 0x87 vk
    then some (0x68 + (vk - 0x7c))
    else none

abbrev pub or_else : Option KeyCode → Option KeyCode → Option KeyCode
or_else (some k) other = some k
or_else none other = other

unfoldable pub vk_to_hid : ℕ → Option KeyCode
unfolding key_of vk_pattern
vk_to_hid vk = or_else (key_of vk_table vk) (vk_pattern vk)

unfoldable pub hid_to_scan : KeyCode → Option ℕ
unfolding code_of
hid_to_scan hid = code_of scan_table hid

-- The extended flag apart from the code.
unfoldable pub split_scan : ℕ → ℕ × Bool
split_scan scan = if bit_and scan 0xe000 == 0xe000 then (bit_and scan 0xff, true) else (scan, false)

scan_table-codes : are_codes_unique scan_table ≡ true
unfolding key_of
scan_table-codes = refl

scan_table-keys : are_keys_unique scan_table ≡ true
unfolding code_of
scan_table-keys = refl

-- The scan code that is chosen for a key is read back as that key.
pub scan_to_hid-hid_to_scan :
    (hid scan : ℕ) → hid_to_scan hid ≡ some scan → scan_to_hid scan ≡ some hid
unfolding hid_to_scan scan_to_hid
scan_to_hid-hid_to_scan hid scan h = key_of-code_of scan_table hid scan scan_table-codes h

-- The key that a scan code stands for is sent as that scan code.
pub hid_to_scan-scan_to_hid :
    (scan hid : ℕ) → scan_to_hid scan ≡ some hid → hid_to_scan hid ≡ some scan
unfolding hid_to_scan scan_to_hid
hid_to_scan-scan_to_hid scan hid h = code_of-key_of scan_table scan hid scan_table-keys h
