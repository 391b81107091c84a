-- ===== src/Keys.antt =====
-- keys.go: the key symbols that type an int, and the buttons of buttons.go. What `fmt.Sprintf("%d", v)`
-- gives is an argument, as the list of its characters.
pub mod Constants
use avacadovnc.Common.{
  ℕ, ◌+◌, ◌≡◌, List, [], ◌∷◌, map, ◌==◌, leb, if◌then◌else◌, arith, refl, ℤ, Bool, true, ◌&&◌, ◌||◌,
}

-- The button masks of buttons.go: `1 << iota`, and 0 for no button.
data Button : Type 0 where
  btn_left btn_middle btn_right btn_four btn_five btn_six btn_seven btn_eight btn_none : Button

abbrev button_value : Button → ℕ
button_value btn_left = 1
button_value btn_middle = 2
button_value btn_right = 4
button_value btn_four = 8
button_value btn_five = 16
button_value btn_six = 32
button_value btn_seven = 64
button_value btn_eight = 128
button_value btn_none = 0

-- `Mask`
abbrev mask : Button → ℕ
mask button = button_value button

-- The constants that begin with `Space`: `iota + 0x0020`.
abbrev latin : ℕ → ℕ
latin iota = iota + 32

abbrev minus : ℕ
minus = latin 13

abbrev digit0 : ℕ
digit0 = latin 16

-- The entries of `keymap`: a character and its key.
abbrev key_entries : List (ℕ × ℕ)
key_entries =
    (45, minus)
    ∷ (48, digit0)
    ∷ (49, latin 17)
    ∷ (50, latin 18)
    ∷ (51, latin 19)
    ∷ (52, latin 20)
    ∷ (53, latin 21)
    ∷ (54, latin 22)
    ∷ (55, latin 23)
    ∷ (56, latin 24)
    ∷ (57, latin 25)
    ∷ []

-- 0 for a character that the map has not.
abbrev find_key : List (ℕ × ℕ) → ℕ → ℕ
find_key [] c = 0
find_key ((d, key) ∷ entries) c = if c == d then key else find_key entries c

unfoldable keymap : ℕ → ℕ
keymap c = find_key key_entries c

-- `IntToKeys`
unfoldable int_to_keys : (ℤ → List ℕ) → ℤ → List ℕ
unfolding keymap
int_to_keys decimal v = map keymap (decimal v)

-- A character that `%d` gives: a digit, or the minus sign.
abbrev in_numbers : ℕ → Bool
in_numbers c = c == 45 || (leb 48 c && leb c 57)

abbrev numeric : List ℕ → Bool
numeric [] = true
numeric (c ∷ cs) = in_numbers c && numeric cs

keymap_same : (c : ℕ) → in_numbers c ≡ true → keymap c ≡ c
unfolding keymap
keymap_same c h = ground arith

map-keymap : (cs : List ℕ) → numeric cs ≡ true → map keymap cs ≡ cs
map-keymap [] h = refl
map-keymap (c ∷ cs) h = ground (arith, keymap_same c, map-keymap cs)

-- When `%d` gives digits and minus signs only, as it does for an int, the keys are the key symbols of its
-- characters: each is the code of the character, none is the 0 of a character that is not in the map.
int_to_keys_text :
    (decimal : ℤ → List ℕ) (v : ℤ) → numeric (decimal v) ≡ true → int_to_keys decimal v ≡ decimal v
unfolding int_to_keys
int_to_keys_text decimal v h = map-keymap (decimal v) h
