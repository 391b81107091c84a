-- ===== src/Keys/Constants.antt =====
-- The key constants of keys.go, as Go reads a block of constants: a name without an expression has the one
-- before it again, at its own place in the block.
use avacadovnc.Common.{
  ℕ, suc, ◌+◌, ◌≡◌, refl, ap, List, [], ◌∷◌, map, length, replicate, take, drop, String,
}

-- What stands behind a name: `iota + base`, a number, or nothing.
data Spec : Type 0 where
  iota_plus : ℕ → Spec
  value : ℕ → Spec
  repeated : Spec

abbrev Block : Type 0
Block = List (String × Spec)

-- The values of the names from place `iota` on, given what the last expression makes of a place.
abbrev block_values : (ℕ → ℕ) → ℕ → Block → List ℕ
block_values last iota [] = []
block_values last iota ((name, iota_plus base) ∷ more) =
    (iota + base) ∷ block_values (λ i. i + base) (suc iota) more
block_values last iota ((name, value n) ∷ more) = n ∷ block_values (λ i. n) (suc iota) more
block_values last iota ((name, repeated) ∷ more) = last iota ∷ block_values last (suc iota) more

abbrev key_values : Block → List ℕ
key_values block = block_values (λ i. 0) 0 block

abbrev latin_block : Block
latin_block =
    ("Space", iota_plus 32)
    ∷ ("Exclaim", repeated)
    ∷ ("QuoteDbl", repeated)
    ∷ ("NumberSign", repeated)
    ∷ ("Dollar", repeated)
    ∷ ("Percent", repeated)
    ∷ ("Ampersand", repeated)
    ∷ ("Apostrophe", repeated)
    ∷ ("ParenLeft", repeated)
    ∷ ("ParenRight", repeated)
    ∷ ("Asterisk", repeated)
    ∷ ("Plus", repeated)
    ∷ ("Comma", repeated)
    ∷ ("Minus", repeated)
    ∷ ("Period", repeated)
    ∷ ("Slash", repeated)
    ∷ ("Digit0", repeated)
    ∷ ("Digit1", repeated)
    ∷ ("Digit2", repeated)
    ∷ ("Digit3", repeated)
    ∷ ("Digit4", repeated)
    ∷ ("Digit5", repeated)
    ∷ ("Digit6", repeated)
    ∷ ("Digit7", repeated)
    ∷ ("Digit8", repeated)
    ∷ ("Digit9", repeated)
    ∷ ("Colon", repeated)
    ∷ ("Semicolon", repeated)
    ∷ ("Less", repeated)
    ∷ ("Equal", repeated)
    ∷ ("Greater", repeated)
    ∷ ("Question", repeated)
    ∷ ("At", repeated)
    ∷ ("A", repeated)
    ∷ ("B", repeated)
    ∷ ("C", repeated)
    ∷ ("D", repeated)
    ∷ ("E", repeated)
    ∷ ("F", repeated)
    ∷ ("G", repeated)
    ∷ ("H", repeated)
    ∷ ("I", repeated)
    ∷ ("J", repeated)
    ∷ ("K", repeated)
    ∷ ("L", repeated)
    ∷ ("M", repeated)
    ∷ ("N", repeated)
    ∷ ("O", repeated)
    ∷ ("P", repeated)
    ∷ ("Q", repeated)
    ∷ ("R", repeated)
    ∷ ("S", repeated)
    ∷ ("T", repeated)
    ∷ ("U", repeated)
    ∷ ("V", repeated)
    ∷ ("W", repeated)
    ∷ ("X", repeated)
    ∷ ("Y", repeated)
    ∷ ("Z", repeated)
    ∷ ("BracketLeft", repeated)
    ∷ ("Backslash", repeated)
    ∷ ("BracketRight", repeated)
    ∷ ("AsciiCircum", repeated)
    ∷ ("Underscore", repeated)
    ∷ ("Grave", repeated)
    ∷ ("SmallA", repeated)
    ∷ ("SmallB", repeated)
    ∷ ("SmallC", repeated)
    ∷ ("SmallD", repeated)
    ∷ ("SmallE", repeated)
    ∷ ("SmallF", repeated)
    ∷ ("SmallG", repeated)
    ∷ ("SmallH", repeated)
    ∷ ("SmallI", repeated)
    ∷ ("SmallJ", repeated)
    ∷ ("SmallK", repeated)
    ∷ ("SmallL", repeated)
    ∷ ("SmallM", repeated)
    ∷ ("SmallN", repeated)
    ∷ ("SmallO", repeated)
    ∷ ("SmallP", repeated)
    ∷ ("SmallQ", repeated)
    ∷ ("SmallR", repeated)
    ∷ ("SmallS", repeated)
    ∷ ("SmallT", repeated)
    ∷ ("SmallU", repeated)
    ∷ ("SmallV", repeated)
    ∷ ("SmallW", repeated)
    ∷ ("SmallX", repeated)
    ∷ ("SmallY", repeated)
    ∷ ("SmallZ", repeated)
    ∷ ("BraceLeft", repeated)
    ∷ ("Bar", repeated)
    ∷ ("BraceRight", repeated)
    ∷ ("AsciiTilde", repeated)
    ∷ []

abbrev editing_block : Block
editing_block =
    ("BackSpace", iota_plus 65288)
    ∷ ("Tab", repeated)
    ∷ ("Linefeed", repeated)
    ∷ ("Clear", repeated)
    ∷ ("_", repeated)
    ∷ ("Return", repeated)
    ∷ []

abbrev pause_block : Block
pause_block =
    ("Pause", iota_plus 65299)
    ∷ ("ScrollLock", repeated)
    ∷ ("SysReq", repeated)
    ∷ ("Escape", value 65307)
    ∷ ("Delete", value 65535)
    ∷ []

abbrev motion_block : Block
motion_block =
    ("Home", iota_plus 65360)
    ∷ ("Left", repeated)
    ∷ ("Up", repeated)
    ∷ ("Right", repeated)
    ∷ ("Down", repeated)
    ∷ ("PageUp", repeated)
    ∷ ("PageDown", repeated)
    ∷ ("End", repeated)
    ∷ ("Begin", repeated)
    ∷ []

abbrev misc_block : Block
misc_block =
    ("Select", value 65376)
    ∷ ("Print", repeated)
    ∷ ("Execute", repeated)
    ∷ ("Insert", repeated)
    ∷ ("Undo", repeated)
    ∷ ("Redo", repeated)
    ∷ ("Menu", repeated)
    ∷ ("Find", repeated)
    ∷ ("Cancel", repeated)
    ∷ ("Help", repeated)
    ∷ ("Break", repeated)
    ∷ ("ModeSwitch", value 65406)
    ∷ ("NumLock", value 65407)
    ∷ []

abbrev keypad_block : Block
keypad_block =
    ("KeypadSpace", value 65408) ∷ ("KeypadTab", value 65417) ∷ ("KeypadEnter", value 65421) ∷ []

abbrev keypad_more_block : Block
keypad_more_block =
    ("KeypadF1", iota_plus 65425)
    ∷ ("KeypadF2", repeated)
    ∷ ("KeypadF3", repeated)
    ∷ ("KeypadF4", repeated)
    ∷ ("KeypadHome", repeated)
    ∷ ("KeypadLeft", repeated)
    ∷ ("KeypadUp", repeated)
    ∷ ("KeypadRight", repeated)
    ∷ ("KeypadDown", repeated)
    ∷ ("KeypadPrior", repeated)
    ∷ ("KeypadPageUp", repeated)
    ∷ ("KeypadNext", repeated)
    ∷ ("KeypadPageDown", repeated)
    ∷ ("KeypadEnd", repeated)
    ∷ ("KeypadBegin", repeated)
    ∷ ("KeypadInsert", repeated)
    ∷ ("KeypadDelete", repeated)
    ∷ ("KeypadMultiply", repeated)
    ∷ ("KeypadAdd", repeated)
    ∷ ("KeypadSeparator", repeated)
    ∷ ("KeypadSubtract", repeated)
    ∷ ("KeypadDecimal", repeated)
    ∷ ("KeypadDivide", repeated)
    ∷ ("Keypad0", repeated)
    ∷ ("Keypad1", repeated)
    ∷ ("Keypad2", repeated)
    ∷ ("Keypad3", repeated)
    ∷ ("Keypad4", repeated)
    ∷ ("Keypad5", repeated)
    ∷ ("Keypad6", repeated)
    ∷ ("Keypad7", repeated)
    ∷ ("Keypad8", repeated)
    ∷ ("Keypad9", repeated)
    ∷ ("KeypadEqual", value 65469)
    ∷ []

abbrev function_block : Block
function_block =
    ("F1", iota_plus 65470)
    ∷ ("F2", repeated)
    ∷ ("F3", repeated)
    ∷ ("F4", repeated)
    ∷ ("F5", repeated)
    ∷ ("F6", repeated)
    ∷ ("F7", repeated)
    ∷ ("F8", repeated)
    ∷ ("F9", repeated)
    ∷ ("F10", repeated)
    ∷ ("F11", repeated)
    ∷ ("F12", repeated)
    ∷ []

abbrev modifier_block : Block
modifier_block =
    ("ShiftLeft", iota_plus 65505)
    ∷ ("ShiftRight", repeated)
    ∷ ("ControlLeft", repeated)
    ∷ ("ControlRight", repeated)
    ∷ ("CapsLock", repeated)
    ∷ ("ShiftLock", repeated)
    ∷ ("MetaLeft", repeated)
    ∷ ("MetaRight", repeated)
    ∷ ("AltLeft", repeated)
    ∷ ("AltRight", repeated)
    ∷ ("SuperLeft", repeated)
    ∷ ("SuperRight", repeated)
    ∷ ("HyperLeft", repeated)
    ∷ ("HyperRight", repeated)
    ∷ []

-- Names without an expression behind a number all have this number.
same_number :
    (n iota : ℕ) (names : List String)
    → block_values (λ i. n) iota (map (λ (name : String). (name, repeated)) names)
      ≡ replicate (length names) n
same_number n iota [] = refl
same_number n iota (name ∷ names) = ap (λ (l : List ℕ). n ∷ l) (same_number n (suc iota) names)

-- The names from `Select` to `Break` are eleven names of one key.
one_misc_key : take 11 (key_values misc_block) ≡ replicate 11 65376
one_misc_key = refl

-- `KeypadPrior` and `KeypadPageUp` have values one apart, and so the values after them are higher by one,
-- and from `KeypadMultiply` on too low: `Keypad0` is 0xffa8.
keypad_zero : take 1 (drop 23 (key_values keypad_more_block)) ≡ 65448 ∷ []
keypad_zero = refl
