-- ===== src/Poison/Utf8.antt =====
-- Go's utf8.ValidString, as far as poison.go uses it: the well-formed byte sequences of the Unicode
-- standard's table, read by an automaton.
use icelake.Prelude.{ℕ, Bool, true, false, ◌&&◌, [], ◌∷◌, ltb, leb, ◌==◌, if◌then◌else◌}
use icelake.Errdef.{Bytes}

-- What may follow: a new character (`start`), one to three continuation bytes, or the restricted
-- second byte after E0, ED, F0 or F4. `stuck` is a sequence that is not well-formed.
pub data Utf8State : Type 0 where
  start one_more two_more three_more after_e0 after_ed after_f0 after_f4 stuck : Utf8State

abbrev range : ℕ → ℕ → ℕ → Utf8State → Utf8State
range low high b next = if leb low b && leb b high then next else stuck

unfoldable pub first_byte : ℕ → Utf8State
first_byte b =
    if ltb b 0x80
    then start
    else if leb 0xC2 b && leb b 0xDF
    then one_more
    else if b == 0xE0
    then after_e0
    else if b == 0xED
    then after_ed
    else if leb 0xE1 b && leb b 0xEF
    then two_more
    else if b == 0xF0
    then after_f0
    else if leb 0xF1 b && leb b 0xF3
    then three_more
    else if b == 0xF4
    then after_f4
    else stuck

unfoldable pub next_state : Utf8State → ℕ → Utf8State
next_state start b = first_byte b
next_state one_more b = range 0x80 0xBF b start
next_state two_more b = range 0x80 0xBF b one_more
next_state three_more b = range 0x80 0xBF b two_more
next_state after_e0 b = range 0xA0 0xBF b one_more
next_state after_ed b = range 0x80 0x9F b one_more
next_state after_f0 b = range 0x90 0xBF b two_more
next_state after_f4 b = range 0x80 0x8F b two_more
next_state stuck b = stuck

unfoldable pub at_start : Utf8State → Bool
at_start start = true
at_start _ = false

unfoldable pub run : Utf8State → Bytes → Utf8State
run s [] = s
run s (b ∷ bs) = run (next_state s b) bs

unfoldable pub valid_string : Bytes → Bool
valid_string s = at_start (run start s)
