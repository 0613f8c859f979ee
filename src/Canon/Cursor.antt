-- ===== src/Canon/Cursor.antt =====
-- internal/canon/descriptor.go: `cursor`, the bounds-checked reader over a byte slice. A failed
-- read leaves the cursor where it was, and every caller refuses at once: `none` has no cursor.
pub mod Reads
use icelake.Prelude.{ℕ, ◌+◌, ◌-◌, Option, none, some, length, get_elem?, take, drop}
use icelake.Prelude.{ltb, if◌then◌else◌, uint32_of}
use icelake.Errdef.{Bytes}
use mathlib.Core.Option

pub record Cursor : Type 0 where
  pub buf : Bytes
  pub at : ℕ

abbrev pub cursor : Bytes → Cursor
cursor b = record { buf = b; at = 0 }

unfoldable pub advance : Cursor → ℕ → Cursor
advance c n = record c { at = c.at + n }

unfoldable pub remaining : Cursor → ℕ
remaining c = length c.buf - c.at

unfoldable pub byte_at : Cursor → Option (ℕ × Cursor)
byte_at c =
    if ltb (remaining c) 1 then none else Option.map (λ b. (b, advance c 1)) (get_elem? c.buf c.at)

unfoldable pub bytes : Cursor → ℕ → Option (Bytes × Cursor)
bytes c n = if ltb (remaining c) n then none else some (take n (drop c.at c.buf), advance c n)

unfoldable pub uint32 : Cursor → Option (ℕ × Cursor)
uint32 c = Option.map (λ b. (uint32_of b.0, b.1)) (bytes c 4)
