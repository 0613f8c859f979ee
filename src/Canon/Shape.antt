-- ===== src/Canon/Shape.antt =====
-- internal/canon/descriptor.go: the type tags, a column, and a recorded schema shape.
use icelake.Prelude.{ℕ, ◌-◌, ◌^◌, ℤ, pos, ◌≡◌, refl, Bool, true, false, Option, none, some, List}
use icelake.Prelude.{arith, ◌==◌, if◌then◌else◌}
use icelake.Errdef.{Bytes}

-- `Kind` is a uint8 with nine named values. `unknown t` stands for any other tag `t`.
pub data Kind : Type 0 where
  boolean int long float double decimal timestamp_tz string binary : Kind
  unknown : ℕ → Kind

-- `byte(k)`, and `Kind(tag)`.
unfoldable pub tag : Kind → ℕ
tag boolean = 0x01
tag int = 0x02
tag long = 0x03
tag float = 0x04
tag double = 0x05
tag decimal = 0x06
tag timestamp_tz = 0x07
tag string = 0x08
tag binary = 0x09
tag (unknown t) = t

unfoldable pub of_tag : ℕ → Kind
of_tag t =
    if t == 0x01
    then boolean
    else if t == 0x02
    then int
    else if t == 0x03
    then long
    else if t == 0x04
    then float
    else if t == 0x05
    then double
    else if t == 0x06
    then decimal
    else if t == 0x07
    then timestamp_tz
    else if t == 0x08
    then string
    else if t == 0x09
    then binary
    else unknown t

-- `f.Kind == KindDecimal`.
unfoldable pub is_decimal : Kind → Bool
is_decimal decimal = true
is_decimal _ = false

unfoldable pub known_kind : Kind → Option Kind
known_kind (unknown t) = none
known_kind k = some k

-- The number of value bytes, and none for the two length-prefixed kinds.
unfoldable pub fixed_width : Kind → Option ℕ
fixed_width boolean = some 1
fixed_width int = some 4
fixed_width float = some 4
fixed_width long = some 8
fixed_width double = some 8
fixed_width decimal = some 8
fixed_width timestamp_tz = some 8
fixed_width _ = none

pub record Field : Type 0 where
  pub id : ℤ
  pub name : Bytes
  pub kind : Kind
  pub precision : ℤ
  pub scale : ℤ
  pub required : Bool

pub record Descriptor : Type 0 where
  pub fields : List Field
  pub encoded : Bytes
  pub fp : Bytes

abbrev pub max_decimal_precision : ℤ
max_decimal_precision = pos 18

abbrev pub descriptor_version : ℕ
descriptor_version = 0x01

abbrev pub encoding_version : ℕ
encoding_version = 0x01

-- math.MaxUint32 and math.MaxInt32.
abbrev pub max_value_bytes : ℕ
max_value_bytes = 2 ^ 32 - 1

abbrev pub max_int32 : ℕ
max_int32 = 2 ^ 31 - 1

abbrev pub IsKnown : Kind → Type 0
IsKnown k = known_kind k ≡ some k

pub of_tag-tag : (k : Kind) → IsKnown k → of_tag (tag k) ≡ k
unfolding of_tag tag known_kind
of_tag-tag (unknown t) h = cc
of_tag-tag boolean h = refl
of_tag-tag _ h = refl

pub tag-of_tag : (t : ℕ) → tag (of_tag t) ≡ t
unfolding of_tag tag
tag-of_tag t = ground arith
