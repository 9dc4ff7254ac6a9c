-- ===== src/Canvas/Colors.antt =====
-- The colours of web/src/pixi/renderBoard.ts. A text is the list of its code units, and a colour the
-- number that `cssColorToPixi` returns, where `none` is `NaN`. `toLowerCase` is that of the ASCII
-- letters.
use dot_and_boxes.Prelude.{
  ℕ, zero, suc, ◌+◌, ◌-◌, ◌*◌, ◌/◌, ◌%◌, ◌≤◌, ◌<◌, Bool, ◌&&◌, ◌||◌, Option, none, some, [], ◌∷◌,
  arith, leb, ◌==◌, if◌then◌else◌, map, length,
}
use dot_and_boxes.Prelude.Int.{ℤ, pos, negsuc}
use dot_and_boxes.Prelude.Text.{text_eq, Text, codes, trim, trim_start}

abbrev pub Color : Type 0
Color = Option ℤ

abbrev pub to_lower : ℕ → ℕ
to_lower c = if leb 65 c && leb c 90 then c + 32 else c

-- `s.trim().toLowerCase()`
unfoldable pub token : Text → Text
token s = map to_lower (trim s)

-- The value of a hexadecimal digit.
abbrev pub hex_digit : ℕ → Option ℕ
hex_digit c =
    if leb 48 c && leb c 57
    then some (c - 48)
    else if leb 97 c && leb c 102
    then some (c - 87)
    else if leb 65 c && leb c 70
    then some (c - 55)
    else none

-- The digits up to the first other character, after at least one of them.
abbrev pub hex_from : ℕ → Text → ℕ
hex_from acc [] = acc
hex_from acc (c ∷ s) = elim (hex_digit c) [ none ↦ acc | some d ↦ hex_from (acc * 16 + d) s ]

abbrev pub hex_number : Text → Option ℕ
hex_number [] = none
hex_number (c ∷ s) = elim (hex_digit c) [ none ↦ none | some d ↦ some (hex_from d s) ]

abbrev pub is_x : ℕ → Bool
is_x c = c == 120 || c == 88

-- A prefix `0x` is passed over.
abbrev pub drop_prefix : Text → Text
drop_prefix [] = []
drop_prefix (c ∷ []) = c ∷ []
drop_prefix (c ∷ d ∷ s) = if c == 48 && is_x d then s else c ∷ d ∷ s

abbrev pub negative : ℕ → ℤ
negative zero = pos 0
negative (suc n) = negsuc n

-- A sign in front of the digits.
abbrev pub signed : Text → Color
signed [] = none
signed (c ∷ s) =
    if c == 45
    then elim (hex_number (drop_prefix s)) [ none ↦ none | some n ↦ some (negative n) ]
    else elim (hex_number (drop_prefix (if c == 43 then s else c ∷ s))) [
      | none ↦ none
      | some n ↦ some (pos n)
    ]

-- `parseInt(s, 16)`
unfoldable pub parse_hex : Text → Color
parse_hex s = signed (trim_start s)

unfoldable pub pastel_named_color : Text → Color
pastel_named_color name =
    if text_eq name (codes "red")
    then some (pos 0xf2a4a4)
    else if text_eq name (codes "blue")
    then some (pos 0xa8d4f0)
    else if text_eq name (codes "green")
    then some (pos 0xb8e6c8)
    else if text_eq name (codes "purple")
    then some (pos 0xd4c4f5)
    else if text_eq name (codes "orange")
    then some (pos 0xffd4a8)
    else if text_eq name (codes "pink")
    then some (pos 0xffc8dd)
    else some (pos 0xd6d3d1)

abbrev pub double_each : Text → Text
double_each [] = []
double_each (c ∷ s) = c ∷ c ∷ double_each s

abbrev pub is_gray : Text → Bool
is_gray s = text_eq s (codes "gray") || text_eq s (codes "grey")

-- The colour of a text that begins with `#`, and of one that does not.
abbrev pub color_of_token : Text → Color
color_of_token [] = pastel_named_color []
color_of_token (c ∷ h) =
    if c == 35
    then parse_hex (if length h == 3 then double_each h else h)
    else pastel_named_color (c ∷ h)

unfoldable pub css_color_to_pixi : Text → Color
unfolding parse_hex pastel_named_color token
css_color_to_pixi css =
    let s = token css in if is_gray s then some (pos 0xe5e7eb) else color_of_token s

abbrev pub neutral_active : Color
neutral_active = some (pos 0xe5e7eb)

unfoldable pub stroke_for_active_edge : Text → Color
unfolding css_color_to_pixi token
stroke_for_active_edge user_color =
    if is_gray (token user_color) then neutral_active else css_color_to_pixi user_color

-- The 32 bits that `>>` and `&` work on.
abbrev pub to_uint32 : Color → ℕ
to_uint32 none = 0
to_uint32 (some (pos n)) = n % 4294967296
to_uint32 (some (negsuc n)) = 4294967295 - n % 4294967296

abbrev pub red : ℕ → ℕ
red n = n / 65536 % 256

abbrev pub green : ℕ → ℕ
green n = n / 256 % 256

abbrev pub blue : ℕ → ℕ
blue n = n % 256

-- `darkenFill(hex, percent / 100)`
unfoldable pub darken_fill : Color → ℕ → ℕ
darken_fill hex percent =
    let bits = to_uint32 hex in
    let dark : ℕ → ℕ = λ channel. channel * (100 - percent) / 100 in
    dark (red bits) * 65536 + dark (green bits) * 256 + dark (blue bits)

channel_of :
    (r g b x y z : ℕ)
    → r ≤ x
    → g ≤ y
    → b ≤ z
    → x < 256
    → y < 256
    → z < 256
    → let d = r * 65536 + g * 256 + b in (red d ≤ x) × (green d ≤ y) × (blue d ≤ z) × (d < 16777216)
channel_of r g b x y z hx hy hz kx ky kz = (omega arith, omega arith, omega arith, omega arith)

darker : (c percent : ℕ) → c * (100 - percent) / 100 ≤ c
darker c percent = dark_le c (100 - percent) (omega arith)
  where
    dark_le : (c k : ℕ) → k ≤ 100 → c * k / 100 ≤ c
    dark_le c k h = let m : c * k ≤ c * 100 = mul_le c k h in omega (arith, m)
      where
        mul_le : (c k : ℕ) → k ≤ 100 → c * k ≤ c * 100
        mul_le zero k h = omega arith
        mul_le (suc c) k h = let r = mul_le c k h in omega (arith, r)

-- For any colour, a number or `NaN`, and any percentage, `darkenFill` returns a colour of 24 bits
-- whose red, green and blue are each at most those of the colour given.
pub darken_fill_bounds :
    (hex : Color) (percent : ℕ)
    → (red (darken_fill hex percent) ≤ red (to_uint32 hex))
      × (green (darken_fill hex percent) ≤ green (to_uint32 hex))
      × (blue (darken_fill hex percent) ≤ blue (to_uint32 hex))
      × (darken_fill hex percent < 16777216)
unfolding darken_fill
darken_fill_bounds hex percent =
    let bits = to_uint32 hex in
    channel_of _ _ _ (red bits) (green bits) (blue bits) (darker (red bits) percent)
      (darker (green bits) percent) (darker (blue bits) percent) (omega arith) (omega arith)
      (omega arith)
