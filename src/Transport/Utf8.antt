-- ===== src/Transport/Utf8.antt =====
-- `String::from_utf8` of the standard library, for crates/transport/src/server.rs: the well-formed
-- byte sequences, read by a machine that knows how many bytes a character still needs.
use publisher.Base.{
  ℕ, ◌+◌, ◌-◌, ◌*◌, ◌<◌, ◌≡◌, refl, Bool, ◌&&◌, Option, none, some, [], ◌∷◌, arith,
}
use publisher.Base.Tests.{ltb, leb, if◌then◌else◌}
use publisher.Base.Lists.{All}
use publisher.Spec.Primitives.{Bytes, Text}

-- Between characters, or inside one: the bytes it needs, the range of the next one, and the bits so
-- far. The range keeps out overlong forms, surrogates and what is above U+10FFFF.
pub data Reading : Type 0 where
  between : Reading
  inside : ℕ → ℕ → ℕ → ℕ → Reading
  malformed : Reading

abbrev within : ℕ → ℕ → ℕ → Bool
within low high b = leb low b && leb b high

-- After the first byte of a character.
unfoldable first_byte : ℕ → Reading
first_byte b =
    if within 0xC2 0xDF b
    then inside 1 0x80 0xBF (b - 0xC0)
    else if within 0xE0 0xE0 b
    then inside 2 0xA0 0xBF 0
    else if within 0xED 0xED b
    then inside 2 0x80 0x9F 13
    else if within 0xE1 0xEF b
    then inside 2 0x80 0xBF (b - 0xE0)
    else if within 0xF0 0xF0 b
    then inside 3 0x90 0xBF 0
    else if within 0xF1 0xF3 b
    then inside 3 0x80 0xBF (b - 0xF0)
    else if within 0xF4 0xF4 b
    then inside 3 0x80 0x8F 4
    else malformed

-- The state after a byte, and the character that the byte ends.
unfoldable next_byte : Reading → ℕ → Reading × Option ℕ
unfolding first_byte
next_byte between b = if ltb b 0x80 then (between, some b) else (first_byte b, none)
next_byte (inside needed low high bits) b =
    let bits' = bits * 64 + (b - 0x80) in
    if within low high b
    then (if leb needed 1
        then (between, some bits')
        else (inside (needed - 1) 0x80 0xBF bits', none))
    else (malformed, none)
next_byte malformed b = (malformed, none)

abbrev put : Option ℕ → Option Text → Option Text
put c none = none
put none (some cs) = some cs
put (some c) (some cs) = some (c ∷ cs)

unfoldable read_from : Reading → Bytes → Option Text
unfolding next_byte
read_from between [] = some []
read_from (inside needed low high bits) [] = none
read_from malformed [] = none
read_from r (b ∷ bs) = let (r', c) = next_byte r b in put c (read_from r' bs)

unfoldable pub from_utf8 : Bytes → Option Text
unfolding read_from
from_utf8 = read_from between

-- ASCII stands for itself.
pub from_utf8_ascii : (s : Text) → All (λ c. c < 0x80) s → from_utf8 s ≡ some s
unfolding from_utf8
from_utf8_ascii [] h = refl
from_utf8_ascii (c ∷ cs) h = ground (arith, from_utf8_ascii cs h.1)

euro : from_utf8 (0xE2 ∷ 0x82 ∷ 0xAC ∷ b'!' ∷ []) ≡ some (0x20AC ∷ b'!' ∷ [])
unfolding from_utf8
euro = refl

overlong : from_utf8 (0xC0 ∷ 0x80 ∷ []) ≡ none
unfolding from_utf8
overlong = refl
