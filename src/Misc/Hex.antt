-- ===== src/Misc/Hex.antt =====
-- The hexadecimal helpers of lib/misc.c. Bytes and characters are numbers; `uint8_t` arithmetic
-- wraps at 256.
pub mod Bounds
pub mod RoundTrip
use propd.Prelude.{
  ℕ, zero, suc, ◌+◌, ◌-◌, ◌*◌, ◌/◌, ◌%◌, ◌≡◌, refl, Text, Bool, true, false, ◌&&◌, ◌||◌, List, [],
  ◌∷◌, ◌++◌, Option, none, some, Reply, ok, fault, length, take, drop, replicate, ltb, leb, ◌==◌,
  if◌then◌else◌,
}

abbrev pub dot : ℕ
dot = b'.'

unfoldable pub dec2hexchar : ℕ → Bool → ℕ
dec2hexchar dec upper =
    if leb 10 dec then (dec - 10) + (if upper then b'A' else b'a') else dec + b'0'

unfoldable pub hexchar2dec : ℕ → ℕ
hexchar2dec c =
    if leb b'0' c && leb c b'9'
    then c - b'0'
    else if leb b'A' c && leb c b'F'
    then 10 + (c - b'A')
    else (10 + c + 256 - b'a') % 256

unfoldable pub ishexchar : ℕ → Bool
ishexchar c =
    (leb b'0' c && leb c b'9') || ((leb b'A' c && leb c b'F') || (leb b'a' c && leb c b'f'))

-- The body of the copying loops of `hexmem`.
unfoldable pub hex_digits : Bool → List ℕ → Text
hex_digits upper [] = []
hex_digits upper (m ∷ ms) =
    dec2hexchar (m / 16) upper ∷ dec2hexchar (m % 16) upper ∷ hex_digits upper ms

-- The text that stands in a buffer of `b` bytes afterwards; `b` is not 0. A NULL `memory` is the
-- empty list.
unfoldable pub hexmem : ℕ → List ℕ → Bool → Reply Text
hexmem zero memory upper = fault
hexmem (suc b) [] upper = ok []
hexmem (suc b) (x ∷ xs) upper =
    let memory = x ∷ xs in
    let m = length memory in
    let c = b / 2 in
    let d = m - c + 1 in
    if leb m c
    then ok (hex_digits upper memory)
    else if ltb c 3
    then ok (replicate b dot)
    else ok (
        hex_digits upper (take ((m - d) / 2) memory)
        ++ (dot ∷ dot ∷ hex_digits upper (drop ((m + d) / 2) memory)))

-- One pair of digits: the low half of the shifted digit is clear, so `|=` adds.
abbrev pub pair_byte : ℕ → ℕ → ℕ
pair_byte hi lo = (hexchar2dec hi * 16) % 256 + hexchar2dec lo

-- The loop of `hex2mem`, with the room that is left; the end of the list is the NUL.
unfoldable pub hex_loop : ℕ → Text → Option (List ℕ)
hex_loop room [] = some []
hex_loop room (a ∷ []) = if ishexchar a then none else some []
hex_loop room (a ∷ b ∷ s) =
    let rest = hex_loop (room - 1) s in
    if ishexchar a
    then (if room == 0
        then none
        else if ishexchar b
        then elim rest [ none ↦ none | some ms ↦ some (pair_byte a b ∷ ms) ]
        else none)
    else some []

-- The prefix 0x or 0X is skipped.
unfoldable pub skip_0x : Text → Text
skip_0x (a ∷ b ∷ s) = if a == b'0' && (b == b'x' || b == b'X') then s else a ∷ b ∷ s
skip_0x s = s

-- `none` is NULL; otherwise the bytes written, whose number goes to `*len`.
unfoldable pub hex2mem : ℕ → Text → Option (List ℕ)
unfolding hex_loop skip_0x
hex2mem len str = hex_loop len (skip_0x str)
