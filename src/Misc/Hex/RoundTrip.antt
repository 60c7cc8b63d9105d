-- ===== src/Misc/Hex/RoundTrip.antt =====
-- `hex2mem` reads back what `hexmem` writes of a memory that fits its buffer.
use propd.Prelude.{
  ℕ, zero, suc, ◌-◌, ◌*◌, ◌/◌, ◌%◌, ◌≤◌, ◌<◌, ◌≡◌, ◌≢◌, refl, Text, Bool, true, List, [], ◌∷◌, All,
  some, ok, length, arith, Option-cases, inl, inr,
}
use propd.Misc.Hex.{
  dec2hexchar, hexchar2dec, ishexchar, hex_digits, hexmem, hex_loop, skip_0x, hex2mem, pair_byte,
}

ishexchar-dec2hexchar : (d : ℕ) (upper : Bool) → d < 16 → ishexchar (dec2hexchar d upper) ≡ true
unfolding ishexchar dec2hexchar
ishexchar-dec2hexchar d upper h = ground arith

hexchar2dec-dec2hexchar : (d : ℕ) (upper : Bool) → d < 16 → hexchar2dec (dec2hexchar d upper) ≡ d
unfolding hexchar2dec dec2hexchar
hexchar2dec-dec2hexchar d upper h = ground arith

dec2hexchar_no_x :
    (d : ℕ) (upper : Bool) → d < 16 → (dec2hexchar d upper ≢ b'x') × (dec2hexchar d upper ≢ b'X')
unfolding dec2hexchar
dec2hexchar_no_x d upper h = ground arith

pair_byte-digits :
    (m : ℕ) (upper : Bool)
    → m < 256
    → pair_byte (dec2hexchar (m / 16) upper) (dec2hexchar (m % 16) upper) ≡ m
pair_byte-digits m upper h =
    rw
      (
        hexchar2dec-dec2hexchar (m / 16) upper (omega arith),
        hexchar2dec-dec2hexchar (m % 16) upper (omega arith),
      )
      (omega arith)

hex_loop-hex_digits :
    (room : ℕ) (ms : List ℕ) (upper : Bool)
    → All (λ m. m < 256) ms
    → length ms ≤ room
    → hex_loop room (hex_digits upper ms) ≡ some ms
unfolding hex_loop hex_digits
hex_loop-hex_digits room [] upper h fits = refl
hex_loop-hex_digits room (m ∷ ms) upper h fits =
    rw
      (
        ishexchar-dec2hexchar (m / 16) upper (omega arith),
        ishexchar-dec2hexchar (m % 16) upper (omega arith),
        hex_loop-hex_digits (room - 1) ms upper h.1 (omega arith),
        pair_byte-digits m upper h.0,
      )
      (ground arith)

skip_0x-hex_digits :
    (ms : List ℕ) (upper : Bool)
    → All (λ m. m < 256) ms
    → skip_0x (hex_digits upper ms) ≡ hex_digits upper ms
unfolding skip_0x hex_digits
skip_0x-hex_digits [] upper h = refl
skip_0x-hex_digits (m ∷ ms) upper h = ground (arith, dec2hexchar_no_x (m % 16) upper)

hexmem-whole :
    (b : ℕ) (memory : List ℕ) (upper : Bool)
    → 2 * length memory < b
    → hexmem b memory upper ≡ ok (hex_digits upper memory)
unfolding hexmem hex_digits
hexmem-whole zero memory upper h = absurd (omega arith)
hexmem-whole (suc b) [] upper h = refl
hexmem-whole (suc b) (x ∷ xs) upper h = ground arith

-- For a memory of bytes and a buffer with room for two digits each and the NUL, `hexmem` writes a
-- text that `hex2mem` reads back as the same bytes, given room for them; with 0x before it too.
pub hex2mem-hexmem :
    (b room : ℕ) (memory : List ℕ) (upper : Bool)
    → All (λ m. m < 256) memory
    → 2 * length memory < b
    → length memory ≤ room
    → (text : Text) × (hexmem b memory upper ≡ ok text)
      × (hex2mem room text ≡ some memory)
      × (hex2mem room (b'0' ∷ b'x' ∷ text) ≡ some memory)
unfolding hex2mem
hex2mem-hexmem b room memory upper bytes fits enough = (
  hex_digits upper memory,
  hexmem-whole b memory upper fits,
  rw (skip_0x-hex_digits memory upper bytes) (hex_loop-hex_digits room memory upper bytes enough),
  hex_loop-hex_digits room memory upper bytes enough,
)

length-hex_loop :
    (room : ℕ) (text : Text) (ms : List ℕ) → hex_loop room text ≡ some ms → length ms ≤ room
unfolding hex_loop
length-hex_loop room [] ms e = ground arith
length-hex_loop room (a ∷ []) ms e = ground arith
length-hex_loop room (a ∷ b ∷ s) ms e = elim (Option-cases (hex_loop (room - 1) s)) [
  | inl stop ↦ ground arith
  | inr (rest, go) ↦ ground (arith, length-hex_loop (room - 1) s rest go)
]

-- `hex2mem` writes no more bytes than `*len` allows, whatever the text.
pub length-hex2mem :
    (room : ℕ) (text : Text) (ms : List ℕ) → hex2mem room text ≡ some ms → length ms ≤ room
unfolding hex2mem
length-hex2mem room text ms e = length-hex_loop room (skip_0x text) ms e
