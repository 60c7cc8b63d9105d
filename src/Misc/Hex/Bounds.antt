-- ===== src/Misc/Hex/Bounds.antt =====
-- `hexmem` never writes past its buffer.
use propd.Prelude.{
  ℕ, zero, suc, ◌+◌, ◌-◌, ◌*◌, ◌/◌, ◌<◌, ◌≡◌, refl, Text, Bool, List, [], ◌∷◌, ◌++◌, ok, length,
  take, drop, replicate, length-append, leb, ltb, leb→le, leb-false, ltb-false, arith, Bool-cases,
  inl, inr,
}
use Prim.Native.Nat.{min}
use propd.Misc.Hex.{hex_digits, hexmem, dot}

length-hex_digits : (upper : Bool) (ms : List ℕ) → length (hex_digits upper ms) ≡ 2 * length ms
unfolding hex_digits
length-hex_digits upper [] = refl
length-hex_digits upper (m ∷ ms) = omega (arith, length-hex_digits upper ms)

length-take : (n : ℕ) (xs : List ℕ) → length (take n xs) ≡ min n (length xs)
length-take zero xs = omega arith
length-take (suc n) [] = omega arith
length-take (suc n) (x ∷ xs) = omega (arith, length-take n xs)

length-drop : (n : ℕ) (xs : List ℕ) → length (drop n xs) ≡ length xs - n
length-drop zero xs = omega arith
length-drop (suc n) [] = omega arith
length-drop (suc n) (x ∷ xs) = omega (arith, length-drop n xs)

length-replicate : (n a : ℕ) → length (replicate n a) ≡ n
length-replicate zero a = refl
length-replicate (suc n) a = omega (arith, length-replicate n a)

module _ (upper : Bool) (memory : List ℕ) (i j : ℕ) where
  abbrev ends : Text
  ends = hex_digits upper (take i memory) ++ (dot ∷ dot ∷ hex_digits upper (drop j memory))

  length-ends : length ends ≡ 2 * min i (length memory) + (2 + 2 * (length memory - j))
  length-ends = omega (
    arith,
    length-append (hex_digits upper (take i memory)) (dot ∷ dot ∷ hex_digits upper (drop j memory)),
    length-hex_digits upper (take i memory),
    length-hex_digits upper (drop j memory),
    length-take i memory,
    length-drop j memory,
  )

-- For a buffer of `b` bytes, `b` not 0, `hexmem` writes a text of fewer than `b` bytes (so that its
-- NUL fits too), in each of its three forms: whole, dots alone, or two ends with dots between.
pub hexmem-Fits :
    (b : ℕ) (memory : List ℕ) (upper : Bool)
    → 0 < b
    → (text : Text) × (hexmem b memory upper ≡ ok text) × (length text < b)
unfolding hexmem
hexmem-Fits zero memory upper h = absurd (omega arith)
hexmem-Fits (suc b) [] upper h = ([], refl, omega arith)
hexmem-Fits (suc b) (x ∷ xs) upper h = elim (Bool-cases (leb m c)) [
  | inl whole ↦ (
    hex_digits upper memory,
    rw whole,
    omega (arith, length-hex_digits upper memory, leb→le m c whole),
  )
  | inr long ↦ elim (Bool-cases (ltb c 3)) [
    | inl short ↦ (replicate b dot, rw (long, short), omega (arith, length-replicate b dot))
    | inr room ↦ (
      ends upper memory ((m - d) / 2) ((m + d) / 2),
      rw (long, room),
      omega (
        arith,
        length-ends upper memory ((m - d) / 2) ((m + d) / 2),
        leb-false m c long,
        ltb-false c 3 room,
      ),
    )
  ]
]
  where
    memory : List ℕ
    memory = x ∷ xs

    m : ℕ
    m = length memory

    c : ℕ
    c = b / 2

    d : ℕ
    d = m - c + 1
