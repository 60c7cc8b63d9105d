-- ===== src/Misc/Random.antt =====
-- `random_alnum` of lib/misc.c, and the addresses that the clients make of it. The generator of the C
-- library, `rand_r`, is a parameter: from a seed, a number and the next seed.
use propd.Prelude.{
  ℕ, zero, suc, ◌+◌, ◌-◌, ◌%◌, ◌≡◌, ◌≤◌, ◌⊎◌, ap, refl, Text, [], ◌∷◌, ◌++◌, All, Option, none,
  some, leb, if◌then◌else◌, length, length-append, arith,
}

-- The seed: that of `getrandom`, or else one from the clock and the numbers of the process and the
-- thread.
unfoldable pub seed_of : Option ℕ → ℕ → ℕ
seed_of none other_seed = other_seed
seed_of (some s) other_seed = s

-- The character of an index below 62.
unfoldable pub alnum_of : ℕ → ℕ
alnum_of ci = if leb 52 ci then 48 + (ci - 52) else if leb 26 ci then 97 + (ci - 26) else 65 + ci

-- `random_alnum`, for so many characters.
unfoldable pub random_alnum : (ℕ → ℕ × ℕ) → ℕ → ℕ → Text
unfolding alnum_of
random_alnum rand_r seed zero = []
random_alnum rand_r seed (suc n) =
    let (r, next) = rand_r seed in alnum_of (r % 62) ∷ random_alnum rand_r next n

-- A digit, or a letter of either case.
abbrev pub IsAlnum : ℕ → Type 0
IsAlnum c = ((48 ≤ c) × (c ≤ 57)) ⊎ ((65 ≤ c) × (c ≤ 90)) ⊎ ((97 ≤ c) × (c ≤ 122))

-- The `sun_path` of a client: a NUL, which puts it into the abstract namespace, characters at random,
-- and an X.
unfoldable pub client_path : (ℕ → ℕ × ℕ) → ℕ → Text
unfolding random_alnum
client_path rand_r seed = 0 ∷ (random_alnum rand_r seed 106 ++ (88 ∷ []))

IsAlnum-alnum_of : (r : ℕ) → IsAlnum (alnum_of (r % 62))
unfolding alnum_of
IsAlnum-alnum_of r = ground arith

-- Whatever the generator, the characters are as many as were asked for, each a digit or a letter.
pub random_alnum-IsAlnum :
    (rand_r : ℕ → ℕ × ℕ) (seed n : ℕ)
    → All IsAlnum (random_alnum rand_r seed n) × (length (random_alnum rand_r seed n) ≡ n)
unfolding random_alnum
random_alnum-IsAlnum rand_r seed zero = (tt, refl)
random_alnum-IsAlnum rand_r seed (suc n) =
    let (alnum, count) = random_alnum-IsAlnum rand_r (rand_r seed).1 n in
    ((IsAlnum-alnum_of (rand_r seed).0, alnum), ap suc count)

-- The address of a client fills `sun_path`.
pub length-client_path : (rand_r : ℕ → ℕ × ℕ) (seed : ℕ) → length (client_path rand_r seed) ≡ 108
unfolding client_path
length-client_path rand_r seed = omega (
  arith,
  (random_alnum-IsAlnum rand_r seed 106).1,
  length-append (random_alnum rand_r seed 106) (88 ∷ []),
)
