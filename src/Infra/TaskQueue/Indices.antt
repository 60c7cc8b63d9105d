-- ===== src/Infra/TaskQueue/Indices.antt =====
-- The ring as a list: the cells at growing distances from the head, each index taken round the ring.
use propd.Prelude.{
  ℕ, zero, suc, ◌+◌, ◌-◌, ◌%◌, ◌<◌, ◌≤◌, ◌≡◌, ◌≢◌, refl, ap, ap₂, sym, ◌∙◌, List, [], ◌∷◌, ◌++◌,
  length, get_or, set, arith, ltb, if◌then◌else◌, Bool-cases, inl, inr, ltb→lt, ltb-false,
}
use native.Mathlib.Nat.{mod-eq_of_lt, mod-eq-sub-mod}

-- The index at distance `j` from the head, without a division.
abbrev pub around : ℕ → ℕ → ℕ → ℕ
around num h j = if ltb (h + j) num then h + j else h + j - num

round-inside : (num h j : ℕ) → h + j < num → (h + j) % num ≡ around num h j
round-inside num h j lt = ground (arith, mod-eq_of_lt lt)

round-past : (num h j : ℕ) → h < num → j < num → num ≤ h + j → (h + j) % num ≡ around num h j
round-past num h j hh hj ge = ground (
  arith,
  mod-eq-sub-mod {n = h + j} {m = num} ge,
  mod-eq_of_lt {n = h + j - num} {m = num} (omega arith),
)

pub mod-around : (num h j : ℕ) → h < num → j < num → (h + j) % num ≡ around num h j
mod-around num h j hh hj = elim (Bool-cases (ltb (h + j) num)) [
  | inl e ↦ round-inside num h j (ltb→lt (h + j) num e)
  | inr e ↦ round-past num h j hh hj (ltb-false (h + j) num e)
]

-- Two distances below the size of the ring are two cells.
apart : (num h j n : ℕ) → h < num → j < n → n < num → around num h n ≢ around num h j
apart num h j n hh hj hn e = ground arith

suc-minus : (n : ℕ) → suc n - 1 ≡ n
suc-minus n = omega arith

module _ {ℓ} {A : Type ℓ} (d : A) where
  -- What `n` cells hold from distance `j` on.
  abbrev pub cells : List A → ℕ → ℕ → ℕ → ℕ → List A
  cells xs num h j zero = []
  cells xs num h j (suc n) = get_or xs (around num h j) d ∷ cells xs num h (suc j) n

  pub length-cells : (xs : List A) (num h j n : ℕ) → length (cells xs num h j n) ≡ n
  length-cells xs num h j zero = refl
  length-cells xs num h j (suc n) = ap suc (length-cells xs num h (suc j) n)

  written : (xs : List A) (i : ℕ) (v : A) → i < length xs → get_or (set xs i v) i d ≡ v
  written [] i v h = absurd (omega arith)
  written (x ∷ xs) zero v h = refl
  written (x ∷ xs) (suc i) v h = written xs i v (omega arith)

  untouched : (xs : List A) (i j : ℕ) (v : A) → i ≢ j → get_or (set xs i v) j d ≡ get_or xs j d
  untouched [] i j v h = refl
  untouched (x ∷ xs) zero zero v h = absurd (h refl)
  untouched (x ∷ xs) zero (suc j) v h = refl
  untouched (x ∷ xs) (suc i) zero v h = refl
  untouched (x ∷ xs) (suc i) (suc j) v h = untouched xs i j v (λ e. h (ap suc e))

  in_ring : (num h j : ℕ) → h < num → j < num → around num h j < num
  in_ring num h j hh hj = ground arith

  -- Writing the cell just past the ones in use adds its content at the end.
  pub cells-set :
      (xs : List A) (num h j n k : ℕ) (v : A)
      → num ≤ length xs
      → h < num
      → k < num
      → j + n ≡ k
      → cells (set xs (around num h k) v) num h j (suc n) ≡ cells xs num h j n ++ (v ∷ [])
  cells-set xs num h j zero k v hs hh hk e =
      ap (◌∷ []) (rw (here) (written xs (around num h j) v inside))
    where
      here : k ≡ j
      here = omega arith

      inside : around num h j < length xs
      inside = omega (arith, in_ring num h j hh (omega arith))
  cells-set xs num h j (suc n) k v hs hh hk e =
      ap₂ ◌∷◌
        (untouched xs (around num h k) (around num h j) v (apart num h j k hh (omega arith) hk))
        (cells-set xs num h (suc j) n k v hs hh hk (omega arith))

  around_twice :
      (num h j : ℕ) → h < num → suc j < num → around num (around num h 1) j ≡ around num h (suc j)
  around_twice num h j hh hj = ground arith

  -- Without its first cell the ring starts one further.
  pub cells-next :
      (xs : List A) (num h j n : ℕ)
      → h < num
      → j + n < num
      → cells xs num h (suc j) n ≡ cells xs num (around num h 1) j n
  cells-next xs num h j zero hh hn = refl
  cells-next xs num h j (suc n) hh hn =
      ap₂ ◌∷◌ (ap (λ i. get_or xs i d) (sym (around_twice num h j hh (omega arith))))
        (cells-next xs num h (suc j) n hh (omega arith))

  around_zero : (num h : ℕ) → h < num → around num h 0 ≡ h
  around_zero num h hh = ground arith

  rest_of_cells :
      (xs : List A) (num h n : ℕ)
      → h < num
      → n < num
      → cells xs num h 1 n ≡ cells xs num ((h + 1) % num) 0 n
  rest_of_cells xs num h zero hh hn = refl
  rest_of_cells xs num h (suc n) hh hn =
      cells-next xs num h 0 (suc n) hh (omega arith)
      ∙ ap (λ i. cells xs num i 0 (suc n)) (sym (mod-around num h 1 hh (omega arith)))

  -- The oldest cell, and the cells from the next head on.
  pub cells-front :
      (xs : List A) (num h n : ℕ)
      → h < num
      → n ≤ num
      → n ≢ 0
      → cells xs num h 0 n ≡ get_or xs h d ∷ cells xs num ((h + 1) % num) 0 (n - 1)
  cells-front xs num h zero hh hn full = absurd (full refl)
  cells-front xs num h (suc n) hh hn full =
      rw (around_zero num h hh, suc-minus n)
        (ap (get_or xs h d ∷◌) (rest_of_cells xs num h n hh (omega arith)))
