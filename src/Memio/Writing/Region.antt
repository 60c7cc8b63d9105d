-- ===== src/Memio/Writing/Region.antt =====
-- A piece of memory after `pos_write` of lib/memio/position.c, where it wrote and elsewhere.

use propd.Prelude.{
  ℕ, zero, suc, ◌+◌, ◌-◌, ◌≤◌, ◌<◌, ◌≡◌, ◌⊎◌, inl, inr, refl, sym, ap, ◌∙◌, false, List, [], ◌∷◌,
  ◌++◌, ok, length, take, drop, replicate, leb, arith, length-append, length-replicate, length-take,
  length-drop, drop_add, drop_zero,
}
use propd.Memio.{Pos, load, pos_read}
use propd.Memio.Writing.{store, pos_write}

take_of-take {ℓ} : {A : Type ℓ} (m n : ℕ) (xs : List A) → m ≤ n → take m (take n xs) ≡ take m xs
take_of-take zero n xs h = refl
take_of-take (suc m) zero xs h = absurd (omega arith)
take_of-take (suc m) (suc n) [] h = refl
take_of-take (suc m) (suc n) (x ∷ xs) h = ap (x ∷◌) (take_of-take m n xs (omega arith))

drop-append {ℓ} :
    {A : Type ℓ} (n : ℕ) (xs ys : List A)
    → length xs ≤ n
    → drop n (xs ++ ys) ≡ drop (n - length xs) ys
drop-append n [] ys h = ap (λ k. drop k ys) (omega arith)
drop-append zero (x ∷ xs) ys h = absurd (omega arith)
drop-append (suc n) (x ∷ xs) ys h =
    drop-append n xs ys (omega arith) ∙ ap (λ k. drop k ys) (omega arith)

take_within {ℓ} :
    {A : Type ℓ} (n : ℕ) (xs ys : List A) → n ≤ length xs → take n (xs ++ ys) ≡ take n xs
take_within zero xs ys h = refl
take_within (suc n) [] ys h = absurd (omega arith)
take_within (suc n) (x ∷ xs) ys h = ap (x ∷◌) (take_within n xs ys (omega arith))

drop_within {ℓ} :
    {A : Type ℓ} (n : ℕ) (xs ys : List A) → n ≤ length xs → drop n (xs ++ ys) ≡ drop n xs ++ ys
drop_within zero xs ys h = refl
drop_within (suc n) [] ys h = absurd (omega arith)
drop_within (suc n) (x ∷ xs) ys h = drop_within n xs ys (omega arith)

take_all {ℓ} : {A : Type ℓ} (xs ys : List A) → take (length xs) (xs ++ ys) ≡ xs
take_all [] ys = refl
take_all (x ∷ xs) ys = ap (x ∷◌) (take_all xs ys)

-- The memory that `store` makes inside its bounds.
abbrev stored : List ℕ → ℕ → List ℕ → List ℕ
stored memory offset bytes = take offset memory ++ (bytes ++ drop (offset + length bytes) memory)

take-drop-take {ℓ} :
    {A : Type ℓ} (n k m : ℕ) (xs : List A)
    → k + n ≤ m
    → take n (drop k (take m xs)) ≡ take n (drop k xs)
take-drop-take n zero m xs h = take_of-take n m xs (omega arith)
take-drop-take n (suc k) zero xs h = absurd (omega arith)
take-drop-take n (suc k) (suc m) [] h = refl
take-drop-take n (suc k) (suc m) (x ∷ xs) h = take-drop-take n k m xs (omega arith)

module _ (memory : List ℕ) (offset : ℕ) (bytes : List ℕ)
    (inside : offset + length bytes ≤ length memory) where
  length-stored : length (stored memory offset bytes) ≡ length memory
  length-stored = omega (
    arith,
    length-append (take offset memory) (bytes ++ drop (offset + length bytes) memory),
    length-append bytes (drop (offset + length bytes) memory),
    length-take offset memory (omega arith),
    length-drop (offset + length bytes) memory,
  )

  store_ok : store memory offset bytes ≡ ok (stored memory offset bytes)
  unfolding store
  store_ok = ground arith

  -- What was stored is loaded.
  load_same : load (stored memory offset bytes) offset (length bytes) ≡ ok bytes
  unfolding load
  load_same = rw whole (ground (arith, length-stored))
    where
      at : drop offset (stored memory offset bytes) ≡ bytes ++ drop (offset + length bytes) memory
      at =
          drop-append offset (take offset memory) _
            (omega (arith, length-take offset memory (omega arith)))
          ∙ drop_zero (offset - length (take offset memory)) _
              (omega (arith, length-take offset memory (omega arith)))

      whole : take (length bytes) (drop offset (stored memory offset bytes)) ≡ bytes
      whole = ap (take (length bytes)) at ∙ take_all bytes _

  load_cases :
      (a n : ℕ)
      → take n (drop a (stored memory offset bytes)) ≡ take n (drop a memory)
      → load (stored memory offset bytes) a n ≡ load memory a n
  unfolding load
  load_cases a n e = rw (e, length-stored) refl

  before_stored :
      (a n : ℕ)
      → a + n ≤ offset
      → take n (drop a (stored memory offset bytes)) ≡ take n (drop a memory)
  before_stored a n h =
      ap (take n) (drop_within a (take offset memory) _ (omega (arith, size)))
      ∙ take_within n (drop a (take offset memory)) _
          (omega (arith, size, length-drop a (take offset memory)))
      ∙ take-drop-take n a offset memory h
    where
      size : length (take offset memory) ≡ offset
      size = length-take offset memory (omega arith)

  after_stored :
      (a n : ℕ)
      → offset + length bytes ≤ a
      → take n (drop a (stored memory offset bytes)) ≡ take n (drop a memory)
  after_stored a n h = ap (take n) (
      drop-append a (take offset memory) _ (omega (arith, size))
      ∙ drop-append (a - length (take offset memory)) bytes _ (omega (arith, size))
      ∙ sym (drop_add (offset + length bytes) _ memory)
      ∙ ap (λ k. drop k memory) back)
    where
      size : length (take offset memory) ≡ offset
      size = length-take offset memory (omega arith)

      back : offset + length bytes + (a - length (take offset memory) - length bytes) ≡ a
      back = omega (arith, size)

  -- Elsewhere the memory is as it was.
  load_other :
      (a n : ℕ)
      → (a + n ≤ offset) ⊎ (offset + length bytes ≤ a)
      → load (stored memory offset bytes) a n ≡ load memory a n
  load_other a n (inl h) = load_cases a n (before_stored a n h)
  load_other a n (inr h) = load_cases a n (after_stored a n h)

read_load :
    (pos : Pos) (m m' unread : List ℕ)
    → load m pos.offset pos.length ≡ load m' pos.offset pos.length
    → pos_read pos m unread ≡ pos_read pos m' unread
unfolding pos_read
read_load pos m m' unread e = rw e refl

not_leb : (m n : ℕ) → n < m → leb m n ≡ false
not_leb m n h = ground arith

read_long :
    (pos : Pos) (m unread : List ℕ)
    → 4 < pos.length
    → pos_read pos m unread ≡ load m pos.offset pos.length
unfolding pos_read
read_long pos m unread h = rw (not_leb pos.length 4 h, pos_read) refl

-- The content of a place of more than four bytes, with the zeros behind it.
abbrev pub padded : Pos → List ℕ → List ℕ
padded pos content = content ++ replicate (pos.length - length content) 0

length-padded :
    (pos : Pos) (content : List ℕ)
    → length content ≤ pos.length
    → length (padded pos content) ≡ pos.length
length-padded pos content h = omega (
  arith,
  length-append content (replicate (pos.length - length content) 0),
  length-replicate {A = ℕ} (pos.length - length content) 0,
)

write_long :
    (pos : Pos) (memory content : List ℕ)
    → 4 < pos.length
    → length content ≤ pos.length
    → pos_write pos memory content ≡ store memory pos.offset (padded pos content)
unfolding pos_write
write_long pos memory content h fits = ground arith

-- A place of more than four bytes inside the memory takes a content that fits it, and gives it back
-- with zeros behind it; the memory keeps its size, and another place that does not overlap it reads as
-- before.
pub pos_read-pos_write :
    (pos elsewhere : Pos) (memory content unread : List ℕ)
    → 4 < pos.length
    → pos.offset + pos.length ≤ length memory
    → length content ≤ pos.length
    → (elsewhere.offset + elsewhere.length ≤ pos.offset)
      ⊎ (pos.offset + pos.length ≤ elsewhere.offset)
    → (memory' : List ℕ) × (pos_write pos memory content ≡ ok memory')
      × (pos_read pos memory' unread ≡ ok (padded pos content))
      × (length memory' ≡ length memory)
      × (pos_read elsewhere memory' unread ≡ pos_read elsewhere memory unread)
pos_read-pos_write pos elsewhere memory content unread long inside fits apart = (
  stored memory pos.offset bytes,
  write_long pos memory content long fits ∙ store_ok memory pos.offset bytes within,
  read_long pos _ unread long
      ∙ ap (load (stored memory pos.offset bytes) pos.offset) (sym size)
      ∙ load_same memory pos.offset bytes within,
  length-stored memory pos.offset bytes within,
  read_load elsewhere _ memory unread
      (load_other memory pos.offset bytes within elsewhere.offset elsewhere.length (rw size apart)),
)
  where
    bytes : List ℕ
    bytes = padded pos content

    size : length bytes ≡ pos.length
    size = length-padded pos content fits

    within : pos.offset + length bytes ≤ length memory
    within = omega (arith, size)
