-- ===== src/Misc/Array.antt =====
-- The arrays of C strings of lib/misc.c. A cell is a pointer, `none` for NULL; a read past the end
-- of the array is a fault.
pub mod RoundTrip
use propd.Prelude.{
  ℕ, zero, suc, ◌+◌, ◌-◌, ◌≡◌, refl, Text, Bool, true, false, List, [], ◌∷◌, ◌++◌, Option, none,
  some, Reply, ok, err, fault, enomem, length, take, leb, ◌==◌, if◌then◌else◌, map,
}

abbrev pub comma : ℕ
comma = b','

abbrev pub dot : ℕ
dot = b'.'

-- `while (array[num]) num++`
unfoldable pub count_cells : List (Option Text) → Reply ℕ
count_cells [] = fault
count_cells (none ∷ cells) = ok 0
count_cells (some t ∷ cells) = elim (count_cells cells) [
  | ok n ↦ ok (suc n)
  | err e ↦ err e
  | fault ↦ fault
]

-- The copying loop; `strdup` of a NULL pointer is a fault.
unfoldable pub dup_first : ℕ → List (Option Text) → Reply (List Text)
dup_first zero cells = ok []
dup_first (suc n) [] = fault
dup_first (suc n) (none ∷ cells) = fault
dup_first (suc n) (some t ∷ cells) = elim (dup_first n cells) [
  | ok ts ↦ ok (t ∷ ts)
  | err e ↦ err e
  | fault ↦ fault
]

dup_counted : Reply ℕ → List (Option Text) → Reply (List Text)
unfolding dup_first
dup_counted (ok n) cells = dup_first n cells
dup_counted (err e) cells = err e
dup_counted fault cells = fault

-- The texts of the result; the NULL that ends it is not listed. The Boolean grants the memory.
unfoldable pub arraydup_cstring : Bool → Option (List (Option Text)) → ℕ → Reply (List Text)
unfolding dup_counted count_cells
arraydup_cstring false array num = err enomem
arraydup_cstring true none num = ok []
arraydup_cstring true (some cells) zero = dup_counted (count_cells cells) cells
arraydup_cstring true (some cells) (suc n) = dup_first (suc n) cells

-- The first loop of `arrayparse_cstring`: the commas.
unfoldable pub commas : Text → ℕ
commas [] = 0
commas (c ∷ s) = if c == comma then suc (commas s) else commas s

-- `if (w2 != _s) num++`
unfoldable pub count_fields : Text → ℕ
unfolding commas
count_fields [] = 0
count_fields (c ∷ s) = commas (c ∷ s) + 1

onto_first : ℕ → List Text → List Text
onto_first c [] = (c ∷ []) ∷ []
onto_first c (w ∷ ws) = (c ∷ w) ∷ ws

-- The second loop: each comma becomes a NUL, and the pieces between are the fields.
unfoldable pub cut : Text → List Text
unfolding onto_first
cut [] = [] ∷ []
cut (c ∷ s) = if c == comma then [] ∷ cut s else onto_first c (cut s)

unfoldable pub fields : Text → List Text
unfolding cut
fields [] = []
fields (c ∷ s) = cut (c ∷ s)

unfoldable pub with_number : Reply (List Text) → ℕ → Reply (List Text × ℕ)
with_number (ok ts) n = ok (ts, n)
with_number (err e) n = err e
with_number fault n = fault

-- The array has `count_fields` cells, filled from the front, and `arraydup_cstring` copies it. The
-- second part of the result is `*_num`.
unfoldable pub arrayparse_cstring : Bool → Text → Reply (List Text × ℕ)
unfolding with_number
arrayparse_cstring granted s =
    with_number (arraydup_cstring granted (some (map some (fields s))) (count_fields s))
      (count_fields s)

drop_last : Text → Text
drop_last [] = []
drop_last (c ∷ []) = []
drop_last (c ∷ d ∷ s) = c ∷ drop_last (d ∷ s)

-- `buffer[pos - 1] = '\0'` takes the last comma away, and is a write before the buffer if nothing
-- was printed.
finish : Text → Reply Text
unfolding drop_last
finish [] = fault
finish (c ∷ s) = ok (drop_last (c ∷ s))

-- The loop of `arrayfmt_cstring` over a buffer of `len` bytes, with what it holds so far. Where the
-- next text does not fit, the last three characters become dots.
unfoldable pub fmt_loop : ℕ → Text → List Text → Reply Text
unfolding finish
fmt_loop len out [] = finish out
fmt_loop len out (t ∷ ts) =
    let printed = out ++ (t ++ (comma ∷ [])) in
    let rest = fmt_loop len printed ts in
    if leb len (length printed) then ok (take (len - 4) printed ++ (dot ∷ dot ∷ dot ∷ [])) else rest

unfoldable pub arrayfmt_cstring : ℕ → List Text → Reply Text
unfolding fmt_loop
arrayfmt_cstring len array = if leb len 3 then fault else fmt_loop len [] array
