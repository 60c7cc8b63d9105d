-- ===== src/Memio/Layout/Objects.antt =====
-- What `layout_parse` of lib/memio/layout.c makes of the objects, as `pos_search` finds it.
use propd.Prelude.{
  ℕ, zero, suc, ◌+◌, ◌≤◌, ◌<◌, ◌≡◌, refl, ap, ◌∙◌, Text, Bool, true, false, List, [], ◌∷◌, Option,
  none, some, Reply, ok, err, fault, length, get_elem?, arith, Option-cases, inl, inr,
}
use propd.Memio.{Pos, id_end, pos_search}
use propd.Memio.Layout.{
  JsonPos, parse_pos, parse_named, pos_of, word_of, mask_of, parse_all, layout_parse,
}
use propd.Memio.Layout.Keys.{with_pos_inverse, pos_search_numbered}

-- The place has the object's name, and its offset, length and mask as numbers; an object without a mask
-- gives 0.
abbrev pub Reads : JsonPos → Pos → Type 0
Reads j p =
    (j.name ≡ some (some p.name))
    × ((o : Option Text) × (j.offset ≡ some o) × (word_of o ≡ ok p.offset))
    × ((l : Option Text) × (j.length ≡ some l) × (word_of l ≡ ok p.length))
    × (mask_of j.mask ≡ ok p.mask)

pos_of_inverse :
    (key : ℕ) (name : Text) (a b c : Reply ℕ) (p : Pos)
    → pos_of key name a b c ≡ some p
    → (name ≡ p.name) × (a ≡ ok p.offset) × (b ≡ ok p.length) × (c ≡ ok p.mask)
unfolding pos_of
pos_of_inverse key name (ok a) (ok b) (ok c) p e = ground (arith, e)
pos_of_inverse key name (err a) b c p e = absurd (ground (arith, e))
pos_of_inverse key name fault b c p e = absurd (ground (arith, e))
pos_of_inverse key name (ok a) (err b) c p e = absurd (ground (arith, e))
pos_of_inverse key name (ok a) fault c p e = absurd (ground (arith, e))
pos_of_inverse key name (ok a) (ok b) (err c) p e = absurd (ground (arith, e))
pos_of_inverse key name (ok a) (ok b) fault p e = absurd (ground (arith, e))

parse_named_inverse :
    (granted : Bool) (key : ℕ) (j : JsonPos) (name o l : Option Text) (p : Pos)
    → parse_named granted key j name o l ≡ ok (some p)
    → (name ≡ some p.name)
      × (word_of o ≡ ok p.offset)
      × (word_of l ≡ ok p.length)
      × (mask_of j.mask ≡ ok p.mask)
unfolding parse_named
parse_named_inverse granted key j none o l p e = absurd (ground (arith, e))
parse_named_inverse false key j (some name) o l p e = absurd (ground (arith, e))
parse_named_inverse true key j (some name) o l p e =
    elim (Option-cases (pos_of key name (word_of o) (word_of l) (mask_of j.mask))) [
      | inl none_made ↦ absurd (ground (arith, e, none_made))
      | inr (q, made) ↦
          let (named, offset, len, mask) =
            pos_of_inverse key name (word_of o) (word_of l) (mask_of j.mask) p
              (made ∙ ground (arith, e, made)) in
          (ap some named, offset, len, mask)
    ]

parse_pos-Reads :
    (granted : Bool) (key : ℕ) (j : JsonPos) (p : Pos)
    → parse_pos granted key j ≡ ok (some p)
    → Reads j p
unfolding parse_pos
parse_pos-Reads granted key j p e = elim (Option-cases j.name) [
  | inl no_name ↦ absurd (ground (arith, e, no_name))
  | inr (name, has_name) ↦ elim (Option-cases j.offset) [
    | inl no_offset ↦ absurd (ground (arith, e, has_name, no_offset))
    | inr (o, has_offset) ↦ elim (Option-cases j.length) [
      | inl no_length ↦ absurd (ground (arith, e, has_name, has_offset, no_length))
      | inr (l, has_length) ↦
          let (named, offset, len, mask) =
            parse_named_inverse granted key j name o l p
              (ground (arith, e, has_name, has_offset, has_length)) in
          (has_name ∙ ap some named, (o, has_offset, offset), (l, has_length, len), mask)
    ]
  ]
]

parse_all-Reads :
    (granted : ℕ → Bool) (i : ℕ) (js : List JsonPos) (layout : List Pos) (n : ℕ)
    → parse_all granted i js ≡ ok (some layout)
    → n < length js
    → (j : JsonPos) × (p : Pos) × (get_elem? js n ≡ some j)
      × (get_elem? layout n ≡ some p)
      × Reads j p
unfolding parse_all
parse_all-Reads granted i [] layout n e less = absurd (omega (arith, less))
parse_all-Reads granted i (j ∷ js) layout zero e less =
    let (p, ps, read, rest, whole) =
      with_pos_inverse (parse_pos (granted i) i j) (parse_all granted (i + 1) js) layout e in
    (j, p, refl, ap (λ l. get_elem? l zero) whole, parse_pos-Reads (granted i) i j p read)
parse_all-Reads granted i (j ∷ js) layout (suc n) e less =
    let (p, ps, read, rest, whole) =
      with_pos_inverse (parse_pos (granted i) i j) (parse_all granted (i + 1) js) layout e in
    let (k, q, at, placed, reads) =
      parse_all-Reads granted (i + 1) js ps n rest (omega (arith, less)) in
    (k, q, at, ap (λ l. get_elem? l (suc n)) whole ∙ placed, reads)

read_whole :
    (granted : Bool) (names : ℕ → Bool) (objects : List JsonPos) (layout : List Pos)
    → layout_parse granted names (some (some objects)) ≡ ok (some layout)
    → parse_all names 0 objects ≡ ok (some layout)
unfolding layout_parse
read_whole true names objects layout e = e
read_whole false names objects layout e = absurd (ground (arith, e))

-- When `layout_parse` returns the layout of an array, of at most as many objects as the end mark's
-- number, `pos_search` finds at each number below the array's length the place that was read from the
-- object at that index: with its name, and its offset, length and mask as numbers.
pub pos_search-layout_parse :
    (granted : Bool) (names : ℕ → Bool) (objects : List JsonPos) (layout : List Pos) (i : ℕ)
    → layout_parse granted names (some (some objects)) ≡ ok (some layout)
    → length objects ≤ id_end
    → i < length objects
    → (j : JsonPos) × (p : Pos) × (get_elem? objects i ≡ some j)
      × (pos_search layout i ≡ some p)
      × Reads j p
pos_search-layout_parse granted names objects layout i e small less =
    let (j, p, at, placed, reads) =
      parse_all-Reads names 0 objects layout i (read_whole granted names objects layout e) less in
    (j, p, at, pos_search_numbered granted names objects layout i e small less ∙ placed, reads)
