-- ===== src/Memio/Layout/Keys.antt =====
-- A layout that was read from a file is searched by its numbers, which are the places in the array.
use propd.Prelude.{
  ℕ, zero, suc, ◌+◌, ◌≤◌, ◌<◌, ◌≡◌, refl, sym, Text, Bool, true, false, List, [], ◌∷◌, Option, none,
  some, Reply, ok, err, fault, length, get_elem?, arith, subst,
}
use propd.Memio.{Pos, id_end, pos_search}
use propd.Memio.Layout.{
  JsonPos, parse_pos, parse_named, pos_of, word_of, mask_of, with_pos, end_mark, parse_all,
  layout_parse,
}

-- So many places, numbered from a number on, and the end mark.
pub data Numbered : ℕ → ℕ → List Pos → Type 0 where
  ends : (i : ℕ) → Numbered i 0 (end_mark ∷ [])
  then_pos :
      (i n : ℕ) (p : Pos) (ps : List Pos)
      → p.key ≡ i
      → Numbered (i + 1) n ps
      → Numbered i (suc n) (p ∷ ps)

pos_of_key :
    (key : ℕ) (name : Text) (a b c : Reply ℕ) (p : Pos)
    → pos_of key name a b c ≡ some p
    → p.key ≡ key
unfolding pos_of
pos_of_key key name (ok a) (ok b) (ok c) p e = ground (arith, e)
pos_of_key key name (err a) b c p e = ground (arith, e)
pos_of_key key name fault b c p e = ground (arith, e)
pos_of_key key name (ok a) (err b) c p e = ground (arith, e)
pos_of_key key name (ok a) fault c p e = ground (arith, e)
pos_of_key key name (ok a) (ok b) (err c) p e = ground (arith, e)
pos_of_key key name (ok a) (ok b) fault p e = ground (arith, e)

parse_named_key :
    (granted : Bool) (key : ℕ) (j : JsonPos) (name offset len : Option Text) (p : Pos)
    → parse_named granted key j name offset len ≡ ok (some p)
    → p.key ≡ key
unfolding parse_named
parse_named_key granted key j none offset len p e = ground (arith, e)
parse_named_key false key j (some name) offset len p e = ground (arith, e)
parse_named_key true key j (some name) offset len p e =
    ground (arith, e, pos_of_key key name (word_of offset) (word_of len) (mask_of j.mask) p)

parse_pos_key :
    (granted : Bool) (key : ℕ) (j : JsonPos) (p : Pos)
    → parse_pos granted key j ≡ ok (some p)
    → p.key ≡ key
unfolding parse_pos
parse_pos_key granted key j p e = grind (arith, e, parse_named_key)

-- A list of places that was put together from a place and the rest.
pub with_pos_inverse :
    (r : Reply (Option Pos)) (rest : Reply (Option (List Pos))) (layout : List Pos)
    → with_pos r rest ≡ ok (some layout)
    → (p : Pos) × (ps : List Pos) × (r ≡ ok (some p)) × (rest ≡ ok (some ps)) × (layout ≡ p ∷ ps)
unfolding with_pos
with_pos_inverse (ok (some p)) (ok (some ps)) layout e = (p, ps, refl, refl, ground (arith, e))
with_pos_inverse (ok (some p)) (ok none) layout e = absurd (ground (arith, e))
with_pos_inverse (ok (some p)) (err x) layout e = absurd (ground (arith, e))
with_pos_inverse (ok (some p)) fault layout e = absurd (ground (arith, e))
with_pos_inverse (ok none) rest layout e = absurd (ground (arith, e))
with_pos_inverse (err x) rest layout e = absurd (ground (arith, e))
with_pos_inverse fault rest layout e = absurd (ground (arith, e))

pub parse_all-Numbered :
    (granted : ℕ → Bool) (i : ℕ) (js : List JsonPos) (layout : List Pos)
    → parse_all granted i js ≡ ok (some layout)
    → Numbered i (length js) layout
unfolding parse_all
parse_all-Numbered granted i [] layout e = subst (Numbered i 0) (ground (arith, e)) (ends i)
parse_all-Numbered granted i (j ∷ js) layout e =
    let (p, ps, first, rest, whole) =
      with_pos_inverse (parse_pos (granted i) i j) (parse_all granted (i + 1) js) layout e in
    subst (Numbered i (suc (length js))) (sym whole) (
      then_pos i (length js) p ps (parse_pos_key (granted i) i j p first)
        (parse_all-Numbered granted (i + 1) js ps rest))

Numbered-found :
    {i n : ℕ} {layout : List Pos} (j k : ℕ)
    → Numbered i n layout
    → k ≡ i + j
    → j < n
    → i + n ≤ id_end
    → pos_search layout k ≡ get_elem? layout j
unfolding pos_search
Numbered-found j k (ends i) e less small = absurd (omega arith)
Numbered-found zero k (then_pos i n p ps key rest) e less small = ground arith
Numbered-found (suc j) k (then_pos i n p ps key rest) e less small =
    ground (arith, Numbered-found j k rest (omega arith) (omega arith) (omega arith))

-- When `layout_parse` returns the layout of an array, of fewer objects than the end mark's number,
-- `pos_search` finds at each number below the array's length the place that was read from the object
-- at that index.
pub pos_search_numbered :
    (granted : Bool) (names : ℕ → Bool) (objects : List JsonPos) (layout : List Pos) (i : ℕ)
    → layout_parse granted names (some (some objects)) ≡ ok (some layout)
    → length objects ≤ id_end
    → i < length objects
    → pos_search layout i ≡ get_elem? layout i
unfolding layout_parse
pos_search_numbered true names objects layout i e small less =
    Numbered-found i i (parse_all-Numbered names 0 objects layout e) (omega arith) less
      (omega arith)
pos_search_numbered false names objects layout i e small less = absurd (ground (arith, e))
