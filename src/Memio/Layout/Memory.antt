-- ===== src/Memio/Layout/Memory.antt =====
-- `file_read`, `layout_parse` and `layout_destroy` of lib/memio/layout.c: what they take from the
-- system and give back on each path.
use propd.Prelude.{
  ℕ, ◌+◌, ◌-◌, ◌≤◌, ◌==◌, ◌≡◌, refl, ap, ◌∙◌, Bool, true, false, List, [], ◌∷◌, Option, none, some,
  Reply, ok, err, fault, ℤ, pos, eq_ℤ, length, arith, if◌then◌else◌, ◌⊎◌, inl, inr,
}
use propd.Memio.{Pos, id_end}
use propd.Memio.Layout.{JsonPos, parse_pos, with_pos, parse_all, layout_parse}
use propd.Memio.Layout.Keys.{Numbered, ends, then_pos, parse_all-Numbered, with_pos_inverse}

-- Blocks of memory and open files.
pub record Taken : Type 0 where
  pub blocks : ℕ
  pub files : ℕ

unfoldable pub malloc : Taken → Taken
malloc t = record t { blocks = t.blocks + 1 }

unfoldable pub free : ℕ → Taken → Taken
free n t = record t { blocks = t.blocks - n }

unfoldable pub close : Taken → Taken
close t = record t { files = t.files - 1 }

-- Whether the file is opened, its size, the memory for it, and the result of `read`.
pub record ReadEnv : Type 0 where
  pub opened : Bool
  pub size : Option ℕ
  pub granted : Bool
  pub read : ℤ

unfoldable pub file_read_opened : ReadEnv → Taken → Bool × Taken
unfolding malloc free close
file_read_opened env t = elim env.size [
  | none ↦ (false, close t)
  | some size ↦
      if env.granted
      then (if eq_ℤ (pos size) env.read
          then (true, close (malloc t))
          else (false, close (free 1 (malloc t))))
      else (false, close t)
]

-- `file_read`, and whether it returns a buffer.
unfoldable pub file_read : ReadEnv → Taken → Bool × Taken
unfolding file_read_opened
file_read env t =
    if env.opened then file_read_opened env (record t { files = t.files + 1 }) else (false, t)

-- An object of the loop: its name is a block, and where it is refused, those of the objects before it
-- are freed.
unfoldable pub after_object :
    ℕ → Reply (Option Pos) → Reply Bool × Taken → Taken → Reply Bool × Taken
unfolding free
after_object i (ok (some p)) rest t = rest
after_object i (ok none) rest t = (ok false, free i t)
after_object i (err e) rest t = (err e, t)
after_object i fault rest t = (fault, t)

unfoldable pub parse_objects : (ℕ → Bool) → ℕ → List JsonPos → Taken → Reply Bool × Taken
unfolding after_object parse_pos malloc
parse_objects granted i [] t = (ok true, t)
parse_objects granted i (j ∷ js) t =
    after_object i (parse_pos (granted i) i j) (parse_objects granted (i + 1) js (malloc t)) t

-- The exits behind the loop: the layout is freed where it is refused, and the JSON and the buffer are
-- freed.
unfoldable pub after_objects : Reply Bool × Taken → Reply Bool × Taken
unfolding free
after_objects (ok true, t) = (ok true, free 2 t)
after_objects (ok false, t) = (ok false, free 2 (free 1 t))
after_objects (err e, t) = (err e, t)
after_objects (fault, t) = (fault, t)

-- `layout_parse` with the buffer, which is one block, the JSON being another; `none` where it is no
-- array.
unfoldable pub parse_buffer : Bool → (ℕ → Bool) → Option (List JsonPos) → Taken → Reply Bool × Taken
unfolding malloc free after_objects parse_objects
parse_buffer granted names none t = (ok false, free 2 (malloc t))
parse_buffer granted names (some objects) t =
    if granted
    then after_objects (parse_objects names 0 objects (malloc (malloc t)))
    else (ok false, free 2 (malloc t))

-- `layout_parse`, and whether it returns a layout.
unfoldable pub layout_parse_taken :
    ReadEnv → Bool → (ℕ → Bool) → Option (List JsonPos) → Taken → Reply Bool × Taken
unfolding file_read parse_buffer
layout_parse_taken env granted names json t =
    if (file_read env t).0
    then parse_buffer granted names json (file_read env t).1
    else (ok false, (file_read env t).1)

-- The loop of `layout_destroy` up to the end mark.
unfoldable pub free_names : List Pos → Taken → Taken
unfolding free
free_names [] t = t
free_names (p ∷ layout) t =
    let rest = free_names layout (free 1 t) in if p.key == id_end then t else rest

unfoldable pub layout_destroy : List Pos → Taken → Taken
unfolding free_names free
layout_destroy layout t = free 1 (free_names layout t)

abbrev with_blocks : ℕ → Taken → Taken
with_blocks n t = record t { blocks = t.blocks + n }

parse_objects_parsed :
    (granted : ℕ → Bool) (i : ℕ) (js : List JsonPos) (layout : List Pos) (t : Taken)
    → parse_all granted i js ≡ ok (some layout)
    → parse_objects granted i js t ≡ (ok true, with_blocks (length js) t)
unfolding parse_all parse_objects malloc
parse_objects_parsed granted i [] layout t e = ground arith
parse_objects_parsed granted i (j ∷ js) layout t e =
    let (p, ps, first, rest, whole) =
      with_pos_inverse (parse_pos (granted i) i j) (parse_all granted (i + 1) js) layout e in
    ap (λ r. after_object i r (parse_objects granted (i + 1) js (malloc t)) t) first
    ∙ parse_objects_parsed granted (i + 1) js ps (malloc t) rest
    ∙ ap (λ n. (ok true, record t { blocks = n })) (omega arith)

-- Places that cannot be put together: the first is refused, or the rest is.
with_pos_refused :
    (r : Reply (Option Pos)) (rest : Reply (Option (List Pos)))
    → with_pos r rest ≡ ok none
    → (r ≡ ok none) ⊎ ((p : Pos) × (r ≡ ok (some p)) × (rest ≡ ok none))
unfolding with_pos
with_pos_refused (ok (some p)) (ok (some ps)) e = absurd (ground (arith, e))
with_pos_refused (ok (some p)) (ok none) e = inr (p, refl, refl)
with_pos_refused (ok (some p)) (err x) e = absurd (ground (arith, e))
with_pos_refused (ok (some p)) fault e = absurd (ground (arith, e))
with_pos_refused (ok none) rest e = inl refl
with_pos_refused (err x) rest e = absurd (ground (arith, e))
with_pos_refused fault rest e = absurd (ground (arith, e))

parse_objects_refused :
    (granted : ℕ → Bool) (i : ℕ) (js : List JsonPos) (t : Taken)
    → parse_all granted i js ≡ ok none
    → parse_objects granted i js t ≡ (ok false, free i t)
unfolding parse_all parse_objects malloc free
parse_objects_refused granted i [] t e = absurd (ground (arith, e))
parse_objects_refused granted i (j ∷ js) t e =
    elim (with_pos_refused (parse_pos (granted i) i j) (parse_all granted (i + 1) js) e) [
      | inl first ↦ ap (λ r. after_object i r (parse_objects granted (i + 1) js (malloc t)) t) first
      | inr (p, first, rest) ↦
          ap (λ r. after_object i r (parse_objects granted (i + 1) js (malloc t)) t) first
          ∙ parse_objects_refused granted (i + 1) js (malloc t) rest
          ∙ ap (λ n. (ok false, record t { blocks = n })) (omega arith)
    ]

free_names-Numbered :
    {i n : ℕ} {layout : List Pos} (t : Taken)
    → Numbered i n layout
    → i + n ≤ id_end
    → free_names layout t ≡ free n t
unfolding free_names free
free_names-Numbered t (ends i) small = ground arith
free_names-Numbered t (then_pos i n p ps key rest) small =
    ground (arith, key, free_names-Numbered (free 1 t) rest (omega arith))

file_read_lem :
    (env : ReadEnv) (t : Taken)
    → (file_read env t ≡ (false, t)) ⊎ (file_read env t ≡ (true, malloc t))
unfolding file_read file_read_opened malloc free close
file_read_lem env t = ground arith

-- The array has at most as many objects as the number of the end mark.
abbrev pub IsShort : Option (List JsonPos) → Type 0
IsShort none = Unit
IsShort (some objects) = length objects ≤ id_end

-- What the caller does with a layout, and with NULL.
abbrev pub destroyed : Option (List Pos) → Taken → Taken
destroyed none t = t
destroyed (some layout) t = layout_destroy layout t

destroyed-parse_buffer :
    (granted : Bool) (names : ℕ → Bool) (json : Option (List JsonPos)) (t : Taken)
    (layout : Option (List Pos))
    → layout_parse granted names (some json) ≡ ok layout
    → IsShort json
    → destroyed layout (parse_buffer granted names json (malloc t)).1 ≡ t
unfolding layout_parse parse_buffer after_objects malloc free layout_destroy
destroyed-parse_buffer granted names none t none e short = ground arith
destroyed-parse_buffer granted names none t (some layout) e short = absurd (ground (arith, e))
destroyed-parse_buffer false names (some objects) t none e short = ground arith
destroyed-parse_buffer false names (some objects) t (some layout) e short =
    absurd (ground (arith, e))
destroyed-parse_buffer true names (some objects) t none e short =
    rw (parse_objects_refused names 0 objects (malloc (malloc (malloc t))) e) (ground arith)
destroyed-parse_buffer true names (some objects) t (some layout) e short =
    rw
      (
        parse_objects_parsed names 0 objects layout (malloc (malloc (malloc t))) e,
        free_names-Numbered {i = 0} _ (parse_all-Numbered names 0 objects layout e)
            (omega (arith, short)),
      )
      (ground arith)

nothing_held :
    {t : Taken} (layout : Option (List Pos))
    → ◌≡◌ {A = Reply (Option (List Pos))} (ok none) (ok layout)
    → destroyed layout t ≡ t
nothing_held none e = refl
nothing_held (some layout) e = absurd (ground (arith, e))

-- Where it does not crash, `layout_parse` holds nothing once it returned NULL, whichever of its steps
-- failed; and `layout_destroy` gives back what a layout holds that has at most as many objects as the
-- number of the end mark.
pub layout_destroy-layout_parse :
    (env : ReadEnv) (granted : Bool) (names : ℕ → Bool) (json : Option (List JsonPos)) (t : Taken)
    (layout : Option (List Pos))
    → layout_parse granted names (if (file_read env t).0 then some json else none) ≡ ok layout
    → IsShort json
    → destroyed layout (layout_parse_taken env granted names json t).1 ≡ t
unfolding layout_parse_taken layout_parse
layout_destroy-layout_parse env granted names json t layout e short = elim (file_read_lem env t) [
  | inl closed ↦ rw closed (nothing_held layout (rw closed at e))
  | inr read ↦ rw read (destroyed-parse_buffer granted names json t layout (rw read at e) short)
]
