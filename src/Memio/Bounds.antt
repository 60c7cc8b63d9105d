-- ===== src/Memio/Bounds.antt =====
-- A read of lib/builtin/memory.c stays in the mapped memory, and yields as many bytes as it says.
use Prim.Native.Nat.{bit_and}
use propd.Prelude.{
  ℕ, zero, suc, ◌+◌, ◌/◌, ◌%◌, ◌^◌, ◌-◌, ◌≡◌, ◌≢◌, ◌≤◌, ◌<◌, refl, ap, sym, subst, ◌∙◌, Text,
  text_eq, true, false, List, [], ◌∷◌, ◌++◌, All, Option, none, some, ok, length, length-append,
  length-take, length-drop, length-replicate, take, drop, replicate, ltb, ltb-false, leb, ◌==◌,
  if◌then◌else◌, arith, Bool-cases, Option-cases, inl, inr, ◌⊎◌,
}
use native.Mathlib.Nat.{mod-eq_of_lt, pow-suc}
use propd.Value.{Value, IsValue, raw_data, u32, number_of, bytes4}
use propd.Cache.{duration_inf}
use propd.Memio.{
  Pos, id_end, pos_search_by_name, length_from, layout_length, mask_shift, mask_max, mask_length,
  load, masked, from_loaded, pos_read, value_at, buffer, read_pos, memory_get,
}

-- A place of a layout: it ends within 32 bits, it is not the end mark, and its mask is not 0 where it
-- has at most four bytes.
pub record IsPos (p : Pos) : Type 0 where
  pub ends : p.offset + p.length < 2 ^ 32
  pub listed : p.key ≢ id_end
  pub mask_set : (4 < p.length) ⊎ (0 < p.mask)
  pub mask_small : p.mask < 2 ^ 32

-- The length after a place that is not the end mark.
abbrev longer : ℕ → Pos → ℕ
longer n p = if ltb n ((p.offset + p.length) % 2 ^ 32) then (p.offset + p.length) % 2 ^ 32 else n

longer-le : (n : ℕ) (p : Pos) → n ≤ longer n p
longer-le n p = ground arith

longer-end : (n : ℕ) (p : Pos) → IsPos p → p.offset + p.length ≤ longer n p
longer-end n p h = ground (arith, h.ends, mod-eq_of_lt h.ends)

length_from-le : (ps : List Pos) (n : ℕ) → n ≤ length_from ps n
unfolding length_from
length_from-le [] n = omega arith
length_from-le (p ∷ ps) n = ground (arith, length_from-le ps (longer n p), longer-le n p)

-- A place that the search finds is one of the layout's, and ends within the length of the layout.
found-within :
    (ps : List Pos) (n : ℕ) (name : Text) (p : Pos)
    → All IsPos ps
    → pos_search_by_name ps name ≡ some p
    → IsPos p × (p.offset + p.length ≤ length_from ps n)
unfolding length_from pos_search_by_name
found-within [] n name p h e = absurd (ground (arith, e))
found-within (q ∷ ps) n name p h e = elim (Bool-cases (text_eq q.name name)) [
  | inl hit ↦
      subst (λ r. IsPos r × (r.offset + r.length ≤ length_from (q ∷ ps) n)) (this hit) (h.0, here)
  | inr miss ↦ rw (not_end) (found-within ps (longer n q) name p h.1 (later miss))
]
  where
    not_end : (q.key == id_end) ≡ false
    not_end = ground (arith, h.0.listed)

    this : text_eq q.name name ≡ true → q ≡ p
    this hit = ground (arith, e, hit, not_end)

    later : text_eq q.name name ≡ false → pos_search_by_name ps name ≡ some p
    later miss = ground (arith, e, miss, not_end)

    here : q.offset + q.length ≤ length_from (q ∷ ps) n
    here = ground (arith, not_end, length_from-le ps (longer n q), longer-end n q h.0)

mask_length-le : (fuel mask : ℕ) → mask_length fuel mask ≤ suc fuel
unfolding mask_length
mask_length-le zero mask = omega arith
mask_length-le (suc fuel) mask = ground (arith, mask_length-le fuel (mask_max mask / 256))

length-buffer : (unread : ℕ → ℕ) (n : ℕ) → length (buffer unread n) ≡ n
unfolding buffer
length-buffer unread zero = refl
length-buffer unread (suc n) = ap suc (length-buffer unread n)

mask_shift-some : (bits mask : ℕ) → 0 < mask → mask < 2 ^ bits → mask_shift bits mask ≢ none
unfolding mask_shift
mask_shift-some zero mask h k e = omega (arith, h, k)
mask_shift-some (suc bits) mask h k e = elim (Bool-cases (mask % 2 == 1)) [
  | inl odd ↦ absurd (ground (arith, e, odd))
  | inr even ↦
      mask_shift-some bits (mask / 2) (ground (arith, h, even)) (omega (arith, k, pow-suc 2 bits))
        (shifted (mask_shift bits (mask / 2)) refl even)
]
  where
    shifted :
        (o : Option ℕ)
        → mask_shift bits (mask / 2) ≡ o
        → (mask % 2 == 1) ≡ false
        → mask_shift bits (mask / 2) ≡ none
    shifted none q even = q
    shifted (some n) q even = absurd (ground (arith, e, q, even))

length-bytes4 : (n : ℕ) → length (bytes4 n) ≡ 4
unfolding bytes4
length-bytes4 n = refl

length-loaded :
    (memory : List ℕ) (offset n : ℕ)
    → offset + n ≤ length memory
    → (bs : List ℕ) × (load memory offset n ≡ ok bs) × (length bs ≡ n)
unfolding load
length-loaded memory offset n h = (
  take n (drop offset memory),
  ground (arith, h),
  length-take n (drop offset memory) (omega (arith, length-drop offset memory, h)),
)

-- What `pos_read` writes of a number.
abbrev shown : ℕ → ℕ → ℕ → List ℕ → List ℕ
shown mask shift n raw =
    take (mask_length 3 mask) (bytes4 (bit_and (number_of raw) mask / 2 ^ shift))
    ++ replicate (n - mask_length 3 mask) 0

length-shown :
    (mask shift n : ℕ) (raw : List ℕ) → mask_length 3 mask ≤ n → length (shown mask shift n raw) ≡ n
length-shown mask shift n raw h =
    length-append (take (mask_length 3 mask) digits) (replicate (n - mask_length 3 mask) 0)
    ∙ omega (
      arith,
      length-replicate {A = ℕ} (n - mask_length 3 mask) 0,
      length-take (mask_length 3 mask) digits (
          omega (
            arith,
            mask_length-le 3 mask,
            length-bytes4 (bit_and (number_of raw) mask / 2 ^ shift),
          )),
    )
  where
    digits : List ℕ
    digits = bytes4 (bit_and (number_of raw) mask / 2 ^ shift)

length-masked :
    (mask shift n : ℕ) (unread raw : List ℕ)
    → length unread ≡ n
    → (bs : List ℕ) × (masked mask (some shift) n unread raw ≡ ok bs) × (length bs ≡ n)
unfolding masked
length-masked mask shift n unread raw h = elim (Bool-cases (ltb n (mask_length 3 mask))) [
  | inl short ↦ (unread, rw short refl, h)
  | inr room ↦ (
    shown mask shift n raw,
    ap (λ b. if b then ok unread else ok (shown mask shift n raw)) room,
    length-shown mask shift n raw (ltb-false n (mask_length 3 mask) room),
  )
]

length-integer :
    (pos : Pos) (memory unread : List ℕ)
    → IsPos pos
    → 0 < pos.mask
    → pos.offset + pos.length ≤ length memory
    → length unread ≡ pos.length
    → (bs : List ℕ) × (from_loaded pos unread (load memory pos.offset pos.length) ≡ ok bs)
      × (length bs ≡ pos.length)
unfolding from_loaded
length-integer pos memory unread h set inside fresh = elim (Option-cases (mask_shift 32 pos.mask)) [
  | inl e ↦ absurd (mask_shift-some 32 pos.mask set h.mask_small e)
  | inr (shift, e) ↦
      let (raw, l, n) = length-loaded memory pos.offset pos.length inside in
      let (bs, q, m) = length-masked pos.mask shift pos.length unread raw fresh in
      (
        bs,
        ap (from_loaded pos unread) l ∙ ap (λ o. masked pos.mask o pos.length unread raw) e ∙ q,
        m,
      )
]

length-pos_read :
    (pos : Pos) (memory unread : List ℕ)
    → IsPos pos
    → pos.offset + pos.length ≤ length memory
    → length unread ≡ pos.length
    → (bs : List ℕ) × (pos_read pos memory unread ≡ ok bs) × (length bs ≡ pos.length)
unfolding pos_read
length-pos_read pos memory unread h inside fresh = elim (Bool-cases (leb pos.length 4)) [
  | inl e ↦ rw e (elim h.mask_set [
    | inl long ↦ absurd (ground (arith, e, long))
    | inr set ↦ length-integer pos memory unread h set inside fresh
  ])
  | inr e ↦ rw e (length-loaded memory pos.offset pos.length inside)
]

-- Of a place that the layout names, `memory_get`, with memory, reads only bytes that are mapped, where
-- the memory is as long as `layout_length` says, whatever `malloc` gives. It answers a value that never
-- expires, with as many bytes as the place has. Each place of the layout is assumed to end within 32
-- bits, to be none that marks the end, and to have a mask of 32 bits, which is not 0 if the place has at
-- most four bytes.
pub memory_get-IsValue :
    (layout : List Pos) (memory : List ℕ) (unread : ℕ → ℕ) (key : Text) (pos : Pos)
    → All IsPos layout
    → length memory ≡ layout_length layout
    → pos_search_by_name layout key ≡ some pos
    → (v : Value) × (memory_get true layout memory unread key ≡ ok (v, duration_inf))
      × IsValue v
      × (v.length ≡ pos.length)
unfolding memory_get layout_length
memory_get-IsValue layout memory unread key pos places mapped found =
    let (h, inside) = found-within layout 0 key pos places found in
    let (bs, read, n) =
      length-pos_read pos memory (buffer unread pos.length) h (omega (arith, inside, mapped))
        (length-buffer unread pos.length) in
    (
      record { tag = if ltb 4 pos.length then raw_data else u32; length = pos.length; bytes = bs },
      ap (read_pos true memory unread) found ∙ ap (value_at pos) read,
      record { counted = sym n; small = omega (arith, h.ends) },
      refl,
    )
