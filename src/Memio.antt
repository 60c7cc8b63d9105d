-- ===== src/Memio.antt =====
-- lib/memio and lib/builtin/memory.c: named places in a piece of physical memory, and the storage
-- that reads them. The memory is a list of bytes as long as what `mmap` was asked for.
pub mod Bounds
pub mod Writing
pub mod Layout
use Prim.Native.Nat.{bit_and}
use propd.Prelude.{
  ℕ, zero, suc, ◌+◌, ◌*◌, ◌/◌, ◌%◌, ◌^◌, ◌-◌, Text, text_eq, ℤ, Bool, true, false, List, [], ◌∷◌,
  ◌++◌, Option, none, some, Reply, ok, err, fault, enoent, enomem, length, take, drop, replicate,
  ltb, leb, ◌==◌, if◌then◌else◌,
}
use propd.Value.{Value, raw_data, u32, bytes4, number_of}
use propd.Cache.{duration_inf}

-- `pos_t`
pub record Pos : Type 0 where
  pub key : ℕ
  pub name : Text
  pub offset : ℕ
  pub length : ℕ
  pub mask : ℕ

-- LST_SEARCH_ID_END, the key behind the last place.
abbrev pub id_end : ℕ
id_end = 4294967295

-- `__lst_search` by name. The list may hold the end mark, or end before it.
unfoldable pub pos_search_by_name : List Pos → Text → Option Pos
pos_search_by_name [] name = none
pos_search_by_name (p ∷ ps) name =
    let rest = pos_search_by_name ps name in
    if p.key == id_end then none else if text_eq p.name name then some p else rest

-- `__lst_search` by number.
unfoldable pub pos_search : List Pos → ℕ → Option Pos
pos_search [] key = none
pos_search (p ∷ ps) key =
    let rest = pos_search ps key in
    if p.key == id_end then none else if p.key == key then some p else rest

-- The loop of `layout_length`, with the length so far; a sum of two `uint32_t` wraps.
unfoldable pub length_from : List Pos → ℕ → ℕ
length_from [] n = n
length_from (p ∷ ps) n =
    let end = (p.offset + p.length) % 2 ^ 32 in
    let rest = length_from ps (if ltb n end then end else n) in if p.key == id_end then n else rest

unfoldable pub layout_length : List Pos → ℕ
unfolding length_from
layout_length layout = length_from layout 0

-- `__builtin_ffs(mask) - 1` of a mask of so many bits; `none` for 0, where the source shifts by -1.
unfoldable pub mask_shift : ℕ → ℕ → Option ℕ
mask_shift zero mask = none
mask_shift (suc bits) mask =
    let rest = mask_shift bits (mask / 2) in
    if mask % 2 == 1 then some 0 else elim rest [ none ↦ none | some n ↦ some (suc n) ]

unfoldable pub mask_max : ℕ → ℕ
unfolding mask_shift
mask_max mask = elim (mask_shift 32 mask) [ none ↦ 0 | some n ↦ mask / 2 ^ n ]

-- `MaskLength`; each call takes a byte off, so three calls are enough for 32 bits.
unfoldable pub mask_length : ℕ → ℕ → ℕ
unfolding mask_max
mask_length zero mask = 1
mask_length (suc fuel) mask =
    let v = mask_max mask / 256 in let rest = mask_length fuel v in if v == 0 then 1 else suc rest

-- The cells that a read of so many bytes from an offset gives; outside the memory it is a fault.
unfoldable pub load : List ℕ → ℕ → ℕ → Reply (List ℕ)
load memory offset n =
    if ltb (length memory) (offset + n) then fault else ok (take n (drop offset memory))

unfoldable pub masked : ℕ → Option ℕ → ℕ → List ℕ → List ℕ → Reply (List ℕ)
unfolding mask_length bytes4 number_of
masked mask none n unread raw = fault
masked mask (some shift) n unread raw =
    let count = mask_length 3 mask in
    let value = bit_and (number_of raw) mask / 2 ^ shift in
    if ltb n count then ok unread else ok (take count (bytes4 value) ++ replicate (n - count) 0)

unfoldable pub from_loaded : Pos → List ℕ → Reply (List ℕ) → Reply (List ℕ)
unfolding masked mask_shift
from_loaded pos unread (ok raw) = masked pos.mask (mask_shift 32 pos.mask) pos.length unread raw
from_loaded pos unread (err e) = err e
from_loaded pos unread fault = fault

-- `pos_read` into a buffer of `pos->length` bytes, as `memory_get` calls it. `unread` is what the
-- buffer held: it stays there where `pos_read` refuses with ENOBUFS, which `memory_get` does not see.
unfoldable pub pos_read : Pos → List ℕ → List ℕ → Reply (List ℕ)
unfolding load from_loaded
pos_read pos memory unread =
    if leb pos.length 4
    then from_loaded pos unread (load memory pos.offset pos.length)
    else load memory pos.offset pos.length

value_at : Pos → Reply (List ℕ) → Reply (Value × ℤ)
value_at pos (ok bs) = ok (
  record { tag = if ltb 4 pos.length then raw_data else u32; length = pos.length; bytes = bs },
  duration_inf,
)
value_at pos (err e) = err e
value_at pos fault = fault

-- `unread` is what the memory from `malloc` holds, cell by cell.
unfoldable pub buffer : (ℕ → ℕ) → ℕ → List ℕ
buffer unread zero = []
buffer unread (suc n) = unread n ∷ buffer unread n

read_pos : Bool → List ℕ → (ℕ → ℕ) → Option Pos → Reply (Value × ℤ)
unfolding pos_read value_at buffer
read_pos granted memory unread none = err enoent
read_pos false memory unread (some pos) = err enomem
read_pos true memory unread (some pos) =
    value_at pos (pos_read pos memory (buffer unread pos.length))

unfoldable pub memory_get : Bool → List Pos → List ℕ → (ℕ → ℕ) → Text → Reply (Value × ℤ)
unfolding read_pos pos_search_by_name
memory_get granted layout memory unread key =
    read_pos granted memory unread (pos_search_by_name layout key)
