-- ===== src/Memio/Layout.antt =====
-- `layout_parse` of lib/memio/layout.c and the storage of lib/builtin/memory.c. The JSON that cJSON
-- reads is a parameter: what the file holds as a list of objects.
pub mod Keys
pub mod Memory
pub mod Objects
use propd.Prelude.{
  ℕ, suc, ◌+◌, ◌%◌, ◌^◌, Text, Bool, true, false, List, [], ◌∷◌, ◌++◌, Option, none, some, Reply,
  ok, err, fault, ℤ, Errno, enomem, eio, einval, if◌then◌else◌,
}
use propd.Value.{Value}
use propd.Storage.{Storage}
use propd.Value.Numerals.{strtoul}
use propd.Memio.{Pos, id_end, memory_get}

-- A field of an object: it is missing, or is there and holds a text or something else.
abbrev pub Field : Type 0
Field = Option (Option Text)

pub record JsonPos : Type 0 where
  pub name : Field
  pub offset : Field
  pub length : Field
  pub mask : Field

-- `strtoul` of `cJSON_GetStringValue` into a `uint32_t`; a NULL is a fault.
unfoldable pub word_of : Option Text → Reply ℕ
unfolding strtoul
word_of none = fault
word_of (some s) = ok (elim (strtoul s) [ none ↦ 0 | some r ↦ r.0 % 2 ^ 32 ])

unfoldable pub mask_of : Field → Reply ℕ
unfolding word_of
mask_of none = ok 0
mask_of (some s) = word_of s

unfoldable pub pos_of : ℕ → Text → Reply ℕ → Reply ℕ → Reply ℕ → Option Pos
pos_of key name (ok offset) (ok length) (ok mask) =
    some (record { key = key; name = name; offset = offset; length = length; mask = mask })
pos_of key name _ _ _ = none

-- What `parse_pos` makes of an object: a place, -1, or a fault. The Boolean grants the name.
unfoldable pub parse_named :
    Bool → ℕ → JsonPos → Option Text → Option Text → Option Text → Reply (Option Pos)
unfolding pos_of word_of mask_of
parse_named granted key j none offset length = fault
parse_named granted key j (some name) offset length =
    if granted
    then elim (pos_of key name (word_of offset) (word_of length) (mask_of j.mask)) [
      | some p ↦ ok (some p)
      | none ↦ fault
    ]
    else ok none

unfoldable pub parse_pos : Bool → ℕ → JsonPos → Reply (Option Pos)
unfolding parse_named
parse_pos granted key j = elim j.name [
  | none ↦ ok none
  | some name ↦ elim j.offset [
    | none ↦ ok none
    | some offset ↦ elim j.length [
      | none ↦ ok none
      | some length ↦ parse_named granted key j name offset length
    ]
  ]
]

unfoldable pub with_pos : Reply (Option Pos) → Reply (Option (List Pos)) → Reply (Option (List Pos))
with_pos (ok (some p)) (ok (some ps)) = ok (some (p ∷ ps))
with_pos (ok (some p)) r = r
with_pos (ok none) r = ok none
with_pos (err e) r = err e
with_pos fault r = fault

-- The end mark; its other fields are what `calloc` left.
abbrev pub end_mark : Pos
end_mark = record { key = id_end; name = []; offset = 0; length = 0; mask = 0 }

-- The loop over the array from the object `i` on, to the end mark. A refused object ends it.
unfoldable pub parse_all : (ℕ → Bool) → ℕ → List JsonPos → Reply (Option (List Pos))
unfolding with_pos parse_pos
parse_all granted i [] = ok (some (end_mark ∷ []))
parse_all granted i (j ∷ js) = with_pos (parse_pos (granted i) i j) (parse_all granted (i + 1) js)

-- `layout_parse`: NULL is `none`. The file may not be readable, or hold no array.
unfoldable pub layout_parse :
    Bool → (ℕ → Bool) → Option (Option (List JsonPos)) → Reply (Option (List Pos))
unfolding parse_all
layout_parse granted names none = ok none
layout_parse granted names (some none) = ok none
layout_parse granted names (some (some objects)) =
    if granted then parse_all names 0 objects else ok none

-- What the constructor meets: the memory of the name and of the private part, /dev/mem, and whether
-- the memory could be mapped; a failed `mmap` is not NULL, so the constructor goes on with it.
pub record MapEnv : Type 0 where
  pub name_granted : Bool
  pub priv_granted : Bool
  pub device : Bool
  pub mapped : Bool

-- A read of what is not mapped is a fault. `granted` and `unread` belong to each read.
unfoldable pub mapped_get :
    Bool → Bool → (ℕ → ℕ) → List Pos → List ℕ → Text → Reply (Value × ℤ) × List ℕ
unfolding memory_get
mapped_get mapped granted unread layout memory key =
    (if mapped then memory_get granted layout memory unread key else fault, memory)

-- `constructor_memory`; the physical memory is the state of the storage.
unfoldable pub constructor_memory :
    MapEnv → Bool → (ℕ → ℕ) → Text → List Pos → Reply (Storage (List ℕ))
unfolding mapped_get
constructor_memory env granted unread name layout =
    if env.name_granted
    then (if env.priv_granted
        then (if env.device
            then ok (record {
              name = name;
              get = some (mapped_get env.mapped granted unread layout);
              set = none;
              del = none;
              destructor = none;
            })
            else err eio)
        else err enomem)
    else err enomem

unfoldable pub parse_made :
    MapEnv → Bool → (ℕ → ℕ) → Text → Reply (Option (List Pos)) → Reply (Storage (List ℕ))
unfolding constructor_memory
parse_made env granted unread name (ok none) = err einval
parse_made env granted unread name (ok (some layout)) =
    constructor_memory env granted unread name layout
parse_made env granted unread name (err e) = err e
parse_made env granted unread name fault = fault

-- `parse`, with the layout that `layout_parse` returns.
unfoldable pub parse :
    MapEnv
    → Bool
    → (ℕ → ℕ)
    → Bool
    → (ℕ → Bool)
    → (Text → Option (Option (List JsonPos)))
    → Text
    → List Text
    → Reply (Storage (List ℕ))
unfolding parse_made layout_parse
parse env granted unread array names json name (phy ∷ path ∷ args) =
    parse_made env granted unread name (layout_parse array names (json path))
parse env granted unread array names json name _ = fault
