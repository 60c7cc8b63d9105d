-- ===== src/Memio/Writing.antt =====
-- `pos_write` of lib/memio/position.c, and what `pos_read` then reads.
pub mod Region
use Prim.Native.Nat.{bit_and, bit_or}
use propd.Prelude.{
  ℕ, zero, suc, ◌+◌, ◌-◌, ◌*◌, ◌/◌, ◌%◌, ◌^◌, ◌≤◌, ◌<◌, ◌≡◌, ◌⊎◌, inl, inr, refl, sym, ap, ◌∙◌,
  Bool, true, false, List, [], ◌∷◌, ◌++◌, Option, none, some, Reply, ok, err, fault, Errno, other,
  negsuc, length, take, drop, replicate, ltb, leb, if◌then◌else◌, arith, length-append,
  length-replicate, length-take, length-drop, take-append, drop_add, drop_zero,
}
use propd.Value.{number_of, bytes4}
use propd.Memio.{Pos, mask_shift, mask_max, load, pos_read, from_loaded, masked}

-- -ENOBUFS
abbrev pub minus_enobufs : Errno
minus_enobufs = other (negsuc 104)

-- The bytes in place of those from an offset on; outside the memory it is a fault.
unfoldable pub store : List ℕ → ℕ → List ℕ → Reply (List ℕ)
store memory offset bytes =
    if ltb (length memory) (offset + length bytes)
    then fault
    else ok (take offset memory ++ (bytes ++ drop (offset + length bytes) memory))

-- `MaskWrite`, for the place of the mask's lowest bit. The complement is that of 32 bits.
unfoldable pub mask_write : ℕ → ℕ → ℕ → ℕ → ℕ
mask_write shift mask old value =
    bit_or (bit_and old (2 ^ 32 - 1 - mask)) (bit_and ((value * 2 ^ shift) % 2 ^ 32) mask)

unfoldable pub write_loaded : Pos → List ℕ → ℕ → Option ℕ → Reply (List ℕ) → Reply (List ℕ)
unfolding store mask_write bytes4 number_of
write_loaded pos memory value none raw = fault
write_loaded pos memory value (some shift) (ok raw) =
    store memory pos.offset
      (take pos.length (bytes4 (mask_write shift pos.mask (number_of raw) value)))
write_loaded pos memory value (some shift) (err e) = err e
write_loaded pos memory value (some shift) fault = fault

-- The memory afterwards. A place of up to four bytes takes a number that fits the mask; a longer one
-- takes up to its length, and zeros after that.
unfoldable pub pos_write : Pos → List ℕ → List ℕ → Reply (List ℕ)
unfolding write_loaded store load mask_shift mask_max number_of
pos_write pos memory content =
    if leb pos.length 4
    then (if ltb 4 (length content)
        then err minus_enobufs
        else if ltb (mask_max pos.mask) (number_of content)
        then err minus_enobufs
        else write_loaded pos memory (number_of content) (mask_shift 32 pos.mask)
            (load memory pos.offset pos.length))
    else if ltb pos.length (length content)
    then err minus_enobufs
    else store memory pos.offset (content ++ replicate (pos.length - length content) 0)
