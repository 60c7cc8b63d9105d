-- ===== src/Tests/MemoryTests.antt =====
-- The theorem of Memio on a layout of one register, and the commands of Prop.
use propd.Prelude.{ℕ, ◌≡◌, refl, inr, codes, List, [], ◌∷◌, some, ok, length, true, arith, text_eq}
use propd.Value.{Value, IsValue}
use propd.Cache.{duration_inf}
use propd.Memio.{Pos, pos_search_by_name, layout_length, memory_get}
use propd.Memio.Bounds.{IsPos, memory_get-IsValue}

abbrev status : Pos
status = record { key = 0; name = codes "status"; offset = 2; length = 2; mask = 0xff0 }

abbrev memory : List ℕ
memory = 1 ∷ 2 ∷ 0x34 ∷ 0x12 ∷ []

status-IsPos : IsPos status
status-IsPos = record {
  ends = omega arith;
  listed = λ e. ground (arith, e);
  mask_set = inr (omega arith);
  mask_small = omega arith;
}

mapped : length memory ≡ layout_length (status ∷ [])
unfolding layout_length
mapped = refl

listed : pos_search_by_name (status ∷ []) (codes "status") ≡ some status
unfolding pos_search_by_name text_eq
listed = refl

memory_get-IsValue_example :
    (v : Value) × (memory_get true (status ∷ []) memory (λ i. 0) (codes "status")
      ≡ ok (v, duration_inf))
    × IsValue v
    × (v.length ≡ 2)
memory_get-IsValue_example =
    memory_get-IsValue (status ∷ []) memory (λ i. 0) (codes "status") status (status-IsPos, tt)
      mapped listed
