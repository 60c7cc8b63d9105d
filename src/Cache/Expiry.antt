-- ===== src/Cache/Expiry.antt =====
-- When an element counts as expired, and what duration a reader is told.
use propd.Prelude.{
  ℤ, pos, ◌+ℤ◌, ◌-ℤ◌, IsInt64, int64_in_range, leb_ℤ, if◌then◌else◌, eq_of_parts, int_laws, eq_ℤ,
  ltb_ℤ, ◌≤ℤ◌, ◌<ℤ◌, ◌≡◌, ◌≢◌, refl, true, false, arith, Bool-cases, inl, inr, ◌⊎◌,
}
use propd.Cache.{CacheItem, Cache, is_outdated, remaining, adjust, duration_inf}

-- The time at which an element expires, if it does, is one that the machine's numbers hold.
abbrev pub IsDated : CacheItem → Type 0
IsDated item = (item.duration ≡ duration_inf) ⊎ IsInt64 (item.modified +ℤ item.duration)

-- The expiry of an element, stated without the code's test.
abbrev pub RunOut : CacheItem → ℤ → Type 0
RunOut item now = (item.duration ≢ duration_inf) × (item.modified +ℤ item.duration ≤ℤ now)

abbrev pub Fresh : CacheItem → ℤ → Type 0
Fresh item now = (item.duration ≡ duration_inf) ⊎ (now <ℤ item.modified +ℤ item.duration)

outdated_dated :
    (item : CacheItem) (now : ℤ)
    → IsDated item
    → is_outdated item now ≡ (
        if eq_ℤ item.duration duration_inf
        then false
        else leb_ℤ (item.modified +ℤ item.duration) now)
unfolding is_outdated
outdated_dated item now (inl e) = rw e refl
outdated_dated item now (inr h) =
    rw (int64_in_range (item.modified +ℤ item.duration) h) (ground arith)

pub is_outdated-RunOut :
    (item : CacheItem) (now : ℤ) → IsDated item → is_outdated item now ≡ true → RunOut item now
is_outdated-RunOut item now d h = (
  λ e. ground (arith, h, outdated_dated item now d),
  ground (arith, h, outdated_dated item now d),
)

pub is_outdated-Fresh :
    (item : CacheItem) (now : ℤ) → IsDated item → is_outdated item now ≡ false → Fresh item now
is_outdated-Fresh item now d h = elim (Bool-cases (eq_ℤ item.duration duration_inf)) [
  | inl e ↦ inl (eq_of_parts item.duration duration_inf (ground arith))
  | inr e ↦ inr (ground (arith, h, outdated_dated item now d))
]

-- The duration that `cache_set` stores is at least `min_duration`, if the default is; a duration
-- that is nonzero and long enough is stored as it is, DURATION_INF too.
pub adjust_bounds :
    (least default duration : ℤ)
    → least ≤ℤ default
    → (least ≤ℤ adjust least default duration)
      × ((adjust least default duration ≡ default)
          ⊎ (adjust least default duration ≡ least)
          ⊎ (adjust least default duration ≡ duration))
unfolding adjust
adjust_bounds least default duration h = elim (Bool-cases (eq_ℤ duration (pos 0))) [
  | inl e ↦ rw e (h, inl refl)
  | inr e ↦ elim (Bool-cases (ltb_ℤ duration least)) [
    | inl s ↦ rw (e, s) (omega arith, inr (inl refl))
    | inr s ↦ rw (e, s) (ground arith, inr (inr refl))
  ]
]

abbrev left_of : CacheItem → ℤ → ℤ
left_of item now = item.duration -ℤ (now -ℤ item.modified)

ltb_ℤ_false : (a b : ℤ) → ltb_ℤ a b ≡ false → b ≤ℤ a
ltb_ℤ_false a b h = ground arith

-- What a reader is told of a live element: DURATION_INF if it never expires; else the time that is
-- left, raised to `min_duration`. So the answer is never below `min_duration`, and passes the time
-- that is really left only where it is `min_duration`. The machine's numbers hold the differences.
pub remaining_bounds :
    (least : ℤ) (item : CacheItem) (now : ℤ)
    → IsInt64 (now -ℤ item.modified)
    → IsInt64 (left_of item now)
    → ((item.duration ≡ duration_inf) × (remaining least item now ≡ duration_inf))
      ⊎ ((least ≤ℤ remaining least item now)
          × ((remaining least item now ≡ least)
              ⊎ (now +ℤ remaining least item now ≡ item.modified +ℤ item.duration)))
unfolding remaining
remaining_bounds least item now passed_fits left_fits =
    elim (Bool-cases (eq_ℤ item.duration duration_inf)) [
      | inl e ↦
          let forever : item.duration ≡ duration_inf =
            eq_of_parts item.duration duration_inf (ground arith) in
          inl (forever, rw e forever)
      | inr e ↦ elim (Bool-cases (ltb_ℤ (left_of item now) least)) [
        | inl s ↦
            rw
              (
                int64_in_range (now -ℤ item.modified) passed_fits,
                int64_in_range (left_of item now) left_fits,
                e,
                s,
              )
              (inr (omega arith, inl refl))
        | inr s ↦
            rw
              (
                int64_in_range (now -ℤ item.modified) passed_fits,
                int64_in_range (left_of item now) left_fits,
                e,
                s,
              )
              (inr (ltb_ℤ_false _ least s, inr (omega int_laws)))
      ]
    ]
