-- ===== src/Misc/Array/RoundTrip.antt =====
-- Parsing what was formatted, and the edges of both functions.
use propd.Prelude.{
  ℕ, zero, suc, ◌+◌, ◌<◌, ◌≡◌, ◌≢◌, refl, ap, sym, subst, ◌∙◌, Text, Bool, true, false, List, [],
  ◌∷◌, ◌++◌, All, some, ok, err, fault, enomem, length, length-append, leb, if◌then◌else◌, map,
  arith,
}
use mathlib.Core.List.{append_assoc, append-nil}
use propd.Misc.Array.{
  comma, commas, count_fields, cut, fields, arrayparse_cstring, arrayfmt_cstring, fmt_loop,
  arraydup_cstring, dup_first, with_number, onto_first, finish, drop_last,
}

length-onto_first : (c : ℕ) (ws : List Text) → 0 < length ws → length (onto_first c ws) ≡ length ws
unfolding onto_first
length-onto_first c [] h = absurd (omega arith)
length-onto_first c (w ∷ ws) h = refl

length-cut : (s : Text) → length (cut s) ≡ commas s + 1
unfolding cut commas
length-cut [] = refl
length-cut (c ∷ s) = ground (arith, length-cut s, length-onto_first c (cut s))

-- The array that `arrayparse_cstring` allocates has exactly a cell for each field.
length-fields : (s : Text) → length (fields s) ≡ count_fields s
unfolding fields count_fields
length-fields [] = refl
length-fields (c ∷ s) = length-cut (c ∷ s)

dup_first-map : (ts : List Text) → dup_first (length ts) (map some ts) ≡ ok ts
unfolding dup_first
dup_first-map [] = refl
dup_first-map (t ∷ ts) = rw (dup_first-map ts)

arraydup-exact :
    (n : ℕ) (ts : List Text)
    → length ts ≡ n
    → 0 < n
    → arraydup_cstring true (some (map some ts)) n ≡ ok ts
unfolding arraydup_cstring
arraydup-exact zero ts e h = absurd (omega arith)
arraydup-exact (suc n) ts e h = rw (← e) (dup_first-map ts)

arrayparse_no_memory : (s : Text) → arrayparse_cstring false s ≡ err enomem
unfolding arrayparse_cstring arraydup_cstring with_number
arrayparse_no_memory s = refl

count_fields_pos : (c : ℕ) (s : Text) → 0 < count_fields (c ∷ s)
unfolding count_fields
count_fields_pos c s = omega arith

-- `arrayparse_cstring` splits a nonempty text at its commas and reports how many fields there are;
-- with no memory it fails with ENOMEM.
pub arrayparse_cstring-fields :
    (granted : Bool) (s : Text)
    → s ≢ []
    → arrayparse_cstring granted s
      ≡ (if granted then ok (fields s, length (fields s)) else err enomem)
unfolding arrayparse_cstring with_number
arrayparse_cstring-fields granted [] h = absurd (h refl)
arrayparse_cstring-fields false (c ∷ s) h = arrayparse_no_memory (c ∷ s)
arrayparse_cstring-fields true (c ∷ s) h =
    ap (λ r. with_number r (count_fields (c ∷ s)))
      (arraydup-exact (count_fields (c ∷ s)) (fields (c ∷ s)) (length-fields (c ∷ s))
        (count_fields_pos c s))
    ∙ ap (λ n. ok (fields (c ∷ s), n)) (sym (length-fields (c ∷ s)))

-- The bug: of the empty text it makes an array of no cells, which `arraydup_cstring`, given the
-- number 0, searches for a NULL past its end.
pub arrayparse_cstring-empty : arrayparse_cstring true [] ≡ fault
unfolding arrayparse_cstring arraydup_cstring fields count_fields with_number
arrayparse_cstring-empty = refl

-- What the loop of `arrayfmt_cstring` prints, and the same without its last comma.
abbrev pub print_all : List Text → Text
print_all [] = []
print_all (t ∷ ts) = t ++ (comma ∷ print_all ts)

abbrev pub join : List Text → Text
join [] = []
join (t ∷ []) = t
join (t ∷ u ∷ ts) = t ++ (comma ∷ join (u ∷ ts))

abbrev pub NoComma : Text → Type 0
NoComma = All (λ c. c ≢ comma)

print_all-join : (t : Text) (ts : List Text) → print_all (t ∷ ts) ≡ join (t ∷ ts) ++ (comma ∷ [])
print_all-join t [] = refl
print_all-join t (u ∷ ts) =
    ap (λ s. t ++ (comma ∷ s)) (print_all-join u ts) ∙ sym (append_assoc t _ _)

drop_last-append : (s : Text) (c : ℕ) → drop_last (s ++ (c ∷ [])) ≡ s
unfolding drop_last
drop_last-append [] c = refl
drop_last-append (a ∷ []) c = refl
drop_last-append (a ∷ b ∷ s) c = ap (◌∷◌ a) (drop_last-append (b ∷ s) c)

finish-append : (s : Text) (c : ℕ) → finish (s ++ (c ∷ [])) ≡ ok s
unfolding finish
finish-append [] c = refl
finish-append (a ∷ s) c = ap ok (drop_last-append (a ∷ s) c)

step :
    (out t : Text) (ts : List Text)
    → (out ++ (t ++ (comma ∷ []))) ++ print_all ts ≡ out ++ (t ++ (comma ∷ print_all ts))
step out t ts = append_assoc out _ _ ∙ ap (out ++◌) (append_assoc t (comma ∷ []) (print_all ts))

lt→leb : (a b : ℕ) → b < a → leb a b ≡ false
lt→leb a b h = ground arith

lt_shorter : (s r : Text) (n : ℕ) → length (s ++ r) < n → length s < n
lt_shorter s r n h = grind (arith, length-append s r)

leb-room :
    (len : ℕ) (out t : Text) (ts : List Text)
    → length (out ++ (t ++ (comma ∷ print_all ts))) < len
    → leb len (length (out ++ (t ++ (comma ∷ [])))) ≡ false
leb-room len out t ts h = lt→leb _ _ (
    lt_shorter (out ++ (t ++ (comma ∷ []))) (print_all ts) len
      (subst (λ s. length s < len) (sym (step out t ts)) h))

fmt_loop-room :
    (len : ℕ) (out : Text) (ts : List Text)
    → length (out ++ print_all ts) < len
    → fmt_loop len out ts ≡ finish (out ++ print_all ts)
unfolding fmt_loop
fmt_loop-room len out [] h = ap finish (sym (append-nil out))
fmt_loop-room len out (t ∷ ts) h = rw (leb-room len out t ts h) (
    fmt_loop-room len (out ++ (t ++ (comma ∷ []))) ts
      (subst (λ s. length s < len) (sym (step out t ts)) h)
    ∙ ap finish (step out t ts))

cut-word : (t : Text) → NoComma t → cut t ≡ t ∷ []
unfolding cut
cut-word [] h = refl
cut-word (c ∷ t) h = ground (arith, cut-word t h.1)

cut-append : (t s : Text) → NoComma t → cut (t ++ (comma ∷ s)) ≡ t ∷ cut s
unfolding cut
cut-append [] s h = refl
cut-append (c ∷ t) s h = ground (arith, cut-append t s h.1)

cut-join : (t : Text) (ts : List Text) → All NoComma (t ∷ ts) → cut (join (t ∷ ts)) ≡ t ∷ ts
cut-join t [] h = cut-word t h.0
cut-join t (u ∷ ts) h = cut-append t (join (u ∷ ts)) h.0 ∙ ap (◌∷◌ t) (cut-join u ts h.1)

fields-cut : (s : Text) → s ≢ [] → fields s ≡ cut s
unfolding fields
fields-cut [] h = absurd (h refl)
fields-cut (c ∷ s) h = refl

fields-join :
    (t : Text) (ts : List Text)
    → All NoComma (t ∷ ts)
    → join (t ∷ ts) ≢ []
    → fields (join (t ∷ ts)) ≡ t ∷ ts
fields-join t ts words h = fields-cut (join (t ∷ ts)) h ∙ cut-join t ts words

arrayfmt-join :
    (len : ℕ) (t : Text) (ts : List Text)
    → length (print_all (t ∷ ts)) < len
    → 3 < len
    → arrayfmt_cstring len (t ∷ ts) ≡ ok (join (t ∷ ts))
unfolding arrayfmt_cstring
arrayfmt-join len t ts room large = rw (lt→leb len 3 large) (
    fmt_loop-room len [] (t ∷ ts) room
    ∙ ap finish (print_all-join t ts)
    ∙ finish-append (join (t ∷ ts)) comma)

-- A list of texts without commas that fits the buffer of `arrayfmt_cstring` is printed with a comma
-- between each two, and `arrayparse_cstring`, with memory, reads the same list back with its length.
pub arrayparse-arrayfmt :
    (len : ℕ) (t : Text) (ts : List Text)
    → All NoComma (t ∷ ts)
    → join (t ∷ ts) ≢ []
    → length (print_all (t ∷ ts)) < len
    → 3 < len
    → (arrayfmt_cstring len (t ∷ ts) ≡ ok (join (t ∷ ts)))
      × (arrayparse_cstring true (join (t ∷ ts)) ≡ ok (t ∷ ts, length (t ∷ ts)))
arrayparse-arrayfmt len t ts words nonempty room large = (
  arrayfmt-join len t ts room large,
  arrayparse_cstring-fields true (join (t ∷ ts)) nonempty
      ∙ ap (λ ws. ok (ws, length ws)) (fields-join t ts words nonempty),
)
