-- ===== src/Tests/TextTests.antt =====
-- The theorems of Misc and of the file storage's format on short texts.
use propd.Prelude.{
  Text, some, false, ℕ, ◌≡◌, ◌≢◌, ◌<◌, ◌↔◌, refl, codes, true, List, [], ◌∷◌, none, ok, done, pos,
  length, arith,
}
use propd.Misc.Prefix.{prefix_match, Matches, prefix_match-Matches}
use propd.Misc.Hex.{hexmem, hex2mem}
use propd.Misc.Hex.RoundTrip.{hex2mem-hexmem}
use propd.Misc.Array.{arrayparse_cstring, arrayfmt_cstring}
use propd.Misc.Array.RoundTrip.{join, arrayparse-arrayfmt}
use propd.Infra.Tree.{TreeOps}
use propd.Infra.Tree.Entries.{entries}
use propd.Builtin.File.{file_get, file_set}
use propd.Builtin.File.Format.{encode}
use propd.Builtin.File.Laws.{file_get-file_set}
use propd.Tests.Data.{dev_key, on, on-IsValue}

prefix_match-Matches_example :
    (prefix_match (codes "dev.*") dev_key ≡ true) ↔ Matches (codes "dev.*") dev_key
prefix_match-Matches_example = prefix_match-Matches (codes "dev.*") dev_key

abbrev two_bytes : List ℕ
two_bytes = 0x1f ∷ 0xa0 ∷ []

hex2mem-hexmem_example :
    (text : Text) × (hexmem 16 two_bytes true ≡ ok text)
    × (hex2mem 2 text ≡ some two_bytes)
    × (hex2mem 2 (b'0' ∷ b'x' ∷ text) ≡ some two_bytes)
hex2mem-hexmem_example =
    hex2mem-hexmem 16 2 two_bytes true (omega arith, (omega arith, tt)) (omega arith) (omega arith)

not_comma : (c : ℕ) → c < 44 → c ≢ 44
not_comma c h = omega arith

arrayparse-arrayfmt_example :
    (arrayfmt_cstring 16 (codes "!" ∷ codes "#" ∷ []) ≡ ok (join (codes "!" ∷ codes "#" ∷ [])))
    × (arrayparse_cstring true (join (codes "!" ∷ codes "#" ∷ []))
        ≡ ok (codes "!" ∷ codes "#" ∷ [], 2))
arrayparse-arrayfmt_example =
    arrayparse-arrayfmt 16 (codes "!") (codes "#" ∷ [])
      ((not_comma 33 (omega arith), tt), ((not_comma 35 (omega arith), tt), tt))
      (λ e. ground (arith, e)) (omega arith) (omega arith)

abbrev files : TreeOps (List ℕ)
files = entries (List ℕ)

encoded : length (encode on) ≡ 9
unfolding encode
encoded = refl

file_get-file_set_example :
    ((file_set files none false 100 (codes "/var") [] dev_key on).0 ≡ done)
    × ((file_get files true
          (codes "/var")
          (file_set files none false 100 (codes "/var") [] dev_key on).1
          dev_key).0
        ≡ ok (on, pos 0))
file_get-file_set_example =
    file_get-file_set files false 100 (codes "/var") [] dev_key on on-IsValue tt (omega arith)
      (omega arith) (omega (arith, encoded))
