-- ===== src/Prelude/Strings.antt =====
-- A C string as the list of its bytes before the terminating NUL, and `strcmp(a, b) == 0` on two.
use Prim.Native.Nat.{ℕ, zero, suc, ◌<◌}
use Prim.Native.Char.{code}
use Prim.Native.String.{String}
use mathlib.Core.Path.{◌≡◌, refl, ap}
use mathlib.Core.Option.{Option, none, some}
use mathlib.Core.Logic.{◌≢◌, ◌↔◌}
use mathlib.Core.Bool.{Bool, true, false}
use mathlib.Core.List.{List, [], ◌∷◌, ◌++◌}
use native.Mathlib.Omega.{arith}
use propd.Prelude.Tests.{◌==◌, if◌then◌else◌}
use propd.Prelude.Lists.{All, length, drop}

abbrev pub Text : Type 0
Text = List ℕ

-- The bytes of an ASCII literal.
abbrev pub codes : String → Text
codes String.[] = []
codes (String.◌∷◌ c s) = code c ∷ codes s

-- No byte of the content is NUL.
abbrev pub IsCString : Text → Type 0
IsCString = All (λ c. c ≢ 0)

unfoldable pub text_eq : Text → Text → Bool
text_eq [] [] = true
text_eq [] (b ∷ t) = false
text_eq (a ∷ s) [] = false
text_eq (a ∷ s) (b ∷ t) = if a == b then text_eq s t else false

pub text_eq_refl : (s : Text) → text_eq s s ≡ true
unfolding text_eq
text_eq_refl [] = refl
text_eq_refl (a ∷ s) = ground (arith, text_eq_refl s)

pub eq_of_text_eq : (s t : Text) → text_eq s t ≡ true → s ≡ t
unfolding text_eq
eq_of_text_eq [] [] h = refl
eq_of_text_eq [] (b ∷ t) h = cc
eq_of_text_eq (a ∷ s) [] h = cc
eq_of_text_eq (a ∷ s) (b ∷ t) h = ground (arith, eq_of_text_eq s t)

pub text_eq_iff : (s t : Text) → (text_eq s t ≡ true) ↔ (s ≡ t)
text_eq_iff s t = (eq_of_text_eq s t, λ e. rw e (text_eq_refl t))

pub text_eq_comm : (s t : Text) → text_eq s t ≡ text_eq t s
text_eq_comm s t = ground (arith, text_eq_iff s t, text_eq_iff t s)

-- The bytes of a C string before its NUL, as a reader of the bytes finds them; `none` where the
-- bytes end before a NUL.
unfoldable pub before_nul : List ℕ → Option Text
before_nul [] = none
before_nul (c ∷ s) =
    let rest = before_nul s in
    if c == 0 then some [] else elim rest [ none ↦ none | some t ↦ some (c ∷ t) ]

pub before_nul-IsCString :
    (s : Text) (rest : List ℕ) → IsCString s → before_nul (s ++ (0 ∷ rest)) ≡ some s
unfolding before_nul
before_nul-IsCString [] rest h = refl
before_nul-IsCString (c ∷ s) rest h = ground (arith, before_nul-IsCString s rest h.1)

-- `strncpy` into `n` bytes: what is left is filled with NULs, and a longer string is cut without
-- one.
unfoldable pub strncpy : ℕ → Text → List ℕ
strncpy zero s = []
strncpy (suc n) [] = 0 ∷ strncpy n []
strncpy (suc n) (c ∷ s) = c ∷ strncpy n s

pub length-strncpy : (n : ℕ) (s : Text) → length (strncpy n s) ≡ n
unfolding strncpy
length-strncpy zero s = refl
length-strncpy (suc n) [] = ap suc (length-strncpy n [])
length-strncpy (suc n) (c ∷ s) = ap suc (length-strncpy n s)

-- A string that leaves room for its NUL is read back.
pub before_nul-strncpy :
    (n : ℕ) (s : Text) (rest : List ℕ)
    → IsCString s
    → length s < n
    → before_nul (strncpy n s ++ rest) ≡ some s
unfolding before_nul strncpy
before_nul-strncpy zero s rest h fits = absurd (omega arith)
before_nul-strncpy (suc n) [] rest h fits = refl
before_nul-strncpy (suc n) (c ∷ s) rest h fits =
    ground (arith, before_nul-strncpy n s rest h.1 (omega arith))

pub drop-strncpy : (n : ℕ) (s : Text) (rest : List ℕ) → drop n (strncpy n s ++ rest) ≡ rest
unfolding strncpy
drop-strncpy zero s rest = refl
drop-strncpy (suc n) [] rest = drop-strncpy n [] rest
drop-strncpy (suc n) (c ∷ s) rest = drop-strncpy n s rest
