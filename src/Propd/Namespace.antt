-- ===== src/Propd/Namespace.antt =====
-- lib/global.c and lib/global.h: the directory of the sockets, and the paths that the servers of
-- lib/io_server.c and lib/ctrl_server.c bind and their clients connect to.
use propd.Prelude.{
  ℕ, ◌-◌, ◌≡◌, ◌≢◌, ◌<◌, refl, ap, sym, ◌∙◌, ◌↔◌, length-append, Text, codes, [], ◌∷◌, ◌++◌, Option,
  none, some, length, take, take-length_le, arith,
}
use mathlib.Core.List.{append_cancel_left, append_cancel_right}

abbrev pub default_at : Text
default_at = codes "/tmp"

-- `__propd_env_parse`, on the result of `getenv`.
unfoldable pub propd_env_parse : Option Text → Text
propd_env_parse none = default_at
propd_env_parse (some []) = default_at
propd_env_parse (some (c ∷ s)) = c ∷ s

-- What `__propd_run` makes of `namespace` in the configuration, whatever the directory was.
unfoldable pub run_at : Option Text → Text → Text
run_at none at = default_at
run_at (some namespace) at = namespace

-- The size of `sun_path`.
abbrev pub sun_path_size : ℕ
sun_path_size = 108

-- `snprintf` into a buffer of that size, of a text that is formatted.
unfoldable pub snprintf : ℕ → Text → Text
snprintf size s = take (size - 1) s

abbrev pub formatted : Text → Text → Text → Text
formatted at name suffix = at ++ (codes "/propd." ++ (name ++ suffix))

-- `PathFmt_IOServer` and `PathFmt_CtrlServer`.
unfoldable pub io_path : Text → Text → Text
unfolding snprintf
io_path at name = snprintf sun_path_size (formatted at name (codes ".io"))

unfoldable pub ctrl_path : Text → Text → Text
unfolding snprintf
ctrl_path at name = snprintf sun_path_size (formatted at name (codes ".ctrl"))

-- The room for the longer path.
abbrev pub Fits : Text → Text → Type 0
Fits at name = length (formatted at name (codes ".ctrl")) < sun_path_size

last : Text → ℕ → ℕ
last [] d = d
last (c ∷ s) d = last s c

last-append : (s t : Text) (d : ℕ) → last (s ++ t) d ≡ last t (last s d)
unfolding last
last-append [] t d = refl
last-append (c ∷ s) t d = last-append s t c

io_path-Fits : (at name : Text) → Fits at name → io_path at name ≡ formatted at name (codes ".io")
unfolding io_path snprintf
io_path-Fits at name h = take-length_le 107 (formatted at name (codes ".io")) (
    omega (
      arith,
      h,
      length-append at (codes "/propd." ++ (name ++ codes ".io")),
      length-append at (codes "/propd." ++ (name ++ codes ".ctrl")),
      length-append name (codes ".io"),
      length-append name (codes ".ctrl"),
    ))

ctrl_path-Fits :
    (at name : Text) → Fits at name → ctrl_path at name ≡ formatted at name (codes ".ctrl")
unfolding ctrl_path snprintf
ctrl_path-Fits at name h = take-length_le 107 (formatted at name (codes ".ctrl")) (omega (arith, h))

formatted_name : (at n m suffix : Text) → formatted at n suffix ≡ formatted at m suffix → n ≡ m
formatted_name at n m suffix e =
    append_cancel_right n m suffix (
      append_cancel_left (codes "/propd.") (n ++ suffix) (m ++ suffix)
        (append_cancel_left at _ _ e))

last-formatted :
    (at name suffix : Text) (d : ℕ)
    → last (formatted at name suffix) d
      ≡ last suffix (last name (last (codes "/propd.") (last at d)))
unfolding last
last-formatted at name suffix d =
    last-append at (codes "/propd." ++ (name ++ suffix)) d ∙ last-append name suffix 46

ends_differ : (c d : ℕ) → last (codes ".io") c ≢ last (codes ".ctrl") d
unfolding last
ends_differ c d e = ground (arith, e)

-- In one directory, servers whose paths fit into the address of a socket share no path: the paths for
-- requests are equal only for one name, those for control packages likewise, and no path is of both
-- kinds.
pub io_path-ctrl_path :
    (at n m : Text)
    → Fits at n
    → Fits at m
    → ((io_path at n ≡ io_path at m) ↔ (n ≡ m))
      × ((ctrl_path at n ≡ ctrl_path at m) ↔ (n ≡ m))
      × (io_path at n ≢ ctrl_path at m)
io_path-ctrl_path at n m fits_n fits_m = (
  (
    λ e.
        formatted_name at n m (codes ".io")
          (sym (io_path-Fits at n fits_n) ∙ e ∙ io_path-Fits at m fits_m),
    λ e. ap (io_path at) e,
  ),
  (
    λ e.
        formatted_name at n m (codes ".ctrl")
          (sym (ctrl_path-Fits at n fits_n) ∙ e ∙ ctrl_path-Fits at m fits_m),
    λ e. ap (ctrl_path at) e,
  ),
  λ e. ends_differ _ _ (
      sym (last-formatted at n (codes ".io") 0)
      ∙ ap (λ s. last s 0) (sym (io_path-Fits at n fits_n) ∙ e ∙ ctrl_path-Fits at m fits_m)
      ∙ last-formatted at m (codes ".ctrl") 0),
)
