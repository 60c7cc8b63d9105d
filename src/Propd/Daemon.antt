-- ===== src/Propd/Daemon.antt =====
-- `propd_run` of lib/propd.c: the processes of a daemon and the pipe between them.
use propd.Prelude.{
  Bool, true, false, List, [], ◌∷◌, ℤ, pos, negsuc, eq_ℤ, ◌≡◌, refl, if◌then◌else◌, arith, Option,
  none, some,
}

-- What `__propd_run` writes into the pipe: 0 before it waits for the signal, or else its result twice,
-- the second time when everything is stopped.
unfoldable pub sync_writes : ℤ → List ℤ
sync_writes ret = if eq_ℤ ret (pos 0) then pos 0 ∷ [] else ret ∷ ret ∷ []

-- `read` of a number into `ret`; at the end of the pipe it changes nothing.
unfoldable pub read_into : ℤ → List ℤ → ℤ
read_into ret [] = ret
read_into ret (r ∷ rs) = r

abbrev behind : List ℤ → List ℤ
behind [] = []
behind (r ∷ rs) = rs

-- The first process: one number, and a second one if the first is an error.
unfoldable pub await : List ℤ → ℤ
unfolding read_into
await written =
    let ret = read_into (pos 0) written in
    if eq_ℤ ret (pos 0) then ret else read_into ret (behind written)

-- Whether `pipe` and the two `fork`s succeed, and the error of the second.
pub record DaemonEnv : Type 0 where
  pub pipe : Bool
  pub first_fork : Bool
  pub second_fork : Option ℤ

-- The result of `propd_run` in the process that called it, for the result of `__propd_run`. The
-- second process ends with 0 or, where its `fork` fails, with -1 after it wrote the error twice.
unfoldable pub propd_run : Bool → DaemonEnv → ℤ → ℤ
unfolding await sync_writes
propd_run daemon env ret =
    if daemon
    then (if env.pipe
        then (if env.first_fork
            then await (elim env.second_fork [ some e ↦ e ∷ e ∷ [] | none ↦ sync_writes ret ])
            else negsuc 0)
        else negsuc 0)
    else ret

abbrev pub expected : Bool → DaemonEnv → ℤ → ℤ
expected false env ret = ret
expected true env ret =
    if env.pipe
    then (if env.first_fork then elim env.second_fork [ some e ↦ e | none ↦ ret ] else negsuc 0)
    else negsuc 0

-- The caller of `propd_run` gets the result of `__propd_run`, in the foreground and, through the pipe,
-- as a daemon, unless the pipe, the first process or the second cannot be made; then it gets -1, -1
-- or the error of the second `fork`.
pub propd_run-result :
    (daemon : Bool) (env : DaemonEnv) (ret : ℤ) → propd_run daemon env ret ≡ expected daemon env ret
unfolding propd_run await sync_writes read_into
propd_run-result false env ret = refl
propd_run-result true env ret = ground (arith, eq_zero ret)
  where
    eq_zero : (z : ℤ) → (eq_ℤ z (pos 0) ≡ true) → z ≡ pos 0
    eq_zero z h = ground arith
