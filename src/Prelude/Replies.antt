-- ===== src/Prelude/Replies.antt =====
-- What a C function that returns `int errno` yields: 0 with what it wrote through its out
-- parameters, a nonzero code, or no return at all.
use mathlib.Core.Bool.{Bool, true, false}
use propd.Prelude.Integers.{ℤ}

pub data Errno : Type 0 where
  enoent enxio eio enomem ebusy eexist einval eopnotsupp : Errno
  other : ℤ → Errno

-- `fault` is a failed assertion or a call or a read through a NULL pointer.
pub data Reply {ℓ} (A : Type ℓ) : Type ℓ where
  ok : A → Reply A
  err : Errno → Reply A
  fault : Reply A

abbrev pub Done : Type 0
Done = Reply (Unit {0})

abbrev pub done : Done
done = ok tt

abbrev pub is_enoent {ℓ} : {A : Type ℓ} → Reply A → Bool
is_enoent (err enoent) = true
is_enoent _ = false

abbrev pub is_ok {ℓ} : {A : Type ℓ} → Reply A → Bool
is_ok (ok a) = true
is_ok _ = false
