-- ===== src/IoServer/Sending.antt =====
-- `worker` of lib/io_server.c on a connection whose client goes away: from then on every `send` fails.
use propd.Prelude.{
  ℕ, suc, ◌-◌, ◌≡◌, refl, sym, true, List, [], ◌∷◌, ◌++◌, none, some, Done, done, err, fault, eio,
  length, take, leb, if◌then◌else◌, take-append, length-append, ap, ◌≤◌, ◌<◌, ◌⊎◌, leb→le, arith,
  Bool-cases, Option-cases, inl, inr,
}
use mathlib.Core.List.{append-nil}
use propd.Infra.Tree.{TreeOps}
use propd.Infra.NamedMutex.{Nmtx}
use propd.Cache.{CacheItem}
use propd.Io.{Env, State}
use propd.IoServer.{Message, serve, then_rest, worker}

module _ {W : Type 0} (C : TreeOps CacheItem) (N : TreeOps Nmtx) where
  -- A round with what follows it. The first `send` that fails in `get`, and then that of the result,
  -- end the loop with EIO; a round that sends nothing crashed.
  unfoldable pub sent_or_gone :
      ℕ
      → List Message × State W C N
      → Done × List Message × State W C N
      → Done × List Message × State W C N
  sent_or_gone k ([], s) rest = (fault, [], s)
  sent_or_gone k (m ∷ ms, s) rest =
      if leb (length (m ∷ ms)) k
      then (rest.0, (m ∷ ms) ++ rest.1, rest.2)
      else (err eio, take k (m ∷ ms), s)

  -- The `for` in `worker` with its result, for a client that takes `k` entries of the stream before it
  -- goes away.
  unfoldable pub worker_to :
      ℕ → List Env → State W C N → List Message → Done × List Message × State W C N
  unfolding sent_or_gone serve
  worker_to k [] s stream = (done, [], s)
  worker_to k (env ∷ envs) s stream = elim (serve C N true env s stream) [
    | none ↦ (done, [], s)
    | some (sent, s', rest) ↦ sent_or_gone k (sent, s') (worker_to (k - length sent) envs s' rest)
  ]

  -- The client took everything, and the server ended as on a whole connection.
  abbrev pub Whole : ℕ → List Env → State W C N → List Message → Type 0
  Whole k envs s stream =
      (length (worker C N envs s stream).0 ≤ k)
      × (((worker_to k envs s stream).0 ≡ done) ⊎ ((worker_to k envs s stream).0 ≡ fault))
      × ((worker_to k envs s stream).1 ≡ (worker C N envs s stream).0)
      × ((worker_to k envs s stream).2 ≡ (worker C N envs s stream).1)

  -- The client took all of the first rounds and not all of the one behind them, whose number `j` is
  -- given; the server has done that round and no further one, and ended with EIO.
  abbrev pub CutAt : ℕ → List Env → State W C N → List Message → ℕ → Type 0
  CutAt k envs s stream j =
      (length (worker C N (take j envs) s stream).0 ≤ k)
      × (k < length (worker C N (take (suc j) envs) s stream).0)
      × ((worker_to k envs s stream).0 ≡ err eio)
      × ((worker_to k envs s stream).1 ≡ take k (worker C N (take (suc j) envs) s stream).0)
      × ((worker_to k envs s stream).2 ≡ (worker C N (take (suc j) envs) s stream).1)

  -- A round that was sent whole, before what is said of the others.
  round_sent :
      (k : ℕ) (env : Env) (envs : List Env) (s : State W C N) (stream : List Message) (m : Message)
      (ms : List Message) (s' : State W C N) (rest : List Message)
      → serve C N true env s stream ≡ some (m ∷ ms, s', rest)
      → leb (length (m ∷ ms)) k ≡ true
      → Whole (k - length (m ∷ ms)) envs s' rest
        ⊎ ((j : ℕ) × CutAt (k - length (m ∷ ms)) envs s' rest j)
      → Whole k (env ∷ envs) s stream ⊎ ((j : ℕ) × CutAt k (env ∷ envs) s stream j)
  unfolding worker_to worker sent_or_gone then_rest
  round_sent k env envs s stream m ms s' rest e room (inl (all, ended, same, did)) = inl (
    rw (e, worker, worker_to)
        (omega (arith, all, leb→le _ _ room, length-append ms (worker C N envs s' rest).0)),
    rw (e, room, worker, worker_to) ended,
    rw (e, room, worker, worker_to, same) refl,
    rw (e, room, worker, worker_to, did) refl,
  )
  round_sent k env envs s stream m ms s' rest e room (inr (j, (before, behind, ended, same, did))) =
      inr (
        suc j,
        (
          rw (e, worker, worker_to)
              (omega (
                arith,
                before,
                leb→le _ _ room,
                length-append ms (worker C N (take j envs) s' rest).0,
              )),
          rw (e, worker, worker_to)
              (omega (
                arith,
                behind,
                leb→le _ _ room,
                length-append ms (worker C N (take (suc j) envs) s' rest).0,
              )),
          rw (e, room, worker, worker_to) ended,
          rw (e, room, worker, worker_to, same) (sym (take-append k (m ∷ ms) _ (leb→le _ _ room))),
          rw (e, room, worker, worker_to, did) refl,
        ),
      )

  -- Where the client of a connection goes away after it took `k` entries of the answers: if these are
  -- all that there are, the server ends as on a whole connection. Else the server has served, as on a
  -- whole connection, the rounds up to the first whose answer the client did not take whole, and
  -- none behind it, and its result is EIO; the client took the first `k` entries of their answers.
  pub worker_to-worker :
      (k : ℕ) (envs : List Env) (s : State W C N) (stream : List Message)
      → Whole k envs s stream ⊎ ((j : ℕ) × CutAt k envs s stream j)
  unfolding worker_to worker sent_or_gone then_rest
  worker_to-worker k [] s stream = inl (omega arith, inl refl, refl, refl)
  worker_to-worker k (env ∷ envs) s stream = elim (Option-cases (serve C N true env s stream)) [
    | inl e ↦ inl (
      rw (e, worker) (omega arith),
      inl (rw (e, worker_to) refl),
      rw (e, worker, worker_to) refl,
      rw (e, worker, worker_to) refl,
    )
    | inr (([], s', rest), e) ↦ inl (
      rw (e, worker) (omega arith),
      inr (rw (e, worker_to) refl),
      rw (e, worker, worker_to) refl,
      rw (e, worker, worker_to) refl,
    )
    | inr ((m ∷ ms, s', rest), e) ↦ elim (Bool-cases (leb (length (m ∷ ms)) k)) [
      | inl room ↦
          round_sent k env envs s stream m ms s' rest e room
            (worker_to-worker (k - length (m ∷ ms)) envs s' rest)
      | inr over ↦ inr (
        0,
        (
          omega arith,
          rw (e, worker) (ground (arith, over, length-append ms (worker C N [] s' rest).0)),
          rw (e, over, worker_to) refl,
          rw (e, over, worker, worker_to) (ap (λ ns. take k (m ∷ ns)) (sym (append-nil ms))),
          rw (e, over, worker, worker_to) refl,
        ),
      )
    ]
  ]
