-- ===== src/Infra/Resources.antt =====
-- What lib/infra/thread_pool.c and the servers of lib/io_server.c and lib/ctrl_server.c take from the
-- system and give back.
use propd.Prelude.{ℕ}

-- Blocks of memory, sockets, names in the file system and threads.
pub record Holds : Type 0 where
  pub blocks : ℕ
  pub sockets : ℕ
  pub paths : ℕ
  pub threads : ℕ
