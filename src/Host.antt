-- ===== src/Host.antt =====
-- The operating system as the program reads it: a snapshot that stays the same while a request is
-- served. It is a parameter of the model.
use host_scanner.Prelude.{ℕ, Bool, Option, List}
use host_scanner.Prelude.Bytes.{Bytes}
use host_scanner.GoError.{GoError, Result}

-- `os.FileInfo`: `Mode().Perm()`, `IsDir()`, `Mode().IsRegular()`, and the owner's uid and gid
-- where `Sys()` is a `*syscall.Stat_t`.
pub record Stat : Type 0 where
  pub perm : ℕ
  pub is_dir : Bool
  pub is_regular : Bool
  pub owner : Option (ℕ × ℕ)

-- An open file: what `Readdirnames(100)` gives call by call and the error of the call after that,
-- the bytes that reads give and the error behind them, and the result of `Stat`.
pub record File : Type 0 where
  pub batches : List (List Bytes)
  pub batches_end : GoError
  pub content : Bytes
  pub content_end : GoError
  pub info : Result Stat

pub record Host : Type 0 where
  -- `os.Open`
  pub open_file : Bytes → Result File
  -- `os.Stat`
  pub stat : Bytes → Result Stat
  -- `os.ReadFile`
  pub read_file : Bytes → Result Bytes
  -- the names that `os.ReadDir` gives
  pub read_dir : Bytes → Result (List Bytes)
