-- ===== src/Io/Error.antt =====
-- io/error.rs: the kinds of errors, and what a call of a method that returns an `io::Result` does.
-- An `Error` stands for its kind: no branch of the modelled code looks at the payload.
use mathlib.Core.Path.{◌≡◌, refl}
use mathlib.Core.Bool.{Bool, true, false}

pub data ErrorKind : Type 0 where
  not_found permission_denied connection_refused connection_reset connection_aborted : ErrorKind
  not_connected addr_in_use addr_not_available broken_pipe already_exists would_block : ErrorKind
  invalid_input invalid_data timed_out write_zero interrupted other unexpected_eof : ErrorKind

-- `Ok(a)`, `Err(e)` with `e.kind()`, or a panic that unwinds through the caller.
pub data Call (A : Type 0) : Type 0 where
  ok : A → Call A
  err : ErrorKind → Call A
  panic : Call A

abbrev pub is_interrupted : ErrorKind → Bool
is_interrupted interrupted = true
is_interrupted _ = false

pub is_interrupted_eq : (e : ErrorKind) → is_interrupted e ≡ true → e ≡ interrupted
is_interrupted_eq interrupted h = refl
is_interrupted_eq _ h = cc
