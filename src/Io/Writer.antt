-- ===== src/Io/Writer.antt =====
-- The trait `Write` of io/mod.rs as an interface: its methods on a state `W`, and what its
-- documentation promises of them.
use rust_libstd.Prelude.{ℕ, ◌≤◌, ◌<◌, ◌≡◌, List, ◌++◌, length, take}
use rust_libstd.Io.Error.{ErrorKind, interrupted, Call, ok, err}

abbrev pub Bytes : Type 0
Bytes = List ℕ

pub record Write (W : Type 0) : Type 0 where
  pub write : W → Bytes → Call ℕ × W
  pub flush : W → Call (Unit {0}) × W

-- `output` is what the writer has accepted so far. A call of `write` accepts the `n ≤ buf.len()`
-- first bytes that it reports, and none when it returns an error. `interrupts` bounds how often
-- the writer will still return `Interrupted`.
pub record WriteLaws {W : Type 0} (io : Write W) : Type 0 where
  pub output : W → Bytes
  pub interrupts : W → ℕ
  pub write_ok :
      (w : W) (buf : Bytes) (n : ℕ) (w' : W)
      → io.write w buf ≡ (ok n, w')
      → (n ≤ length buf) × (output w' ≡ output w ++ take n buf) × (interrupts w' ≤ interrupts w)
  pub write_err :
      (w : W) (buf : Bytes) (e : ErrorKind) (w' : W)
      → io.write w buf ≡ (err e, w')
      → (output w' ≡ output w)
        × (interrupts w' ≤ interrupts w)
        × (e ≡ interrupted → interrupts w' < interrupts w)
  pub flush_output : (w : W) → output (io.flush w).1 ≡ output w
