-- ===== src/Io/LineWriter.antt =====
-- io/buffered.rs: `LineWriter`, over a `BufWriter`. `memrchr` of the platform's C library is an
-- argument: the last index of a byte, so an index within the bytes, or none. Fuel is that of the
-- `BufWriter`.
pub mod Lines
use mathlib.Core.Option
use rust_libstd.Prelude.{
  ℕ, ◌+◌, Bool, true, false, leb, length, ◌==◌, if◌then◌else◌, Option, none, some, take, drop,
}
use rust_libstd.Io.Error.{Call, ok, err, panic}
use rust_libstd.Io.Writer.{Bytes, Write}
use rust_libstd.Io.BufWriter
use rust_libstd.Io.BufWriter.{BufWriter}

pub record LineWriter (W : Type 0) : Type 0 where
  pub inner : BufWriter W
  pub need_flush : Bool

abbrev pub LineRan : Type 0 → Type 0 → Type 0
LineRan W A = Option (Call A × LineWriter W)

unfoldable pub with_capacity : {W : Type 0} → ℕ → W → LineWriter W
with_capacity cap inner = record { inner = BufWriter.with_capacity cap inner; need_flush = false }

module _ {W : Type 0} (io : Write W) (memrchr : ℕ → Bytes → Option ℕ) where
  abbrev pub flush_done :
      LineWriter W → Call (Unit {0}) × BufWriter W → Call (Unit {0}) × LineWriter W
  flush_done self (ok u, b) = (ok u, record { inner = b; need_flush = false })
  flush_done self (err e, b) = (err e, record self { inner = b })
  flush_done self (panic, b) = (panic, record self { inner = b })

  unfoldable pub flush : ℕ → LineWriter W → LineRan W (Unit {0})
  flush fuel self = Option.map (flush_done self) (BufWriter.flush io fuel self.inner)

  abbrev pub wrapped : LineWriter W → Call ℕ × BufWriter W → Call ℕ × LineWriter W
  wrapped self (ret, b) = (ret, record self { inner = b })

  -- The write behind the newline: an error is dropped, since `n` bytes are written.
  abbrev pub rest_done : LineWriter W → ℕ → Call ℕ × BufWriter W → Call ℕ × LineWriter W
  rest_done self n (ok i, b) = (ok (n + i), record self { inner = b })
  rest_done self n (err e, b) = (ok n, record self { inner = b })
  rest_done self n (panic, b) = (panic, record self { inner = b })

  abbrev pub on_flush : ℕ → Bytes → ℕ → ℕ → LineRan W (Unit {0}) → LineRan W ℕ
  on_flush fuel buf i n none = none
  on_flush fuel buf i n (some (ok u, s)) =
      let rest = Option.map (rest_done s n) (BufWriter.write io fuel s.inner (drop (i + 1) buf)) in
      if n == i + 1 then rest else some (ok n, s)
  on_flush fuel buf i n (some (err e, s)) = some (ok n, s)
  on_flush fuel buf i n (some (panic, s)) = some (panic, s)

  abbrev pub on_line : ℕ → LineWriter W → Bytes → ℕ → Option (Call ℕ × BufWriter W) → LineRan W ℕ
  on_line fuel self buf i none = none
  on_line fuel self buf i (some (ok n, b)) =
      on_flush fuel buf i n (flush fuel (record { inner = b; need_flush = true }))
  on_line fuel self buf i (some (err e, b)) = some (err e, record self { inner = b })
  on_line fuel self buf i (some (panic, b)) = some (panic, record self { inner = b })

  -- `&buf[..i + 1]` panics beyond the end.
  abbrev pub write_found : ℕ → LineWriter W → Bytes → Option ℕ → LineRan W ℕ
  write_found fuel self buf none =
      Option.map (wrapped self) (BufWriter.write io fuel self.inner buf)
  write_found fuel self buf (some i) =
      let line = on_line fuel self buf i (BufWriter.write io fuel self.inner (take (i + 1) buf)) in
      if leb (i + 1) (length buf) then line else some (panic, self)

  abbrev pub then_write : ℕ → Bytes → LineRan W (Unit {0}) → LineRan W ℕ
  then_write fuel buf none = none
  then_write fuel buf (some (ok u, s)) = write_found fuel s buf (memrchr b'\n' buf)
  then_write fuel buf (some (err e, s)) = some (err e, s)
  then_write fuel buf (some (panic, s)) = some (panic, s)

  unfoldable pub write : ℕ → LineWriter W → Bytes → LineRan W ℕ
  write fuel self buf =
      let flushed = flush fuel self in
      then_write fuel buf (if self.need_flush then flushed else some (ok tt, self))
