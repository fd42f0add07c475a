-- ===== src/Io/BufWriter.antt =====
-- io/buffered.rs: `BufWriter`, over any inner writer. The loop of `flush_buf` retries a write that
-- was interrupted, so it runs on fuel; `none` means that the fuel ran out.
pub mod Calls
pub mod Stream
pub mod Leave
pub mod Emptied
pub mod Ends
use mathlib.Core.Option
use rust_libstd.Prelude.{
  ℕ, zero, suc, ◌+◌, Bool, true, false, not, ◌&&◌, ltb, leb, ◌==◌, if◌then◌else◌, Option, none,
  some, [], ◌++◌, length, drop,
}
use rust_libstd.Io.Error.{ErrorKind, write_zero, Call, ok, err, panic, is_interrupted}
use rust_libstd.Io.Writer.{Bytes, Write}

-- `inner` is the writer inside the `Some`: only `into_inner` takes it out, and consumes `self`.
-- `capacity` is that of the vector `buf`.
pub record BufWriter (W : Type 0) : Type 0 where
  pub inner : W
  pub buf : Bytes
  pub capacity : ℕ
  pub panicked : Bool

unfoldable pub with_capacity : {W : Type 0} → ℕ → W → BufWriter W
with_capacity cap inner = record { inner = inner; buf = []; capacity = cap; panicked = false }

-- How the loop of `flush_buf` is left: its result, the writer, `written` and `panicked`.
pub record Flushed (W : Type 0) : Type 0 where
  pub ret : Call (Unit {0})
  pub inner : W
  pub written : ℕ
  pub panicked : Bool

-- A call on a `BufWriter`: its result and the object after it, or `none` without fuel.
abbrev pub Ran : Type 0 → Type 0 → Type 0
Ran W A = Option (Call A × BufWriter W)

-- `?` and `and_then`: go on after a success, and pass an error or a panic on.
abbrev pub and_then : {W A : Type 0} → (BufWriter W → Ran W A) → Ran W (Unit {0}) → Ran W A
and_then next none = none
and_then next (some (ok _, s)) = next s
and_then next (some (err e, s)) = some (err e, s)
and_then next (some (panic, s)) = some (panic, s)

module _ {W : Type 0} (io : Write W) where
  -- One round, on the result of `inner.write(&self.buf[written..])`.
  abbrev pub flush_round : (W → ℕ → Option (Flushed W)) → ℕ → Call ℕ × W → Option (Flushed W)
  flush_round again written (ok zero, w) =
      some (record { ret = err write_zero; inner = w; written = written; panicked = false })
  flush_round again written (ok (suc n), w) = again w (written + suc n)
  flush_round again written (err e, w) =
      if is_interrupted e
      then again w written
      else some (record { ret = err e; inner = w; written = written; panicked = false })
  flush_round again written (panic, w) =
      some (record { ret = panic; inner = w; written = written; panicked = true })

  unfoldable pub flush_loop : ℕ → Bytes → Bool → W → ℕ → Option (Flushed W)
  flush_loop zero buf panicked w written = none
  flush_loop (suc fuel) buf panicked w written =
      let round = flush_round (flush_loop fuel buf false) written (io.write w (drop written buf)) in
      if ltb written (length buf)
      then round
      else some (record { ret = ok tt; inner = w; written = written; panicked = panicked })

  -- After the loop the bytes that were written leave the buffer; `drain` panics if there are not
  -- so many. A panic in the loop unwinds before that.
  abbrev pub settle :
      BufWriter W → ℕ → Call (Unit {0}) → BufWriter W → Call (Unit {0}) × BufWriter W
  settle self written panic left = (panic, left)
  settle self written ret left =
      if leb written (length self.buf)
      then (ret, record left { buf = drop written self.buf })
      else (panic, left)

  abbrev pub drained : BufWriter W → Flushed W → Call (Unit {0}) × BufWriter W
  drained self f =
      settle self f.written f.ret (record self { inner = f.inner; panicked = f.panicked })

  unfoldable pub flush_buf : ℕ → BufWriter W → Ran W (Unit {0})
  unfolding flush_loop
  flush_buf fuel self =
      Option.map (drained self) (flush_loop fuel self.buf self.panicked self.inner 0)

  -- The direct write, on its result.
  abbrev pub passed : BufWriter W → Call ℕ × W → Call ℕ × BufWriter W
  passed self (ok n, w) = (ok n, record self { inner = w; panicked = false })
  passed self (err e, w) = (err e, record self { inner = w; panicked = false })
  passed self (panic, w) = (panic, record self { inner = w; panicked = true })

  unfoldable pub store : Bytes → BufWriter W → Ran W ℕ
  store bytes self =
      if leb self.capacity (length bytes)
      then some (passed self (io.write self.inner bytes))
      else some (ok (length bytes), record self { buf = self.buf ++ bytes })

  unfoldable pub write : ℕ → BufWriter W → Bytes → Ran W ℕ
  unfolding store
  write fuel self bytes =
      let flushed = flush_buf fuel self in
      and_then (store bytes)
        (if ltb self.capacity (length self.buf + length bytes) then flushed else some (ok tt, self))

  unfoldable pub flush_inner : BufWriter W → Ran W (Unit {0})
  flush_inner self = let (ret, w) = io.flush self.inner in some (ret, record self { inner = w })

  unfoldable pub flush : ℕ → BufWriter W → Ran W (Unit {0})
  unfolding flush_inner
  flush fuel self = and_then flush_inner (flush_buf fuel self)

  -- `Ok(w)` without the buffer, or the error with the `BufWriter` in an `IntoInnerError`.
  abbrev pub unwrapped : Call (Unit {0}) × BufWriter W → Call W × BufWriter W
  unwrapped (ok _, s) = (ok s.inner, s)
  unwrapped (err e, s) = (err e, s)
  unwrapped (panic, s) = (panic, s)

  unfoldable pub into_inner : ℕ → BufWriter W → Ran W W
  into_inner fuel self = Option.map unwrapped (flush_buf fuel self)

  -- `Drop`: the buffer is flushed unless the inner writer panicked, and the result is ignored.
  unfoldable pub drop_writer : ℕ → BufWriter W → Option (BufWriter W)
  drop_writer fuel self =
      let flushed = Option.map (λ (r : Call (Unit {0}) × BufWriter W). r.1) (flush_buf fuel self) in
      if not self.panicked then flushed else some self
