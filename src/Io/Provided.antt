-- ===== src/Io/Provided.antt =====
-- io/mod.rs: the provided methods of `Read` and `Write` that loop, over any reader or writer. A loop
-- retries a call that was interrupted, so it runs on fuel; `none` means that the fuel ran out.
pub mod Writing
pub mod Reading
pub mod Ending
pub mod Copying
use mathlib.Core.Option
use rust_libstd.Prelude.{
  ℕ, zero, suc, ◌+◌, ◌-◌, ◌*◌, Bool, true, false, ltb, leb, ◌==◌, if◌then◌else◌, Option, none, some,
  [], ◌∷◌, ◌++◌, length, take, drop, get_or,
}
use rust_libstd.Prelude.Words.{add64}
use rust_libstd.Io.Error.{
  ErrorKind, write_zero, unexpected_eof, Call, ok, err, panic, is_interrupted,
}
use rust_libstd.Io.Writer.{Bytes, Write}
use rust_libstd.Io.Reader.{Read}

module _ {W : Type 0} (io : Write W) where
  -- One round of `write_all`, on the result of `self.write(buf)`; `&buf[n..]` panics beyond the end.
  abbrev pub write_round :
      (W → Bytes → Option (Call (Unit {0}) × W)) → Bytes → Call ℕ × W → Option (Call (Unit {0}) × W)
  write_round again buf (ok zero, w) = some (err write_zero, w)
  write_round again buf (ok (suc n), w) =
      let rest = again w (drop (suc n) buf) in
      if leb (suc n) (length buf) then rest else some (panic, w)
  write_round again buf (err e, w) =
      let retry = again w buf in if is_interrupted e then retry else some (err e, w)
  write_round again buf (panic, w) = some (panic, w)

  unfoldable pub write_all : ℕ → W → Bytes → Option (Call (Unit {0}) × W)
  write_all zero w buf = none
  write_all (suc fuel) w [] = some (ok tt, w)
  write_all (suc fuel) w (b ∷ buf) = write_round (write_all fuel) (b ∷ buf) (io.write w (b ∷ buf))

-- `reserve(32)`, `set_len(capacity)` and `initialize` add the spare capacity, with what it holds
-- then, where the vector is full.
abbrev pub with_room : (ℕ → Bytes) → Bytes → ℕ → Bytes
with_room spare buf len = if len == length buf then buf ++ spare len else buf

module _ {R : Type 0} (io : Read R) where
  -- A reading loop returns the reader and the whole buffer with its result.
  abbrev pub Reads : Type 0 → Type 0
  Reads A = Option (Call A × R × Bytes)

  -- One round of `read_exact`; `filled` is what `buf` has left behind.
  abbrev pub exact_round :
      (R → Bytes → Bytes → Reads (Unit {0})) → Bytes → Call ℕ × R × Bytes → Reads (Unit {0})
  exact_round again filled (ok zero, r, buf) = some (err unexpected_eof, r, filled ++ buf)
  exact_round again filled (ok (suc n), r, buf) =
      let rest = again r (filled ++ take (suc n) buf) (drop (suc n) buf) in
      if leb (suc n) (length buf) then rest else some (panic, r, filled ++ buf)
  exact_round again filled (err e, r, buf) =
      let retry = again r filled buf in
      if is_interrupted e then retry else some (err e, r, filled ++ buf)
  exact_round again filled (panic, r, buf) = some (panic, r, filled ++ buf)

  unfoldable pub exact_loop : ℕ → R → Bytes → Bytes → Reads (Unit {0})
  exact_loop zero r filled buf = none
  exact_loop (suc fuel) r filled [] = some (ok tt, r, filled)
  exact_loop (suc fuel) r filled (b ∷ buf) =
      exact_round (exact_loop fuel) filled (io.read r (b ∷ buf))

  unfoldable pub read_exact : ℕ → R → Bytes → Reads (Unit {0})
  unfolding exact_loop
  read_exact fuel r buf = exact_loop fuel r [] buf

  -- One round of `read_to_end`: `g.len` is `len`, and `kept` the bytes below it. The drop of the
  -- guard cuts the vector there.
  abbrev pub end_round : (R → Bytes → ℕ → Reads ℕ) → Bytes → ℕ → ℕ → Call ℕ × R × Bytes → Reads ℕ
  end_round again kept start len (ok zero, r, rest) = some (ok (len - start), r, kept)
  end_round again kept start len (ok (suc n), r, rest) = again r (kept ++ rest) (len + suc n)
  end_round again kept start len (err e, r, rest) =
      let retry = again r (kept ++ rest) len in
      if is_interrupted e then retry else some (err e, r, kept)
  end_round again kept start len (panic, r, rest) = some (panic, r, kept)

  module _ (spare : ℕ → Bytes) where
    unfoldable pub end_loop : ℕ → ℕ → R → Bytes → ℕ → Reads ℕ
    end_loop zero start r buf len = none
    end_loop (suc fuel) start r buf len =
        let room = with_room spare buf len in
        let round =
          end_round (end_loop fuel start) (take len room) start len (io.read r (drop len room)) in
        if leb len (length room) then round else some (panic, r, take len room)

    unfoldable pub read_to_end : ℕ → R → Bytes → Reads ℕ
    unfolding end_loop
    read_to_end fuel r buf = end_loop fuel (length buf) r buf (length buf)

  -- `read_one_byte`.
  abbrev pub byte_round :
      (R → Option (Option (Call ℕ) × R)) → Call ℕ × R × Bytes → Option (Option (Call ℕ) × R)
  byte_round again (ok zero, r, buf) = some (none, r)
  byte_round again (ok (suc n), r, buf) = some (some (ok (get_or buf 0 0)), r)
  byte_round again (err e, r, buf) =
      let retry = again r in if is_interrupted e then retry else some (some (err e), r)
  byte_round again (panic, r, buf) = some (some panic, r)

  unfoldable pub read_one_byte : ℕ → R → Option (Option (Call ℕ) × R)
  read_one_byte zero r = none
  read_one_byte (suc fuel) r = byte_round (read_one_byte fuel) (io.read r (0 ∷ []))

abbrev pub default_buf_size : ℕ
default_buf_size = 8 * 1024

-- A call of `copy`: its result, the reader and the writer.
abbrev pub Copies : Type 0 → Type 0 → Type 0
Copies R W = Option (Call ℕ × R × W)

module _ {R W : Type 0} (io : Read R) (io' : Write W) where
  -- On the result of `writer.write_all(&buf[..len])`.
  abbrev pub copy_written : (W → Copies R W) → R → Option (Call (Unit {0}) × W) → Copies R W
  copy_written again r none = none
  copy_written again r (some (ok _, w)) = again w
  copy_written again r (some (err e, w)) = some (err e, r, w)
  copy_written again r (some (panic, w)) = some (panic, r, w)

  -- One round of `copy`, on the result of `reader.read(&mut buf)`.
  abbrev pub copy_round :
      (R → W → Bytes → ℕ → Copies R W) → ℕ → W → ℕ → Call ℕ × R × Bytes → Copies R W
  copy_round again fuel w written (ok zero, r, buf) = some (ok written, r, w)
  copy_round again fuel w written (ok (suc n), r, buf) =
      let sent = write_all io' fuel w (take (suc n) buf) in
      let rest = copy_written (λ w'. again r w' buf (add64 written (suc n))) r sent in
      if leb (suc n) (length buf) then rest else some (panic, r, w)
  copy_round again fuel w written (err e, r, buf) =
      let retry = again r w buf written in if is_interrupted e then retry else some (err e, r, w)
  copy_round again fuel w written (panic, r, buf) = some (panic, r, w)

  unfoldable pub copy_loop : ℕ → R → W → Bytes → ℕ → Copies R W
  copy_loop zero r w buf written = none
  copy_loop (suc fuel) r w buf written = copy_round (copy_loop fuel) fuel w written (io.read r buf)

  -- `copy`, with what its buffer holds at first.
  unfoldable pub copy : Bytes → ℕ → R → W → Copies R W
  unfolding copy_loop
  copy buf fuel r w = copy_loop fuel r w buf 0
