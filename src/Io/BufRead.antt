-- ===== src/Io/BufRead.antt =====
-- The trait `BufRead` of io/mod.rs as an interface, and `read_until` over it. memchr is an argument:
-- the platform's C library has it. The loop retries an interrupted `fill_buf`, so it runs on fuel.
pub mod Until
pub mod Chaining
use rust_libstd.Prelude.{
  ℕ, zero, suc, ◌+◌, ◌≤◌, ◌<◌, ◌≡◌, Bool, true, false, leb, ◌==◌, if◌then◌else◌, Option, none, some,
  [], ◌∷◌, ◌++◌, length, take, drop,
}
use rust_libstd.Prelude.Words.{add64}
use rust_libstd.Io.Error.{ErrorKind, interrupted, Call, ok, err, panic, is_interrupted}
use rust_libstd.Io.Writer.{Bytes}

-- A `consume` of no more than `fill_buf` has returned does not panic.
pub record BufRead (R : Type 0) : Type 0 where
  pub fill_buf : R → Call Bytes × R
  pub consume : ℕ → R → R

-- `fill_buf` returns first bytes of those that the reader has still to deliver, and none only where
-- nothing is left; `consume` takes off the first bytes.
pub record BufReadLaws {R : Type 0} (io : BufRead R) : Type 0 where
  pub pending : R → Bytes
  pub interrupts : R → ℕ
  pub fill_ok :
      (r : R) (b : Bytes) (r' : R)
      → io.fill_buf r ≡ (ok b, r')
      → (rest : Bytes) × (pending r ≡ b ++ rest)
  pub consumed :
      (r : R) (b : Bytes) (r' : R) (n : ℕ)
      → io.fill_buf r ≡ (ok b, r')
      → n ≤ length b
      → (pending (io.consume n r') ≡ drop n (pending r))
        × (interrupts (io.consume n r') ≤ interrupts r)
  pub ends : (r : R) (r' : R) → io.fill_buf r ≡ (ok [], r') → pending r ≡ []
  pub fill_err :
      (r : R) (e : ErrorKind) (r' : R) → io.fill_buf r ≡ (err e, r') → pending r' ≡ pending r
  pub fewer :
      (r : R) (r' : R) → io.fill_buf r ≡ (err interrupted, r') → interrupts r' < interrupts r

-- No byte is `d`.
abbrev pub free : ℕ → Bytes → Bool
free d [] = true
free d (x ∷ xs) = if x == d then false else free d xs

-- What memchr promises: the index of the first byte that is `d`.
pub record FindsFirst (memchr : ℕ → Bytes → Option ℕ) : Type 0 where
  pub found :
      (d : ℕ) (b : Bytes) (i : ℕ)
      → memchr d b ≡ some i
      → (s : Bytes) × ((rest : Bytes) × ((b ≡ s ++ d ∷ rest)
            × ((length s ≡ i) × (free d s ≡ true))))
  pub missing : (d : ℕ) (b : Bytes) → memchr d b ≡ none → free d b ≡ true

abbrev pub ReadUntil : Type 0 → Type 0
ReadUntil R = Option (Call ℕ × R × Bytes)

module _ {R : Type 0} (io : BufRead R) (memchr : ℕ → Bytes → Option ℕ) where
  -- On the result of memchr in the bytes of `fill_buf`: `done` and `used` of the source, and what
  -- comes of them. `&available[..i + 1]` panics beyond the end.
  abbrev pub until_found :
      (R → Bytes → ℕ → ReadUntil R) → R → Bytes → ℕ → Bytes → Option ℕ → ReadUntil R
  until_found again r buf read available (some i) =
      if leb (i + 1) (length available)
      then some (ok (add64 read (i + 1)), io.consume (i + 1) r, buf ++ take (i + 1) available)
      else some (panic, r, buf)
  until_found again r buf read available none =
      let used = length available in
      let rest = again (io.consume used r) (buf ++ available) (add64 read used) in
      if used == 0 then some (ok (add64 read used), io.consume used r, buf ++ available) else rest

  abbrev pub until_round :
      (R → Bytes → ℕ → ReadUntil R) → ℕ → Bytes → ℕ → Call Bytes × R → ReadUntil R
  until_round again delim buf read (ok available, r) =
      until_found again r buf read available (memchr delim available)
  until_round again delim buf read (err e, r) =
      let retry = again r buf read in if is_interrupted e then retry else some (err e, r, buf)
  until_round again delim buf read (panic, r) = some (panic, r, buf)

  unfoldable pub until_loop : ℕ → ℕ → R → Bytes → ℕ → ReadUntil R
  until_loop zero delim r buf read = none
  until_loop (suc fuel) delim r buf read =
      until_round (until_loop fuel delim) delim buf read (io.fill_buf r)

  unfoldable pub read_until : ℕ → R → ℕ → Bytes → ReadUntil R
  unfolding until_loop
  read_until fuel r delim buf = until_loop fuel delim r buf 0
