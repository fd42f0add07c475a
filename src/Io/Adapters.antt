-- ===== src/Io/Adapters.antt =====
-- io/mod.rs: the readers `Chain` and `Take`, over any inner readers.
pub mod Chaining
pub mod Limited
use rust_libstd.Prelude.{
  ℕ, zero, suc, Bool, true, false, ◌==◌, if◌then◌else◌, ◌++◌, length, take, drop, min,
}
use rust_libstd.Prelude.Words.{sub64}
use rust_libstd.Io.Error.{Call, ok, err, panic}
use rust_libstd.Io.Writer.{Bytes}
use rust_libstd.Io.Reader.{Read}

pub record Chain (T U : Type 0) : Type 0 where
  pub first : T
  pub second : U
  pub done_first : Bool

module _ {T U : Type 0} where
  -- `Read::chain`.
  abbrev pub chain : T → U → Chain T U
  chain first second = record { first = first; second = second; done_first = false }

  abbrev pub second_found : Chain T U → Call ℕ × U × Bytes → Call ℕ × Chain T U × Bytes
  second_found self (ret, u, buf) = (ret, record self { second = u }, buf)

module _ {T U : Type 0} (io : Read T) (io' : Read U) where
  abbrev pub second_read : Chain T U → Bytes → Call ℕ × Chain T U × Bytes
  second_read self buf = second_found self (io'.read self.second buf)

  -- On the result of `self.first.read(buf)`.
  abbrev pub first_found : Chain T U → Call ℕ × T × Bytes → Call ℕ × Chain T U × Bytes
  first_found self (ok zero, t, buf) =
      if length buf == 0
      then (ok 0, record self { first = t }, buf)
      else second_read (record self { first = t; done_first = true }) buf
  first_found self (ok (suc n), t, buf) = (ok (suc n), record self { first = t }, buf)
  first_found self (err e, t, buf) = (err e, record self { first = t }, buf)
  first_found self (panic, t, buf) = (panic, record self { first = t }, buf)

  unfoldable pub chain_read : Chain T U → Bytes → Call ℕ × Chain T U × Bytes
  chain_read self buf =
      if self.done_first then second_read self buf else first_found self (io.read self.first buf)

  abbrev pub chain_reader : Read (Chain T U)
  chain_reader = record { read = chain_read }

pub record Take (T : Type 0) : Type 0 where
  pub inner : T
  pub limit : ℕ

-- On the result of the inner read into the front of the buffer, with the back of it.
abbrev pub limited : {T : Type 0} → Take T → Bytes → Call ℕ × T × Bytes → Call ℕ × Take T × Bytes
limited self back (ok n, t, front) =
    (ok n, record { inner = t; limit = sub64 self.limit n }, front ++ back)
limited self back (err e, t, front) = (err e, record self { inner = t }, front ++ back)
limited self back (panic, t, front) = (panic, record self { inner = t }, front ++ back)

unfoldable pub take_read : {T : Type 0} → Read T → Take T → Bytes → Call ℕ × Take T × Bytes
take_read io self buf =
    let most = min (length buf) self.limit in
    if self.limit == 0
    then (ok 0, self, buf)
    else limited self (drop most buf) (io.read self.inner (take most buf))
