-- ===== src/Time/Timespec/Span.antt =====
-- sys/unix/time.rs: the operations of a `Timespec` are exact on the number of nanoseconds.
use rust_libstd.Prelude.{
  ℕ, suc, ◌+◌, ◌-◌, ◌*◌, ◌/◌, ◌%◌, ◌≤◌, ◌<◌, ◌^◌, ◌≡◌, refl, sym, ap, ◌∙◌, true, false, ◌⊎◌, inl,
  inr, some, leb, if◌then◌else◌, ok, arith, Bool-cases,
}
use rust_libstd.Prelude.Int.{ℤ, pos, pos_part, neg_part, ◌+ℤ◌, ◌-ℤ◌}
use rust_libstd.Prelude.Words.{add32, sub32}
use rust_libstd.Time.Duration
use rust_libstd.Time.Duration.{Duration}
use rust_libstd.Time.Timespec.{
  Timespec, nsec_per_sec, i64_as_u64, sub_i64, ge, difference, sub_timespec,
}

-- The seconds are an `i64`, the nanoseconds less than a second.
pub record IsTimespec (t : Timespec) : Type 0 where
  pub high : pos_part t.tv_sec < 2 ^ 63
  pub low : neg_part t.tv_sec ≤ 2 ^ 63
  pub nsec_fit : t.tv_nsec < nsec_per_sec

-- The nanoseconds since the epoch, less those before it.
abbrev pub above : Timespec → ℕ
above t = pos_part t.tv_sec * nsec_per_sec + t.tv_nsec

abbrev pub below : Timespec → ℕ
below t = neg_part t.tv_sec * nsec_per_sec

abbrev pub nanoseconds : ℕ → Duration
nanoseconds n = record { secs = n / nsec_per_sec; nanos = n % nsec_per_sec }

-- The way from `b` to `a`, as a number of nanoseconds with its sign.
abbrev pub span : Timespec → Timespec → Duration ⊎ Duration
span a b =
    if leb (above b + below a) (above a + below b)
    then inl (nanoseconds (above a + below b - (above b + below a)))
    else inr (nanoseconds (above b + below a - (above a + below b)))

secs_between :
    (a b : ℤ)
    → pos_part a < 2 ^ 63
    → neg_part b ≤ 2 ^ 63
    → pos_part b + neg_part a ≤ pos_part a + neg_part b
    → i64_as_u64 (sub_i64 a b) ≡ pos_part a + neg_part b - (pos_part b + neg_part a)
unfolding ◌+ℤ◌ ◌-ℤ◌
secs_between a b ha hb h = ground arith

less_one :
    (a b : ℤ)
    → neg_part a ≤ 2 ^ 63
    → pos_part a < 2 ^ 63
    → neg_part b ≤ 2 ^ 63
    → pos_part b + neg_part a < pos_part a + neg_part b
    → let c = sub_i64 a (pos 1) in
      (pos_part c < 2 ^ 63)
      × (pos_part c + neg_part b + 1 + (pos_part b + neg_part a)
          ≡ pos_part a + neg_part b + (pos_part b + neg_part c))
unfolding ◌+ℤ◌ ◌-ℤ◌
less_one a b la ha hb h = ground arith

new-ok :
    (secs nanos : ℕ)
    → secs < 2 ^ 64
    → nanos < nsec_per_sec
    → Duration.new secs nanos ≡ ok (record { secs = secs; nanos = nanos })
unfolding Duration.new
new-ok secs nanos h k = ground arith

-- A number of nanoseconds, from its seconds and the rest.
in_parts :
    (n secs nanos : ℕ)
    → n ≡ secs * nsec_per_sec + nanos
    → nanos < nsec_per_sec
    → nanoseconds n ≡ record { secs = secs; nanos = nanos }
in_parts n secs nanos h k = ground arith

ge-order :
    (a b : Timespec)
    → ge a b ≡ true
    → pos_part b.tv_sec + neg_part a.tv_sec ≤ pos_part a.tv_sec + neg_part b.tv_sec
unfolding ◌-ℤ◌
ge-order a b h = ground arith

ge-strict :
    (a b : Timespec)
    → ge a b ≡ true
    → leb b.tv_nsec a.tv_nsec ≡ false
    → pos_part b.tv_sec + neg_part a.tv_sec < pos_part a.tv_sec + neg_part b.tv_sec
unfolding ◌-ℤ◌
ge-strict a b h k = ground arith

ge-leb :
    (a b : Timespec)
    → IsTimespec a
    → IsTimespec b
    → ge a b ≡ leb (above b + below a) (above a + below b)
unfolding ◌-ℤ◌
ge-leb a b ha hb = ground arith

difference-nanoseconds :
    (a b : Timespec)
    → IsTimespec a
    → IsTimespec b
    → ge a b ≡ true
    → difference a b ≡ ok (nanoseconds (above a + below b - (above b + below a)))
unfolding difference
difference-nanoseconds a b ha hb h =
    let order = ge-order a b h in
    let d = pos_part a.tv_sec + neg_part b.tv_sec - (pos_part b.tv_sec + neg_part a.tv_sec) in
    elim (Bool-cases (leb b.tv_nsec a.tv_nsec)) [
      | inl within ↦
          let secs = secs_between a.tv_sec b.tv_sec ha.high hb.low order in
          let n = a.tv_nsec - b.tv_nsec in
          rw
            (within, secs, new-ok d n (omega (arith, ha.high, hb.low)) (omega (arith, ha.nsec_fit)))
            (ap ok (sym (in_parts _ d n (ground arith) (omega (arith, ha.nsec_fit)))))
      | inr borrows ↦
          let more = ge-strict a b h borrows in
          let c = sub_i64 a.tv_sec (pos 1) in
          let (fits, one) = less_one a.tv_sec b.tv_sec ha.low ha.high hb.low more in
          let secs : i64_as_u64 (sub_i64 c b.tv_sec) ≡ d - 1 =
            secs_between c b.tv_sec fits hb.low (omega (arith, one, more))
            ∙ omega (arith, one, more) in
          let n = a.tv_nsec + nsec_per_sec - b.tv_nsec in
          let small : a.tv_nsec < b.tv_nsec = ground arith in
          let nanos : sub32 (add32 a.tv_nsec nsec_per_sec) b.tv_nsec ≡ n =
            omega (arith, ha.nsec_fit, hb.nsec_fit) in
          rw
            (
              borrows,
              secs,
              nanos,
              new-ok (d - 1) n (omega (arith, ha.high, hb.low)) (omega (arith, small)),
            )
            (ap ok (
              sym (
                in_parts _ (d - 1) n (omega (arith, small, more, hb.nsec_fit))
                  (omega (arith, small)))))
    ]

-- For two timespecs within their bounds and fuel for two calls, sub_timespec returns, without a
-- panic: Ok with the difference of their nanoseconds as a duration when the first is not earlier,
-- Err with the difference the other way when it is earlier.
pub sub_timespec-span :
    (fuel : ℕ) (a b : Timespec)
    → IsTimespec a
    → IsTimespec b
    → sub_timespec (suc (suc fuel)) a b ≡ some (ok (span a b))
unfolding sub_timespec
sub_timespec-span fuel a b ha hb = elim (Bool-cases (ge a b)) [
  | inl later ↦ rw (later, difference-nanoseconds a b ha hb later, ← ge-leb a b ha hb, later) refl
  | inr earlier ↦
      let order : leb (above b + below a) (above a + below b) ≡ false =
        sym (ge-leb a b ha hb) ∙ earlier in
      let back : ge b a ≡ true = ge-leb b a hb ha ∙ ground arith in
      rw (earlier, back, difference-nanoseconds b a hb ha back, order) refl
]
