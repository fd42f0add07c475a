-- ===== src/Net/Ipv6Parser/Groups.antt =====
-- net/parser.rs: `read_groups` reads no more groups than it is asked for, so the assertion in
-- `ipv6_addr_from_head_tail` holds.
use mathlib.Core.List.{append-nil}
use rust_libstd.Prelude.{
  ℕ, zero, suc, ◌+◌, ◌-◌, ◌≤◌, ◌≡◌, true, leb, Option, none, some, length, arith,
}
use rust_libstd.Net.Ipv4.{Ipv4Addr}
use rust_libstd.Net.Parser.{Parser, read_atomically, mapped, read_number, read_ipv4_addr}
use rust_libstd.Prelude.Words.{as_u16}
use rust_libstd.Prelude.{
  ok, panic, ◌≢◌, ◌==◌, List, [], ◌++◌, Bool, false, replicate, if◌then◌else◌, length-append,
  length-replicate, refl, ◌∙◌, Bool-cases, inl, inr,
}
use rust_libstd.Net.Parser.{read_given_char}
use rust_libstd.Net.Ipv6Parser.{
  Groups, Tried, led, on_group, on_ipv4, hex_group, group_loop, read_groups, of_groups,
  ipv6_addr_from_head_tail, with_tail, read_gap, with_head, read_ipv6_addr_impl, second_colon,
  first_colon, read_tail,
}

on_group-length :
    (rest : Parser → Groups) (n : ℕ) (r : Option ℕ × Parser)
    → ((p : Parser) → length (rest p).0.0 ≤ n)
    → length (on_group rest r).0.0 ≤ suc n
on_group-length rest n (none, p) h = omega arith
on_group-length rest n (some g, p) h = omega (arith, h p)

hex_group-length :
    (rest : Parser → Groups) (n i : ℕ) (p : Parser)
    → ((q : Parser) → length (rest q).0.0 ≤ n)
    → length (hex_group rest i p).0.0 ≤ suc n
hex_group-length rest n i p h =
    on_group-length rest n (read_atomically (led i (mapped as_u16 (read_number 16 4 0x10000))) p) h

on_ipv4-length :
    (rest : Parser → Groups) (n : ℕ) (r : Option Ipv4Addr × Parser)
    → ((p : Parser) → length (rest p).0.0 ≤ suc (suc n))
    → length (on_ipv4 rest r).0.0 ≤ suc (suc n)
on_ipv4-length rest n (none, p) h = h p
on_ipv4-length rest n (some a, p) h = omega arith

group_loop-length : (left i : ℕ) (p : Parser) → length (group_loop left i p).0.0 ≤ left
unfolding group_loop
group_loop-length zero i p = omega arith
group_loop-length (suc zero) i p =
    hex_group-length (group_loop zero (i + 1)) zero i p (λ q. group_loop-length zero (i + 1) q)
group_loop-length (suc (suc left)) i p =
    let more : leb 1 (suc left) ≡ true = ground arith in
    let rest = group_loop (suc left) (i + 1) in
    rw more (
      on_ipv4-length (hex_group rest i) left (read_atomically (led i read_ipv4_addr) p)
        (λ q. hex_group-length rest (suc left) i q (λ r. group_loop-length (suc left) (i + 1) r)))

-- The groups before the gap, zeros, and the groups behind it.
abbrev pub filled : List ℕ → List ℕ → List ℕ
filled head tail = head ++ replicate (8 - length head - length tail) 0 ++ tail

-- No panic; an address is made of just eight groups, those of the head, zeros, and those of a tail.
abbrev pub Assembled : List ℕ → Tried → Type 0
Assembled head panic = ⊥
Assembled head (ok (none, p)) = length head ≤ 8
Assembled head (ok (some a, p)) =
    (tail : List ℕ) × ((length (filled head tail) ≡ 8) × (a ≡ of_groups (filled head tail)))

length-filled : (head tail : List ℕ) → length head + length tail ≤ 8 → length (filled head tail) ≡ 8
length-filled head tail le =
    let zeros : List ℕ = replicate (8 - length head - length tail) 0 in
    omega (
      arith,
      length-append (head ++ zeros) tail,
      length-append head zeros,
      length-replicate {A = ℕ} (8 - length head - length tail) 0,
    )

filled_whole : (head : List ℕ) → length head ≡ 8 → filled head [] ≡ head
filled_whole head h = rw h (append-nil _ ∙ append-nil head)

with_tail-Assembled :
    (head : List ℕ) (r : Groups)
    → length head + length r.0.0 ≤ 8
    → Assembled head (with_tail head r)
unfolding ipv6_addr_from_head_tail
with_tail-Assembled head ((tail, ipv4), p) le =
    let fits : leb (length head + length tail) 8 ≡ true = ground arith in
    rw fits (tail, (length-filled head tail le, refl))

read_tail-Assembled :
    (head : List ℕ) (p : Parser) → length head ≤ 8 → Assembled head (read_tail head p)
read_tail-Assembled head p le =
    with_tail-Assembled head (read_groups (8 - length head) p)
      (omega (arith, group_loop-length (8 - length head) 0 p))

second_colon-Assembled :
    (head : List ℕ) (r : Option ℕ × Parser) → length head ≤ 8 → Assembled head (second_colon head r)
second_colon-Assembled head (none, p) le = le
second_colon-Assembled head (some c, p) le = read_tail-Assembled head p le

first_colon-Assembled :
    (head : List ℕ) (r : Option ℕ × Parser) → length head ≤ 8 → Assembled head (first_colon head r)
first_colon-Assembled head (none, p) le = le
first_colon-Assembled head (some c, p) le = second_colon-Assembled head (read_given_char b':' p) le

few-Assembled :
    (head : List ℕ) (ipv4 : Bool) (p : Parser)
    → length head ≤ 8
    → Assembled head (if ipv4 then ok (none, p) else read_gap head p)
few-Assembled head true p le = le
few-Assembled head false p le = first_colon-Assembled head (read_given_char b':' p) le

with_head-Assembled : (r : Groups) → length r.0.0 ≤ 8 → Assembled r.0.0 (with_head r)
with_head-Assembled ((head, ipv4), p) le = elim (Bool-cases (length head == 8)) [
  | inl all ↦
      let whole : length head ≡ 8 = ground arith in
      rw all ([], (length-filled head [] (omega (arith, whole)), rw (filled_whole head whole) refl))
  | inr few ↦ rw few (few-Assembled head ipv4 p le)
]

pub read_ipv6_addr_impl-Assembled :
    (p : Parser) → Assembled (read_groups 8 p).0.0 (read_ipv6_addr_impl p)
unfolding read_ipv6_addr_impl
read_ipv6_addr_impl-Assembled p = with_head-Assembled (read_groups 8 p) (group_loop-length 8 0 p)

never_panics : (head : List ℕ) (o : Tried) → Assembled head o → o ≢ panic
never_panics head panic h = absurd h
never_panics head (ok r) h = λ e. cc

pub read_ipv6_addr_impl_returns : (p : Parser) → read_ipv6_addr_impl p ≢ panic
read_ipv6_addr_impl_returns p =
    never_panics (read_groups 8 p).0.0 (read_ipv6_addr_impl p) (read_ipv6_addr_impl-Assembled p)
