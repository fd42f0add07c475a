-- ===== src/Net/Display.antt =====
-- net/ip.rs: `Display for Ipv4Addr`, and the round trip through the parser.
use rust_libstd.Net.Ipv4.Octets.{octets-AreOctets, IsIpv4, from_octets-octets}
use rust_libstd.Prelude.{ℕ, ◌≡◌, refl, ◌∙◌, ap, some, List, ◌∷◌, ◌++◌, arith}
use rust_libstd.Net.Decimal.{decimal, decimal-IsNumeral}
use rust_libstd.Net.Ipv4
use rust_libstd.Net.Ipv4.{Ipv4Addr}
use rust_libstd.Net.Parser.{ipv4_from_str}
use rust_libstd.Net.Parser.Ipv4Text.{IsIpv4Text, ipv4_from_str_complete}

-- `Display for Ipv4Addr`.
unfoldable pub display_ipv4 : Ipv4Addr → List ℕ
display_ipv4 self =
    let os = Ipv4.octets self in
    decimal os.0 ++ b'.' ∷ (decimal os.1 ++ b'.' ∷ (decimal os.2 ++ b'.' ∷ decimal os.3))

pub display_ipv4-IsIpv4Text : (a : Ipv4Addr) → IsIpv4Text (display_ipv4 a) (Ipv4.octets a)
unfolding display_ipv4
display_ipv4-IsIpv4Text a =
    let b = octets-AreOctets a in
    record {
      text₀ = _;
      text₁ = _;
      text₂ = _;
      text₃ = _;
      splits = refl;
      numeral₀ = decimal-IsNumeral 2 _ (omega arith);
      numeral₁ = decimal-IsNumeral 2 _ (omega arith);
      numeral₂ = decimal-IsNumeral 2 _ (omega arith);
      numeral₃ = decimal-IsNumeral 2 _ (omega arith);
      bytes = b;
    }

-- For every IPv4 address held in 32 bits, parsing the text that Display writes gives that address
-- back.
pub ipv4_from_str-display : (a : Ipv4Addr) → IsIpv4 a → ipv4_from_str (display_ipv4 a) ≡ some a
ipv4_from_str-display a h =
    ipv4_from_str_complete _ _ (display_ipv4-IsIpv4Text a) ∙ ap some (from_octets-octets a h)
