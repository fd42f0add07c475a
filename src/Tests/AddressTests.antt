-- ===== src/Tests/AddressTests.antt =====
-- net/ip.rs, net/parser.rs: the inputs of their tests, and the theorems at concrete addresses.
use rust_libstd.Prelude.{ℕ, ◌≡◌, refl, not, some, none, List, [], ◌∷◌, arith}
use Prim.Native.Char.{code}
use Prim.Native.String.{String}
use rust_libstd.Net.{hton32, ntoh32, hton16, ntoh16}
use rust_libstd.Net.Ipv6
use rust_libstd.Net.AddrParser.{read_ipv6_addr, ipv6_from_str, read_ip_addr, ip_from_str}
use rust_libstd.Net.Ipv6Parser.{group_loop, ipv6_addr_from_head_tail, read_ipv6_addr_impl}
use rust_libstd.Net.SocketAddr
use rust_libstd.Net.SocketAddr.{socket_addr_from_str}
use rust_libstd.Net.Decimal.{decimal}
use rust_libstd.Net.Display.{display_ipv4, display_ipv4-IsIpv4Text, ipv4_from_str-display}
use rust_libstd.Net.Ipv4
use rust_libstd.Net.Ipv4.{Ipv4Addr}
use rust_libstd.Net.Ipv4.Octets.{IsIpv4}
use rust_libstd.Net.Ipv4.Blocks.{reserved, is_global-reserved}
use rust_libstd.Net.Parser.{
  new_parser, is_eof, read_atomically, read_till_eof, read_char, read_given_char, parse_digit,
  read_or, read_seq_3, read_digit, number_loop, read_number_impl, read_number, read_octet,
  read_ipv4_addr_impl, read_ipv4_addr, ipv4_from_str,
}
use rust_libstd.Net.Parser.Ipv4Sound.{ipv4_from_str_sound}
use rust_libstd.Net.Parser.Ipv4Text.{IsIpv4Text, ipv4_from_str_complete}

abbrev codes : String → List ℕ
codes String.[] = []
codes (String.◌∷◌ c s) = code c ∷ codes s

program : Unit {0}
unfolding hton32 ntoh32 decimal display_ipv4 Ipv4.new Ipv4.octets Ipv4.from_octets new_parser is_eof
    read_atomically read_till_eof read_char read_given_char parse_digit read_digit number_loop
    read_number_impl read_number read_octet read_ipv4_addr_impl read_ipv4_addr ipv4_from_str read_or
    read_seq_3 Ipv6.new group_loop ipv6_addr_from_head_tail read_ipv6_addr_impl read_ipv6_addr
    ipv6_from_str read_ip_addr ip_from_str hton16 ntoh16 SocketAddr.new_v4 SocketAddr.new_v6
    SocketAddr.read_socket_addr_v4 SocketAddr.read_socket_addr_v6 SocketAddr.read_socket_addr
    socket_addr_from_str
program = tt

abbrev home : Ipv4Addr
home = Ipv4.from_octets (127, 0, 0, 1)

parses : ipv4_from_str (codes "127.0.0.1") ≡ some home
unfolding program
parses = refl

out_of_range : ipv4_from_str (codes "256.0.0.1") ≡ none
unfolding program
out_of_range = refl

too_short : ipv4_from_str (codes "255.0.0") ≡ none
unfolding program
too_short = refl

too_long : ipv4_from_str (codes "255.0.0.1.2") ≡ none
unfolding program
too_long = refl

no_number_between : ipv4_from_str (codes "255.0..1") ≡ none
unfolding program
no_number_between = refl

displays : display_ipv4 home ≡ codes "127.0.0.1"
unfolding program
displays = refl

home-IsIpv4 : IsIpv4 home
unfolding program
home-IsIpv4 = omega arith

is_global-reserved_example : Ipv4.is_global home ≡ not (reserved (Ipv4.to_u32 home))
is_global-reserved_example = is_global-reserved home home-IsIpv4

ipv4_from_str-display_example : ipv4_from_str (display_ipv4 home) ≡ some home
ipv4_from_str-display_example = ipv4_from_str-display home home-IsIpv4

ipv4_from_str_complete_example :
    ipv4_from_str (codes "7.0.12.255") ≡ some (Ipv4.from_octets (7, 0, 12, 255))
ipv4_from_str_complete_example =
    ipv4_from_str_complete (codes "7.0.12.255") (7, 0, 12, 255)
      (unfold program in display_ipv4-IsIpv4Text (Ipv4.from_octets (7, 0, 12, 255)))

ipv4_from_str_sound_example :
    (os : Ipv4.Octets) × IsIpv4Text (codes "127.0.0.1") os × (home ≡ Ipv4.from_octets os)
ipv4_from_str_sound_example = ipv4_from_str_sound (codes "127.0.0.1") (omega arith) parses

parses_groups :
    ipv6_from_str (codes "2a02:6b8::11:11") ≡ some (Ipv6.new 0x2a02 0x6b8 0 0 0 0 0x11 0x11)
unfolding program
parses_groups = refl

parses_dotted :
    ipv6_from_str (codes "::ffff:192.0.2.33") ≡ some (Ipv6.new 0 0 0 0 0 0xffff 0xc000 0x221)
unfolding program
parses_dotted = refl

refuses_two_gaps : ipv6_from_str (codes "1:2:3::4:5:6::7:8") ≡ none
unfolding program
refuses_two_gaps = refl

-- The gap may be empty.
gap_of_none : ipv6_from_str (codes "1:2:3:4:5:6:7::8") ≡ some (Ipv6.new 1 2 3 4 5 6 7 8)
unfolding program
gap_of_none = refl

parses_port :
    socket_addr_from_str (codes "77.88.21.11:80")
    ≡ some (SocketAddr.v4 (SocketAddr.new_v4 (Ipv4.new 77 88 21 11) 80))
unfolding program
parses_port = refl

abbrev web : SocketAddr.SocketAddr
unfolding program
web = SocketAddr.v4 (SocketAddr.new_v4 home 80)
