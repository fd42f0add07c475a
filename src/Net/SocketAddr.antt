-- ===== src/Net/SocketAddr.antt =====
-- net/addr.rs: socket addresses, with their ports in network byte order; net/parser.rs: their
-- readers.
pub mod Parts
use rust_libstd.Prelude.{ℕ, Option, List, [], ◌∷◌}
use rust_libstd.Prelude.Words.{as_u16}
use rust_libstd.Net.{hton16, ntoh16}
use rust_libstd.Net.Ipv4.{Ipv4Addr}
use rust_libstd.Net.Ipv6.{Ipv6Addr}
use rust_libstd.Net.Parser.{
  Reader, ◌>>=◌, give, mapped, new_parser, read_till_eof, read_or, read_seq_3, read_given_char,
  read_number, read_ipv4_addr,
}
use rust_libstd.Net.AddrParser
use rust_libstd.Net.AddrParser.{IpAddr, read_ipv6_addr}

-- The family is fixed, and the padding is zero.
pub record SocketAddrV4 : Type 0 where
  pub sin_port : ℕ
  pub sin_addr : Ipv4Addr

pub record SocketAddrV6 : Type 0 where
  pub sin6_port : ℕ
  pub sin6_addr : Ipv6Addr
  pub sin6_flowinfo : ℕ
  pub sin6_scope_id : ℕ

pub data SocketAddr : Type 0 where
  v4 : SocketAddrV4 → SocketAddr
  v6 : SocketAddrV6 → SocketAddr

unfoldable pub new_v4 : Ipv4Addr → ℕ → SocketAddrV4
unfolding hton16
new_v4 ip port = record { sin_port = hton16 port; sin_addr = ip }

unfoldable pub new_v6 : Ipv6Addr → ℕ → ℕ → ℕ → SocketAddrV6
unfolding hton16
new_v6 ip port flowinfo scope_id = record {
  sin6_port = hton16 port;
  sin6_addr = ip;
  sin6_flowinfo = flowinfo;
  sin6_scope_id = scope_id;
}

unfoldable pub new : IpAddr → ℕ → SocketAddr
unfolding new_v4 new_v6
new (AddrParser.v4 a) port = v4 (new_v4 a port)
new (AddrParser.v6 a) port = v6 (new_v6 a port 0 0)

unfoldable pub ip : SocketAddr → IpAddr
ip (v4 a) = AddrParser.v4 a.sin_addr
ip (v6 a) = AddrParser.v6 a.sin6_addr

unfoldable pub port : SocketAddr → ℕ
unfolding ntoh16
port (v4 a) = ntoh16 a.sin_port
port (v6 a) = ntoh16 a.sin6_port

unfoldable pub set_ip : SocketAddr → IpAddr → SocketAddr
unfolding new port
set_ip (v4 a) (AddrParser.v4 new_ip) = v4 (record a { sin_addr = new_ip })
set_ip (v6 a) (AddrParser.v6 new_ip) = v6 (record a { sin6_addr = new_ip })
set_ip self new_ip = new new_ip (port self)

unfoldable pub set_port : SocketAddr → ℕ → SocketAddr
unfolding hton16
set_port (v4 a) new_port = v4 (record a { sin_port = hton16 new_port })
set_port (v6 a) new_port = v6 (record a { sin6_port = hton16 new_port })

abbrev pub read_port : Reader ℕ
read_port = mapped as_u16 (read_number 10 5 0x10000)

unfoldable pub read_socket_addr_v4 : Reader SocketAddrV4
read_socket_addr_v4 = do
  (ip_addr, colon, port_number) ← read_seq_3 read_ipv4_addr (read_given_char b':') read_port
  give (new_v4 ip_addr port_number)

abbrev pub read_bracketed : Reader Ipv6Addr
read_bracketed = do
  (open_br, ip_addr, clos_br) ←
      read_seq_3 (read_given_char b'[') read_ipv6_addr (read_given_char b']')
  give ip_addr

unfoldable pub read_socket_addr_v6 : Reader SocketAddrV6
read_socket_addr_v6 = do
  (ip_addr, colon, port_number) ← read_seq_3 read_bracketed (read_given_char b':') read_port
  give (new_v6 ip_addr port_number 0 0)

unfoldable pub read_socket_addr : Reader SocketAddr
read_socket_addr = read_or (mapped v4 read_socket_addr_v4 ∷ mapped v6 read_socket_addr_v6 ∷ [])

unfoldable pub socket_addr_v4_from_str : List ℕ → Option SocketAddrV4
socket_addr_v4_from_str s = (read_till_eof read_socket_addr_v4 (new_parser s)).0

unfoldable pub socket_addr_v6_from_str : List ℕ → Option SocketAddrV6
socket_addr_v6_from_str s = (read_till_eof read_socket_addr_v6 (new_parser s)).0

unfoldable pub socket_addr_from_str : List ℕ → Option SocketAddr
socket_addr_from_str s = (read_till_eof read_socket_addr (new_parser s)).0
