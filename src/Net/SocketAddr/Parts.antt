-- ===== src/Net/SocketAddr/Parts.antt =====
-- net/addr.rs: the setters of a `SocketAddr` change their own part and keep the other.
use rust_libstd.Prelude.{ℕ, ◌<◌, ◌^◌, ◌≡◌, refl, arith}
use rust_libstd.Net.{hton16, ntoh16}
use rust_libstd.Net.AddrParser
use rust_libstd.Net.AddrParser.{IpAddr}
use rust_libstd.Net.SocketAddr.{SocketAddr, v4, v6, new_v4, new_v6, new, ip, port, set_ip, set_port}

ntoh16-hton16 : (n : ℕ) → n < 2 ^ 16 → ntoh16 (hton16 n) ≡ n
unfolding ntoh16 hton16
ntoh16-hton16 n h = omega arith

ntoh16_fits : (n : ℕ) → ntoh16 n < 2 ^ 16
unfolding ntoh16
ntoh16_fits n = omega arith

hton16_fits : (n : ℕ) → hton16 n < 2 ^ 16
unfolding hton16
hton16_fits n = omega arith

-- After set_ip a socket address of either kind has the new IP address and the old port, and after
-- set_port with a 16-bit port it then has the new IP address and the new port, also where set_ip
-- changes the kind.
set_ip-set_port :
    (self : SocketAddr) (new_ip : IpAddr) (new_port : ℕ)
    → new_port < 2 ^ 16
    → let moved = set_ip self new_ip in
      let changed = set_port moved new_port in
      (ip moved ≡ new_ip)
      × (port moved ≡ port self)
      × (ip changed ≡ new_ip)
      × (port changed ≡ new_port)
unfolding ip port set_ip set_port new new_v4 new_v6
set_ip-set_port (v4 a) (AddrParser.v4 i) p h = (refl, refl, refl, ntoh16-hton16 p h)
set_ip-set_port (v4 a) (AddrParser.v6 i) p h =
    (refl, ntoh16-hton16 _ (ntoh16_fits a.sin_port), refl, ntoh16-hton16 p h)
set_ip-set_port (v6 a) (AddrParser.v4 i) p h =
    (refl, ntoh16-hton16 _ (ntoh16_fits a.sin6_port), refl, ntoh16-hton16 p h)
set_ip-set_port (v6 a) (AddrParser.v6 i) p h = (refl, refl, refl, ntoh16-hton16 p h)
