-- ===== src/NetAddr.antt =====
-- zedio/socket/net/addr.hpp: Internet addresses on a little-endian machine. The union of sockaddr_in
-- and sockaddr_in6 is a record of what lies at its offsets.
pub mod Parts
mod Tests
use Prim.Native.Nat.{bit_or}
use zedlibs.Prelude.{ℕ, ◌+◌, ◌*◌, ◌/◌, ◌%◌, ◌^◌, List, [], ◌∷◌, ◌++◌, Bool, ◌==◌, if◌then◌else◌}

-- The other order of the two bytes of a uint16_t; `ntohs` is the same.
unfoldable pub htons : ℕ → ℕ
htons x = x % 256 * 256 + x / 256 % 256

-- The bytes of a uint16_t in memory.
abbrev pub bytes : ℕ → List ℕ
bytes x = (x % 256) ∷ (x / 256 % 256) ∷ []

-- The word of an Ipv4Addr, from its four numbers.
unfoldable pub ipv4 : ℕ → ℕ → ℕ → ℕ → ℕ
ipv4 a b c d = bit_or (bit_or (bit_or a (b * 2 ^ 8)) (c * 2 ^ 16)) (d * 2 ^ 24)

-- The sixteen bytes of an Ipv6Addr, from its eight numbers.
unfoldable pub ipv6 : ℕ → ℕ → ℕ → ℕ → ℕ → ℕ → ℕ → ℕ → List ℕ
ipv6 a b c d e f g h =
    bytes (htons a)
    ++ bytes (htons b)
    ++ bytes (htons c)
    ++ bytes (htons d)
    ++ bytes (htons e)
    ++ bytes (htons f)
    ++ bytes (htons g)
    ++ bytes (htons h)

-- The variant that `ip()` returns.
pub data Ip : Type 0 where
  v4 : ℕ → Ip
  v6 : List ℕ → Ip

-- `family` and `port` lie at the same offsets in both structs; `word` is sin_addr in the one and
-- sin6_flowinfo in the other.
pub record SocketAddr : Type 0 where
  pub sin_family : ℕ
  pub sin_port : ℕ
  pub word : ℕ
  pub sin6_addr : List ℕ
  pub scope : ℕ

abbrev pub af_inet : ℕ
af_inet = 2

abbrev pub af_inet6 : ℕ
af_inet6 = 10

-- The constructors leave the rest of the memory, `old`, as it is.
unfoldable pub make : SocketAddr → Ip → ℕ → SocketAddr
make old (v4 ip) port = record old { sin_family = af_inet; sin_port = htons port; word = ip }
make old (v6 ip) port = record old { sin_family = af_inet6; sin_port = htons port; sin6_addr = ip }

unfoldable pub is_ipv4 : SocketAddr → Bool
is_ipv4 s = s.sin_family == af_inet

unfoldable pub is_ipv6 : SocketAddr → Bool
is_ipv6 s = s.sin_family == af_inet6

unfoldable pub ip : SocketAddr → Ip
ip s = if is_ipv4 s then v4 s.word else v6 s.sin6_addr

unfoldable pub set_ip : Ip → SocketAddr → SocketAddr
set_ip (v4 address) s = record s { word = address }
set_ip (v6 address) s = record s { sin6_addr = address }

unfoldable pub port : SocketAddr → ℕ
port s = htons s.sin_port

unfoldable pub set_port : ℕ → SocketAddr → SocketAddr
set_port number s = record s { sin_port = htons number }

-- The sizes of the two structs.
unfoldable pub socket_length : SocketAddr → ℕ
socket_length s = if is_ipv4 s then 16 else 28
