-- ===== src/UnixAddr.antt =====
-- zedio/socket/unix_domain/addr.hpp: the addresses of Unix domain sockets. A character is a byte.
pub mod Names
mod Tests
use zedlibs.Prelude.{
  ℕ, zero, suc, ◌+◌, List, [], ◌∷◌, ◌++◌, length, drop, replicate, Option, none, some, Bool, true,
  false, ◌==◌, ◌||◌, leb, if◌then◌else◌,
}

pub record SocketAddr : Type 0 where
  pub sun_family : ℕ
  pub sun_path : List ℕ

abbrev pub af_unix : ℕ
af_unix = 1

-- `sizeof(addr_.sun_path)`
abbrev pub path_size : ℕ
path_size = 108

-- `addr_{}`
abbrev pub cleared : SocketAddr
cleared = record { sun_family = 0; sun_path = replicate path_size 0 }

abbrev pub memcpy : List ℕ → List ℕ → List ℕ
memcpy dst src = src ++ drop (length src) dst

-- A string as C reads it: up to the first zero.
unfoldable pub c_string : List ℕ → List ℕ
c_string [] = []
c_string (x ∷ l) = let rest = c_string l in if x == 0 then [] else x ∷ rest

unfoldable pub make : List ℕ → SocketAddr
make path = record { sun_family = af_unix; sun_path = memcpy cleared.sun_path path }

unfoldable pub parse : List ℕ → Option SocketAddr
parse path = if leb path_size (length path) || (length path == 0) then none else some (make path)

abbrev pub first : List ℕ → ℕ
first [] = 0
first (x ∷ l) = x

unfoldable pub has_pathname : SocketAddr → Bool
has_pathname s = first s.sun_path == 0

unfoldable pub pathname : SocketAddr → List ℕ
pathname s = c_string s.sun_path

-- The length of the string, and the size of the family.
unfoldable pub addr_length : SocketAddr → ℕ
addr_length s = length (c_string s.sun_path) + 2
