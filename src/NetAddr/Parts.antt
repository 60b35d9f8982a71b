-- ===== src/NetAddr/Parts.antt =====
-- What the parts of an address are after it was made or changed.
use Prim.Native.Nat.{bit_or}
use zedlibs.Prelude.{
  ℕ, ◌+◌, ◌*◌, ◌/◌, ◌%◌, ◌^◌, ◌<◌, ◌≡◌, refl, ◌∙◌, Bool, true, false, if◌then◌else◌, arith,
}
use zedlibs.Bits.{bit_or_disjoint, bit_or_comm}
use zedlibs.NetAddr.{
  Ip, v4, v6, SocketAddr, htons, ipv4, make, is_ipv4, ip, set_ip, port, set_port, socket_length,
}

htons-htons : (x : ℕ) → x < 65536 → htons (htons x) ≡ x
unfolding htons
htons-htons x small = omega (arith, small)

unfoldable pub is_v4 : Ip → Bool
is_v4 (v4 _) = true
is_v4 (v6 _) = false

-- What the members say of an address.
pub record Reads (address : Ip) (number : ℕ) (s : SocketAddr) : Type 0 where
  pub same_ip : ip s ≡ address
  pub same_port : port s ≡ number
  pub kind : is_ipv4 s ≡ is_v4 address
  pub size : socket_length s ≡ (if is_v4 address then 16 else 28)

pub make-Reads :
    (old : SocketAddr) (address : Ip) (number : ℕ)
    → number < 65536
    → Reads address number (make old address number)
unfolding make is_ipv4 ip port socket_length is_v4
make-Reads old (v4 address) number small = record {
  same_ip = refl;
  same_port = htons-htons number small;
  kind = refl;
  size = refl;
}
make-Reads old (v6 address) number small = record {
  same_ip = refl;
  same_port = htons-htons number small;
  kind = refl;
  size = refl;
}

-- The address after `set_ip`: the new one, if it is of the same kind.
unfoldable pub replaced : Ip → Ip → Ip
replaced (v4 _) (v4 next) = v4 next
replaced (v6 _) (v6 next) = v6 next
replaced (v4 address) (v6 _) = v4 address
replaced (v6 address) (v4 _) = v6 address

set_port-Reads :
    (s : SocketAddr) (address : Ip) (number next : ℕ)
    → next < 65536
    → Reads address number s
    → Reads address next (set_port next s)
unfolding set_port is_ipv4 ip port socket_length
set_port-Reads s address number next small r = record {
  same_ip = r.same_ip;
  same_port = htons-htons next small;
  kind = r.kind;
  size = r.size;
}

set_ip-Reads :
    (s : SocketAddr) (address next : Ip) (number : ℕ)
    → Reads address number s
    → Reads (replaced address next) number (set_ip next s)
unfolding set_ip is_ipv4 ip port socket_length is_v4 replaced
set_ip-Reads s (v4 address) (v4 next) number r = record {
  same_ip = rw (r.kind) refl;
  same_port = r.same_port;
  kind = r.kind;
  size = r.size;
}
set_ip-Reads s (v4 address) (v6 next) number r = record {
  same_ip = rw (r.kind) (simp (r.kind) at r.same_ip);
  same_port = r.same_port;
  kind = r.kind;
  size = r.size;
}
set_ip-Reads s (v6 address) (v4 next) number r = record {
  same_ip = rw (r.kind) (simp (r.kind) at r.same_ip);
  same_port = r.same_port;
  kind = r.kind;
  size = r.size;
}
set_ip-Reads s (v6 address) (v6 next) number r = record {
  same_ip = rw (r.kind) refl;
  same_port = r.same_port;
  kind = r.kind;
  size = r.size;
}

set_port-set_ip :
    (s : SocketAddr) (address other : Ip) (number next : ℕ)
    → next < 65536
    → Reads address number s
    → Reads (replaced address other) next (set_port next (set_ip other s))
set_port-set_ip s address other number next small r =
    set_port-Reads (set_ip other s) (replaced address other) number next small
      (set_ip-Reads s address other number r)

-- An address that is made of an Ipv4Addr or an Ipv6Addr and a port says that it has this address and
-- this port, is of this kind, and has the length of its struct, whatever the memory had before. Set a
-- new IP address and a new port: it has the new port, and the new IP address if that is of the same
-- kind; one of the other kind changes nothing of what the members say.
pub make-set_ip :
    (old : SocketAddr) (address other : Ip) (number next : ℕ)
    → number < 65536
    → next < 65536
    → Reads address number (make old address number)
      × Reads (replaced address other) next (set_port next (set_ip other (make old address number)))
make-set_ip old address other number next small small' =
    let made = make-Reads old address number small in
    (made, set_port-set_ip (make old address number) address other number next small' made)

ipv4-sum :
    (a b c d : ℕ)
    → a < 256
    → b < 256
    → c < 256
    → ipv4 a b c d ≡ a + b * 256 + c * 65536 + d * 16777216
unfolding ipv4
ipv4-sum a b c d p q r =
    let low : bit_or a (b * 2 ^ 8) ≡ b * 2 ^ 8 + a =
      bit_or_comm a (b * 2 ^ 8) ∙ bit_or_disjoint 8 b a p in
    let mid : bit_or (b * 2 ^ 8 + a) (c * 2 ^ 16) ≡ c * 2 ^ 16 + (b * 2 ^ 8 + a) =
      bit_or_comm (b * 2 ^ 8 + a) (c * 2 ^ 16)
      ∙ bit_or_disjoint 16 c (b * 2 ^ 8 + a) (omega (arith, p, q)) in
    let high : bit_or (c * 2 ^ 16 + (b * 2 ^ 8 + a)) (d * 2 ^ 24)
        ≡ d * 2 ^ 24 + (c * 2 ^ 16 + (b * 2 ^ 8 + a)) =
      bit_or_comm (c * 2 ^ 16 + (b * 2 ^ 8 + a)) (d * 2 ^ 24)
      ∙ bit_or_disjoint 24 d (c * 2 ^ 16 + (b * 2 ^ 8 + a)) (omega (arith, p, q, r)) in
    rw (low, mid) (high ∙ omega arith)

-- The word of an Ipv4Addr of four bytes fits into 32 bits, and has the bytes in the order of memory:
-- two addresses are equal only if their four bytes are.
pub ipv4-octets :
    (a b c d : ℕ)
    → a < 256
    → b < 256
    → c < 256
    → d < 256
    → (ipv4 a b c d < 2 ^ 32)
      × (ipv4 a b c d % 256 ≡ a)
      × (ipv4 a b c d / 256 % 256 ≡ b)
      × (ipv4 a b c d / 65536 % 256 ≡ c)
      × (ipv4 a b c d / 16777216 ≡ d)
ipv4-octets a b c d p q r t =
    let sum = ipv4-sum a b c d p q r in
    (
      omega (arith, sum, p, q, r, t),
      omega (arith, sum, p),
      omega (arith, sum, p, q),
      omega (arith, sum, p, q, r),
      omega (arith, sum, p, q, r),
    )
