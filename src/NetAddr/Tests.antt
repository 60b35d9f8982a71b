-- ===== src/NetAddr/Tests.antt =====
-- The address 127.0.0.1 and the port 8080.
use zedlibs.Prelude.{ℕ, ◌/◌, ◌≡◌, refl, List, [], ◌∷◌, replicate, arith}
use zedlibs.NetAddr.{v4, v6, SocketAddr, htons, ipv4, ipv6, make, set_ip, set_port}
use zedlibs.NetAddr.Parts.{Reads, replaced, make-set_ip, ipv4-octets}

abbrev memory : SocketAddr
memory = record { sin_family = 7; sin_port = 7; word = 7; sin6_addr = replicate 16 7; scope = 7 }

loopback : ipv4 127 0 0 1 ≡ 16777343
unfolding ipv4
loopback = refl

abbrev loopback6 : List ℕ
loopback6 = 0 ∷ 0 ∷ 0 ∷ 0 ∷ 0 ∷ 0 ∷ 0 ∷ 0 ∷ 0 ∷ 0 ∷ 0 ∷ 0 ∷ 0 ∷ 0 ∷ 0 ∷ 1 ∷ []

last_of_eight : ipv6 0 0 0 0 0 0 0 1 ≡ loopback6
unfolding ipv6 htons
last_of_eight = refl

-- An IPv6 address is not taken by an IPv4 one.
make-set_ip_example :
    Reads (v4 16777343) 8080 (make memory (v4 16777343) 8080)
    × Reads
        (replaced (v4 16777343) (v6 loopback6))
        80
        (set_port 80 (set_ip (v6 loopback6) (make memory (v4 16777343) 8080)))
make-set_ip_example =
    make-set_ip memory (v4 16777343) (v6 loopback6) 8080 80 (omega arith) (omega arith)

four_octets : ipv4 127 0 0 1 / 16777216 ≡ 1
four_octets = (ipv4-octets 127 0 0 1 (omega arith) (omega arith) (omega arith) (omega arith)).4
