-- ===== src/Net.antt =====
-- Client addresses: the standard library's `IpAddr`, and `client_key` of
-- crates/geata/src/rate_limit.rs. An address is its number, of 32 or of 128 bits.
use native.Mathlib.Nat.{one-le-pow, eq_of_mul-eq-mul_right}
use geata.Common.{
  ℕ, ◌-◌, ◌*◌, ◌/◌, ◌%◌, ◌^◌, ◌≡◌, Bool, false, arith, Key, nat_eq, if◌then◌else◌, ◌↔◌,
}

pub data IpAddr : Type 0 where
  v4 : ℕ → IpAddr
  v6 : ℕ → IpAddr

unfoldable pub ip_eq : IpAddr → IpAddr → Bool
ip_eq (v4 a) (v4 b) = nat_eq a b
ip_eq (v4 a) (v6 b) = false
ip_eq (v6 a) (v4 b) = false
ip_eq (v6 a) (v6 b) = nat_eq a b

pub ip_eq_iff : (a b : IpAddr) → (ip_eq a b ≡ Bool.true) ↔ (a ≡ b)
unfolding ip_eq
ip_eq_iff (v4 a) (v4 b) = ground arith
ip_eq_iff (v4 a) (v6 b) = ground arith
ip_eq_iff (v6 a) (v4 b) = ground arith
ip_eq_iff (v6 a) (v6 b) = ground arith

instance abbrev pub ip_Key : Key IpAddr
ip_Key = record { same = ip_eq; same_iff = ip_eq_iff }

-- `IpAddr::is_loopback`
unfoldable pub is_loopback : IpAddr → Bool
is_loopback (v4 a) = nat_eq (a / 2 ^ 24) 127
is_loopback (v6 a) = nat_eq a 1

-- `IpAddr::to_canonical`: an IPv4-mapped address, `::ffff:a.b.c.d`, becomes the IPv4 address.
unfoldable pub to_canonical : IpAddr → IpAddr
to_canonical (v4 a) = v4 a
to_canonical (v6 a) = if nat_eq (a / 2 ^ 32) 0xffff then v4 (a % 2 ^ 32) else v6 a

-- `ip & (u128::MAX << k)` on 128 bits: the low `k` bits are cleared. At `k = 128` the shift is
-- refused and the mask is 0; there the quotient is 0 too.
unfoldable pub clear_low_bits : ℕ → ℕ → ℕ
clear_low_bits ip k = ip / 2 ^ k * 2 ^ k

unfoldable pub masked : ℕ → IpAddr → IpAddr
unfolding clear_low_bits
masked ipv6_prefix (v4 a) = v4 a
masked ipv6_prefix (v6 a) = v6 (clear_low_bits a (128 - ipv6_prefix))

-- IPv4 clients keep their address; IPv6 clients share a key for each prefix.
unfoldable pub client_key : IpAddr → ℕ → IpAddr
unfolding to_canonical masked
client_key client ipv6_prefix = masked ipv6_prefix (to_canonical client)

-- The clients that are to share a key: one IPv4 address, or IPv6 addresses of one network.
abbrev pub SameClient : ℕ → IpAddr → IpAddr → Type 0
SameClient ipv6_prefix (v4 a) (v4 b) = a ≡ b
SameClient ipv6_prefix (v6 a) (v6 b) = a / 2 ^ (128 - ipv6_prefix) ≡ b / 2 ^ (128 - ipv6_prefix)
SameClient ipv6_prefix (v4 a) (v6 b) = ⊥
SameClient ipv6_prefix (v6 a) (v4 b) = ⊥

masked-eq_iff :
    (ipv6_prefix : ℕ) (a b : IpAddr)
    → (masked ipv6_prefix a ≡ masked ipv6_prefix b) ↔ SameClient ipv6_prefix a b
unfolding masked
masked-eq_iff p (v4 a) (v4 b) = (λ e. ground arith, λ e. ground arith)
masked-eq_iff p (v4 a) (v6 b) = (λ e. cc, λ e. absurd e)
masked-eq_iff p (v6 a) (v4 b) = (λ e. cc, λ e. absurd e)
masked-eq_iff p (v6 a) (v6 b) =
    let k = 128 - p in
    (
      λ e. eq_of_mul-eq-mul_right (2 ^ k) (one-le-pow k 2 (omega arith)) _ _ (ground arith),
      λ e. ground arith,
    )

-- Two clients share a key exactly when, with IPv4-mapped addresses read as IPv4, they are one IPv4
-- address or IPv6 addresses of one network of the prefix's length.
pub client_key-eq_iff :
    (ipv6_prefix : ℕ) (a b : IpAddr)
    → (client_key a ipv6_prefix ≡ client_key b ipv6_prefix)
      ↔ SameClient ipv6_prefix (to_canonical a) (to_canonical b)
unfolding client_key
client_key-eq_iff p a b = masked-eq_iff p (to_canonical a) (to_canonical b)
