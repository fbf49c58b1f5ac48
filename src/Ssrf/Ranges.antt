-- ===== src/Ssrf/Ranges.antt =====
-- The addresses that `ip_is_blocked` lets through, against the ranges written out.
use lumi_observatory.Base.{ℕ, ◌*◌, ◌/◌, ◌<◌, ◌==◌, leb, Bool, not, ◌&&◌, ◌||◌, ◌≡◌, refl, arith}
use lumi_observatory.Ssrf.Address.{
  v4, v6, in_blocked_v4, in_blocked_v6, is_special_v4, is_special_v6, is_reserved_v6, reserved_low,
  reserved_middle, reserved_high, low32, ip_blocked,
}

-- `low ≤ n ≤ high`
abbrev pub within : ℕ → ℕ → ℕ → Bool
within low high n = leb low n && leb n high

-- the IPv4 addresses that stand for no public host
abbrev pub unroutable : ℕ → ℕ → ℕ → Bool
unroutable a b c =
    a == 0
    || a == 10
    || (a == 100 && within 64 127 b)
    || a == 127
    || (a == 169 && b == 254)
    || (a == 172 && within 16 31 b)
    || (a == 192 && b == 0 && c == 2)
    || (a == 192 && b == 168)
    || (a == 198 && b == 51 && c == 100)
    || (a == 203 && b == 0 && c == 113)
    || within 224 255 a

v4_ranges : (a b c d : ℕ) → a < 256 → ip_blocked (v4 a b c d) ≡ unroutable a b c
unfolding in_blocked_v4 is_special_v4
v4_ranges a b c d h = ground arith

-- the first groups of the global unicast addresses 2000::/3 and of the old site-local ones fec0::/10
abbrev pub reachable : ℕ → Bool
reachable top = within 0x2000 0x3fff top || within 0xfec0 0xfeff top

low_reserved : (top : ℕ) → reserved_low top ≡ leb top 0x1fff
low_reserved top = ground arith

middle_reserved : (top : ℕ) → reserved_middle top ≡ within 0x4000 0xdfff top
middle_reserved top = ground arith

high_reserved : (top : ℕ) → reserved_high top ≡ within 0xe000 0xfbff top || within 0xfe00 0xfe7f top
high_reserved top = ground arith

reserved_ranges :
    (top : ℕ)
    → is_reserved_v6 top
      ≡ leb top 0x1fff
        || (within 0x4000 0xdfff top || (within 0xe000 0xfbff top || within 0xfe00 0xfe7f top))
unfolding is_reserved_v6
reserved_ranges top = rw (low_reserved top, middle_reserved top, high_reserved top) refl

-- the same test with what only matters below the reserved range as Booleans
blocked_ranges :
    (top : ℕ) (mapped loopback unspecified nat64 : Bool)
    → top < 65536
    → (top == 0 && mapped)
        || ((top == 0 && loopback)
            || top / 64 == 0x3fa
            || top / 256 == 0xff
            || (top == 0 && unspecified)
            || is_reserved_v6 top)
        || ((top == 0 && loopback)
            || top / 512 == 0x7e
            || top / 64 == 0x3fa
            || top / 256 == 0xff
            || (top == 0 && mapped)
            || (top == 0 && unspecified)
            || top / 512 == 1
            || (top == 0x64 && nat64))
      ≡ not (reachable top)
blocked_ranges top mapped loopback unspecified nat64 h = ground (arith, reserved_ranges top)

v6_ranges : (top rest : ℕ) → top < 65536 → ip_blocked (v6 top rest) ≡ not (reachable top)
unfolding in_blocked_v6 is_special_v6
v6_ranges top rest h =
    blocked_ranges top (rest / low32 == 0xffff) (rest == 1) (rest == 0)
      (rest / low32 == 0xff9b * 0x1_0000_0000_0000_0000) h

-- An IPv4 address of octets is blocked exactly when it lies in the written-out unroutable ranges, and an IPv6
-- address exactly when its first group is neither in 2000::/3 nor in fec0::/10. The octet and group bounds
-- are conditions.
pub ip_blocked_ranges :
    (a b c d top rest : ℕ)
    → a < 256
    → top < 65536
    → (ip_blocked (v4 a b c d) ≡ unroutable a b c)
      × (ip_blocked (v6 top rest) ≡ not (reachable top))
ip_blocked_ranges a b c d top rest ha ht = (v4_ranges a b c d ha, v6_ranges top rest ht)
