-- ===== src/Ssrf/Address.antt =====
-- `ip_is_blocked` of packages/connectors/ssrf.py, with the classes of `ipaddress`. An IPv4 address is its four
-- octets, an IPv6 address its first group of sixteen bits and the other 112 bits.
use lumi_observatory.Base.{
  ℕ, ◌*◌, ◌/◌, ◌==◌, Bool, true, ◌&&◌, ◌||◌, List, [], ◌∷◌, Option, none, some,
}
use lumi_observatory.Base.Text.{codes, member}

pub data Ip : Type 0 where
  v4 : (a b c d : ℕ) → Ip
  v6 : (top rest : ℕ) → Ip

-- `_blocked`, its IPv4 networks
unfoldable pub in_blocked_v4 : ℕ → ℕ → ℕ → ℕ → Bool
in_blocked_v4 a b c d =
    a == 127
    || a == 10
    || (a == 172 && b / 16 == 1)
    || (a == 192 && b == 168)
    || (a == 169 && b == 254)
    || a == 0
    || (a == 100 && b / 64 == 1)
    || (a == 192 && b == 0 && c == 2)
    || (a == 198 && b == 51 && c == 100)
    || (a == 203 && b == 0 && c == 113)
    || a / 16 == 14
    || a / 16 == 15
    || (a == 255 && b == 255 && c == 255 && d == 255)

-- 2 ^ 32, below which the low 32 bits stand
abbrev pub low32 : ℕ
low32 = 0x1_0000_0000

-- `_blocked`, its IPv6 networks
unfoldable pub in_blocked_v6 : ℕ → ℕ → Bool
in_blocked_v6 top rest =
    (top == 0 && rest == 1)
    || top / 512 == 0x7e
    || top / 64 == 0x3fa
    || top / 256 == 0xff
    || (top == 0 && rest / low32 == 0xffff)
    || (top == 0 && rest == 0)
    || top / 512 == 1
    || (top == 0x64 && rest / low32 == 0xff9b * 0x1_0000_0000_0000_0000)

-- `is_loopback`, `is_link_local`, `is_multicast`, `is_unspecified` or `is_reserved`
unfoldable pub is_special_v4 : ℕ → ℕ → ℕ → ℕ → Bool
is_special_v4 a b c d =
    a == 127
    || (a == 169 && b == 254)
    || a / 16 == 14
    || (a == 0 && b == 0 && c == 0 && d == 0)
    || a / 16 == 15

-- the reserved IPv6 networks of `ipaddress`, in three runs
abbrev pub reserved_low : ℕ → Bool
reserved_low top =
    top / 256 == 0
    || top / 256 == 1
    || top / 512 == 1
    || top / 1024 == 1
    || top / 2048 == 1
    || top / 4096 == 1

abbrev pub reserved_middle : ℕ → Bool
reserved_middle top =
    top / 8192 == 2 || top / 8192 == 3 || top / 8192 == 4 || top / 8192 == 5 || top / 8192 == 6

abbrev pub reserved_high : ℕ → Bool
reserved_high top = top / 4096 == 14 || top / 2048 == 30 || top / 1024 == 62 || top / 128 == 0x1fc

unfoldable pub is_reserved_v6 : ℕ → Bool
is_reserved_v6 top = reserved_low top || (reserved_middle top || reserved_high top)

unfoldable pub is_special_v6 : ℕ → ℕ → Bool
is_special_v6 top rest =
    (top == 0 && rest == 1)
    || top / 64 == 0x3fa
    || top / 256 == 0xff
    || (top == 0 && rest == 0)
    || is_reserved_v6 top

-- `ipv4_mapped is not None`
abbrev pub is_mapped : ℕ → ℕ → Bool
is_mapped top rest = top == 0 && rest / low32 == 0xffff

abbrev pub ip_blocked : Ip → Bool
ip_blocked (v4 a b c d) = is_special_v4 a b c d || in_blocked_v4 a b c d
ip_blocked (v6 top rest) = is_mapped top rest || is_special_v6 top rest || in_blocked_v6 top rest

abbrev pub Text : Type 0
Text = List ℕ

-- `_METADATA_HOSTS`
abbrev pub metadata_hosts : List Text
metadata_hosts =
    codes "169.254.169.254"
    ∷ codes "metadata.google.internal"
    ∷ codes "metadata.google.com"
    ∷ codes "instance-data"
    ∷ []

abbrev pub parsed_blocked : Text → Option Ip → Bool
parsed_blocked ip none = true
parsed_blocked ip (some i) = member ip metadata_hosts || ip_blocked i

-- `address` is `ipaddress.ip_address`, `none` where it raises
unfoldable pub ip_is_blocked : (Text → Option Ip) → Text → Bool
ip_is_blocked address ip = parsed_blocked ip (address ip)
