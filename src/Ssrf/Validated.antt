-- ===== src/Ssrf/Validated.antt =====
-- A validated host and the connection that follows it, packages/connectors/ssrf.py.
use lumi_observatory.Base.{ℕ, ◌<◌, false, Option, ◌≡◌}
use lumi_observatory.Ssrf.Address.{Ip, Text, ip_is_blocked}
use lumi_observatory.Ssrf.Host.{Answer, Pins, done}
use lumi_observatory.Ssrf.Connect.{connect_tcp}
use lumi_observatory.Ssrf.Pinned.{Pinned}

-- every connection to the host until `expiry` goes to one unblocked address, whatever the resolver answers
abbrev pub Settled : (Text → Option Ip) → Text → ℕ → Pins → Type 0
Settled address raw expiry pins =
    (ip : Text) × (ip_is_blocked address ip ≡ false)
    × ((answer : Answer) (later : ℕ)
        → later < expiry
        → connect_tcp address answer later raw pins ≡ done ip pins)
