-- ===== src/Ssrf/Connect.antt =====
-- `validate_url`, `resolve_redirect_url` and `PinnedNetworkBackend.connect_tcp` of packages/connectors/ssrf.py.
use lumi_observatory.Base.{
  ℕ, ◌==◌, Bool, true, false, not, ◌&&◌, ◌||◌, List, [], ◌∷◌, Option, none, some, if◌then◌else◌,
  is_nil, is_some,
}
use lumi_observatory.Base.Text.{codes, lower_codes, member, contains}
use lumi_observatory.Planner.Scope.{Url, Port, default_port, bad_port, port}
use lumi_observatory.Ssrf.Address.{Ip, Text, ip_is_blocked}
use lumi_observatory.Ssrf.Host.{
  Answer, Pins, Refused, Checked, invalid_scheme, host_missing, userinfo_blocked, unix_blocked,
  outside_ports, empty_location, no_address, value_error, Res, done, raised, resolve_all,
  validate_host,
}

-- `urlparse` (`none` where it raises), `urljoin` and `ipaddress.ip_address`
pub record Parsers : Type 0 where
  pub parse : Text → Option Url
  pub join : Text → Text → Text
  pub address : Text → Option Ip

-- the port test; reading a bad port raises
pub data PortTest : Type 0 where
  port_ok port_refused port_error : PortTest

abbrev pub port_test : Option (List Text) → Port → PortTest
port_test allowed default_port = port_ok
port_test allowed bad_port = port_error
port_test allowed (port n) =
    if n == 80 || n == 443 || n == 8000 || n == 8001 || n == 8002 || n == 3525
    then port_ok
    else if is_some allowed && not (n == 80 || n == 443)
    then port_refused
    else port_ok

abbrev pub after_port : Checked → Pins → PortTest → Checked
after_port checked pins port_ok = checked
after_port checked pins port_refused = raised outside_ports pins
after_port checked pins port_error = raised value_error pins

unfoldable pub check_url :
    (Text → Option Ip) → Answer → ℕ → Text → Option (List Text) → Pins → Option Url → Checked
check_url address answer now url allowed pins none = raised value_error pins
check_url address answer now url allowed pins (some parts) =
    if not (member parts.scheme (codes "http" ∷ codes "https" ∷ []))
    then raised invalid_scheme pins
    else if is_nil parts.hostname
    then raised host_missing pins
    else if parts.userinfo
    then raised userinfo_blocked pins
    else if contains (codes "unix:") (lower_codes url)
    then raised unix_blocked pins
    else after_port (validate_host address answer now parts.hostname allowed pins) pins
        (port_test allowed parts.url_port)

-- a checked URL is returned as it is
abbrev pub returned : Text → Checked → Res Text
returned url (done u pins) = done url pins
returned url (raised e pins) = raised e pins

unfoldable pub validate_url : Parsers → Answer → ℕ → Text → Option (List Text) → Pins → Res Text
validate_url net answer now url allowed pins =
    returned url (check_url net.address answer now url allowed pins (net.parse url))

unfoldable pub resolve_redirect_url :
    Parsers → Answer → ℕ → Text → Text → Option (List Text) → Pins → Res Text
resolve_redirect_url net answer now current location allowed pins =
    if is_nil location
    then raised empty_location pins
    else validate_url net answer now (net.join current location) allowed pins

-- `[ip for ip in … if not ip_is_blocked(ip)]`
unfoldable pub unblocked : (Text → Option Ip) → List Text → List Text
unblocked address [] = []
unblocked address (ip ∷ ips) =
    let rest = unblocked address ips in if ip_is_blocked address ip then rest else ip ∷ rest

abbrev pub open_first : List Text → Pins → Res Text
open_first [] pins = raised no_address pins
open_first (ip ∷ ips) pins = done ip pins

-- whether `except SSRFError` catches it
abbrev pub is_ssrf_error : Refused → Bool
is_ssrf_error value_error = false
is_ssrf_error _ = true

abbrev pub connect_resolved : (Text → Option Ip) → Res (List Text) → Res Text
connect_resolved address (done ips pins) = open_first (unblocked address ips) pins
connect_resolved address (raised e pins) =
    if is_ssrf_error e then open_first [] pins else raised e pins

-- the address that the socket connects to
unfoldable pub connect_tcp : (Text → Option Ip) → Answer → ℕ → Text → Pins → Res Text
connect_tcp address answer now host pins =
    connect_resolved address (resolve_all answer now host pins)
