-- ===== src/Ssrf/Host.antt =====
-- The host checks of packages/connectors/ssrf.py with the DNS pins. The resolver, `urlparse`, `urljoin` and
-- `ipaddress` are parameters; the clock is the caller's.
use lumi_observatory.Base.{
  ℕ, ◌+◌, ltb, Bool, false, not, ◌||◌, List, [], ◌∷◌, Option, none, some, if◌then◌else◌, is_nil,
}
use lumi_observatory.Base.Text.{codes, codes_eq, lower_codes, member, text_lt}
use lumi_observatory.Planner.Scope.{rstrip_dot, has_suffix}
use lumi_observatory.Ssrf.Address.{Ip, Text, metadata_hosts, ip_is_blocked}

-- what `getaddrinfo` answers: it raises gaierror, it raises UnicodeError, where the name has no IDNA form, or the
-- addresses of its entries
pub data Answer : Type 0 where
  dns_error bad_name : Answer
  addresses : List Text → Answer

-- one entry of `_dns_pin`
pub record Pin : Type 0 where
  pub pinned_host : Text
  pub pinned_ips : List Text
  pub expiry : ℕ

abbrev pub Pins : Type 0
Pins = List Pin

-- the `SSRFError`s by their message, and the ValueError of `urlparse` or of its port, or the
-- UnicodeError of the resolver, which is one
pub data Refused : Type 0 where
  empty_host metadata_host internal_host outside_allowlist dns_failed dns_empty invalid_scheme
        host_missing :
      Refused
  userinfo_blocked unix_blocked outside_ports empty_location no_address value_error : Refused
  blocked_ip : Text → Refused

pub data Res {ℓ} (A : Type ℓ) : Type ℓ where
  done : A → Pins → Res A
  raised : Refused → Pins → Res A

abbrev pub Checked : Type 0
Checked = Res {0} (Unit {0})

abbrev pub clean : Text → Text
clean host = lower_codes (rstrip_dot host)

abbrev pub dns_pin_ttl : ℕ
dns_pin_ttl = 300

-- `_dns_pin` as a dict: lookup, assignment and `pop`
unfoldable pub find_pin : Text → Pins → Option Pin
find_pin host [] = none
find_pin host (p ∷ ps) = if codes_eq host p.pinned_host then some p else find_pin host ps

unfoldable pub pop_pin : Text → Pins → Pins
pop_pin host [] = []
pop_pin host (p ∷ ps) =
    let rest = pop_pin host ps in if codes_eq host p.pinned_host then rest else p ∷ rest

unfoldable pub set_pin : Pin → Pins → Pins
set_pin p ps = p ∷ pop_pin p.pinned_host ps

unfoldable pub clear_dns_pin : Option Text → Pins → Pins
clear_dns_pin none ps = []
clear_dns_pin (some host) ps = pop_pin (clean host) ps

-- `sorted(set(…))`
unfoldable pub add_sorted : Text → List Text → List Text
add_sorted t [] = t ∷ []
add_sorted t (u ∷ us) =
    let later = add_sorted t us in
    if codes_eq t u then u ∷ us else if text_lt t u then t ∷ u ∷ us else u ∷ later

unfoldable pub sorted_set : List Text → List Text
sorted_set [] = []
sorted_set (t ∷ ts) = add_sorted t (sorted_set ts)

abbrev pub resolve_now : Answer → ℕ → Text → Pins → Res (List Text)
resolve_now dns_error now host pins = raised dns_failed pins
resolve_now bad_name now host pins = raised value_error pins
resolve_now (addresses []) now host pins = raised dns_empty pins
resolve_now (addresses (ip ∷ ips)) now host pins =
    let result = sorted_set (ip ∷ ips) in
    done result (
      set_pin (record { pinned_host = host; pinned_ips = result; expiry = now + dns_pin_ttl }) pins)

abbrev pub resolve_pinned : Option Pin → Answer → ℕ → Text → Pins → Res (List Text)
resolve_pinned none answer now host pins = resolve_now answer now host pins
resolve_pinned (some p) answer now host pins =
    if ltb now p.expiry then done p.pinned_ips pins else resolve_now answer now host pins

-- `resolve_all` with its default `use_pin=True`; `answer` is what the resolver would say now
unfoldable pub resolve_all : Answer → ℕ → Text → Pins → Res (List Text)
resolve_all answer now host pins =
    resolve_pinned (find_pin (clean host) pins) answer now (clean host) pins

unfoldable pub is_internal_hostname : Text → Bool
is_internal_hostname host =
    member (clean host) (codes "host.docker.internal" ∷ codes "gateway.docker.internal" ∷ [])
    || has_suffix (codes ".internal") (clean host)
    || has_suffix (codes ".local") (clean host)

abbrev pub cleaned : List Text → List Text
cleaned [] = []
cleaned (h ∷ hs) = rstrip_dot (lower_codes h) ∷ cleaned hs

abbrev pub outside : Text → Option (List Text) → Bool
outside host none = false
outside host (some allowed) = not (member host (cleaned allowed))

-- the loop over the resolved addresses
unfoldable pub check_ips : (Text → Option Ip) → List Text → Pins → Checked
check_ips address [] pins = done tt pins
check_ips address (ip ∷ ips) pins =
    let rest = check_ips address ips pins in
    if ip_is_blocked address ip then raised (blocked_ip ip) pins else rest

abbrev pub check_resolved : (Text → Option Ip) → Res (List Text) → Checked
check_resolved address (done ips pins) = check_ips address ips pins
check_resolved address (raised e pins) = raised e pins

-- a host that is an address literal is checked itself, any other name is resolved
abbrev pub check_address :
    (Text → Option Ip) → Answer → ℕ → Text → Text → Option Ip → Pins → Checked
check_address address answer now raw host none pins =
    check_resolved address (resolve_all answer now host pins)
check_address address answer now raw host (some literal) pins =
    if ip_is_blocked address (rstrip_dot raw) then raised (blocked_ip raw) pins else done tt pins

unfoldable pub validate_host :
    (Text → Option Ip) → Answer → ℕ → Text → Option (List Text) → Pins → Checked
validate_host address answer now raw allowed pins =
    if is_nil (clean raw)
    then raised empty_host pins
    else if member (clean raw) metadata_hosts
    then raised metadata_host pins
    else if is_internal_hostname (clean raw)
    then raised internal_host pins
    else if outside (clean raw) allowed
    then raised outside_allowlist pins
    else check_address address answer now raw (clean raw) (address (rstrip_dot raw)) pins
