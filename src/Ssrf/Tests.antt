-- ===== src/Ssrf/Tests.antt =====
-- Runs of the address checks of packages/connectors/ssrf.py at concrete inputs.
use lumi_observatory.Base.{ℕ, true, false, [], ◌∷◌, Option, none, some, if◌then◌else◌, ◌≡◌, refl}
use lumi_observatory.Base.Text.{codes, codes_eq, text_lt}
use lumi_observatory.Ssrf.Address.{
  Ip, v4, v6, Text, ip_blocked, ip_is_blocked, is_special_v4, in_blocked_v4, is_special_v6,
  is_reserved_v6, in_blocked_v6,
}
use lumi_observatory.Planner.Scope.{default_port, rstrip_dot}
use lumi_observatory.Ssrf.Host.{
  Answer, addresses, dns_error, Pins, raised, validate_host, blocked_ip, is_internal_hostname,
  resolve_all, find_pin, check_ips, sorted_set, add_sorted, set_pin, pop_pin,
}
use lumi_observatory.Ssrf.Connect.{Parsers, validate_url, check_url, resolve_redirect_url}
use lumi_observatory.Ssrf.Fetch.{
  Response, redirect, responded, Turn, fetched, json_document, get_json, get_loop, visit,
  read_response, read_chunks,
}
use lumi_observatory.Ssrf.Hops.{Guarded, get_json-Guarded}

-- an address parser that knows two literals
abbrev address : Text → Option Ip
address t =
    if codes_eq t (codes "93.184.216.34")
    then some (v4 93 184 216 34)
    else if codes_eq t (codes "10.0.0.8")
    then some (v4 10 0 0 8)
    else none

abbrev mixed : Answer
mixed = addresses (codes "93.184.216.34" ∷ codes "10.0.0.8" ∷ [])

abbrev public : Answer
public = addresses (codes "93.184.216.34" ∷ [])

abbrev pins_after : Pins
pins_after =
    record {
      pinned_host = codes "example.com";
      pinned_ips = codes "93.184.216.34" ∷ [];
      expiry = 1300;
    }
    ∷ []

-- a name with one blocked address is refused by the check
mixed_refused :
    validate_host address mixed 1000 (codes "Example.com.") none []
    ≡ raised (blocked_ip (codes "10.0.0.8")) (
        record {
          pinned_host = codes "example.com";
          pinned_ips = codes "10.0.0.8" ∷ codes "93.184.216.34" ∷ [];
          expiry = 1300;
        }
        ∷ [])
unfolding validate_host rstrip_dot is_internal_hostname resolve_all find_pin check_ips sorted_set
    add_sorted text_lt ip_is_blocked is_special_v4 in_blocked_v4 set_pin pop_pin
mixed_refused = refl

-- the old site-local range passes
site_local_passes : ip_blocked (v6 0xfec0 1) ≡ false
unfolding is_special_v6 is_reserved_v6 in_blocked_v6
site_local_passes = refl

-- every URL has the public host, and is answered by one redirect and then a small document
abbrev parsers : Parsers
parsers = record {
  parse = λ t. some (record {
    scheme = codes "https";
    hostname = codes "example.com";
    userinfo = false;
    url_port = default_port;
  });
  join = λ base location. location;
  address = address;
}

abbrev small : Response
small = record {
  content_length = some 12;
  status_ok = true;
  is_json = true;
  is_text = false;
  chunks = 8 ∷ 4 ∷ [];
  parses = true;
}

abbrev turns : ℕ → Turn
turns i = record {
  answer = public;
  now = 1000;
  exchange = λ url. if codes_eq url (codes "/a") then redirect (codes "/b") else responded small;
  redirect_answer = dns_error;
  redirect_now = 1001;
}

fetched_small :
    get_json parsers none 12 turns 3 public 1000 (codes "/a") []
    ≡ (fetched json_document 12, codes "/a" ∷ codes "/b" ∷ [])
unfolding get_json get_loop visit validate_url check_url resolve_redirect_url validate_host
    rstrip_dot is_internal_hostname resolve_all find_pin check_ips sorted_set add_sorted text_lt
    ip_is_blocked is_special_v4 in_blocked_v4 set_pin pop_pin read_response read_chunks
fetched_small = refl

get_json-Guarded_example :
    Guarded parsers none 12 4 (get_json parsers none 12 turns 3 public 1000 (codes "/a") [])
get_json-Guarded_example = get_json-Guarded parsers none 12 turns 3 public 1000 (codes "/a") []
