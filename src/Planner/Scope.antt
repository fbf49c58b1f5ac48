-- ===== src/Planner/Scope.antt =====
-- The targets of planner.py: `_scope_strings` and `_http_target_is_preflight_safe`. `urlparse` and
-- `ipaddress` are parameters.
use lumi_observatory.Base.{
  ℕ, ◌==◌, Bool, true, false, not, ◌||◌, List, [], ◌∷◌, ◌++◌, Option, none, some, if◌then◌else◌,
  is_nil,
}
use lumi_observatory.Base.Text.{codes, codes_eq, lower_codes, strip, member}

abbrev pub Text : Type 0
Text = List ℕ

-- what `urlparse` and its properties give; reading the port may raise
pub data Port : Type 0 where
  default_port bad_port : Port
  port : ℕ → Port

pub record Url : Type 0 where
  pub scheme : Text
  pub hostname : Text
  pub userinfo : Bool
  pub url_port : Port

-- `parse` is `none` where `urlparse` raises; `address` is `none` where the host is no address literal, and
-- otherwise whether one of the refused classes (private, loopback, link-local, …) holds.
pub record Net : Type 0 where
  pub parse : Text → Option Url
  pub address : Text → Option Bool

-- a scope member: a list of values or one value; a value that is no string is `none`, and a missing member is an
-- empty list under a plural name and `one none` under a singular one
pub data Member : Type 0 where
  many : List (Option Text) → Member
  one : Option Text → Member

abbrev pub values_of : Member → List (Option Text)
values_of (many vs) = vs
values_of (one v) = v ∷ []

-- `values.append(scope[singular])`; a list there is one value that is no string, and none or "" keeps nothing
abbrev pub appended : Member → List (Option Text)
appended (many vs) = none ∷ []
appended (one v) = v ∷ []

-- `{str(v).strip() for v in values if isinstance(v, str) and v.strip()}`
abbrev pub kept_strings : List (Option Text) → List Text
kept_strings [] = []
kept_strings (none ∷ vs) = kept_strings vs
kept_strings (some v ∷ vs) = elim (strip v) [
  | [] ↦ kept_strings vs
  | c ∷ cs ↦ (c ∷ cs) ∷ kept_strings vs
]

unfoldable pub scope_strings : Member → Member → List Text
scope_strings plural singular = kept_strings (values_of plural ++ appended singular)

-- `str.rstrip(".")`
unfoldable pub rstrip_dot : Text → Text
rstrip_dot [] = []
rstrip_dot (c ∷ cs) = elim (rstrip_dot cs) [
  | [] ↦ if c == b'.' then [] else c ∷ []
  | x ∷ xs ↦ c ∷ x ∷ xs
]

-- `a.endswith(b)`
abbrev pub has_suffix : Text → Text → Bool
has_suffix suffix [] = is_nil suffix
has_suffix suffix (c ∷ cs) = codes_eq (c ∷ cs) suffix || has_suffix suffix cs

unfoldable pub host_of : Url → Text
host_of u = lower_codes (rstrip_dot u.hostname)

-- the names that never leave the machine
unfoldable pub is_local_name : Text → Bool
is_local_name host =
    member host (
      codes "localhost"
      ∷ codes "metadata.google.internal"
      ∷ codes "metadata.google.com"
      ∷ codes "instance-data"
      ∷ [])
    || has_suffix (codes ".internal") host
    || has_suffix (codes ".local") host

unfoldable pub allowed_port : Port → Bool
allowed_port default_port = true
allowed_port bad_port = false
allowed_port (port n) = n == 80 || n == 443 || n == 8000 || n == 8001 || n == 8002 || n == 3525

unfoldable pub web_scheme : Url → Bool
web_scheme u = member u.scheme (codes "http" ∷ codes "https" ∷ [])

abbrev pub address_ok : Option Bool → Bool
address_ok none = true
address_ok (some refused) = not refused

abbrev pub url_safe : Net → Option Url → Bool
url_safe net none = false
url_safe net (some u) =
    if not (web_scheme u) || is_nil u.hostname
    then false
    else if u.userinfo
    then false
    else if is_local_name (host_of u)
    then false
    else if not (allowed_port u.url_port)
    then false
    else address_ok (net.address (host_of u))

unfoldable pub preflight_safe : Net → Text → Bool
preflight_safe net url = url_safe net (net.parse url)
