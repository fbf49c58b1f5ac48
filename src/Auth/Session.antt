-- ===== src/Auth/Session.antt =====
-- resolve_session, _verify_live_session, get_current_user and require_role of packages/observability/auth.py. The
-- check of a token's signature (`jwt.decode`) and `uuid.UUID` are parameters; `users` is the table of accounts.
use lumi_observatory.Base.{
  ℕ, ◌==◌, ltb, Bool, true, not, String, List, [], ◌∷◌, Option, none, some, if◌then◌else◌,
}
use lumi_observatory.Base.Text.{◌=ₛ◌}

pub record User : Type 0 where
  pub id : ℕ
  pub role : String
  pub is_active : Bool
  pub token_version : ℕ

-- `decode_session_token`: it raises ExpiredSignatureError or another exception, or gives `sub` and `ver`
pub data Decoded : Type 0 where
  expired_signature bad_token : Decoded
  claims : (sub : String) (ver : ℕ) → Decoded

-- the HTTPExceptions: 401 by their text, and 403
pub data Denial : Type 0 where
  authentication_required session_expired invalid_session session_revoked insufficient_role : Denial

pub data Access : Type 0 where
  admitted : User → Access
  denied : Denial → Access

-- what the code calls
pub record Backend : Type 0 where
  pub decode : String → Decoded
  pub uuid : String → Option ℕ

unfoldable pub find_user : ℕ → List User → Option User
find_user k [] = none
find_user k (u ∷ us) = if u.id == k then some u else find_user k us

abbrev pub live_user : Option User → ℕ → Access
live_user none ver = denied session_revoked
live_user (some u) ver =
    if not u.is_active
    then denied session_revoked
    else if not (ver == u.token_version)
    then denied session_revoked
    else admitted u

abbrev pub live_id : List User → Option ℕ → ℕ → Access
live_id users none ver = denied invalid_session
live_id users (some k) ver = live_user (find_user k users) ver

unfoldable pub verify_live_session : Backend → List User → String → ℕ → Access
verify_live_session backend users sub ver = live_id users (backend.uuid sub) ver

abbrev pub resolve_decoded : Backend → List User → Decoded → Access
resolve_decoded backend users expired_signature = denied session_expired
resolve_decoded backend users bad_token = denied invalid_session
resolve_decoded backend users (claims sub ver) = verify_live_session backend users sub ver

unfoldable pub resolve_session : Backend → List User → String → Access
resolve_session backend users token = resolve_decoded backend users (backend.decode token)

-- the bearer token, where the header has one
unfoldable pub get_current_user : Backend → List User → Option String → Access
get_current_user backend users none = denied authentication_required
get_current_user backend users (some token) =
    if token =ₛ "" then denied authentication_required else resolve_session backend users token

-- ROLE_ORDER
unfoldable pub role_order : String → Option ℕ
role_order role =
    if role =ₛ "viewer"
    then some 0
    else if role =ₛ "operator"
    then some 1
    else if role =ₛ "admin"
    then some 2
    else none

abbrev pub rank_or_zero : Option ℕ → ℕ
rank_or_zero none = 0
rank_or_zero (some r) = r

-- `ROLE_ORDER.get(role, -1) < ROLE_ORDER.get(min_role, 0)`
abbrev pub is_below : Option ℕ → ℕ → Bool
is_below none least = true
is_below (some r) least = ltb r least

abbrev pub with_role : String → Access → Access
with_role min_role (denied d) = denied d
with_role min_role (admitted u) =
    if is_below (role_order u.role) (rank_or_zero (role_order min_role))
    then denied insufficient_role
    else admitted u

-- the dependency that `require_role(min_role)` returns
unfoldable pub require_role : Backend → List User → String → Option String → Access
require_role backend users min_role creds =
    with_role min_role (get_current_user backend users creds)
