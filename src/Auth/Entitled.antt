-- ===== src/Auth/Entitled.antt =====
-- Who passes the sessions and roles of packages/observability/auth.py.
use lumi_observatory.Base.{
  ℕ, ◌≤◌, ◌==◌, Bool, true, false, not, String, List, Option, none, some, if◌then◌else◌, ◌≡◌, refl,
  sym, ap, ◌∙◌, ◌↔◌, arith,
}
use lumi_observatory.Base.Text.{◌=ₛ◌}
use lumi_observatory.Auth.Session.{
  User, Decoded, expired_signature, bad_token, claims, Denial, authentication_required,
  session_revoked, insufficient_role, Access, admitted, denied, Backend, find_user, live_user,
  live_id, verify_live_session, resolve_decoded, resolve_session, get_current_user, role_order,
  rank_or_zero, is_below, with_role, require_role,
}

-- a token whose claims name the account
abbrev pub Names : Backend → List User → String → User → Type 0
Names backend users token u =
    (sub : String) × (k : ℕ) × (backend.decode token ≡ claims sub u.token_version)
    × (backend.uuid sub ≡ some k)
    × (find_user k users ≡ some u)

abbrev pub HasRole : String → User → Type 0
HasRole min_role u =
    (r : ℕ) × (role_order u.role ≡ some r) × (rank_or_zero (role_order min_role) ≤ r)

-- who may pass: the bearer token is there, names the account at its current version, and the account is active
-- and has the role
abbrev pub Entitled : Backend → List User → String → Option String → User → Type 0
Entitled backend users min_role creds u =
    (token : String) × (creds ≡ some token)
    × ((token =ₛ "") ≡ false)
    × Names backend users token u
    × (u.is_active ≡ true)
    × HasRole min_role u

admitted_eq : (u v : User) → admitted u ≡ admitted v → u ≡ v
admitted_eq u v h = cc

-- a test that refuses, in what admitted
refuse_cases :
    (b : Bool) (d : Denial) (a : Access) (u : User)
    → (if b then denied d else a) ≡ admitted u
    → (b ≡ false) × (a ≡ admitted u)
refuse_cases true d a u h = absurd (cc)
refuse_cases false d a u h = (refl, h)

live_user_cases :
    (o : Option User) (ver : ℕ) (u : User)
    → live_user o ver ≡ admitted u
    → (o ≡ some u) × (u.is_active ≡ true) × (ver ≡ u.token_version)
live_user_cases none ver u h = absurd (cc)
live_user_cases (some v) ver u h =
    let a = refuse_cases (not v.is_active) session_revoked _ u h in
    let b = refuse_cases (not (ver == v.token_version)) session_revoked (admitted v) u (a.1) in
    let e = admitted_eq v u (b.1) in rw (sym e) (refl, ground (arith, a.0), ground (arith, b.0))

live_id_cases :
    (users : List User) (o : Option ℕ) (ver : ℕ) (u : User)
    → live_id users o ver ≡ admitted u
    → (k : ℕ) × (o ≡ some k)
      × (find_user k users ≡ some u)
      × (u.is_active ≡ true)
      × (ver ≡ u.token_version)
live_id_cases users none ver u h = absurd (cc)
live_id_cases users (some k) ver u h =
    let c = live_user_cases (find_user k users) ver u h in (k, refl, c.0, c.1, c.2)

decoded_cases :
    (backend : Backend) (users : List User) (d : Decoded) (u : User)
    → resolve_decoded backend users d ≡ admitted u
    → (sub : String) × (k : ℕ) × (d ≡ claims sub u.token_version)
      × (backend.uuid sub ≡ some k)
      × (find_user k users ≡ some u)
      × (u.is_active ≡ true)
unfolding verify_live_session
decoded_cases backend users expired_signature u h = absurd (cc)
decoded_cases backend users bad_token u h = absurd (cc)
decoded_cases backend users (claims sub ver) u h =
    let (k, o, found, active, same) = live_id_cases users (backend.uuid sub) ver u h in
    (sub, k, ap (claims sub) same, o, found, active)

enough_role :
    (o : Option ℕ) (least : ℕ) → is_below o least ≡ false → (r : ℕ) × (o ≡ some r) × (least ≤ r)
enough_role none least h = absurd (cc)
enough_role (some r) least h = (r, refl, ground (arith, h))

with_role_cases :
    (min_role : String) (a : Access) (u : User)
    → with_role min_role a ≡ admitted u
    → (a ≡ admitted u) × HasRole min_role u
with_role_cases min_role (denied d) u h = absurd (cc)
with_role_cases min_role (admitted v) u h =
    let b = refuse_cases _ insufficient_role (admitted v) u h in
    let e = admitted_eq v u (b.1) in rw (sym e) (refl, enough_role (role_order v.role) _ (b.0))

session_cases :
    (backend : Backend) (users : List User) (creds : Option String) (u : User)
    → get_current_user backend users creds ≡ admitted u
    → (token : String) × (creds ≡ some token)
      × ((token =ₛ "") ≡ false)
      × Names backend users token u
      × (u.is_active ≡ true)
unfolding get_current_user resolve_session
session_cases backend users none u h = absurd (cc)
session_cases backend users (some token) u h =
    let g = refuse_cases (token =ₛ "") authentication_required _ u h in
    let (sub, k, d, o, found, active) =
      decoded_cases backend users (backend.decode token) u (g.1) in
    (token, refl, g.0, (sub, k, d, o, found), active)

live_user_ok : (u : User) → u.is_active ≡ true → live_user (some u) u.token_version ≡ admitted u
live_user_ok u active = ground (arith, active)

with_role_ok :
    (min_role : String) (u : User) (r : ℕ)
    → role_order u.role ≡ some r
    → rank_or_zero (role_order min_role) ≤ r
    → with_role min_role (admitted u) ≡ admitted u
with_role_ok min_role u r known enough = rw known (ground (arith, enough))

-- `require_role` admits a user exactly when the bearer token is there and valid and names this account at its current
-- token version, the account is active, and its role is known and at least the asked one.
pub require_role_iff :
    (backend : Backend) (users : List User) (min_role : String) (creds : Option String) (u : User)
    → (require_role backend users min_role creds ≡ admitted u)
      ↔ Entitled backend users min_role creds u
unfolding require_role get_current_user resolve_session verify_live_session
require_role_iff backend users min_role creds u = (
  (λ h.
      let (a, r) = with_role_cases min_role (get_current_user backend users creds) u h in
      let (token, c, n, names, active) = session_cases backend users creds u a in
      (token, c, n, names, active, r)),
  (λ (token, c, n, (sub, k, d, o, found), active, (r, known, enough)).
      rw (c, n, d, o, found)
        (ap (with_role min_role) (live_user_ok u active) ∙ with_role_ok min_role u r known enough)),
)
