-- ===== src/Auth/Tests.antt =====
-- Sessions, roles and the rate limiter of packages/observability/auth.py at concrete inputs.
use lumi_observatory.Base.{
  ℕ, true, false, String, List, [], ◌∷◌, none, some, if◌then◌else◌, ◌≡◌, refl, arith, ◌↔◌,
}
use lumi_observatory.Base.Text.{◌=ₛ◌}
use lumi_observatory.Auth.Session.{
  User, bad_token, claims, admitted, denied, session_revoked, insufficient_role, Backend, find_user,
  verify_live_session, resolve_session, get_current_user, role_order, require_role,
}
use lumi_observatory.Auth.Entitled.{Entitled, require_role_iff}
use lumi_observatory.Auth.Limiter.{
  counted, times_of, set_times, recent, check, Call, step, allowed_times,
}
use lumi_observatory.Auth.Window.{WithinLimit, ideal_times, limiter-WithinLimit}

-- one account, and tokens of its versions
abbrev operator : User
operator = record { id = 4; role = "operator"; is_active = true; token_version = 2 }

abbrev backend : Backend
backend = record {
  decode = λ t.
      if t =ₛ "old" then claims "four" 1 else if t =ₛ "new" then claims "four" 2 else bad_token;
  uuid = λ s. if s =ₛ "four" then some 4 else none;
}

module _ where
  old_token_revoked :
      require_role backend (operator ∷ []) "viewer" (some "old") ≡ denied session_revoked
  unfolding require_role get_current_user resolve_session verify_live_session find_user
  old_token_revoked = refl

  not_an_admin :
      require_role backend (operator ∷ []) "admin" (some "new") ≡ denied insufficient_role
  unfolding require_role get_current_user resolve_session verify_live_session find_user role_order
  not_an_admin = refl

require_role_iff_example :
    (require_role backend (operator ∷ []) "viewer" (some "new") ≡ admitted operator)
    ↔ Entitled backend (operator ∷ []) "viewer" (some "new") operator
require_role_iff_example = require_role_iff backend (operator ∷ []) "viewer" (some "new") operator

-- two calls in ten units are allowed; another key does not count
abbrev two : String → ℕ
two key = 2

abbrev ten : String → ℕ
ten key = 10

abbrev calls : List Call
calls =
    record { call_key = "a"; at = 1 }
    ∷ record { call_key = "a"; at = 3 }
    ∷ record { call_key = "b"; at = 4 }
    ∷ record { call_key = "a"; at = 9 }
    ∷ record { call_key = "a"; at = 11 }
    ∷ []

module _ where
  third_refused : allowed_times two ten "a" calls [] [] ≡ 11 ∷ 3 ∷ 1 ∷ []
  unfolding allowed_times step check recent times_of set_times
  third_refused = refl

  -- Redis keeps its own count
  over_count : check (counted 3 true) "a" 2 10 5 [] ≡ (false, [])
  unfolding check
  over_count = refl

limiter-WithinLimit_example :
    (allowed_times two ten "a" calls [] [] ≡ ideal_times two ten "a" calls [])
    × WithinLimit 2 10 (allowed_times two ten "a" calls [] [])
limiter-WithinLimit_example =
    limiter-WithinLimit two ten "a" calls
      (omega arith, (omega arith, (omega arith, (omega arith, (omega arith, tt)))))
