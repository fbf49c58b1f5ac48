-- ===== src/Executor/Tests.antt =====
-- Calls of the registry of packages/agent_core/executor.py at concrete inputs.
use lumi_observatory.Base.{true, ◌≡◌, refl}
use lumi_observatory.Base.Int.{pos}
use lumi_observatory.Fold.Json.{has, bool, int, text, Fields, end, field}
use lumi_observatory.Executor.Registry.{
  schema_of, register, reached, missing, must_be, unknown, kind_of, check_arguments, check_required,
  call, default_registry,
}

abbrev one_url : Fields
one_url = field "url" (text "https://example.com/x") end

module _ where
  no_url : call default_registry "http_json_read" end ≡ missing "url"
  unfolding call schema_of default_registry register check_required check_arguments kind_of has
  no_url = refl

  extra_argument :
      call default_registry "http_json_read" (field "method" (text "POST") one_url)
      ≡ unknown "method"
  unfolding call schema_of default_registry register check_required check_arguments kind_of has
  extra_argument = refl

  number_for_url :
      call default_registry "http_json_read" (field "url" (int (pos 3)) end) ≡ must_be "url"
  unfolding call schema_of default_registry register check_required check_arguments kind_of has
  number_for_url = refl

  -- a truth value passes for an integer
  bool_for_integer :
      call default_registry "technocore_read" (field "since" (bool true) end) ≡ reached
  unfolding call schema_of default_registry register check_required check_arguments kind_of has
  bool_for_integer = refl

  -- a tool whose schema names no property takes any argument as far as its function
  any_for_health :
      call default_registry "internal_health" (field "anything" (text "x") end) ≡ reached
  unfolding call schema_of default_registry register check_required check_arguments kind_of has
  any_for_health = refl
