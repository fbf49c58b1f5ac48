-- ===== src/Executor/Registry.antt =====
-- ToolRegistry and the schemas of build_default_registry, packages/agent_core/executor.py. The functions behind the
-- tools call connectors and are not modelled; the registry keeps the names and schemas.
use lumi_observatory.Base.{
  Bool, true, false, not, ◌&&◌, String, List, [], ◌∷◌, Option, none, some, is_some, if◌then◌else◌,
  is_nil,
}
use lumi_observatory.Base.Text.{◌=ₛ◌}
use lumi_observatory.Fold.Json.{has, Json, bool, int, text, object, Fields, end, field}

-- the `type` of a property
pub data Kind : Type 0 where
  string integer object_kind untyped : Kind

pub record Schema : Type 0 where
  pub required : List String
  pub properties : List (String × Kind)

-- `_fns` with `_schemas`, by name
abbrev pub Registry : Type 0
Registry = List (String × Schema)

-- `_fns[name] = fn`, `_schemas[name] = schema`
unfoldable pub register : String → Schema → Registry → Registry
register name schema [] = (name, schema) ∷ []
register name schema ((n, s) ∷ reg) =
    let rest = register name schema reg in if n =ₛ name then (name, schema) ∷ reg else (n, s) ∷ rest

-- `_schemas.get(name)` of a registered name
unfoldable pub schema_of : String → Registry → Option Schema
schema_of name [] = none
schema_of name ((n, s) ∷ reg) = if n =ₛ name then some s else schema_of name reg

-- `name in self._fns`
unfoldable pub registered : String → Registry → Bool
registered name reg = is_some (schema_of name reg)

-- the KeyError and the ValueErrors of `call`, or the call reaches the function
pub data Reached : Type 0 where
  reached unregistered : Reached
  missing unknown must_be : String → Reached

unfoldable pub kind_of : String → List (String × Kind) → Option Kind
kind_of k [] = none
kind_of k ((n, t) ∷ props) = if n =ₛ k then some t else kind_of k props

-- `isinstance(v, …)`; a bool is an int
abbrev pub fits : Option Kind → Json → Bool
fits (some string) (text s) = true
fits (some string) v = false
fits (some integer) (int n) = true
fits (some integer) (bool b) = true
fits (some integer) v = false
fits (some object_kind) (object fs) = true
fits (some object_kind) v = false
fits (some untyped) v = true
fits none v = true

-- the loop over the arguments, in their order
unfoldable pub check_arguments : List (String × Kind) → Fields → Reached
check_arguments props end = reached
check_arguments props (field k v fs) =
    let rest = check_arguments props fs in
    if not (is_some (kind_of k props)) && not (is_nil props)
    then unknown k
    else if not (fits (kind_of k props) v)
    then must_be k
    else rest

-- the loop over the required names, then the arguments
unfoldable pub check_required : List String → List (String × Kind) → Fields → Reached
check_required [] props kw = check_arguments props kw
check_required (r ∷ rs) props kw = if not (has r kw) then missing r else check_required rs props kw

abbrev pub call_schema : Option Schema → Fields → Reached
call_schema none kw = unregistered
call_schema (some s) kw = check_required s.required s.properties kw

unfoldable pub call : Registry → String → Fields → Reached
call reg name kw = call_schema (schema_of name reg) kw

abbrev schema : List String → List (String × Kind) → Schema
schema names props = record { required = names; properties = props }

-- `build_default_registry`, in its order
unfoldable pub default_registry : Registry
default_registry =
    register "technocore_signed_write"
      (schema ("room" ∷ "payload" ∷ [])
        (("room", string) ∷ ("payload", object_kind) ∷ ("idempotency_key", string) ∷ []))
      (register "technocore_read" (schema [] (("room", string) ∷ ("since", integer) ∷ [])) (
        register "flop_mcp_read"
          (schema ("tool" ∷ []) (("tool", string) ∷ ("arguments", object_kind) ∷ []))
          (register "internal_health" (schema [] []) (
            register "github_repo_read" (schema ("repo" ∷ []) (("repo", string) ∷ []))
              (register "http_json_read" (schema ("url" ∷ []) (("url", string) ∷ [])) [])))))
