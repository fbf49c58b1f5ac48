-- ===== src/Executor/Checked.antt =====
-- What the registry has checked when a call reaches the function.
use lumi_observatory.Base.{
  true, String, List, [], ◌∷◌, Option, none, some, is_some, is_nil, All, ◌≡◌, ◌↔◌, ◌⊎◌, refl, sym,
  arith,
}
use mathlib.Core.Path.{subst}
use lumi_observatory.Fold.Json.{has, Fields, end, field}
use lumi_observatory.Executor.Registry.{
  Kind, Schema, Registry, schema_of, reached, kind_of, fits, check_arguments, check_required,
  call_schema, call,
}

-- every argument is known where the schema names any, and has the type asked for
abbrev pub Typed : List (String × Kind) → Fields → Type 0
Typed props end = Unit
Typed props (field k v fs) =
    ((is_some (kind_of k props) ≡ true) ⊎ (is_nil props ≡ true))
    × (fits (kind_of k props) v ≡ true)
    × Typed props fs

-- the schema's required names are there, and the arguments are typed
abbrev pub Accepts : Fields → Schema → Type 0
Accepts kw s = All (λ r. has r kw ≡ true) s.required × Typed s.properties kw

check_arguments-Typed :
    (props : List (String × Kind)) (kw : Fields)
    → (check_arguments props kw ≡ reached) ↔ Typed props kw
unfolding check_arguments
check_arguments-Typed props end = ((λ h. tt), (λ h. refl))
check_arguments-Typed props (field k v fs) = ground (arith, check_arguments-Typed props fs)

check_required_Accepts :
    (rs : List String) (props : List (String × Kind)) (kw : Fields)
    → (check_required rs props kw ≡ reached) ↔ (All (λ r. has r kw ≡ true) rs × Typed props kw)
unfolding check_required
check_required_Accepts [] props kw =
    let c = check_arguments-Typed props kw in ((λ h. (tt, c.0 h)), (λ h. c.1 (h.1)))
check_required_Accepts (r ∷ rs) props kw = ground (arith, check_required_Accepts rs props kw)

some_eq : (s t : Schema) → some s ≡ some t → s ≡ t
some_eq s t e = cc

call_schema_iff :
    (o : Option Schema) (kw : Fields)
    → (call_schema o kw ≡ reached) ↔ ((s : Schema) × (o ≡ some s) × Accepts kw s)
call_schema_iff none kw = ((λ h. absurd (cc)), (λ (s, e, a). absurd (cc)))
call_schema_iff (some s) kw = (
  (λ h. (s, refl, (check_required_Accepts s.required s.properties kw).0 h)),
  (λ (t, e, a).
      (check_required_Accepts s.required s.properties kw).1
        (subst (Accepts kw) (sym (some_eq s t e)) a)),
)

-- A call reaches the function of a tool exactly when the tool is registered, its required arguments are there, every
-- argument is one of the schema's properties where it has any, and each has the type that the schema asks for.
pub call_iff :
    (reg : Registry) (name : String) (kw : Fields)
    → (call reg name kw ≡ reached) ↔ ((s : Schema) × (schema_of name reg ≡ some s) × Accepts kw s)
unfolding call
call_iff reg name kw = call_schema_iff (schema_of name reg) kw
