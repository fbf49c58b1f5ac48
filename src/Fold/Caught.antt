-- ===== src/Fold/Caught.antt =====
-- The checks of a frame of apps/scheduler/br_fold.py raise nothing but a `ValueError`.
use lumi_observatory.Base.{Bool, true, false, String, ◌≡◌}
use lumi_observatory.Base.Int.{pos, negsuc}
use lumi_observatory.Fold.Json.{Json, Items, null, int, text, array, nil, cons, is_hashable}
use lumi_observatory.Fold.Reason.{Reason, value_error, type_error, Result, ok, raise, ◌>>=◌}
use lumi_observatory.Fold.Frame.{
  ensure, req_match, req_str, req_optional, req_ms, req_rails, req_rail_list, req_outcome,
  req_optional_rail,
}
use lumi_observatory.Fold.Pattern.{rail_re}

-- a result that the handlers of the fold deal with
abbrev pub IsCaught : {A : Type 0} → Result A → Type 0
IsCaught (ok a) = Unit
IsCaught (raise (value_error r)) = Unit
IsCaught (raise type_error) = ⊥

pub IsCaught-bind :
    {A B : Type 0} (m : Result A) (f : A → Result B)
    → IsCaught m
    → ((a : A) → IsCaught (f a))
    → IsCaught (m >>= f)
IsCaught-bind (ok a) f hm hf = hf a
IsCaught-bind (raise (value_error r)) f hm hf = tt
IsCaught-bind (raise type_error) f hm hf = hm

pub IsCaught-ensure : (b : Bool) (r : Reason) → IsCaught (ensure b r)
IsCaught-ensure true r = tt
IsCaught-ensure false r = tt

pub IsCaught-req_match :
    (p : String → Bool) (name : String) (v : Json) → IsCaught (req_match p name v)
unfolding req_match
IsCaught-req_match p name (text s) = IsCaught-ensure (p s) _
IsCaught-req_match p name _ = tt

pub IsCaught-req_str : (name : String) (v : Json) → IsCaught (req_str name v)
unfolding req_str
IsCaught-req_str name (text s) = tt
IsCaught-req_str name _ = tt

pub IsCaught-req_optional : (name : String) (v : Json) → IsCaught (req_optional name v)
unfolding req_optional
IsCaught-req_optional name null = tt
IsCaught-req_optional name (text s) = tt
IsCaught-req_optional name _ = tt

pub IsCaught-req_ms : (name : String) (v : Json) → IsCaught (req_ms name v)
unfolding req_ms
IsCaught-req_ms name (int (pos n)) = tt
IsCaught-req_ms name (int (negsuc n)) = tt
IsCaught-req_ms name _ = tt

pub IsCaught-req_rails : (vs : Items) → IsCaught (req_rails vs)
unfolding req_rails
IsCaught-req_rails nil = tt
IsCaught-req_rails (cons v vs) =
    IsCaught-bind (req_match _ "rail" v) (λ _. req_rails vs) (IsCaught-req_match _ "rail" v)
      (λ _. IsCaught-req_rails vs)

pub IsCaught-req_rail_list : (v : Json) → IsCaught (req_rail_list v)
unfolding req_rail_list
IsCaught-req_rail_list (array nil) = tt
IsCaught-req_rail_list (array (cons v vs)) = IsCaught-req_rails (cons v vs)
IsCaught-req_rail_list _ = tt

pub IsCaught-req_optional_rail : (v : Json) → IsCaught (req_optional_rail v)
unfolding req_optional_rail
IsCaught-req_optional_rail null = tt
IsCaught-req_optional_rail (text s) = IsCaught-req_match rail_re "rail" (text s)
IsCaught-req_optional_rail _ = tt

pub IsCaught-req_outcome : (v : Json) → is_hashable v ≡ true → IsCaught (req_outcome v)
unfolding req_outcome
IsCaught-req_outcome v h = rw h (IsCaught-ensure _ _)

pub ruleset caught_rules = (
  IsCaught-bind, IsCaught-ensure, IsCaught-req_match, IsCaught-req_str, IsCaught-req_optional,
  IsCaught-req_ms, IsCaught-req_rail_list, IsCaught-req_optional_rail, IsCaught-req_outcome,
)
