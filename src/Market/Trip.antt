-- ===== src/Market/Trip.antt =====
-- A built frame line is read back as the frame that was built.
use lumi_observatory.Base.{
  ℕ, Bool, true, false, String, List, [], ◌∷◌, ◌++◌, some, if◌then◌else◌, ◌≡◌, refl, ap, ◌∙◌, arith,
}
use lumi_observatory.Base.Text.{◌=ₛ◌, eq_iff, one_of, strip, rstrip, is_space}
use lumi_observatory.Fold.Json.{has, Json, null, text, object, Fields, end, field, get, is_one_of}
use lumi_observatory.Market.Offer.{Text}
use lumi_observatory.Market.Wire.{
  Wire, frame_kinds, prefix, TclkFrame, put, merged, payload, build_frame, drop_codes, frame_of,
  parse_line, parse_frame,
}

get-put :
    (n k : String) (v : Json) (fs : Fields) → get n (put k v fs) ≡ (if k =ₛ n then v else get n fs)
unfolding get put
get-put n k v end = refl
get-put n k v (field j w fs) = ground (arith, get-put n k v fs, eq_iff j k, eq_iff j n, eq_iff k n)

get-merged :
    (n : String) (base fs : Fields)
    → get n (merged base fs) ≡ (if has n fs then get n fs else get n base)
unfolding get merged has
get-merged n base end = refl
get-merged n base (field k v fs) =
    ground (arith, get-put n k v (merged base fs), get-merged n base fs)

abbrev before : ℕ → Text → Text
before c [] = if is_space c then [] else c ∷ []
before c (x ∷ xs) = c ∷ x ∷ xs

rstrip_before : (c : ℕ) (t : Text) → rstrip (c ∷ t) ≡ before c (rstrip t)
rstrip_before c t = elim (rstrip t) [ [] ↦ refl | x ∷ xs ↦ refl ]

before_last : (c : ℕ) (t : Text) (z : ℕ) → before c (t ++ z ∷ []) ≡ c ∷ t ++ z ∷ []
before_last c [] z = refl
before_last c (x ∷ xs) z = refl

rstrip_last : (t : Text) (z : ℕ) → is_space z ≡ false → rstrip (t ++ z ∷ []) ≡ t ++ z ∷ []
rstrip_last [] z h = rw h refl
rstrip_last (c ∷ t) z h =
    rstrip_before c (t ++ z ∷ []) ∙ ap (before c) (rstrip_last t z h) ∙ before_last c t z

-- a braced text survives `strip`, alone and after the prefix
abbrev pub braced : Text → Text
braced body = b'{' ∷ body ++ b'}' ∷ []

strip-braced : (body : Text) → strip (braced body) ≡ braced body
strip-braced body = rstrip_last (b'{' ∷ body) b'}' refl

strip_line : (body : Text) → strip (prefix ++ braced body) ≡ prefix ++ braced body
strip_line body = rstrip_last (prefix ++ b'{' ∷ body) b'}' refl

kind_known : (kind : String) (ks : List String) → is_one_of (text kind) ks ≡ one_of kind ks
kind_known kind [] = refl
kind_known kind (k ∷ ks) = ground (arith, kind_known kind ks)

-- the frame that the caller of `build_frame` meant
abbrev pub built : String → Fields → Text → String → Bool → TclkFrame
built kind q line author signed = record {
  kind = kind;
  data_of = q;
  raw = line;
  signed = signed;
  author = author;
}

frame_of-built :
    (line : Text) (author : String) (signed : Bool) (kind : String) (q : Fields)
    → get "type" q ≡ text kind
    → one_of kind frame_kinds ≡ true
    → frame_of line author signed (some (object q)) ≡ some (built kind q line author signed)
frame_of-built line author signed kind q t k = rw (t, kind_known kind frame_kinds, k) refl

parse_line-built :
    (wire : Wire) (body : Text) (author : String) (signed : Bool)
    → parse_line wire (prefix ++ braced body) author signed
      ≡ frame_of (prefix ++ braced body) author signed (wire.loads (braced body))
unfolding parse_line drop_codes
parse_line-built wire body author signed = rw (strip-braced body) refl

-- For a known kind and fields without a `type`, `build_frame` gives a line, and `parse_frame` of that line gives a
-- frame of that kind whose members read as the given fields and the kind, with the line as `raw`. The dumped
-- payload is a text in braces, and `loads` of it a dict with the members of the payload.
pub parse_frame-build_frame :
    (wire : Wire) (kind : String) (fields q : Fields) (body : Text) (author : String)
    (signed : Bool)
    → one_of kind frame_kinds ≡ true
    → has "type" fields ≡ false
    → wire.dumps (payload kind fields) ≡ braced body
    → wire.loads (braced body) ≡ some (object q)
    → ((n : String) → get n q ≡ get n (payload kind fields))
    → (line : Text) × (build_frame wire kind fields ≡ some line)
      × (parse_frame wire line author signed ≡ some (built kind q line author signed))
      × ((n : String)
          → get n q
            ≡ (if has n fields then get n fields else if "type" =ₛ n then text kind else null))
unfolding build_frame parse_frame get
parse_frame-build_frame wire kind fields q body author signed k t d l same =
    let member = λ (n : String). same n ∙ get-merged n (field "type" (text kind) end) fields in
    (
      prefix ++ braced body,
      rw (k, d) refl,
      ap (λ s. parse_line wire s author signed) (strip_line body)
          ∙ parse_line-built wire body author signed
          ∙ ap (frame_of (prefix ++ braced body) author signed) l
          ∙ frame_of-built (prefix ++ braced body) author signed kind q (rw (member "type", t) refl)
              k,
      member,
    )
