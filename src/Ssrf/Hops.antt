-- ===== src/Ssrf/Hops.antt =====
-- What get_json of packages/connectors/http_json.py requests and returns.
use lumi_observatory.Base.{
  ℕ, zero, suc, ◌+◌, ◌≤◌, Bool, true, false, not, List, [], ◌∷◌, Option, none, some, if◌then◌else◌,
  length, All, ◌≡◌, refl, arith,
}
use lumi_observatory.Ssrf.Address.{Text}
use lumi_observatory.Ssrf.Host.{Answer, Pins, Res, done, raised}
use lumi_observatory.Ssrf.Connect.{Parsers, validate_url}
use lumi_observatory.Ssrf.Fetch.{
  Response, Exchange, connection_error, redirect, responded, Turn, Fetched, fetched, failed,
  too_many_redirects, Visit, read_chunks, is_too_long, read_document, read_response, on_exchange,
  on_check, visit, follow, get_loop, get_json,
}

-- the URL passed `validate_url`
abbrev pub IsValidated : Parsers → Option (List Text) → Text → Type 0
IsValidated net allowed url =
    (answer : Answer) × (now : ℕ) × (pins : Pins) × (checked : Text) × (after : Pins)
    × (validate_url net answer now url allowed pins ≡ done checked after)

abbrev pub WithinSize : ℕ → Fetched → Type 0
WithinSize max_bytes (fetched d size) = size ≤ max_bytes
WithinSize max_bytes (failed e) = Unit

-- all requests validated, at most `n` of them, and a document within the size
abbrev pub Guarded : Parsers → Option (List Text) → ℕ → ℕ → Visit → Type 0
Guarded net allowed max_bytes n (result, urls) =
    All (IsValidated net allowed) urls × (length urls ≤ n) × WithinSize max_bytes result

read_chunks-le :
    (max_bytes total : ℕ) (cs : List ℕ) (size : ℕ)
    → total ≤ max_bytes
    → read_chunks max_bytes total cs ≡ some size
    → size ≤ max_bytes
unfolding read_chunks
read_chunks-le max_bytes total [] size h e = ground (arith, h, e)
read_chunks-le max_bytes total (c ∷ cs) size h e =
    ground (arith, h, e, read_chunks-le max_bytes (total + c) cs size)

read_document-WithinSize :
    (max_bytes : ℕ) (r : Response) (o : Option ℕ)
    → ((size : ℕ) → o ≡ some size → size ≤ max_bytes)
    → WithinSize max_bytes (read_document r o)
read_document-WithinSize max_bytes r none f = tt
read_document-WithinSize max_bytes r (some size) f = let b = f size refl in ground (arith, b)

if_WithinSize :
    (max_bytes : ℕ) (b : Bool) (x y : Fetched)
    → WithinSize max_bytes x
    → WithinSize max_bytes y
    → WithinSize max_bytes (if b then x else y)
if_WithinSize max_bytes true x y h i = h
if_WithinSize max_bytes false x y h i = i

read_response-WithinSize :
    (max_bytes : ℕ) (r : Response) → WithinSize max_bytes (read_response max_bytes r)
unfolding read_response
read_response-WithinSize max_bytes r =
    let d =
      read_document-WithinSize max_bytes r (read_chunks max_bytes 0 r.chunks)
        (λ size. read_chunks-le max_bytes 0 r.chunks size (omega arith)) in
    if_WithinSize max_bytes (is_too_long max_bytes r.content_length) _ _ tt
      (if_WithinSize max_bytes (not r.status_ok) _ _ tt d)

module _ (net : Parsers) (allowed : Option (List Text)) (max_bytes : ℕ) (turns : ℕ → Turn) where
  on_exchange-Guarded :
      (redirected : Text → Pins → Visit) (n : ℕ) (pins : Pins) (x : Exchange)
      → ((location : Text) (p : Pins) → Guarded net allowed max_bytes n (redirected location p))
      → Guarded net allowed max_bytes n (on_exchange net allowed max_bytes turns redirected pins x)
  on_exchange-Guarded redirected n pins connection_error k = (tt, omega arith, tt)
  on_exchange-Guarded redirected n pins (redirect location) k = k location pins
  on_exchange-Guarded redirected n pins (responded r) k =
      (tt, omega arith, read_response-WithinSize max_bytes r)

  on_check-Guarded :
      (redirected : Text → Pins → Visit) (n i : ℕ) (current : Text) (r : Res Text)
      → ((checked : Text) (after : Pins) → r ≡ done checked after → IsValidated net allowed current)
      → ((location : Text) (p : Pins) → Guarded net allowed max_bytes n (redirected location p))
      → Guarded net allowed max_bytes
          (suc n)
          (on_check net allowed max_bytes turns redirected i current r)
  on_check-Guarded redirected n i current (raised e pins) v k = (tt, omega arith, tt)
  on_check-Guarded redirected n i current (done url pins) v k =
      let (a, l, s) = on_exchange-Guarded redirected n pins ((turns i).exchange current) k in
      ((v url pins refl, a), omega (arith, l), s)

  visit-Guarded :
      (redirected : Text → Pins → Visit) (n i : ℕ) (current : Text) (pins : Pins)
      → ((location : Text) (p : Pins) → Guarded net allowed max_bytes n (redirected location p))
      → Guarded net allowed max_bytes
          (suc n)
          (visit net allowed max_bytes turns redirected i current pins)
  unfolding visit
  visit-Guarded redirected n i current pins k =
      on_check-Guarded redirected n i current
        (validate_url net (turns i).answer (turns i).now current allowed pins)
        (λ checked after e. ((turns i).answer, (turns i).now, pins, checked, after, e)) k

  follow-Guarded :
      (again : Text → Pins → Visit) (n : ℕ) (r : Res Text)
      → ((next : Text) (p : Pins) → Guarded net allowed max_bytes n (again next p))
      → Guarded net allowed max_bytes n (follow net allowed max_bytes turns again r)
  follow-Guarded again n (raised e pins) k = (tt, omega arith, tt)
  follow-Guarded again n (done next pins) k = k next pins

  get_loop-Guarded :
      (left i : ℕ) (current : Text) (pins : Pins)
      → Guarded net allowed max_bytes
          (suc left)
          (get_loop net allowed max_bytes turns left i current pins)
  unfolding get_loop
  get_loop-Guarded zero i current pins =
      visit-Guarded (λ location p. (failed too_many_redirects, [])) 0 i current pins
        (λ location p. (tt, omega arith, tt))
  get_loop-Guarded (suc left) i current pins =
      visit-Guarded _ (suc left) i current pins (λ location p.
        follow-Guarded (get_loop net allowed max_bytes turns left (i + 1)) (suc left) _
          (λ next q. get_loop-Guarded left (i + 1) next q))

  -- Whatever the servers and the resolver answer, get_json returns: it requests only URLs that passed validate_url
  -- with its allowed hosts, at most one more than its redirect limit, and a document that it gives is of at
  -- most the byte limit.
  pub get_json-Guarded :
      (max_redirects : ℕ) (answer : Answer) (now : ℕ) (url : Text) (pins : Pins)
      → Guarded net allowed max_bytes
          (suc max_redirects)
          (get_json net allowed max_bytes turns max_redirects answer now url pins)
  unfolding get_json
  get_json-Guarded max_redirects answer now url pins =
      follow-Guarded _ (suc max_redirects) (validate_url net answer now url allowed pins)
        (λ checked p. get_loop-Guarded max_redirects 0 url p)
