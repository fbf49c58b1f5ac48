-- ===== src/Ssrf/Fetch.antt =====
-- HttpJsonConnector.get_json of packages/connectors/http_json.py over the address checks. Per turn of its loop, what
-- the resolver would answer, the clock and the response of the server are given; the requested URLs are recorded.
use lumi_observatory.Base.{
  ℕ, zero, suc, ◌+◌, ◌==◌, ltb, Bool, false, not, ◌&&◌, List, [], ◌∷◌, Option, none, some,
  if◌then◌else◌,
}
use lumi_observatory.Ssrf.Address.{Text}
use lumi_observatory.Ssrf.Host.{Answer, Pins, Refused, Res, done, raised}
use lumi_observatory.Ssrf.Connect.{Parsers, validate_url, resolve_redirect_url}

-- what get_json reads of a response that is no redirect: `int` of the content length where there is one, the status,
-- the two tests on the content type, the sizes of the chunks, and whether `json.loads` takes the body
pub record Response : Type 0 where
  pub content_length : Option ℕ
  pub status_ok : Bool
  pub is_json : Bool
  pub is_text : Bool
  pub chunks : List ℕ
  pub parses : Bool

pub data Exchange : Type 0 where
  connection_error : Exchange
  redirect : Text → Exchange
  responded : Response → Exchange

-- one turn of the loop: the resolver and the clock at the check of the URL and at that of the redirect
pub record Turn : Type 0 where
  pub answer : Answer
  pub now : ℕ
  pub exchange : Text → Exchange
  pub redirect_answer : Answer
  pub redirect_now : ℕ

pub data FetchError : Type 0 where
  refused : Refused → FetchError
  connection_failed too_many_redirects too_long too_much bad_status bad_type bad_json : FetchError

-- the returned dict: empty, `{"text": …}`, or the parsed JSON
pub data Document : Type 0 where
  empty_document text_document json_document : Document

-- a document with the number of bytes that were read for it
pub data Fetched : Type 0 where
  fetched : Document → (size : ℕ) → Fetched
  failed : FetchError → Fetched

-- the result and the requested URLs
abbrev pub Visit : Type 0
Visit = Fetched × List Text

-- the streaming byte limit, with the total so far
unfoldable pub read_chunks : ℕ → ℕ → List ℕ → Option ℕ
read_chunks max_bytes total [] = some total
read_chunks max_bytes total (c ∷ cs) =
    let rest = read_chunks max_bytes (total + c) cs in
    if ltb max_bytes (total + c) then none else rest

abbrev pub is_too_long : ℕ → Option ℕ → Bool
is_too_long max_bytes none = false
is_too_long max_bytes (some n) = ltb max_bytes n

abbrev pub read_document : Response → Option ℕ → Fetched
read_document r none = failed too_much
read_document r (some size) =
    if size == 0
    then fetched empty_document size
    else if not r.is_json && r.is_text
    then fetched text_document size
    else if not r.is_json
    then failed bad_type
    else if r.parses
    then fetched json_document size
    else if r.is_text
    then fetched text_document size
    else failed bad_json

unfoldable pub read_response : ℕ → Response → Fetched
read_response max_bytes r =
    if is_too_long max_bytes r.content_length
    then failed too_long
    else if not r.status_ok
    then failed bad_status
    else read_document r (read_chunks max_bytes 0 r.chunks)

-- `get_json` records the URL it requests
abbrev pub requested : Text → Visit → Visit
requested url (result, urls) = (result, url ∷ urls)

module _ (net : Parsers) (allowed : Option (List Text)) (max_bytes : ℕ) (turns : ℕ → Turn) where
  abbrev pub on_exchange : (Text → Pins → Visit) → Pins → Exchange → Visit
  on_exchange redirected pins connection_error = (failed connection_failed, [])
  on_exchange redirected pins (redirect location) = redirected location pins
  on_exchange redirected pins (responded r) = (read_response max_bytes r, [])

  abbrev pub on_check : (Text → Pins → Visit) → ℕ → Text → Res Text → Visit
  on_check redirected i current (raised e pins) = (failed (refused e), [])
  on_check redirected i current (done url pins) =
      requested current (on_exchange redirected pins ((turns i).exchange current))

  unfoldable pub visit : (Text → Pins → Visit) → ℕ → Text → Pins → Visit
  visit redirected i current pins =
      on_check redirected i current
        (validate_url net (turns i).answer (turns i).now current allowed pins)

  abbrev pub follow : (Text → Pins → Visit) → Res Text → Visit
  follow again (raised e pins) = (failed (refused e), [])
  follow again (done next pins) = again next pins

  -- the loop, with the redirects that are left
  unfoldable pub get_loop : ℕ → ℕ → Text → Pins → Visit
  get_loop zero i current pins =
      visit (λ location pins. (failed too_many_redirects, [])) i current pins
  get_loop (suc left) i current pins =
      visit
        (λ location pins. follow (get_loop left (i + 1)) (
          resolve_redirect_url net (turns i).redirect_answer (turns i).redirect_now current location
            allowed pins))
        i current pins

  unfoldable pub get_json : ℕ → Answer → ℕ → Text → Pins → Visit
  get_json max_redirects answer now url pins =
      follow (λ checked. get_loop max_redirects 0 url)
        (validate_url net answer now url allowed pins)
