-- ===== src/Dispatch.antt =====
-- src/index.ts: fetch, withCors and dispatch, with healthCheck of src/distancematrix.ts. The bodies of
-- the site's pages and of /coverage are constant texts and are named only. The contents of the KV store for
-- the attribution manifest are left out. A body's JSON is the object that is turned into it; times are left out.
pub mod Overlay
pub mod Serve
pub mod Replies
use open_distance.Prelude.{
  ◌>>=◌, ℕ, suc, Bool, true, false, ◌&&◌, ◌||◌, not, Option, none, some, List, [], ◌∷◌, ◌++◌,
  if◌then◌else◌, ltb, nat_beq,
}
use open_distance.Prelude.Dict.{lookup, insert}
use open_distance.Prelude.Int.{ℤ}
use open_distance.Text.{Text, text_eq, codes}
use open_distance.Number.{Number}
use open_distance.Float.{Float}
use open_distance.Tiles.{Tile}
use open_distance.Elements.{count_elements}
use open_distance.RateLimit.{RateLimitResult, RateLimitConfig}
use open_distance.Responses.{
  Headers, ErrorBody, put_all, rate_limit_headers, rate_limit_response, global_limit_response,
}
use open_distance.Gate.{
  Objects, Settings, Call, Outcome, oversize, rate_limited, over_cap, handled, dispatch_matrix,
}
use open_distance.Matrix.{Services, Element, routed, not_found, zero_results, LegCache}
use open_distance.Matrix.Wasm.{endpoint}
use open_distance.WasmRouter.{Compiled}
use open_distance.Matrix.Handler.{
  Query, Body, invalid_request, max_elements_exceeded, matrix, MatrixResponse, MatrixEnv,
}

pub data Page : Type 0 where
  index docs privacy attribution sources robots sitemap llms coverage coverage_json : Page

-- the `status` of the JSON of a probe
pub data Health : Type 0 where
  health_ok warming health_error : Health

pub data Content : Type 0 where
  no_content method_not_allowed unknown_path : Content
  health : Health → Content
  probed : (meters seconds : ℤ) → Content
  overlay_answer usage overlay_error : Content
  page : Page → Content
  oversize_body : Content
  limited : ErrorBody → Content
  matrix_body : Body → Content

pub record Reply : Type 0 where
  pub status : ℕ
  pub headers : Headers
  pub content : Content

-- where a request goes
pub data Target : Type 0 where
  refused healthz api_probe l1_probe matrix_endpoint missing : Target
  site : Page → Target

abbrev pub is : Text → Text → Bool
is s t = text_eq.same t s

-- GET, HEAD and POST
abbrev pub is_allowed : Text → Bool
is_allowed method = is (codes "GET") method || is (codes "HEAD") method || is (codes "POST") method

abbrev pub is_read : Text → Bool
is_read method = is (codes "GET") method || is (codes "HEAD") method

-- the pages that a read gives
abbrev pub pages : List (Text × Page)
pages =
    (codes "/", index)
    ∷ (codes "/try", index)
    ∷ (codes "/docs", docs)
    ∷ (codes "/privacy", privacy)
    ∷ (codes "/attribution", attribution)
    ∷ (codes "/attribution/openaddresses.json", sources)
    ∷ (codes "/robots.txt", robots)
    ∷ (codes "/sitemap.xml", sitemap)
    ∷ (codes "/llms.txt", llms)
    ∷ []

abbrev pub page_or_missing : Option Page → Target
page_or_missing none = missing
page_or_missing (some p) = site p

unfoldable pub target_of : (method path : Text) → Target
unfolding lookup
target_of method path =
    if not (is_allowed method)
    then refused
    else if is (codes "/healthz") path
    then healthz
    else if is (codes "/healthz/api") path
    then api_probe
    else if is (codes "/healthz/l1") path
    then l1_probe
    else if is (codes "/coverage") path
    then site coverage
    else if is (codes "/maps/api/distancematrix/json") path
    then matrix_endpoint
    else if is_read method
    then page_or_missing (lookup path pages)
    else missing

abbrev pub json_type : Text × Text
json_type = (codes "content-type", codes "application/json; charset=UTF-8")

abbrev pub no_store : Text × Text
no_store = (codes "cache-control", codes "no-store")

abbrev pub exposed : Text
exposed = codes "access-control-expose-headers"

abbrev pub exposed_headers : Text
exposed_headers =
    codes
      "x-od-router-impl, x-od-router-settled, x-od-router-tiles, x-ratelimit-limit-second, x-ratelimit-remaining-second, x-ratelimit-remaining-day, x-ratelimit-tier, retry-after"

abbrev pub cors_headers : Headers
cors_headers =
    (codes "access-control-allow-origin", codes "*")
    ∷ (exposed, exposed_headers)
    ∷ (codes "vary", codes "Origin")
    ∷ []

-- the answer to a preflight
abbrev pub preflight : Reply
preflight = record {
  status = 204;
  headers =
      cors_headers
      ++ ((codes "access-control-allow-methods", codes "GET, HEAD, POST, OPTIONS")
          ∷ (codes "access-control-allow-headers", codes "Accept, Content-Type")
          ∷ (codes "access-control-max-age", codes "86400")
          ∷ []);
  content = no_content;
}

-- What the load of the sentinel tile gives.
pub data Sentinel : Type 0 where
  there absent failed : Sentinel

unfoldable pub health_check : Sentinel → Reply
health_check there = record { status = 200; headers = json_type ∷ []; content = health health_ok }
health_check absent = record { status = 503; headers = json_type ∷ []; content = health warming }
health_check failed = record {
  status = 503;
  headers = json_type ∷ [];
  content = health health_error;
}

-- A request: what the URL and the method say, and what the gates read of it. `o` and `d` are the
-- points of the overlay's probe; `wants_html` holds where the accept header names HTML.
pub record Request : Type 0 where
  pub method : Text
  pub path : Text
  pub query : Query
  pub o : Option Text
  pub d : Option Text
  pub wants_html : Bool
  pub id : Text
  pub now : ℕ
  pub limiter_answers : Bool
  pub global_answers : Bool

unfoldable pub call_of : Request → Call
unfolding count_elements
call_of r = record {
  id = r.id;
  now = r.now;
  elements = count_elements r.query.origins r.query.destinations;
  limiter_answers = r.limiter_answers;
  global_answers = r.global_answers;
}

abbrev pub html_type : Text × Text
html_type = (codes "content-type", codes "text/html; charset=UTF-8")

abbrev pub kept_a_day : Text × Text
kept_a_day = (codes "cache-control", codes "public, max-age=86400")

abbrev pub kept_a_day_by_all : Text × Text
kept_a_day_by_all = (codes "cache-control", codes "public, max-age=86400, s-maxage=86400")

abbrev pub html_headers : Headers
html_headers =
    html_type
    ∷ (
      codes "content-security-policy",
      codes
          "default-src 'self'; script-src 'self' 'unsafe-inline'; style-src 'self' 'unsafe-inline'; font-src 'self'; img-src 'self' data: https://yoke.lol; connect-src 'self'; frame-ancestors 'none'; base-uri 'none'; form-action 'self'; object-src 'none'",
    )
    ∷ (
      codes "permissions-policy",
      codes
          "camera=(), microphone=(), geolocation=(), interest-cohort=(), payment=(), usb=(), magnetometer=(), gyroscope=(), accelerometer=()",
    )
    ∷ (codes "strict-transport-security", codes "max-age=63072000; includeSubDomains; preload")
    ∷ (codes "x-frame-options", codes "DENY")
    ∷ (codes "x-content-type-options", codes "nosniff")
    ∷ (codes "referrer-policy", codes "no-referrer")
    ∷ (codes "cache-control", codes "public, max-age=600")
    ∷ []

unfoldable pub page_headers : Page → Headers
page_headers index = html_headers
page_headers docs = html_headers
page_headers privacy = html_headers
page_headers attribution = html_headers
page_headers sources = json_type ∷ (codes "cache-control", codes "public, max-age=3600") ∷ []
page_headers robots = (codes "content-type", codes "text/plain; charset=UTF-8") ∷ kept_a_day ∷ []
page_headers sitemap =
    (codes "content-type", codes "application/xml; charset=UTF-8") ∷ kept_a_day ∷ []
page_headers llms = (codes "content-type", codes "text/markdown; charset=UTF-8") ∷ kept_a_day ∷ []
page_headers coverage = html_type ∷ kept_a_day_by_all ∷ []
page_headers coverage_json = json_type ∷ kept_a_day_by_all ∷ []

-- The page of the coverage for a client that does not ask for HTML is JSON.
abbrev pub shown_as : Bool → Page → Page
shown_as false coverage = coverage_json
shown_as _ p = p

unfoldable pub page_reply : Bool → Page → Reply
unfolding page_headers
page_reply wants_html p =
    let shown = shown_as wants_html p in
    record { status = 200; headers = page_headers shown; content = page shown }

-- the first element of the matrix, of a length that is above 0
unfoldable pub probe_content : Body → Option (ℤ × ℤ)
probe_content (matrix oa da om dm ((routed (ℤ.pos (suc m)) t a b ∷ es) ∷ rows) v w) =
    some (ℤ.pos (suc m), t)
probe_content _ = none

abbrev pub probe_reply : Option (ℤ × ℤ) → Reply
probe_reply none = record {
  status = 503;
  headers = json_type ∷ no_store ∷ [];
  content = health health_error;
}
probe_reply (some (m, t)) = record {
  status = 200;
  headers = json_type ∷ no_store ∷ [];
  content = probed m t;
}

abbrev pub probe_query : Query
probe_query = record {
  origins = some (codes "37.7749,-122.4194");
  destinations = some (codes "37.7849,-122.4094");
  units = some (codes "imperial");
  router = none;
}

abbrev pub cache_header : Option Text → Headers
cache_header none = []
cache_header (some v) = (codes "cache-control", v) ∷ []

module _ (string_of : Number → Text) where
  unfoldable pub with_cors : Reply → Reply
  unfolding put_all
  with_cors r = record r { headers = put_all string_of cors_headers r.headers }

  module _ (limits : RateLimitConfig) (cta : Text) where
    abbrev pub limited_reply : RateLimitResult → Reply
    limited_reply r =
        let made = rate_limit_response string_of r limits cta in
        record { status = made.status; headers = made.headers; content = limited made.body }

    abbrev pub tier_headers_of : Option RateLimitResult → Headers
    tier_headers_of none = []
    tier_headers_of (some r) = rate_limit_headers string_of r.tiers

    -- the handler's response with the headers of the tiers
    unfoldable pub matrix_reply : Option RateLimitResult → MatrixResponse → Reply
    unfolding put_all rate_limit_headers
    matrix_reply rl r = record {
      status = 200;
      headers =
          put_all string_of (tier_headers_of rl)
            (json_type ∷ (cache_header r.cache_control ++ r.router_headers));
      content = matrix_body r.body;
    }

    -- the replies of the gates, or the handler's
    unfoldable pub reply_to :
        {C : Type 0} → Option (C × MatrixResponse) → C → Outcome → Option (C × Reply)
    unfolding matrix_reply rate_limit_response global_limit_response
    reply_to answered legs oversize = some (
      legs,
      record { status = 200; headers = json_type ∷ no_store ∷ []; content = oversize_body },
    )
    reply_to answered legs (rate_limited r) = some (legs, limited_reply r)
    reply_to answered legs (over_cap g) =
        let made = global_limit_response string_of g cta in
        some (
          legs,
          record { status = made.status; headers = made.headers; content = limited made.body },
        )
    reply_to answered legs (handled rl) = do (legs', r) ← answered; some (legs', matrix_reply rl r)
