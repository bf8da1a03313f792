-- ===== src/Tests/Dispatched.antt =====
-- The worker on concrete requests.
use open_distance.Prelude.{ℕ, ◌-◌, Option, true, ◌≤◌, ◌≡◌, refl, false, none, some, [], ◌∷◌}
use open_distance.Prelude.Dict.{lookup}
use open_distance.Text.{Text, text_eq, codes}
use open_distance.Number.{pos}
use open_distance.Elements.{split_multi, count_elements}
use open_distance.GlobalLimit
use open_distance.Matrix.Answers.{Fits}
use open_distance.Dispatch.{
  Request, Reply, there, json_type, matrix_body, preflight, probe_reply, with_cors, docs, site,
  target_of, missing, refused,
}
use open_distance.Dispatch.Overlay.{overlay_probe}
use open_distance.L1Router.{no_path}
use open_distance.L1Router
use open_distance.Dispatch.Serve.{Worker, World, serve_matrix, fetch}
use open_distance.Dispatch.Replies.{allow_origin, fetch-allow_origin, serve_matrix-Fits}
use open_distance.Config.{default_limits}
use open_distance.Tests.Numbers.{whole}
use open_distance.Tests.Matrices.{services, same_case}
use open_distance.Tests.Compiled.{no_bytes, one_leg, query, answer}
use open_distance.Prelude.Int.{◌+ℤ◌}

-- a text of one digit
abbrev number_of : Text → Option ℕ
number_of (c ∷ []) = some (c - 48)
number_of _ = none

abbrev worker : Worker whole
worker = record {
  services = services;
  settings = record { limits = default_limits; global_limit = pos 100; max_elements = 4 };
  contact_email = [];
  geo_version = none;
  tile_bytes = no_bytes;
  compiled = one_leg;
  to_lower = same_case;
  string_of = λ n. [];
  sentinel = there;
  probe_rejects = true;
  number_of = number_of;
  l1_route = λ a b c d. some (L1Router.refused no_path);
  fuel = 20;
}

abbrev world : World whole
world = record { objects = record { limiters = []; global = GlobalLimit.fresh }; legs = [] }

-- the limiters do not answer, so no header is added
abbrev request : Text → Request
request method = record {
  method = method;
  path = codes "/maps/api/distancematrix/json";
  query = query;
  o = none;
  d = none;
  wants_html = true;
  id = codes "x";
  now = 0;
  limiter_answers = false;
  global_answers = false;
}

abbrev reply : Reply
reply = record {
  status = 200;
  headers =
      json_type
      ∷ (codes "cache-control", codes "no-store")
      ∷ (codes "x-od-router-impl", codes "wasm-one-to-many")
      ∷ (codes "x-od-router-settled", codes "2")
      ∷ (codes "x-od-router-tiles", codes "0")
      ∷ [];
  content = matrix_body answer.body;
}

served : serve_matrix whole worker (request (codes "GET")) world ≡ some (world, reply)
unfolding serve_matrix ◌+ℤ◌
served = refl

serve_matrix-Fits_example :
    (count_elements (some (codes "a")) (some (codes "b|c")) ≤ 4) × Fits 1 2 4 answer.body
unfolding split_multi
serve_matrix-Fits_example =
    serve_matrix-Fits whole worker (request (codes "GET")) world world reply answer.body served refl

fetched : fetch whole worker (request (codes "OPTIONS")) world ≡ some (world, preflight)
unfolding fetch
fetched = refl

-- the probe, whose handler rejects
abbrev probe_request : Request
probe_request = record (request (codes "GET")) { path = codes "/healthz/api" }

abbrev probe_answer : Reply
probe_answer = with_cors worker.string_of (probe_reply none)

probe_fetched : fetch whole worker probe_request world ≡ some (world, probe_answer)
unfolding fetch
probe_fetched = refl

fetch-allow_origin_example : lookup allow_origin probe_answer.headers ≡ some (codes "*")
fetch-allow_origin_example =
    fetch-allow_origin whole worker probe_request world world probe_answer probe_fetched

docs_page : target_of (codes "HEAD") (codes "/docs") ≡ site docs
unfolding target_of
docs_page = refl

docs_posted : target_of (codes "POST") (codes "/docs") ≡ missing
unfolding target_of
docs_posted = refl

deleted : target_of (codes "DELETE") (codes "/") ≡ refused
unfolding target_of
deleted = refl

abbrev overlay_reply : Option Text → Reply
overlay_reply o = overlay_probe worker.number_of worker.l1_route o (some (codes "3,4"))

probed : (overlay_reply (some (codes "1,2"))).status ≡ 200
unfolding overlay_probe
probed = refl

-- three numbers
refused_probe : (overlay_reply (some (codes "1,2,3"))).status ≡ 400
unfolding overlay_probe
refused_probe = refl
