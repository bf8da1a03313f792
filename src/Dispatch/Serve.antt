-- ===== src/Dispatch/Serve.antt =====
-- src/index.ts: dispatch and fetch, on the limiters' objects and the leg cache. `none` means that the
-- fuel of a search ran out. A request for the matrix on which a call of a service rejects, which
-- `dispatch` does not catch, is outside the model.
use open_distance.Prelude.{◌>>=◌, ℕ, Bool, Option, none, some, List, [], ◌∷◌, if◌then◌else◌}
use open_distance.Prelude.Int.{ℤ}
use open_distance.Text.{Text, text_eq, codes}
use open_distance.Number.{Number}
use open_distance.Float.{Float}
use open_distance.Config.{contact_cta}
use open_distance.Gate.{Objects, Settings, dispatch_matrix}
use open_distance.WasmRouter.{Compiled}
use open_distance.Matrix.{Services, LegCache}
use open_distance.Matrix.Handler.{Query, MatrixEnv, MatrixResponse}
use open_distance.Matrix.Wasm.{endpoint}
use open_distance.L1Router.{L1RouteResponse}
use open_distance.Dispatch.Overlay.{overlay_probe}
use open_distance.Dispatch.{
  Request, Reply, Target, refused, healthz, api_probe, l1_probe, matrix_endpoint, missing, site,
  method_not_allowed, unknown_path, Sentinel, target_of, call_of, health_check, page_reply,
  probe_query, probe_content, probe_reply, preflight, is, with_cors, reply_to,
}

-- What the worker is given: its environment, and the functions of the platform. `probe_rejects` holds
-- where a call that the handler awaits rejects on the probe's query.
pub record Worker (f : Float) : Type 0 where
  pub services : Services f
  pub settings : Settings
  pub contact_email : Text
  pub geo_version : Option Text
  pub tile_bytes : ℤ → ℤ → Option (List ℕ)
  pub compiled : Compiled f
  pub to_lower : Text → Text
  pub string_of : Number → Text
  pub sentinel : Sentinel
  pub probe_rejects : Bool
  pub number_of : Text → Option f.R
  pub l1_route : f.R → f.R → f.R → f.R → Option (L1RouteResponse f)
  pub fuel : ℕ

-- What requests change.
pub record World (f : Float) : Type 0 where
  pub objects : Objects
  pub legs : LegCache f

module _ (f : Float) (w : Worker f) where
  abbrev pub matrix_env : MatrixEnv
  matrix_env = record {
    max_elements = w.settings.max_elements;
    contact_email = w.contact_email;
    geo_version = w.geo_version;
  }

  unfoldable pub handle : Query → LegCache f → Option (LegCache f × MatrixResponse)
  unfolding endpoint
  handle q legs = endpoint f w.services matrix_env w.tile_bytes w.compiled w.to_lower w.fuel q legs

  -- the branch of the matrix: the gates, then the handler
  unfoldable pub serve_matrix : Request → World f → Option (World f × Reply)
  unfolding call_of dispatch_matrix reply_to handle contact_cta
  serve_matrix r s =
      let (objects, outcome) = dispatch_matrix w.settings (call_of r) s.objects in
      do
        (legs, reply) ←
            reply_to w.string_of w.settings.limits (contact_cta w.contact_email)
              (handle r.query s.legs) s.legs outcome
        some (record { objects = objects; legs = legs }, reply)

  -- The probe, which passes no gate; a handler that rejects is caught, before it has stored a leg.
  unfoldable pub serve_probe : World f → Option (World f × Reply)
  unfolding handle probe_content
  serve_probe s =
      let answered : Option (World f × Reply) = do
        (legs, m) ← handle probe_query s.legs
        some (record s { legs = legs }, probe_reply (probe_content m.body))
      in if w.probe_rejects then some (s, probe_reply none) else answered

  unfoldable pub serve_target : Target → Request → World f → Option (World f × Reply)
  unfolding serve_matrix serve_probe health_check overlay_probe page_reply
  serve_target refused r s = some (
    s,
    record {
      status = 405;
      headers = (codes "allow", codes "GET, HEAD, POST, OPTIONS") ∷ [];
      content = method_not_allowed;
    },
  )
  serve_target healthz r s = some (s, health_check w.sentinel)
  serve_target api_probe r s = serve_probe s
  serve_target l1_probe r s = some (s, overlay_probe w.number_of w.l1_route r.o r.d)
  serve_target (site p) r s = some (s, page_reply r.wants_html p)
  serve_target matrix_endpoint r s = serve_matrix r s
  serve_target missing r s = some (s, record { status = 404; headers = []; content = unknown_path })

  unfoldable pub dispatch : Request → World f → Option (World f × Reply)
  unfolding target_of serve_target
  dispatch r s = serve_target (target_of r.method r.path) r s

  abbrev pub corsed : World f × Reply → World f × Reply
  corsed (s, reply) = (s, with_cors w.string_of reply)

  unfoldable pub fetch : Request → World f → Option (World f × Reply)
  unfolding dispatch with_cors
  fetch r s =
      let served = dispatch r s in
      if is (codes "OPTIONS") r.method
      then some (s, preflight)
      else served >>= λ made. some (corsed made)
