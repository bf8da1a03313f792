-- ===== src/Dispatch/Replies.antt =====
-- What every reply carries, and which requests reach the matrix.
use open_distance.Prelude.{
  ◌≤◌, ◌≡◌, ◌≢◌, refl, ap, ◌∙◌, Option, none, some, length, ltb, ltb-false→le, Option-cases,
  Bool-cases, inl, inr, some_pair-inj,
}
use open_distance.Prelude.Dict.{lookup, insert, lookup-insert}
use open_distance.Text.{Text, text_eq, codes}
use open_distance.Number.{Number}
use open_distance.Float.{Float}
use open_distance.RateLimit.{RateLimitResult, RateLimitConfig}
use open_distance.Responses.{ErrorBody, put_all, rate_limit_response, global_limit_response}
use open_distance.Gate.{
  Objects, Settings, Call, Outcome, oversize, rate_limited, over_cap, handled, dispatch_matrix,
}
use open_distance.Dispatch.{
  Request, Reply, preflight, exposed, exposed_headers, oversize_body, limited, matrix_body,
  reply_to, call_of, matrix_reply, is, with_cors,
}
use open_distance.Dispatch.Serve.{Worker, World, dispatch, fetch, handle, matrix_env, serve_matrix}
use open_distance.Elements.{split_multi, count_elements}
use open_distance.Config.{contact_cta}
use open_distance.Matrix.Handler.{Body, MatrixResponse}
use open_distance.Matrix.Answers.{Fits}
use open_distance.Matrix.Wasm.Shaped.{endpoint-Fits}

abbrev pub allow_origin : Text
allow_origin = codes "access-control-allow-origin"

with_cors-allow_origin :
    (string_of : Number → Text) (r : Reply)
    → lookup allow_origin (with_cors string_of r).headers ≡ some (codes "*")
unfolding with_cors put_all
with_cors-allow_origin string_of r =
    let h₁ = insert allow_origin (codes "*") r.headers in
    let h₂ = insert exposed exposed_headers h₁ in
    lookup-insert (codes "vary") allow_origin (codes "Origin") h₂
    ∙ lookup-insert exposed allow_origin exposed_headers h₁
    ∙ lookup-insert allow_origin allow_origin (codes "*") r.headers

-- Each reply lets any origin read it, whatever the request is.
pub fetch-allow_origin :
    (f : Float) (w : Worker f) (r : Request) (s s' : World f) (reply : Reply)
    → fetch f w r s ≡ some (s', reply)
    → lookup allow_origin reply.headers ≡ some (codes "*")
unfolding fetch lookup
fetch-allow_origin f w r s s' reply h = elim (Bool-cases (is (codes "OPTIONS") r.method)) [
  | inl options ↦
      let (first, second) = some_pair-inj s s' preflight reply (rw options at h) in
      rw (← second) refl
  | inr other ↦ elim (Option-cases (dispatch f w r s)) [
    | inl e ↦
        let gone : ◌≡◌ {A = Option (World f × Reply)} none (some (s', reply)) =
          rw (other, e) at h in
        cc
    | inr (made, e) ↦
        let (first, second) =
          some_pair-inj made.0 s' (with_cors w.string_of made.1) reply (rw (other, e) at h) in
        rw (← second) (with_cors-allow_origin w.string_of made.1)
  ]
]

handled-under :
    (cfg : Settings) (c : Call) (o : Objects) (rl : Option RateLimitResult)
    → (dispatch_matrix cfg c o).1 ≡ handled rl
    → c.elements ≤ cfg.max_elements
unfolding dispatch_matrix
handled-under cfg c o rl h = elim (Bool-cases (ltb cfg.max_elements c.elements)) [
  | inl over ↦ let gone : oversize ≡ handled rl = rw over at h in cc
  | inr under ↦ ltb-false→le cfg.max_elements c.elements under
]

limited-matrix : (e : ErrorBody) (b : Body) → limited e ≢ matrix_body b
limited-matrix e b h = cc

-- A reply with a matrix's body is the handler's, past the gates.
reply_to-handled :
    {C : Type 0} (string_of : Number → Text) (limits : RateLimitConfig) (cta : Text)
    (answered : Option (C × MatrixResponse)) (legs legs' : C) (x : Outcome) (reply : Reply)
    (b : Body)
    → reply_to string_of limits cta answered legs x ≡ some (legs', reply)
    → reply.content ≡ matrix_body b
    → (rl : Option RateLimitResult) × (m : MatrixResponse) × (x ≡ handled rl)
      × (answered ≡ some (legs', m))
      × (m.body ≡ b)
unfolding reply_to matrix_reply rate_limit_response global_limit_response
reply_to-handled string_of limits cta answered legs legs' oversize reply b h same =
    let (first, second) = some_pair-inj legs legs' _ reply h in
    let gone : oversize_body ≡ matrix_body b = ap (λ (r : Reply). r.content) second ∙ same in cc
reply_to-handled string_of limits cta answered legs legs' (rate_limited r) reply b h same =
    let (first, second) = some_pair-inj legs legs' _ reply h in
    let clash = ap (λ (r : Reply). r.content) second ∙ same in absurd (limited-matrix _ b clash)
reply_to-handled string_of limits cta answered legs legs' (over_cap g) reply b h same =
    let (first, second) = some_pair-inj legs legs' _ reply h in
    let clash = ap (λ (r : Reply). r.content) second ∙ same in absurd (limited-matrix _ b clash)
reply_to-handled {C} string_of limits cta answered legs legs' (handled rl) reply b h same =
    elim (Option-cases answered) [
      | inl e ↦ let gone : ◌≡◌ {A = Option (C × Reply)} none (some (legs', reply)) = rw e at h in cc
      | inr (made, e) ↦
          let (first, second) = some_pair-inj made.0 legs' _ reply (rw e at h) in
          let bodies : matrix_body made.1.body ≡ matrix_body b =
            ap (λ (r : Reply). r.content) second ∙ same in
          let kept : made.1.body ≡ b = cc in
          (rl, made.1, refl, e ∙ ap (λ l. some (l, made.1)) first, kept)
    ]

-- Where the reply to a request for the matrix has a body of the handler's, the elements of the request
-- are within the cap, so it is not MAX_ELEMENTS_EXCEEDED, and the body fits the request.
pub serve_matrix-Fits :
    (f : Float) (w : Worker f) (r : Request) (s s' : World f) (reply : Reply) (b : Body)
    → serve_matrix f w r s ≡ some (s', reply)
    → reply.content ≡ matrix_body b
    → (count_elements r.query.origins r.query.destinations ≤ w.settings.max_elements)
      × Fits
          (length (split_multi r.query.origins))
          (length (split_multi r.query.destinations))
          w.settings.max_elements
          b
unfolding serve_matrix call_of handle
serve_matrix-Fits f w r s s' reply b h same =
    let gated = dispatch_matrix w.settings (call_of r) s.objects in
    let cta = contact_cta w.contact_email in
    let answered = handle f w r.query s.legs in
    elim (Option-cases (reply_to w.string_of w.settings.limits cta answered s.legs gated.1)) [
      | inl e ↦
          let gone : ◌≡◌ {A = Option (World f × Reply)} none (some (s', reply)) =
            rw (serve_matrix, e) at h in
          cc
      | inr (made, e) ↦
          let (first, second) = some_pair-inj _ s' made.1 reply (rw (serve_matrix, e) at h) in
          let (rl, m, outcome, ran, body) =
            reply_to-handled w.string_of w.settings.limits cta answered s.legs made.0 gated.1 made.1
              b e (ap (λ (r : Reply). r.content) second ∙ same) in
          let fits =
            endpoint-Fits f w.services (matrix_env f w) w.tile_bytes w.compiled w.to_lower w.fuel
              r.query s.legs made.0 m ran in
          (handled-under w.settings (call_of r) s.objects rl outcome, rw body at fits)
    ]
