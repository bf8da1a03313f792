-- ===== src/Matrix/Wasm/Shaped.antt =====
-- The answers of the WASM router have the shape of the others, and the endpoint's answers fit.
use open_distance.Prelude.{
  ℕ, suc, ◌*◌, ◌⊎◌, ◌≡◌, refl, ap, Option, none, some, List, [], ◌∷◌, map, length, ltb,
  Option-cases, Bool-cases, inl, inr,
}
use open_distance.Prelude.Int.{ℤ}
use open_distance.Text.{Text}
use open_distance.Float.{Float}
use open_distance.Elements.{split_multi}
use open_distance.Router.{NodeRef}
use open_distance.Geocode.{GeocodeResult, GeocodeHit, hit, miss}
use open_distance.Format.{Units}
use open_distance.WasmRouter.{OneToManyResult, Compiled, dijkstra_one_to_many}
use open_distance.Matrix.{Services, LegCache}
use open_distance.Matrix.Handler.{Query, MatrixResponse, MatrixEnv}
use open_distance.Matrix.Wasm.{
  DestResolved, ready, failed, Corridor, span, corridor_tiles, rust_node, routable, any_routable,
  around, buffered, all_reached, first_snap, resolve_dest, fill, wasm_response, route_in,
  route_from, try_wasm_matrix, wasm_auto_ok, endpoint,
}
use open_distance.Matrix.Answers.{HasShape, IsShaped, Fits, handle_distance_matrix-Fits}

length-map : {A B : Type 0} (g : A → B) (xs : List A) → length (map g xs) ≡ length xs
length-map g [] = refl
length-map g (x ∷ xs) = ap suc (length-map g xs)

GeocodeResult-cases :
    {f : Float} (r : GeocodeResult f)
    → ((n : Text) × (r ≡ miss n)) ⊎ ((g : GeocodeHit f) × (r ≡ hit g))
GeocodeResult-cases (miss n) = inl (n, refl)
GeocodeResult-cases (hit g) = inr (g, refl)

length-fill :
    (f : Float) (units : Units) (ds : List DestResolved) (rs : List (OneToManyResult f))
    → length (fill f units ds rs) ≡ length ds
unfolding fill
length-fill f units [] rs = refl
length-fill f units (failed n m ∷ ds) rs = ap suc (length-fill f units ds rs)
length-fill f units (ready n m snap ∷ ds) [] = ap suc (length-fill f units ds [])
length-fill f units (ready n m snap ∷ ds) (r ∷ rs) = ap suc (length-fill f units ds rs)

module _ (f : Float) (s : Services f) (env : MatrixEnv) where
  module _ (tile_bytes : ℤ → ℤ → Option (List ℕ)) (compiled : Compiled f) where
    route_in-HasShape :
        (units : Units) (g : GeocodeHit f) (src : NodeRef) (ds : List DestResolved) (c : Corridor)
        (r : MatrixResponse)
        → route_in f s env tile_bytes compiled units g src ds c ≡ some r
        → HasShape 1 (length ds) r.body
    unfolding route_in wasm_response
    route_in-HasShape units g src ds c r h =
        let count = span c.tx_min c.tx_max * span c.ty_min c.ty_max in
        let tiles = corridor_tiles tile_bytes c 0 count in
        let out = dijkstra_one_to_many f compiled tiles (rust_node src) (routable ds) 500000 in
        elim (Bool-cases (ltb 16 count)) [
          | inl over ↦ let gone : none ≡ some r = rw over at h in cc
          | inr under ↦ elim (Bool-cases (all_reached f out.1)) [
            | inr left ↦ let gone : none ≡ some r = rw (under, left) at h in cc
            | inl reached ↦
                let made : some
                      (wasm_response f s env tile_bytes compiled units g ds tiles out.0 out.1)
                    ≡ some r =
                  rw (under, reached) at h in
                let same : wasm_response f s env tile_bytes compiled units g ds tiles out.0 out.1
                    ≡ r =
                  cc in
                rw (← same) (
                  refl,
                  length-map _ ds,
                  refl,
                  length-map _ ds,
                  refl,
                  (length-fill f units ds out.1, tt),
                )
          ]
        ]

    -- The hypothesis of the endpoint's answers holds for this router.
    try_wasm_matrix-IsShaped : IsShaped (try_wasm_matrix f s env tile_bytes compiled)
    unfolding try_wasm_matrix route_from
    try_wasm_matrix-IsShaped units o ds r h = elim (GeocodeResult-cases (s.geocode o)) [
      | inl (n, e) ↦ let gone : none ≡ some r = rw (try_wasm_matrix, e) at h in cc
      | inr (g, e) ↦ elim (Option-cases (first_snap f (s.snap_k g.lat g.lon 1))) [
        | inl e' ↦ let gone : none ≡ some r = rw (try_wasm_matrix, e, e') at h in cc
        | inr (src, e') ↦ elim (Bool-cases (any_routable (map (resolve_dest f s) ds))) [
          | inr empty ↦
              let gone : none ≡ some r = rw (try_wasm_matrix, e, e', route_from, empty) at h in cc
          | inl some_node ↦
              let dests = map (resolve_dest f s) ds in
              let at : Corridor = record {
                tx_min = src.tx;
                tx_max = src.tx;
                ty_min = src.ty;
                ty_max = src.ty;
              } in
              let shape =
                route_in-HasShape units g src dests (buffered (around dests at)) r
                  (rw (try_wasm_matrix, e, e', route_from, some_node) at h) in
              rw (length-map (resolve_dest f s) ds) at shape
        ]
      ]
    ]

    -- Each response of the endpoint fits the request: a request without elements is INVALID_REQUEST,
    -- one with more elements than the cap is MAX_ELEMENTS_EXCEEDED, and any other gets, from either
    -- router, addresses and matches for every place, one row for an origin and one element in it for
    -- a destination.
    pub endpoint-Fits :
        (to_lower : Text → Text) (fuel : ℕ) (q : Query) (c c' : LegCache f) (r : MatrixResponse)
        → endpoint f s env tile_bytes compiled to_lower fuel q c ≡ some (c', r)
        → Fits
            (length (split_multi q.origins))
            (length (split_multi q.destinations))
            env.max_elements
            r.body
    unfolding endpoint
    endpoint-Fits to_lower fuel q c c' r h =
        handle_distance_matrix-Fits f s to_lower env fuel (wasm_auto_ok f)
          (try_wasm_matrix f s env tile_bytes compiled) try_wasm_matrix-IsShaped q c c' r h
