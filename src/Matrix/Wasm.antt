-- ===== src/Matrix/Wasm.antt =====
-- src/distancematrix.ts: wasmAutoOk and tryWasmMatrix. The corridor's tiles are handed over in the order
-- of their indices. `tile_bytes` is what the loader answers for a pair of tile coordinates.
pub mod Shaped
use open_distance.Prelude.{
  ◌>>=◌, ℕ, zero, suc, ◌+◌, ◌-◌, ◌*◌, ◌/◌, ◌%◌, Bool, true, false, ◌&&◌, ◌||◌, not, Option, none,
  some, List, [], ◌∷◌, ◌++◌, map, length, if◌then◌else◌, nat_beq, ltb, leb,
}
use open_distance.Prelude.Int.{ℤ, pos_part, neg_part, ◌+ℤ◌}
use open_distance.Text.{Text, codes}
use open_distance.Float.{Float}
use open_distance.Geo.{haversine_meters}
use open_distance.Elements.{is_empty}
use open_distance.Tiles.{pack_tile_id}
use open_distance.Router.{NodeRef}
use open_distance.Snap.{SnapResult}
use open_distance.Decimal.{show_nat}
use open_distance.Geocode.{GeocodeHit, hit, miss}
use open_distance.Geocode.Coords.{read_decimal, past_comma}
use open_distance.Format.{Units}
use open_distance.WasmRouter.{
  MultiTileInput, RustNode, OneToManyResult, Compiled, dijkstra_one_to_many,
}
use open_distance.Matrix.{Services, LegCache, Element, not_found, cache_policy_for, node_of}
use open_distance.Matrix.Row.{element_of}
use open_distance.Matrix.Handler.{
  matrix, Query, MatrixResponse, MatrixEnv, match_word, addresses_version, handle_distance_matrix,
}

-- A destination with its address, its match, and its node where it has one.
pub data DestResolved : Type 0 where
  ready : (normalized matched : Text) (snap : NodeRef) → DestResolved
  failed : (normalized matched : Text) → DestResolved

abbrev pub normalized_of : DestResolved → Text
normalized_of (ready n m snap) = n
normalized_of (failed n m) = n

abbrev pub matched_of : DestResolved → Text
matched_of (ready n m snap) = m
matched_of (failed n m) = m

abbrev pub le_ℤ : ℤ → ℤ → Bool
le_ℤ a b = leb (pos_part a + neg_part b) (pos_part b + neg_part a)

abbrev pub min_ℤ : ℤ → ℤ → ℤ
min_ℤ a b = if le_ℤ a b then a else b

abbrev pub max_ℤ : ℤ → ℤ → ℤ
max_ℤ a b = if le_ℤ a b then b else a

-- the count of the integers from `lo` to `hi`
abbrev pub span : ℤ → ℤ → ℕ
span lo hi = suc (pos_part hi + neg_part lo) - (pos_part lo + neg_part hi)

pub record Corridor : Type 0 where
  pub tx_min : ℤ
  pub tx_max : ℤ
  pub ty_min : ℤ
  pub ty_max : ℤ

abbrev pub widen : NodeRef → Corridor → Corridor
widen n c = record {
  tx_min = min_ℤ c.tx_min n.tx;
  tx_max = max_ℤ c.tx_max n.tx;
  ty_min = min_ℤ c.ty_min n.ty;
  ty_max = max_ℤ c.ty_max n.ty;
}

-- one tile more on each side
abbrev pub buffered : Corridor → Corridor
buffered c = record {
  tx_min = c.tx_min +ℤ ℤ.negsuc 0;
  tx_max = c.tx_max +ℤ ℤ.pos 1;
  ty_min = c.ty_min +ℤ ℤ.negsuc 0;
  ty_max = c.ty_max +ℤ ℤ.pos 1;
}

-- the bounding box of the destinations' nodes, on top of `c`
unfoldable pub around : List DestResolved → Corridor → Corridor
around [] c = c
around (ready n m snap ∷ ds) c = around ds (widen snap c)
around (failed n m ∷ ds) c = around ds c

unfoldable pub any_routable : List DestResolved → Bool
any_routable [] = false
any_routable (ready n m snap ∷ ds) = true
any_routable (failed n m ∷ ds) = any_routable ds

abbrev pub rust_node : NodeRef → RustNode
rust_node n = record { tile_id = pack_tile_id n.tx n.ty; dense = n.dense }

unfoldable pub routable : List DestResolved → List RustNode
routable [] = []
routable (ready n m snap ∷ ds) = rust_node snap ∷ routable ds
routable (failed n m ∷ ds) = routable ds

abbrev pub tile_input : (ℤ → ℤ → Option (List ℕ)) → ℤ → ℤ → Option MultiTileInput
tile_input tile_bytes tx ty = do
  bytes ← tile_bytes tx ty
  some (record { tile_id = pack_tile_id tx ty; bytes = bytes })

-- the tiles of the corridor from index `i` on, those that there are
unfoldable pub corridor_tiles : (ℤ → ℤ → Option (List ℕ)) → Corridor → ℕ → ℕ → List MultiTileInput
corridor_tiles tile_bytes c i zero = []
corridor_tiles tile_bytes c i (suc n) =
    let rest = corridor_tiles tile_bytes c (suc i) n in
    let width = span c.tx_min c.tx_max in
    elim (tile_input tile_bytes (c.tx_min +ℤ ℤ.pos (i % width)) (c.ty_min +ℤ ℤ.pos (i / width))) [
      | none ↦ rest
      | some t ↦ t ∷ rest
    ]

module _ (f : Float) where
  open f use {R, lit, lt, le}

  -- LATLNG_RE, and both numbers finite
  unfoldable pub parse_lat_lng : Text → Option (R × R)
  unfolding read_decimal
  parse_lat_lng s = do
    lat ← read_decimal s
    behind ← past_comma lat.rest
    lon ← read_decimal behind
    a ← f.of_text lat.number
    b ← f.of_text lon.number
    if leb lat.whole_digits 3 && leb lon.whole_digits 3 && is_empty lon.rest
        then some (a, b)
        else none

  pub record Box : Type 0 where
    pub lat_min : R
    pub lat_max : R
    pub lon_min : R
    pub lon_max : R

  abbrev pub min_R : R → R → R
  min_R a b = if lt b a then b else a

  abbrev pub max_R : R → R → R
  max_R a b = if lt a b then b else a

  -- the box of the destinations, where each is a pair of coordinates
  unfoldable pub box_of : List Text → Box → Option Box
  unfolding parse_lat_lng
  box_of [] b = some b
  box_of (q ∷ qs) b = elim (parse_lat_lng q) [
    | none ↦ none
    | some (lat, lon) ↦ box_of qs (record {
      lat_min = min_R b.lat_min lat;
      lat_max = max_R b.lat_max lat;
      lon_min = min_R b.lon_min lon;
      lon_max = max_R b.lon_max lon;
    })
  ]

  abbrev pub wasm_auto_bbox_m : ℕ
  wasm_auto_bbox_m = 3000

  unfoldable pub wasm_auto_ok : Text → List Text → Bool
  unfolding box_of haversine_meters
  wasm_auto_ok origin dests = elim (parse_lat_lng origin) [
    | none ↦ false
    | some (lat, lon) ↦
        elim (box_of dests
          (record { lat_min = lat; lat_max = lat; lon_min = lon; lon_max = lon })) [
            | none ↦ false
            | some b ↦
                le (haversine_meters f b.lat_min b.lon_min b.lat_max b.lon_max)
                  (lit wasm_auto_bbox_m)
          ]
  ]

  abbrev pub first_snap : List (SnapResult f) → Option NodeRef
  first_snap [] = none
  first_snap (s ∷ ss) = some (node_of f s)

  abbrev pub dest_of : GeocodeHit f → Option NodeRef → DestResolved
  dest_of g none = failed g.normalized (match_word g.matched)
  dest_of g (some n) = ready g.normalized (match_word g.matched) n

  unfoldable pub resolve_dest : Services f → Text → DestResolved
  resolve_dest s q = elim (s.geocode q) [
    | miss n ↦ failed n []
    | hit g ↦ dest_of g (first_snap (s.snap_k g.lat g.lon 1))
  ]

  unfoldable pub all_reached : List (OneToManyResult f) → Bool
  all_reached [] = true
  all_reached (r ∷ rs) = r.ok && all_reached rs

  -- The elements: NOT_FOUND for a destination that failed, the next result for any other.
  unfoldable pub fill : Units → List DestResolved → List (OneToManyResult f) → List Element
  unfolding element_of
  fill units [] rs = []
  fill units (failed n m ∷ ds) rs = not_found ∷ fill units ds rs
  fill units (ready n m snap ∷ ds) [] = not_found ∷ fill units ds []
  fill units (ready n m snap ∷ ds) (r ∷ rs) =
      element_of f units (some (record { time_s = r.time_s; len_m = r.len_m })) ∷ fill units ds rs

  module _ (s : Services f) (env : MatrixEnv) (tile_bytes : ℤ → ℤ → Option (List ℕ))
      (compiled : Compiled f) where
    abbrev pub impl_word : ℕ → Text
    impl_word n = if nat_beq n 1 then codes "wasm" else codes "wasm-one-to-many"

    -- the response, from the tiles and the results
    unfoldable pub wasm_response :
        Units
        → GeocodeHit f
        → List DestResolved
        → List MultiTileInput
        → ℕ
        → List (OneToManyResult f)
        → MatrixResponse
    unfolding fill cache_policy_for show_nat
    wasm_response units g dests tiles settled results =
        let rows = fill units dests results ∷ [] in
        record {
          body =
              matrix (g.normalized ∷ []) (map normalized_of dests) (match_word g.matched ∷ [])
                (map matched_of dests) rows (addresses_version env.geo_version s.data_version)
                s.data_version;
          cache_control = some (cache_policy_for rows);
          router_headers =
              (codes "x-od-router-impl", impl_word (length dests))
              ∷ (codes "x-od-router-settled", show_nat settled)
              ∷ (codes "x-od-router-tiles", show_nat (length tiles))
              ∷ [];
        }

    -- within a corridor of at most 16 tiles
    unfoldable pub route_in :
        Units → GeocodeHit f → NodeRef → List DestResolved → Corridor → Option MatrixResponse
    unfolding corridor_tiles routable all_reached dijkstra_one_to_many wasm_response
    route_in units g src dests c =
        let count = span c.tx_min c.tx_max * span c.ty_min c.ty_max in
        let tiles = corridor_tiles tile_bytes c 0 count in
        let (settled, results) =
          dijkstra_one_to_many f compiled tiles (rust_node src) (routable dests) 500000 in
        let answer : Option MatrixResponse =
          if all_reached results
          then some (wasm_response units g dests tiles settled results)
          else none in
        if ltb 16 count then none else answer

    -- once the origin has a node
    unfoldable pub route_from :
        Units → GeocodeHit f → NodeRef → List DestResolved → Option MatrixResponse
    unfolding around any_routable route_in
    route_from units g src dests =
        let at : Corridor = record {
          tx_min = src.tx;
          tx_max = src.tx;
          ty_min = src.ty;
          ty_max = src.ty;
        } in
        let routed = route_in units g src dests (buffered (around dests at)) in
        if any_routable dests then routed else none

    unfoldable pub try_wasm_matrix : Units → Text → List Text → Option MatrixResponse
    unfolding resolve_dest route_from
    try_wasm_matrix units origin dests = elim (s.geocode origin) [
      | miss n ↦ none
      | hit g ↦ elim (first_snap (s.snap_k g.lat g.lon 1)) [
        | none ↦ none
        | some src ↦ route_from units g src (map (resolve_dest s) dests)
      ]
    ]

    -- the handler with this attempt
    unfoldable pub endpoint :
        (Text → Text) → ℕ → Query → LegCache f → Option (LegCache f × MatrixResponse)
    unfolding handle_distance_matrix wasm_auto_ok try_wasm_matrix
    endpoint to_lower fuel =
        handle_distance_matrix f s to_lower env fuel wasm_auto_ok try_wasm_matrix
