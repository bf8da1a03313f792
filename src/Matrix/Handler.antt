-- ===== src/Matrix/Handler.antt =====
-- src/distancematrix.ts: handleDistanceMatrix. The attempt with the WASM router is a parameter: what
-- it answers for the origin and the destinations, `none` where it leaves the request to the rest.
use open_distance.Prelude.{
  ◌>>=◌, ℕ, ◌*◌, Bool, true, false, ◌&&◌, ◌||◌, not, Option, none, some, List, [], ◌∷◌, ◌++◌,
  if◌then◌else◌, nat_beq, ltb, length,
}
use open_distance.Text.{Text, text_eq, codes}
use open_distance.Float.{Float}
use open_distance.Elements.{split_multi}
use open_distance.Config.{contact_cta}
use open_distance.Decimal.{show_nat}
use open_distance.Geocode.{hit, miss, Match, coords, rooftop, interpolated}
use open_distance.Format.{Units, imperial, metric}
use open_distance.Matrix.{
  Services, Element, ResolvedEndpoint, LegCache, resolve_all, cache_policy_for,
}
use open_distance.Matrix.Row.{rows_from}

-- The query's parameters; `none` is one that is missing.
pub record Query : Type 0 where
  pub origins : Option Text
  pub destinations : Option Text
  pub units : Option Text
  pub router : Option Text

-- A body: one of the two refusals with its message, or the matrix.
pub data Body : Type 0 where
  invalid_request : (message : Text) → Body
  max_elements_exceeded : (message : Text) → Body
  matrix :
      (origin_addresses destination_addresses origin_matches destination_matches : List Text)
      (rows : List (List Element)) (data_version roads_version : Text)
      → Body

-- A response with status 200, its cache-control header, and the headers of the WASM router.
pub record MatrixResponse : Type 0 where
  pub body : Body
  pub cache_control : Option Text
  pub router_headers : List (Text × Text)

abbrev pub WasmAttempt : Type 0
WasmAttempt = Units → Text → List Text → Option MatrixResponse

-- What the environment sets.
pub record MatrixEnv : Type 0 where
  pub max_elements : ℕ
  pub contact_email : Text
  pub geo_version : Option Text

-- `to_lower` is the language's `toLowerCase`; the empty text is not "metric" either.
unfoldable pub units_of : (Text → Text) → Option Text → Units
units_of to_lower none = imperial
units_of to_lower (some t) = if text_eq.same (to_lower t) (codes "metric") then metric else imperial

abbrev pub addresses_version : Option Text → Text → Text
addresses_version none version = version
addresses_version (some geo) version = geo

abbrev pub match_word : Match → Text
match_word coords = codes "coords"
match_word rooftop = codes "rooftop"
match_word interpolated = codes "interpolated"

-- the attempt, for the one origin
abbrev pub attempt : WasmAttempt → Bool → Units → List Text → List Text → Option MatrixResponse
attempt try_wasm false units origins dsts = none
attempt try_wasm true units [] dsts = none
attempt try_wasm true units (o ∷ os) dsts = try_wasm units o dsts

-- A request with one origin tries WASM when it asks for it, or when it does not ask for the other
-- router and `auto_ok` holds.
unfoldable pub wants_wasm : (Text → List Text → Bool) → Option Text → List Text → List Text → Bool
wants_wasm auto_ok router [] dsts = false
wants_wasm auto_ok router (o ∷ o' ∷ os) dsts = false
wants_wasm auto_ok none (o ∷ []) dsts = auto_ok o dsts
wants_wasm auto_ok (some r) (o ∷ []) dsts =
    not (text_eq.same r (codes "ts")) && (text_eq.same r (codes "wasm") || auto_ok o dsts)

module _ (f : Float) where
  -- the address that was found, or the input
  abbrev pub address_of : ResolvedEndpoint f → Text → Text
  address_of r q = elim r.geocode [ hit g ↦ g.normalized | miss n ↦ q ]

  unfoldable pub addresses : List (ResolvedEndpoint f) → List Text → List Text
  addresses [] qs = []
  addresses (r ∷ rs) [] = []
  addresses (r ∷ rs) (q ∷ qs) = address_of r q ∷ addresses rs qs

  abbrev pub match_of : ResolvedEndpoint f → Text
  match_of r = elim r.geocode [ hit g ↦ match_word g.matched | miss n ↦ [] ]

  unfoldable pub matches : List (ResolvedEndpoint f) → List Text
  matches [] = []
  matches (r ∷ rs) = match_of r ∷ matches rs

  module _ (s : Services f) (to_lower : Text → Text) (env : MatrixEnv) (fuel : ℕ) where
    -- The matrix by the tiled search and the overlay; `none` means that the fuel ran out.
    unfoldable pub tiled_matrix :
        Units → List Text → List Text → LegCache f → Option (LegCache f × MatrixResponse)
    unfolding resolve_all rows_from addresses matches cache_policy_for
    tiled_matrix units origins destinations cache =
        let o_r = resolve_all f s origins in
        let d_r = resolve_all f s destinations in
        do
          (cache', rows) ← rows_from f s fuel units d_r 0 o_r cache
          some (
            cache',
            record {
              body =
                  matrix (addresses o_r origins) (addresses d_r destinations) (matches o_r)
                    (matches d_r) rows (addresses_version env.geo_version s.data_version)
                    s.data_version;
              cache_control = some (cache_policy_for rows);
              router_headers = [];
            },
          )

    abbrev invalid : MatrixResponse
    invalid = record {
      body = invalid_request (codes "Missing origins or destinations");
      cache_control = none;
      router_headers = [];
    }

    abbrev too_many : MatrixResponse
    too_many = record {
      body = max_elements_exceeded (
          codes "Max "
          ++ show_nat env.max_elements
          ++ codes " elements (origins × destinations) per request."
          ++ contact_cta env.contact_email);
      cache_control = none;
      router_headers = [];
    }

    module _ (auto_ok : Text → List Text → Bool) (try_wasm : WasmAttempt) where
      -- a request that passes the two checks
      unfoldable pub serve :
          Query → List Text → List Text → LegCache f → Option (LegCache f × MatrixResponse)
      unfolding wants_wasm tiled_matrix units_of
      serve q origins destinations cache =
          let units = units_of to_lower q.units in
          elim (attempt try_wasm (wants_wasm auto_ok q.router origins destinations) units origins
            destinations) [
              | some r ↦ some (cache, r)
              | none ↦ tiled_matrix units origins destinations cache
            ]

      unfoldable pub handle_distance_matrix :
          Query → LegCache f → Option (LegCache f × MatrixResponse)
      unfolding split_multi serve
      handle_distance_matrix q cache =
          let origins = split_multi q.origins in
          let destinations = split_multi q.destinations in
          let served = serve q origins destinations cache in
          if nat_beq (length origins) 0 || nat_beq (length destinations) 0
          then some (cache, invalid)
          else if ltb env.max_elements (length origins * length destinations)
          then some (cache, too_many)
          else served
