-- ===== src/Matrix/Wired.antt =====
-- The endpoint's services, filled by the other parts: the geocoder with its cache, the snapping, and
-- the object of the overlay once its graph is loaded. `fuel` is the fuel of the overlay's search; a
-- search that ran out of it counts as one without a leg.
use open_distance.Prelude.{ℕ, ◌≡◌, refl, Bool, true, false, Option, none, some}
use open_distance.Prelude.Int.{ℤ}
use open_distance.Text.{Text}
use open_distance.Float.{Float}
use open_distance.Tiles.{Tile}
use open_distance.Router.{LegResult}
use open_distance.Snap.Best.{snap_k}
use open_distance.L1.{L1Graph}
use open_distance.L1.Snap.{L1Snap, snap_l1}
use open_distance.L1.Walks.{Walk, IsSymmetric}
use open_distance.L1Router.{L1RouteRequest, L1RouteResponse, routed, refused, route_on}
use open_distance.L1Router.Answers.{route_on-Walk}
use open_distance.Geocode.Query.{GeocodeEnv, GeocodeCache, geocode}
use open_distance.Matrix.{Services}

module _ (f : Float) where
  -- the body's `timeS` and `lenM` where it is ok
  unfoldable pub leg_of : Option (L1RouteResponse f) → Option (LegResult f)
  leg_of none = none
  leg_of (some (refused reason)) = none
  leg_of (some (routed time_s len_m settled a b)) =
      some (record { time_s = f.lit time_s; len_m = f.lit len_m })

  abbrev pub request : f.R → f.R → f.R → f.R → L1RouteRequest f
  request src_lat src_lon dst_lat dst_lon = record {
    src_lat = src_lat;
    src_lon = src_lon;
    dst_lat = dst_lat;
    dst_lon = dst_lon;
    settled_cap = none;
  }

  -- the call of the object for two points
  unfoldable pub ask_overlay : ℕ → L1Graph f → f.R → f.R → f.R → f.R → Option (LegResult f)
  unfolding leg_of route_on
  ask_overlay fuel g src_lat src_lon dst_lat dst_lon =
      leg_of (route_on f fuel g (request src_lat src_lon dst_lat dst_lon))

  abbrev pub bound : ℕ → Option (L1Graph f) → Option (f.R → f.R → f.R → f.R → Option (LegResult f))
  bound fuel none = none
  bound fuel (some g) = some (ask_overlay fuel g)

  unfoldable pub wired :
      GeocodeEnv f
      → GeocodeCache f
      → (ℤ → ℤ → Option (Tile f))
      → (ℕ → ℕ → Bool)
      → ℕ
      → Option (L1Graph f)
      → Option Text
      → Services f
  unfolding geocode snap_k
  wired env cache get_tile expired fuel g l0_max_km = record {
    geocode = λ q. (geocode f env q cache).1;
    snap_k = λ lat lon k. snap_k f get_tile lat lon k;
    get_tile = get_tile;
    expired = expired;
    l1_route = bound fuel g;
    data_version = env.data_version;
    l0_max_km = l0_max_km;
  }

  response-leg_of :
      (o : Option (L1RouteResponse f)) (leg : LegResult f)
      → leg_of o ≡ some leg
      → (time_s : ℕ) × (len_m : ℕ) × (settled : ℕ) × (a : f.R) × (b : f.R) × (o
          ≡ some (routed time_s len_m settled a b))
        × (leg ≡ record { time_s = f.lit time_s; len_m = f.lit len_m })
  unfolding leg_of
  response-leg_of none leg h = cc
  response-leg_of (some (refused reason)) leg h = cc
  response-leg_of (some (routed time_s len_m settled a b)) leg h =
      (time_s, len_m, settled, a, b, refl, cc)

  -- On an overlay whose edges all have their reverses, a leg that the endpoint gets from the overlay
  -- has the time and the length of a walk between the two nodes that the points snap to.
  pub ask_overlay-Walk :
      (fuel : ℕ) (g : L1Graph f) (a b c d : f.R) (leg : LegResult f)
      → IsSymmetric f g
      → ask_overlay fuel g a b c d ≡ some leg
      → (src : L1Snap f) × (dst : L1Snap f) × (snap_l1 f g a b true ≡ some src)
        × (snap_l1 f g c d false ≡ some dst)
        × (time_s : ℕ) × (len_m : ℕ) × Walk f g src.node dst.node time_s len_m
        × (leg ≡ record { time_s = f.lit time_s; len_m = f.lit len_m })
  unfolding ask_overlay
  ask_overlay-Walk fuel g a b c d leg symmetric h =
      let (time_s, len_m, settled, near, far, ran, same) = response-leg_of _ leg h in
      let (src, dst, from, to, walk) =
        route_on-Walk f fuel g (request a b c d) time_s len_m settled near far symmetric ran in
      (src, dst, from, to, time_s, len_m, walk, same)
