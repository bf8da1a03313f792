-- ===== src/Geo.antt =====
-- src/geo.ts: the great-circle distance between two points, in metres.
use open_distance.Float.{Float}

module _ (f : Float) where
  open f use {R, lit, add, sub, mul, div, sin, cos, asin, sqrt, pi}

  abbrev earth_radius_m : R
  earth_radius_m = lit 6371000

  abbrev pub to_rad : R
  to_rad = div pi (lit 180)

  abbrev square : R → R
  square x = mul x x

  unfoldable pub haversine_meters : R → R → R → R → R
  haversine_meters lat1 lon1 lat2 lon2 =
      let d_lat = mul (sub lat2 lat1) to_rad in
      let d_lon = mul (sub lon2 lon1) to_rad in
      let a = add (square (sin (div d_lat (lit 2)))) (
        mul (mul (cos (mul lat1 to_rad)) (cos (mul lat2 to_rad)))
          (square (sin (div d_lon (lit 2))))) in
      mul (mul (lit 2) earth_radius_m) (asin (sqrt a))
