-- ===== src/Matrix/Groups.antt =====
-- src/distancematrix.ts, handleDistanceMatrix: which destinations of an origin go to which router.
-- `cached` and `computed` are the legs of the KV store and of the tiled search.
use open_distance.Prelude.{
  ◌>>=◌, ℕ, zero, suc, Bool, true, false, ◌&&◌, ◌||◌, not, Option, none, some, List, [], ◌∷◌, map,
  leb, if◌then◌else◌, nat_beq, nat_eq, length, drop, get_elem?,
}
use open_distance.Prelude.Dict.{lookup, insert, has_value}
use open_distance.Prelude.Int.{ℤ}
use open_distance.Text.{Text, text_eq, codes}
use open_distance.Float.{Float}
use open_distance.Geo.{haversine_meters}
use open_distance.Router.{NodeRef, LegResult, DestGroup}
use open_distance.Geocode.{GeocodeResult, hit, miss}
use open_distance.Decimal.{show_nat, parse_int}
use open_distance.Matrix.{ResolvedEndpoint, node_id_str, Legs, node_of, top1}

abbrev or_five_hundred : Option ℤ → ℕ
or_five_hundred none = 500
or_five_hundred (some (ℤ.pos zero)) = 500
or_five_hundred (some (ℤ.pos (suc n))) = suc n
or_five_hundred (some (ℤ.negsuc n)) = 0

-- L0_MAX_KM: at least 50, and 500 where the variable does not give a number other than 0
unfoldable pub max_km : Option Text → ℕ
unfolding parse_int
max_km v =
    let km = or_five_hundred (parse_int (elim v [ none ↦ codes "500" | some t ↦ t ])) in
    if leb km 50 then 50 else km

abbrev pub router_cap : ℕ
router_cap = 2000000

abbrev pub is_hit : {f : Float} → GeocodeResult f → Bool
is_hit (hit g) = true
is_hit (miss n) = false

-- `lat` and `lon`, undefined on a miss
abbrev pub point : {f : Float} → GeocodeResult f → Option (f.R × f.R)
point (hit g) = some (g.lat, g.lon)
point (miss n) = none

-- the group id of a destination
unfoldable pub group_id : ℕ → Text
unfolding show_nat
group_id j = 100 ∷ show_nat j

-- `parseInt(g.id.slice(1), 10)`
unfoldable pub index_of : Text → Option ℕ
unfolding parse_int
index_of id = elim (parse_int (drop 1 id)) [
  | none ↦ none
  | some z ↦ elim z [ ℤ.pos n ↦ some n | ℤ.negsuc n ↦ none ]
]

module _ (f : Float) where
  open f use {R, lit, div, lt, round, sub}

  abbrev or_origin : Option (R × R) → R × R
  or_origin none = (lit 0, lit 0)
  or_origin (some p) = p

  unfoldable pub dest_group : ℕ → ResolvedEndpoint f → DestGroup f
  unfolding group_id
  dest_group j r = record {
    id = group_id j;
    candidates = map (node_of f) r.snaps;
    dest_lat = (or_origin (point r.geocode)).0;
    dest_lon = (or_origin (point r.geocode)).1;
  }

  -- the destinations with a snap
  unfoldable pub cacheable : List (ResolvedEndpoint f) → List NodeRef
  unfolding top1
  cacheable [] = []
  cacheable (r ∷ rs) = elim (top1 f r) [ none ↦ cacheable rs | some n ↦ n ∷ cacheable rs ]

  -- Both points are known, and they are more than the given kilometres apart.
  unfoldable pub is_far : ℕ → Option (R × R) → Option (R × R) → Bool
  unfolding haversine_meters
  is_far km none b = false
  is_far km (some a) none = false
  is_far km (some (lat1, lon1)) (some (lat2, lon2)) =
      lt (lit km) (div (haversine_meters f lat1 lon1 lat2 lon2) (lit 1000))

  -- The groups that the tiled search is asked for.
  unfoldable pub need_routing :
      ℕ → Option (R × R) → Legs f → ℕ → List (ResolvedEndpoint f) → List (DestGroup f)
  unfolding top1 lookup node_id_str dest_group is_far
  need_routing km origin cached j [] = []
  need_routing km origin cached j (r ∷ rs) =
      let rest = need_routing km origin cached (suc j) rs in
      elim (top1 f r) [
        | none ↦ rest
        | some t1 ↦
            if has_value (lookup (node_id_str t1) cached)
              || nat_beq (length (dest_group j r).candidates) 0
              || is_far km origin (point r.geocode)
            then rest
            else dest_group j r ∷ rest
      ]

  -- the first snap of the destination at an index
  unfoldable pub dest_top1 : List (ResolvedEndpoint f) → Option ℕ → Option NodeRef
  unfolding top1
  dest_top1 dsts none = none
  dest_top1 dsts (some j) = elim (get_elem? dsts j) [ none ↦ none | some r ↦ top1 f r ]

  -- `legsToCache` and `dstByKey`
  unfoldable pub legs_to_cache :
      List (ResolvedEndpoint f)
      → Legs f
      → List (DestGroup f)
      → Legs f
      → List (Text × NodeRef)
      → Legs f × List (Text × NodeRef)
  unfolding lookup insert index_of dest_top1 node_id_str
  legs_to_cache dsts computed [] legs nodes = (legs, nodes)
  legs_to_cache dsts computed (g ∷ gs) legs nodes = elim (lookup g.id computed) [
    | none ↦ legs_to_cache dsts computed gs legs nodes
    | some leg ↦ elim (dest_top1 dsts (index_of g.id)) [
      | none ↦ legs_to_cache dsts computed gs legs nodes
      | some t1 ↦
          legs_to_cache dsts computed gs (insert (node_id_str t1) leg legs)
            (insert (node_id_str t1) t1 nodes)
    ]
  ]

  -- The destinations that the overlay is asked for.
  unfoldable pub need_l1 :
      Legs f → Legs f → ℕ → List (ResolvedEndpoint f) → List (ℕ × Option (R × R))
  unfolding top1 lookup node_id_str group_id
  need_l1 cached computed j [] = []
  need_l1 cached computed j (r ∷ rs) =
      let rest = need_l1 cached computed (suc j) rs in
      elim (top1 f r) [
        | none ↦ rest
        | some t1 ↦
            if is_hit r.geocode
              && not (has_value (lookup (node_id_str t1) cached))
              && not (has_value (lookup (group_id j) computed))
            then (j, point r.geocode) ∷ rest
            else rest
      ]

  -- `l1Legs`; a null stands for an overlay that gave no leg
  unfoldable pub l1_legs :
      Option (R → R → R → R → Option (LegResult f))
      → Option (R × R)
      → List (ℕ × Option (R × R))
      → List (ℕ × Option (LegResult f))
  unfolding insert
  l1_legs none origin need = []
  l1_legs (some ask) origin [] = []
  l1_legs (some ask) origin ((j, dst) ∷ need) =
      let leg : Option (LegResult f) = do
        (src_lat, src_lon) ← origin
        (dst_lat, dst_lon) ← dst
        ask src_lat src_lon dst_lat dst_lon
      in (j, leg) ∷ l1_legs (some ask) origin need
