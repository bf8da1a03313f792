-- ===== src/Matrix.antt =====
-- src/distancematrix.ts: the endpoint's data, its endpoints' resolution, and the cache of legs.
-- `Services` is what a request finds: the geocoder, the snapping, the tile loader, the object of the
-- overlay (`none` when it is not bound; the answer `none` is one without a leg, or a throw), the
-- clock against the deadline in the search of an origin, and two variables of the environment. It is
-- what a request finds on which no call is rejected: the handler has no `catch` for a failed read of
-- the buckets and the stores or for a tile that does not decode, and such a request rejects.
pub mod Groups
pub mod Row
pub mod Handler
pub mod Wasm
pub mod Keys
pub mod Shape
pub mod Answers
pub mod Stored
pub mod Searched
pub mod Sources
pub mod Sound
pub mod Legs
pub mod Answered
pub mod Policy
pub mod Statuses
pub mod Reloaded
pub mod Again
pub mod Wired
use open_distance.Prelude.{
  ℕ, zero, suc, ◌/◌, Bool, true, false, ◌&&◌, Option, none, some, List, [], ◌∷◌, ◌++◌, map, ltb,
  leb, if◌then◌else◌, nat_beq, length,
}
use open_distance.Prelude.Dict.{lookup, insert}
use open_distance.Prelude.Int.{ℤ}
use open_distance.Text.{Text, text_eq, codes}
use open_distance.Float.{Float}
use open_distance.Tiles.{Tile}
use open_distance.Router.{NodeRef, LegResult}
use open_distance.Snap.{SnapResult}
use open_distance.Geocode.{GeocodeResult, GeocodeHit, hit, miss}
use open_distance.Decimal.{show_nat, show_int}

pub record Services (f : Float) : Type 0 where
  pub geocode : Text → GeocodeResult f
  pub snap_k : f.R → f.R → ℕ → List (SnapResult f)
  pub get_tile : ℤ → ℤ → Option (Tile f)
  pub expired : ℕ → ℕ → Bool
  pub l1_route : Option (f.R → f.R → f.R → f.R → Option (LegResult f))
  pub data_version : Text
  pub l0_max_km : Option Text

-- An element, by its status: OK with its distance and its duration, NOT_FOUND, or ZERO_RESULTS.
pub data Element : Type 0 where
  routed : (meters seconds : ℤ) (distance_text duration_text : Text) → Element
  not_found zero_results : Element

abbrev pub is_ok : Element → Bool
is_ok (routed meters seconds d t) = true
is_ok not_found = false
is_ok zero_results = false

abbrev pub every_ok : List Element → Bool
every_ok [] = true
every_ok (e ∷ es) = is_ok e && every_ok es

-- one row
abbrev pub row_ok : List Element → Bool
row_ok [] = false
row_ok (e ∷ es) = every_ok (e ∷ es)

abbrev pub rows_ok : List (List Element) → Bool
rows_ok [] = true
rows_ok (r ∷ rs) = row_ok r && rows_ok rs

unfoldable pub cache_policy_for : List (List Element) → Text
cache_policy_for [] = codes "no-store"
cache_policy_for (r ∷ rs) =
    if rows_ok (r ∷ rs) then codes "public, max-age=3600, s-maxage=3600" else codes "no-store"

pub record ResolvedEndpoint (f : Float) : Type 0 where
  pub geocode : GeocodeResult f
  pub snaps : List (SnapResult f)

abbrev pub snap_count : ℕ
snap_count = 5

unfoldable pub resolve : (f : Float) → Services f → Text → ResolvedEndpoint f
resolve f s q = elim (s.geocode q) [
  | miss n ↦ record { geocode = miss n; snaps = [] }
  | hit g ↦ record { geocode = hit g; snaps = s.snap_k g.lat g.lon snap_count }
]

unfoldable pub resolve_all : (f : Float) → Services f → List Text → List (ResolvedEndpoint f)
unfolding resolve
resolve_all f s qs = map (resolve f s) qs

-- `tx,ty,dense`
unfoldable pub node_id_str : NodeRef → Text
unfolding show_int show_nat
node_id_str n = show_int n.tx ++ (44 ∷ (show_int n.ty ++ (44 ∷ show_nat n.dense)))

unfoldable pub leg_cache_key : Text → NodeRef → NodeRef → Text
unfolding node_id_str
leg_cache_key version src dst =
    codes "leg2:"
    ++ (version ++ (58 ∷ (node_id_str src ++ (58 ∷ (node_id_str dst ++ codes ":driving")))))

-- the legs of the KV store
abbrev pub LegCache : Float → Type 0
LegCache f = List (Text × LegResult f)

abbrev pub Legs : Float → Type 0
Legs f = List (Text × LegResult f)

abbrev put_found : (f : Float) → Text → Option (LegResult f) → Legs f → Legs f
unfolding insert
put_found f key none legs = legs
put_found f key (some leg) legs = insert key leg legs

unfoldable pub load_leg_cache_batch :
    (f : Float) → Text → LegCache f → NodeRef → List NodeRef → Legs f
unfolding lookup insert leg_cache_key node_id_str
load_leg_cache_batch f version cache src [] = []
load_leg_cache_batch f version cache src (d ∷ ds) =
    put_found f (node_id_str d) (lookup (leg_cache_key version src d) cache)
      (load_leg_cache_batch f version cache src ds)

unfoldable pub write_leg_cache_batch :
    (f : Float) → Text → NodeRef → Legs f → List (Text × NodeRef) → LegCache f → LegCache f
unfolding lookup insert leg_cache_key
write_leg_cache_batch f version src [] dst_by_key cache = cache
write_leg_cache_batch f version src ((k, v) ∷ legs) dst_by_key cache =
    write_leg_cache_batch f version src legs dst_by_key (elim (lookup k dst_by_key) [
      | none ↦ cache
      | some d ↦ insert (leg_cache_key version src d) v cache
    ])

abbrev pub node_of : (f : Float) → SnapResult f → NodeRef
node_of f s = record { tx = s.tx; ty = s.ty; dense = s.dense }

-- an endpoint's first snap
unfoldable pub top1 : (f : Float) → ResolvedEndpoint f → Option NodeRef
top1 f r = elim r.snaps [ [] ↦ none | s ∷ ss ↦ some (node_of f s) ]
