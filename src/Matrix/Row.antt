-- ===== src/Matrix/Row.antt =====
-- src/distancematrix.ts, handleDistanceMatrix: the elements of one origin, and the rows.
use open_distance.Prelude.{
  ◌>>=◌, ℕ, suc, Option, none, some, List, [], ◌∷◌, if◌then◌else◌, nat_beq, nat_eq, length,
}
use open_distance.Prelude.Dict.{lookup}
use open_distance.Prelude.Int.{ℤ}
use open_distance.Text.{text_eq}
use open_distance.Float.{Float}
use open_distance.Router.{NodeRef, LegResult, DestGroup, one_to_many}
use open_distance.Format.{Units, format_distance, format_duration}
use open_distance.Matrix.{
  Services, Element, routed, not_found, zero_results, ResolvedEndpoint, node_id_str, LegCache, Legs,
  load_leg_cache_batch, write_leg_cache_batch, top1,
}
use open_distance.Matrix.Groups.{
  max_km, router_cap, is_hit, point, group_id, cacheable, need_routing, legs_to_cache, need_l1,
  l1_legs,
}

module _ (f : Float) where
  open f use {R, lit, round, sub}

  abbrev pub known : Option (Option (LegResult f)) → Option (LegResult f)
  known none = none
  known (some leg) = leg

  abbrev pub or_leg : Option (LegResult f) → Option (LegResult f) → Option (LegResult f)
  or_leg (some leg) other = some leg
  or_leg none other = other

  -- the number of an integer
  abbrev of_int : ℤ → R
  of_int (ℤ.pos n) = lit n
  of_int (ℤ.negsuc n) = sub (lit 0) (lit (suc n))

  unfoldable pub element_of : Units → Option (LegResult f) → Element
  unfolding format_distance format_duration
  element_of units none = zero_results
  element_of units (some leg) =
      let meters = round leg.len_m in
      let seconds = round leg.time_s in
      routed meters seconds (format_distance f (of_int meters) units) (format_duration seconds)

  -- The leg of a destination: from the KV store, else from the tiled search, else from the overlay.
  unfoldable pub leg_for :
      Legs f → Legs f → List (ℕ × Option (LegResult f)) → ℕ → NodeRef → Option (LegResult f)
  unfolding lookup node_id_str group_id
  leg_for cached computed l1 j t1 =
      or_leg (lookup (node_id_str t1) cached)
        (or_leg (lookup (group_id j) computed) (known (lookup j l1)))

  unfoldable pub element_at :
      Units → Legs f → Legs f → List (ℕ × Option (LegResult f)) → ℕ → ResolvedEndpoint f → Element
  unfolding top1 element_of leg_for
  element_at units cached computed l1 j r = elim (top1 f r) [
    | none ↦ not_found
    | some t1 ↦
        if is_hit r.geocode then element_of units (leg_for cached computed l1 j t1) else not_found
  ]

  unfoldable pub elements_from :
      Units
      → Legs f
      → Legs f
      → List (ℕ × Option (LegResult f))
      → ℕ
      → List (ResolvedEndpoint f)
      → List Element
  unfolding element_at
  elements_from units cached computed l1 j [] = []
  elements_from units cached computed l1 j (r ∷ rs) =
      element_at units cached computed l1 j r ∷ elements_from units cached computed l1 (suc j) rs

  abbrev pub all_not_found : List (ResolvedEndpoint f) → List Element
  all_not_found [] = []
  all_not_found (r ∷ rs) = not_found ∷ all_not_found rs

  module _ (s : Services f) (fuel : ℕ) (units : Units) (dsts : List (ResolvedEndpoint f)) where
    -- Past the searches: the elements, from the legs of the three sources.
    unfoldable pub finish : Option (R × R) → Legs f → Legs f → List Element
    unfolding elements_from need_l1 l1_legs
    finish origin cached computed =
        let l1 = l1_legs f s.l1_route origin (need_l1 f cached computed 0 dsts) in
        elements_from units cached computed l1 0 dsts

    -- The tiled search for the groups that need it; `none` means that its fuel ran out.
    unfoldable pub compute : ℕ → NodeRef → List (DestGroup f) → Option (Legs f)
    unfolding one_to_many
    compute i src groups =
        if nat_beq (length groups) 0
        then some []
        else one_to_many f s.get_tile (s.expired i) fuel router_cap src groups

    -- the KV store with the legs that the search gave
    unfoldable pub store_legs : NodeRef → List (DestGroup f) → Legs f → LegCache f → LegCache f
    unfolding legs_to_cache write_leg_cache_batch
    store_legs src groups computed cache =
        let (legs, nodes) = legs_to_cache f dsts computed groups [] [] in
        write_leg_cache_batch f s.data_version src legs nodes cache

    -- what the KV store has for a source
    unfoldable pub cached_for : NodeRef → LegCache f → Legs f
    unfolding load_leg_cache_batch cacheable
    cached_for src cache = load_leg_cache_batch f s.data_version cache src (cacheable f dsts)

    unfoldable pub groups_for : Option (R × R) → Legs f → List (DestGroup f)
    unfolding need_routing max_km
    groups_for origin cached = need_routing f (max_km s.l0_max_km) origin cached 0 dsts

    -- one origin that has a road node
    unfoldable pub routed_row :
        ℕ → Option (R × R) → NodeRef → LegCache f → Option (LegCache f × List Element)
    unfolding cached_for groups_for compute store_legs finish
    routed_row i origin src cache =
        let cached = cached_for src cache in
        let groups = groups_for origin cached in
        do
          computed ← compute i src groups
          some (store_legs src groups computed cache, finish origin cached computed)

    -- one origin
    unfoldable pub row : ℕ → ResolvedEndpoint f → LegCache f → Option (LegCache f × List Element)
    unfolding top1 routed_row
    row i o cache = elim (top1 f o) [
      | none ↦ some (cache, all_not_found dsts)
      | some src ↦
          if is_hit o.geocode
          then routed_row i (point o.geocode) src cache
          else some (cache, all_not_found dsts)
    ]

    -- the rows of the origins from index `i` on
    unfoldable pub rows_from :
        ℕ → List (ResolvedEndpoint f) → LegCache f → Option (LegCache f × List (List Element))
    unfolding row
    rows_from i [] cache = some (cache, [])
    rows_from i (o ∷ os) cache = do
      (cache', elements) ← row i o cache
      (cache'', rest) ← rows_from (suc i) os cache'
      some (cache'', elements ∷ rest)
