-- ===== src/Router/Legs.antt =====
-- What `oneToMany` returns.
use open_distance.Prelude.{
  ℕ, ◌≡◌, Bool, Option, none, some, List, [], nat_eq, nat_beq, inl, inr, Bool-cases, Option-cases,
  length, set,
}
use open_distance.Prelude.Dict.{lookup, insert, lookup-nil}
use open_distance.Prelude.Int.{ℤ}
use open_distance.Text.{Text, text_eq}
use open_distance.Float.{Float}
use open_distance.Tiles.{Tile, pack_tile_id}
use open_distance.Router.{
  NodeRef, LegResult, DestGroup, TileScratch, Targets, Search, start, loop, search_from,
  one_to_many, index_groups, count_groups,
}
use open_distance.Router.Paths.{Route, here, tile_at}
use open_distance.Router.Sound.{Inv, IsLeg, push-Inv, loaded_insert, reach_target-Inv}
use open_distance.Router.Rounds.{Loads, load_scratch-Loads, loop-Inv}
use open_distance.Router.TargetIndex.{first_group, target_at-index_groups}

module _ (f : Float) (get_tile : ℤ → ℤ → Option (Tile f)) (expired : ℕ → Bool)
    (groups : List (DestGroup f)) (targets : Targets) (max_settled : ℕ) (src : NodeRef) where
  pub start-Inv :
      (scratch : List (ℕ × TileScratch f)) (sc : TileScratch f)
      → ((k : ℕ) (c : TileScratch f)
          → lookup k scratch ≡ some c
          → tile_at f get_tile k ≡ some c.tile)
      → tile_at f get_tile (pack_tile_id src.tx src.ty) ≡ some sc.tile
      → Inv f get_tile expired groups targets max_settled src
          (start f get_tile expired groups targets max_settled src scratch sc)
  unfolding start
  start-Inv scratch sc old at =
      let tp = pack_tile_id src.tx src.ty in
      let source : TileScratch f = record sc {
        dist = set sc.dist src.dense (f.lit 0);
        len_to = set sc.len_to src.dense (f.lit 0);
      } in
      let s₀ : Search f = record {
        heap = [];
        scratch = insert tp source scratch;
        satisfied = [];
        out = [];
        remaining = count_groups f groups;
        settled = 0;
      } in
      let v₀ : Inv f get_tile expired groups targets max_settled src s₀ = record {
        held = tt;
        loaded =
            loaded_insert f get_tile expired groups targets max_settled src scratch tp source old
              at;
        legs = λ id leg e. cc (lookup-nil {V = LegResult f} id);
      } in
      let v₁ =
        reach_target-Inv f get_tile expired groups targets max_settled src tp src.dense (f.lit 0)
          (f.lit 0) s₀ here v₀ in
      push-Inv f get_tile expired groups targets max_settled src _ _ v₁ here

module _ (f : Float) (get_tile : ℤ → ℤ → Option (Tile f)) (expired : ℕ → Bool)
    (groups : List (DestGroup f)) (max_settled : ℕ) (src : NodeRef) where
  abbrev index : Targets
  index = index_groups f groups []

  search_from-IsLeg :
      (fuel : ℕ) (r : Option (List (ℕ × TileScratch f) × TileScratch f))
      → Loads f get_tile expired groups index max_settled src (pack_tile_id src.tx src.ty) r
      → (out : List (Text × LegResult f))
      → search_from f get_tile expired groups index max_settled fuel src r ≡ some out
      → (id : Text) (leg : LegResult f) → lookup id out ≡ some leg
      → IsLeg f get_tile expired groups index max_settled src id leg
  unfolding search_from
  search_from-IsLeg fuel none loads out h id leg found =
      let same : out ≡ [] = cc in
      let gone : lookup {V = LegResult f} id [] ≡ some leg = rw same at found in
      cc (lookup-nil {V = LegResult f} id)
  search_from-IsLeg fuel (some (scratch, sc)) loads out h id leg found =
      elim (Option-cases (
        loop f get_tile expired groups index max_settled fuel
          (start f get_tile expired groups index max_settled src scratch sc))) [
            | inl stuck ↦ let none_is : none ≡ some out = rw stuck at h in cc
            | inr (s, ends) ↦
                let v₀ =
                  start-Inv f get_tile expired groups index max_settled src scratch sc loads.0
                    loads.1 in
                let v = loop-Inv f get_tile expired groups index max_settled src fuel _ s v₀ ends in
                let same : some s.out ≡ some out = rw ends at h in
                let kept : s.out ≡ out = cc in v.legs id leg (rw kept found)
          ]

-- Every leg that the search returns for a group is the time and the length of a path, over tiles
-- that load, from the source to a node that is a candidate of the group and of no earlier one.
pub one_to_many-Route :
    (f : Float) (get_tile : ℤ → ℤ → Option (Tile f)) (expired : ℕ → Bool) (fuel max_settled : ℕ)
    (src : NodeRef) (groups : List (DestGroup f)) (out : List (Text × LegResult f)) (id : Text)
    (leg : LegResult f)
    → one_to_many f get_tile expired fuel max_settled src groups ≡ some out
    → lookup id out ≡ some leg
    → (tp : ℕ) × (dense : ℕ) × (first_group f tp dense groups ≡ some id)
      × Route f get_tile src tp dense leg.time_s leg.len_m
unfolding one_to_many
one_to_many-Route f get_tile expired fuel max_settled src groups out id leg h found =
    elim (Bool-cases (nat_beq (length groups) 0)) [
      | inl empty ↦
          let none_found : some [] ≡ some out = rw empty at h in
          let same : out ≡ [] = cc in
          let gone : lookup {V = LegResult f} id [] ≡ some leg = rw same at found in
          cc (lookup-nil {V = LegResult f} id)
      | inr some_group ↦
          let tp = pack_tile_id src.tx src.ty in
          let t = index_groups f groups [] in
          let loads =
            load_scratch-Loads f get_tile expired groups t max_settled src [] tp
              (λ k c e. cc (lookup-nil {V = TileScratch f} k)) in
          let h' = rw some_group at h in
          let (n, d, target, route) =
            search_from-IsLeg f get_tile expired groups max_settled src fuel _ loads out h' id leg
              found in
          (n, d, rw (← target_at-index_groups f groups n d) target, route)
    ]
