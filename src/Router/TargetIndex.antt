-- ===== src/Router/TargetIndex.antt =====
-- The target index of the search: every candidate node stands for the first group that has it.
use open_distance.Prelude.{
  ℕ, ◌≡◌, Bool, false, ◌&&◌, ◌||◌, Option, none, some, List, [], ◌∷◌, nat_eq, nat_beq, nat_beq_iff,
  inl, inr, Option-cases, arith, if◌then◌else◌,
}
use open_distance.Prelude.Dict.{lookup, insert, lookup-insert, has_value}
use open_distance.Text.{Text}
use open_distance.Float.{Float}
use open_distance.Tiles.{pack_tile_id}
use open_distance.Router.{
  NodeRef, DestGroup, Targets, inner_of, index_candidate, index_candidates, index_groups, target_at,
}

-- the node is among the candidates
unfoldable pub has_node : ℕ → ℕ → List NodeRef → Bool
has_node tp dense [] = false
has_node tp dense (d ∷ ds) =
    (nat_beq (pack_tile_id d.tx d.ty) tp && nat_beq d.dense dense) || has_node tp dense ds

-- the first group that has the node among its candidates
unfoldable pub first_group : (f : Float) → ℕ → ℕ → List (DestGroup f) → Option Text
unfolding has_node
first_group f tp dense [] = none
first_group f tp dense (g ∷ gs) =
    if has_node tp dense g.candidates then some g.id else first_group f tp dense gs

abbrev or_else : Option Text → Option Text → Option Text
or_else (some id) other = some id
or_else none other = other

abbrev find_in : Option (List (ℕ × Text)) → ℕ → Option Text
find_in none dense = none
find_in (some inner) dense = lookup dense inner

target_at-find_in :
    (t : Targets) (tp dense : ℕ) → target_at t tp dense ≡ find_in (lookup tp t) dense
unfolding target_at
target_at-find_in t tp dense = elim (Option-cases (lookup tp t)) [
  | inl e ↦ rw (e, target_at)
  | inr (inner, e) ↦ rw (e, target_at)
]

inner_of-lookup : (t : Targets) (tp dense : ℕ) → lookup dense (inner_of tp t) ≡ target_at t tp dense
unfolding target_at lookup
inner_of-lookup t tp dense = elim (Option-cases (lookup tp t)) [
  | inl e ↦ rw (e, target_at, inner_of)
  | inr (inner, e) ↦ rw (e, target_at, inner_of)
]

target_at-index_candidate :
    (id : Text) (d : NodeRef) (t : Targets) (tp dense : ℕ)
    → target_at (index_candidate id d t) tp dense ≡ (
        if nat_beq (pack_tile_id d.tx d.ty) tp && nat_beq d.dense dense
        then or_else (target_at t tp dense) (some id)
        else target_at t tp dense)
unfolding index_candidate
target_at-index_candidate id d t tp dense =
    let p = pack_tile_id d.tx d.ty in
    let inner = inner_of p t in
    let inner' = if has_value (lookup d.dense inner) then inner else insert d.dense id inner in
    let found = inner_of-lookup t p dense in
    let found' = inner_of-lookup t p d.dense in
    rw (target_at-find_in (insert p inner' t) tp dense, lookup-insert p tp inner' t)
      (ground (
        arith,
        found,
        found',
        nat_beq_iff p tp,
        nat_beq_iff d.dense dense,
        lookup-insert d.dense dense id inner,
        target_at-find_in t tp dense,
      ))

target_at-index_candidates :
    (id : Text) (ds : List NodeRef) (t : Targets) (tp dense : ℕ)
    → target_at (index_candidates id ds t) tp dense
      ≡ or_else (target_at t tp dense) (if has_node tp dense ds then some id else none)
unfolding index_candidates has_node
target_at-index_candidates id [] t tp dense = ground arith
target_at-index_candidates id (d ∷ ds) t tp dense = ground (
  arith,
  target_at-index_candidates id ds (index_candidate id d t) tp dense,
  target_at-index_candidate id d t tp dense,
)

target_at-index_groups_from :
    (f : Float) (gs : List (DestGroup f)) (t : Targets) (tp dense : ℕ)
    → target_at (index_groups f gs t) tp dense
      ≡ or_else (target_at t tp dense) (first_group f tp dense gs)
unfolding index_groups first_group
target_at-index_groups_from f [] t tp dense = ground arith
target_at-index_groups_from f (g ∷ gs) t tp dense = ground (
  arith,
  target_at-index_groups_from f gs (index_candidates g.id g.candidates t) tp dense,
  target_at-index_candidates g.id g.candidates t tp dense,
)

-- The index built from the groups gives each node to the first group that has it.
pub target_at-index_groups :
    (f : Float) (gs : List (DestGroup f)) (tp dense : ℕ)
    → target_at (index_groups f gs []) tp dense ≡ first_group f tp dense gs
unfolding target_at lookup
target_at-index_groups f gs tp dense = target_at-index_groups_from f gs [] tp dense
