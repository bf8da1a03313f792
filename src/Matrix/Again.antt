-- ===== src/Matrix/Again.antt =====
-- src/distancematrix.ts: a destination that was found from a source is not searched for again.
use open_distance.Prelude.{ℕ, ◌+◌, ◌≡◌, false, some, List, get_elem?}
use open_distance.Prelude.Dict.{lookup, has_value}
use open_distance.Text.{text_eq}
use open_distance.Float.{Float}
use open_distance.Router.{NodeRef, DestGroup}
use open_distance.Matrix.{ResolvedEndpoint, Legs, top1, node_id_str}
use open_distance.Matrix.Groups.{group_id}

module _ (f : Float) where
  -- A destination that the tiled search is asked for: it is placed, and its leg is not in the store.
  record IsNeeded (cached : Legs f) (j : ℕ) (rs : List (ResolvedEndpoint f)) (g : DestGroup f)
      : Type 0 where
    index : ℕ
    endpoint : ResolvedEndpoint f
    first_snap : NodeRef
    among : get_elem? rs index ≡ some endpoint
    named : g.id ≡ group_id (j + index)
    placed : top1 f endpoint ≡ some first_snap
    unknown : has_value (lookup (node_id_str first_snap) cached) ≡ false
