-- ===== src/Snap/Chosen.antt =====
-- What snapK keeps of the matches that it sees.
use open_distance.Prelude.{
  ℕ, zero, suc, ◌≤◌, ◌≡◌, Option, none, some, List, [], ◌∷◌, ◌++◌, take, true, map, length,
}
use open_distance.Prelude.Int.{ℤ, ◌+ℤ◌}
use open_distance.Float.{Float, IsOrdered}
use open_distance.Tiles.{Tile}
use open_distance.Snap.{SnapResult, snap_in_tile, tile_of}
use open_distance.Snap.Best.{widen}
use open_distance.Snap.Order.{insert_all, results_of}

-- the tile at an offset from another
abbrev pub moved : ℤ × ℤ → ℤ × ℤ → ℤ × ℤ
moved home at = (home.0 +ℤ at.0, home.1 +ℤ at.1)

abbrev column : ℤ → List ℤ → List (ℤ × ℤ)
column x ys = map (λ y. (x, y)) ys

abbrev minus_two : ℤ
minus_two = ℤ.negsuc 1

abbrev minus_one : ℤ
minus_one = ℤ.negsuc 0

abbrev two_below_to_above : List ℤ
two_below_to_above = minus_two ∷ minus_one ∷ ℤ.pos 0 ∷ ℤ.pos 1 ∷ ℤ.pos 2 ∷ []

abbrev ends : List ℤ
ends = minus_two ∷ ℤ.pos 2 ∷ []

-- The offsets of the three rings: the tile itself, the eight around it, and the sixteen around those.
abbrev pub ring : ℕ → List (ℤ × ℤ)
ring zero = (ℤ.pos 0, ℤ.pos 0) ∷ []
ring (suc zero) =
    column minus_one (minus_one ∷ ℤ.pos 0 ∷ ℤ.pos 1 ∷ [])
    ++ column (ℤ.pos 0) (minus_one ∷ ℤ.pos 1 ∷ [])
    ++ column (ℤ.pos 1) (minus_one ∷ ℤ.pos 0 ∷ ℤ.pos 1 ∷ [])
ring (suc (suc zero)) =
    column minus_two two_below_to_above
    ++ column minus_one ends
    ++ column (ℤ.pos 0) ends
    ++ column (ℤ.pos 1) ends
    ++ column (ℤ.pos 2) two_below_to_above
ring (suc (suc (suc n))) = []

module _ (f : Float) where
  module _ (get_tile : ℤ → ℤ → Option (Tile f)) (lat lon : f.R) (k : ℕ) where
    -- the matches of one tile, and of the tiles of a list
    unfoldable pub matches_at : ℤ × ℤ → List (SnapResult f)
    unfolding results_of
    matches_at at = elim (get_tile at.0 at.1) [
      | none ↦ []
      | some tile ↦ results_of f tile (snap_in_tile f lat lon tile k)
    ]

    unfoldable pub matches : List (ℤ × ℤ) → List (SnapResult f)
    unfolding matches_at
    matches [] = []
    matches (at ∷ rest) = matches_at at ++ matches rest

    -- all the matches of the first `n` rings, in order of distance
    unfoldable pub all_in : ℕ → List (SnapResult f)
    unfolding matches insert_all
    all_in zero = []
    all_in (suc n) = insert_all f (matches (map (moved (tile_of f lat lon)) (ring n))) (all_in n)

    -- the nearest `k` of them
    abbrev pub nearest_in : ℕ → List (SnapResult f)
    nearest_in n = take k (all_in n)

    -- as many as were asked for, the nearest within 200 m
    abbrev pub IsNear : List (SnapResult f) → Type 0
    IsNear [] = ⊥
    IsNear (x ∷ xs) = (k ≤ length (x ∷ xs)) × (f.lt x.dist_m (f.lit 200) ≡ true)

    module _ (laws : IsOrdered f) where
      abbrev widen_from : ℕ → ℕ → List (SnapResult f)
      widen_from left n = widen f get_tile lat lon k (tile_of f lat lon) left n (nearest_in n)
