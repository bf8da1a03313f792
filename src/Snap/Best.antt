-- ===== src/Snap/Best.antt =====
-- src/tiles.ts, snapK: the nearest matches of the tiles around a point.
use open_distance.Prelude.{
  ℕ, zero, suc, ◌+◌, Bool, true, false, ◌&&◌, Option, none, some, List, [], ◌∷◌, if◌then◌else◌, leb,
  ltb, length, take, get_elem?,
}
use open_distance.Prelude.Int.{ℤ, sub_ℕ, ◌+ℤ◌}
use open_distance.Float.{Float}
use open_distance.Tiles.{Tile}
use open_distance.Snap.{Candidate, SnapResult, tile_of, snap_in_tile, count_from, concat_map}

module _ (f : Float) where
  open f use {R, lit, lt}

  -- every entry is farther than the new one
  abbrev pub all_farther : SnapResult f → List (SnapResult f) → Bool
  all_farther r [] = true
  all_farther r (x ∷ xs) = lt r.dist_m x.dist_m && all_farther r xs

  -- `pos` is the start of the longest end of the list whose entries are all farther.
  unfoldable pub insert_sorted : SnapResult f → List (SnapResult f) → List (SnapResult f)
  insert_sorted r [] = r ∷ []
  insert_sorted r (x ∷ xs) =
      let rest = insert_sorted r xs in if all_farther r (x ∷ xs) then r ∷ x ∷ xs else x ∷ rest

  unfoldable pub keep_matches :
      ℕ → Tile f → List (Candidate f) → List (SnapResult f) → List (SnapResult f)
  unfolding insert_sorted
  keep_matches k tile [] found = found
  keep_matches k tile (m ∷ ms) found =
      let r : SnapResult f = record {
        tx = tile.tx;
        ty = tile.ty;
        dense = m.dense;
        dist_m = m.dist_m;
      } in
      keep_matches k tile ms (take k (insert_sorted r found))

  module _ (get_tile : ℤ → ℤ → Option (Tile f)) (lat lon : R) (k : ℕ) where
    -- one tile of a ring
    unfoldable pub visit_tile : ℤ × ℤ → List (SnapResult f) → List (SnapResult f)
    unfolding keep_matches snap_in_tile
    visit_tile at found = elim (get_tile at.0 at.1) [
      | none ↦ found
      | some tile ↦ keep_matches k tile (snap_in_tile f lat lon tile k) found
    ]

    unfoldable pub visit_tiles : List (ℤ × ℤ) → List (SnapResult f) → List (SnapResult f)
    unfolding visit_tile
    visit_tiles [] found = found
    visit_tiles (at ∷ rest) found = visit_tiles rest (visit_tile at found)

    -- The tiles of ring `r`: `i` and `j` are `dx + r` and `dy + r`.
    unfoldable pub ring_tiles : ℤ × ℤ → ℕ → List (ℤ × ℤ)
    unfolding ◌+ℤ◌
    ring_tiles home r =
        concat_map
          (λ i.
            concat_map
              (λ j.
                let inside = ltb 0 r && ltb 0 i && ltb i (r + r) && ltb 0 j && ltb j (r + r) in
                if inside then [] else (home.0 +ℤ sub_ℕ i r, home.1 +ℤ sub_ℕ j r) ∷ [])
              (count_from 0 (r + r + 1)))
          (count_from 0 (r + r + 1))

    -- `found.length >= k && found[0].distM < 200`, for a positive `k`
    abbrev pub is_enough : List (SnapResult f) → Bool
    is_enough [] = false
    is_enough (x ∷ xs) = leb k (length (x ∷ xs)) && lt x.dist_m (lit 200)

    -- the rings that are left
    unfoldable pub widen : ℤ × ℤ → ℕ → ℕ → List (SnapResult f) → List (SnapResult f)
    unfolding visit_tiles ring_tiles
    widen home zero r found = found
    widen home (suc left) r found =
        let found' = visit_tiles (ring_tiles home r) found in
        let rest = widen home left (suc r) found' in if is_enough found' then found' else rest

    unfoldable pub snap_k : List (SnapResult f)
    unfolding widen tile_of
    snap_k = widen (tile_of f lat lon) 3 0 []

  -- the nearest one
  unfoldable pub snap : (ℤ → ℤ → Option (Tile f)) → R → R → Option (SnapResult f)
  unfolding snap_k
  snap get_tile lat lon = get_elem? (snap_k get_tile lat lon 1) 0
