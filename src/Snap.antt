-- ===== src/Snap.antt =====
-- src/tiles.ts, snapInTile, snapK and snap: the nodes nearest to a point. The arrays of a tile have
-- the lengths that its header gives, so that no read is out of range; a read that was would give no
-- candidate here.
pub mod Best
pub mod Order
pub mod Chosen
use open_distance.Prelude.{
  ◌>>=◌, ℕ, zero, suc, ◌+◌, ◌*◌, ◌-◌, ◌≡◌, Bool, true, false, ◌&&◌, ◌||◌, not, Option, none, some,
  List, [], ◌∷◌, ◌++◌, if◌then◌else◌, nat_beq, leb, ltb, length, take, drop, get_elem?,
}
use open_distance.Prelude.Int.{ℤ, pos_part, neg_part, sub_ℕ, ◌+ℤ◌}
use open_distance.Float.{Float}
use open_distance.Geo.{haversine_meters}
use open_distance.Heap.{get_or}
use open_distance.Tiles.{Tile}

pub record Candidate (f : Float) : Type 0 where
  pub dense : ℕ
  pub dist_m : f.R

pub record SnapResult (f : Float) : Type 0 where
  pub tx : ℤ
  pub ty : ℤ
  pub dense : ℕ
  pub dist_m : f.R

-- the numbers from `a` on, `n` of them
abbrev pub count_from : ℕ → ℕ → List ℕ
count_from a zero = []
count_from a (suc n) = a ∷ count_from (suc a) n

abbrev pub at_most : ℕ → ℕ → ℕ
at_most a b = if leb a b then a else b

abbrev pub concat_map : {A B : Type 0} → (A → List B) → List A → List B
concat_map g [] = []
concat_map g (x ∷ xs) = g x ++ concat_map g xs

-- `Math.max(0, Math.min(n - 1, z))`
abbrev pub clamp : ℕ → ℤ → ℕ
clamp n z = at_most (n - 1) (pos_part z)

module _ (f : Float) where
  open f use {R, lit, add, sub, mul, div, cos, sqrt, lt, floor, pi}

  abbrev pub of_int : ℤ → R
  of_int z = sub (lit (pos_part z)) (lit (neg_part z))

  abbrev cell_deg : R
  cell_deg = div (lit 1) (lit 4)

  abbrev grid_origin_lon : R
  grid_origin_lon = sub (lit 0) (lit 180)

  abbrev grid_origin_lat : R
  grid_origin_lat = sub (lit 0) (lit 90)

  unfoldable pub tile_of : R → R → ℤ × ℤ
  tile_of lat lon = (
    floor (div (sub lon grid_origin_lon) cell_deg),
    floor (div (sub lat grid_origin_lat) cell_deg),
  )

  module _ (lat lon : R) where
    abbrev pub near : Tile f → ℕ → Option (Candidate f)
    near tile n = do
      n_lat ← get_elem? tile.local_lat n
      n_lon ← get_elem? tile.local_lon n
      some (record { dense = n; dist_m = haversine_meters f lat lon n_lat n_lon })

    -- the nodes of a list with their distances, in order
    unfoldable pub measure : Tile f → List ℕ → List (Candidate f)
    unfolding haversine_meters
    measure tile [] = []
    measure tile (n ∷ ns) =
        let rest = measure tile ns in elim (near tile n) [ none ↦ rest | some c ↦ c ∷ rest ]

    unfoldable pub cell_nodes : Tile f → ℕ → List (Candidate f)
    unfolding measure
    cell_nodes tile c = elim (get_elem? tile.grid_offsets c) [
      | none ↦ []
      | some s ↦ elim (get_elem? tile.grid_offsets (c + 1)) [
        | none ↦ []
        | some e ↦ measure tile (take (e - s) (drop s tile.grid_node_ids))
      ]
    ]

    -- The two inner loops of ring `r` around a cell. The bounds of `y` are `y_min` and `y_end - 1`.
    unfoldable pub ring : Tile f → ℕ → ℕ → ℕ → List (Candidate f)
    unfolding cell_nodes
    ring tile cy0 cx0 r =
        let y_min = cy0 - r in
        let y_end = at_most tile.grid_n_lat (cy0 + r + 1) in
        let x_min = cx0 - r in
        let x_end = at_most tile.grid_n_lon (cx0 + r + 1) in
        concat_map
          (λ y.
            concat_map
              (λ x.
                let inside =
                  ltb 0 r
                  && not (nat_beq y y_min)
                  && not (nat_beq (y + 1) y_end)
                  && not (nat_beq x x_min)
                  && not (nat_beq (x + 1) x_end) in
                if inside then [] else cell_nodes tile (y * tile.grid_n_lon + x))
              (count_from x_min (x_end - x_min)))
          (count_from y_min (y_end - y_min))

    -- `length > 0 && [0].distM < 200`
    abbrev pub has_near : List (Candidate f) → Bool
    has_near [] = false
    has_near (c ∷ cs) = lt c.dist_m (lit 200)

    -- Phase 1, with the number of rings that are left.
    unfoldable pub gather : Tile f → ℕ → ℕ → ℕ → ℕ → ℕ → List (Candidate f) → List (Candidate f)
    unfolding ring
    gather tile cy0 cx0 widen zero r all = all
    gather tile cy0 cx0 widen (suc left) r all =
        let all' = all ++ ring tile cy0 cx0 r in
        let rest = gather tile cy0 cx0 widen left (suc r) all' in
        if leb widen r && has_near all' then all' else rest

    -- the stable sort by distance
    unfoldable pub insert_by_dist : Candidate f → List (Candidate f) → List (Candidate f)
    insert_by_dist c [] = c ∷ []
    insert_by_dist c (d ∷ ds) =
        let rest = insert_by_dist c ds in if lt d.dist_m c.dist_m then d ∷ rest else c ∷ d ∷ ds

    unfoldable pub sort_by_dist : List (Candidate f) → List (Candidate f)
    unfolding insert_by_dist
    sort_by_dist [] = []
    sort_by_dist (c ∷ cs) = insert_by_dist c (sort_by_dist cs)

    abbrev square : R → R
    square x = mul x x

    -- closer than SNAP_MIN_SEP_M
    unfoldable pub is_close : Tile f → Candidate f → Candidate f → Bool
    is_close tile a b =
        let coord : List R → ℕ → R = λ xs n. get_or xs n (lit 0) in
        let dx = sub (coord tile.local_lat a.dense) (coord tile.local_lat b.dense) in
        let dy = sub (coord tile.local_lon a.dense) (coord tile.local_lon b.dense) in
        lt
          (sqrt (
            add (square (mul dx (lit 111000)))
              (square (mul (mul dy (lit 111000)) (cos (div (mul lat pi) (lit 180)))))))
          (lit 200)

    unfoldable pub too_close : Tile f → Candidate f → List (Candidate f) → Bool
    unfolding is_close
    too_close tile c [] = false
    too_close tile c (d ∷ ds) = is_close tile c d || too_close tile c ds

    -- Phase 2: `chosen` in the order of the choice.
    unfoldable pub choose :
        Tile f → ℕ → List (Candidate f) → List (Candidate f) → List (Candidate f)
    unfolding too_close
    choose tile k chosen [] = chosen
    choose tile k chosen (c ∷ cs) =
        let more = chosen ++ c ∷ [] in
        let skipped = choose tile k chosen cs in
        let taken = choose tile k more cs in
        if too_close tile c chosen then skipped else if leb k (length more) then more else taken

    unfoldable pub snap_in_tile : Tile f → ℕ → List (Candidate f)
    unfolding gather sort_by_dist choose
    snap_in_tile tile k =
        let tile_lon_min = add grid_origin_lon (mul (of_int tile.tx) cell_deg) in
        let tile_lat_min = add grid_origin_lat (mul (of_int tile.ty) cell_deg) in
        let cell = div cell_deg (lit tile.grid_n_lat) in
        let cy0 = clamp tile.grid_n_lat (floor (div (sub lat tile_lat_min) cell)) in
        let cx0 = clamp tile.grid_n_lon (floor (div (sub lon tile_lon_min) cell)) in
        let all = sort_by_dist (gather tile cy0 cx0 (if ltb 1 k then 6 else 2) 9 0 []) in
        let chosen = choose tile k [] all in
        if nat_beq tile.n_local 0
        then []
        else if nat_beq (length chosen) 0
        then take 1 all
        else chosen
