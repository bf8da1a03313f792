-- ===== src/Tiles/Ids.antt =====
-- Packing and unpacking tile ids.
use open_distance.Prelude.{ℕ, ◌^◌, ◌≤◌, ◌<◌, ◌≡◌, arith}
use open_distance.Prelude.Int.{ℤ, pos_part, neg_part}
use open_distance.Tiles.{pack_tile_id, unpack_tile_id}

-- a coordinate that fits a 16-bit half
abbrev pub FitsHalf : ℤ → Type 0
FitsHalf x = (pos_part x < 0x8000) × (neg_part x ≤ 0x8000)

-- Coordinates that fit 16 signed bits come back from their packed id.
pub unpack-pack :
    (tx ty : ℤ) → FitsHalf tx → FitsHalf ty → unpack_tile_id (pack_tile_id tx ty) ≡ (tx, ty)
unfolding pack_tile_id unpack_tile_id
unpack-pack (ℤ.pos x) (ℤ.pos y) hx hy = ground arith
unpack-pack (ℤ.pos x) (ℤ.negsuc y) hx hy = ground arith
unpack-pack (ℤ.negsuc x) (ℤ.pos y) hx hy = ground arith
unpack-pack (ℤ.negsuc x) (ℤ.negsuc y) hx hy = ground arith

-- An unsigned 32-bit id comes back from its coordinates.
pub pack-unpack : (p : ℕ) → p < 2 ^ 32 → pack_tile_id (unpack_tile_id p).0 (unpack_tile_id p).1 ≡ p
unfolding pack_tile_id unpack_tile_id
pack-unpack p h = ground arith
