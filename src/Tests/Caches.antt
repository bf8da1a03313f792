-- ===== src/Tests/Caches.antt =====
-- The tile caches, the decoder and the snapping on small inputs.
use open_distance.Prelude.{
  ℕ, ◌+◌, ◌-◌, ◌≤◌, ◌≡◌, ◌≢◌, refl, ◌⊎◌, none, some, [], ◌∷◌, length, arith, nat_eq,
}
use open_distance.Prelude.Dict.{lookup, remove}
use open_distance.Tiles.Lru.{Lru, lru_touch, total}
use open_distance.Tiles.Accounts.{IsCovered, lru_touch_lem, bytes-lru_touch}
use open_distance.Tiles.Cache.{
  TileCache, absent, get_tile, get_tile_bytes, tile_loaded, empty, null, asked, bytes_asked, done,
  next,
}
use open_distance.Tiles.Missing.{Steps-null}
use open_distance.Tiles.Budgets.{IsBalanced, empty-Steps-IsBalanced}
use open_distance.Tiles.Decode.{decode}
use open_distance.Tiles.Layout.{RawTile, IsLaidOut, file_bytes, decode-file_bytes}
use open_distance.Tiles.Layout
use open_distance.Tests.Numbers.{whole}

-- entries that are their own sizes
abbrev itself : ℕ → ℕ
itself n = n

abbrev two_entries : Lru ℕ
two_entries = record { entries = (1, 10) ∷ (2, 20) ∷ []; bytes = 30 }

two_entries-IsCovered : IsCovered itself two_entries
unfolding lookup total
two_entries-IsCovered = record { unique = (refl, (refl, tt)); covered = omega arith }

abbrev touched : Lru ℕ
touched = lru_touch itself 45 1 25 two_entries

lru_touch_lem_example :
    IsCovered itself touched
    × ((touched.bytes ≤ 45) ⊎ (length touched.entries ≤ 1))
    × (lookup 1 touched.entries ≡ some 25)
    × ((j : ℕ) → j ≢ 1 → lookup j two_entries.entries ≡ none → lookup j touched.entries ≡ none)
lru_touch_lem_example = lru_touch_lem itself 45 1 25 two_entries two_entries-IsCovered

bytes-lru_touch_example :
    touched.bytes + total itself two_entries.entries
    ≡ total itself touched.entries
      + 30
      + (total itself two_entries.entries - total itself (remove 1 two_entries.entries))
bytes-lru_touch_example = bytes-lru_touch itself 45 1 25 two_entries two_entries-IsCovered

abbrev after_miss : TileCache whole
after_miss =
    (get_tile_bytes whole 5 (tile_loaded whole 5 absent (get_tile whole 5 (empty whole)).0)).0

Steps-null_example : (get_tile whole 5 after_miss).1 ≡ null
Steps-null_example =
    Steps-null whole 5 (get_tile whole 5 (empty whole)).0 after_miss
      (unfold get_tile lookup in refl) (next done (bytes_asked 5))

empty-Steps-IsBalanced_example :
    IsBalanced whole (get_tile_bytes whole 6 (get_tile whole 5 (empty whole)).0).0
empty-Steps-IsBalanced_example =
    empty-Steps-IsBalanced whole _ (next (next done (asked 5)) (bytes_asked 6))

abbrev raw : RawTile
raw = record {
  tx = 3;
  ty = 4;
  n_local = 1;
  n_extern = 1;
  m_edges = 1;
  grid_n_lon = 1;
  grid_n_lat = 1;
  local_lat = 70000 ∷ [];
  local_lon = 9 ∷ [];
  extern_packed = 65536 ∷ [];
  extern_dense = 2 ∷ [];
  edge_offsets = 0 ∷ 1 ∷ [];
  edge_targets = 1 ∷ [];
  edge_time_s = 5 ∷ [];
  edge_len_m = 6 ∷ [];
  grid_offsets = 0 ∷ 1 ∷ [];
  grid_node_ids = 0 ∷ [];
}

raw-IsLaidOut : IsLaidOut raw
raw-IsLaidOut = record {
  tx = omega arith;
  ty = omega arith;
  n_local = omega arith;
  n_extern = omega arith;
  m_edges = omega arith;
  grid_n_lon = omega arith;
  grid_n_lat = omega arith;
  local_lat = (refl, (omega arith, tt));
  local_lon = (refl, (omega arith, tt));
  extern_packed = (refl, (omega arith, tt));
  extern_dense = (refl, (omega arith, tt));
  edge_offsets = (refl, (omega arith, (omega arith, tt)));
  edge_targets = (refl, (omega arith, tt));
  edge_time_s = (refl, (omega arith, tt));
  edge_len_m = (refl, (omega arith, tt));
  grid_offsets = (refl, (omega arith, (omega arith, tt)));
  grid_node_ids = (refl, (omega arith, tt));
}

decode-file_bytes_example :
    decode whole (file_bytes 1 raw) ≡ some (Layout.tile_of whole (length (file_bytes 1 raw)) raw)
decode-file_bytes_example = decode-file_bytes whole 1 raw (omega arith) raw-IsLaidOut
