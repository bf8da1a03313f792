-- ===== src/Tiles/Missing.antt =====
-- A tile that was missing once.
use open_distance.Prelude.{
  ℕ, ◌≡◌, ◌≢◌, refl, none, some, nat_eq, nat_beq_iff, arith, inl, inr, Option-cases,
}
use open_distance.Prelude.Dict.{lookup, remove, lookup-insert, lookup-remove}
use open_distance.Float.{Float}
use open_distance.Tiles.Decode.{decode}
use open_distance.Tiles.Cache.{
  loading, missing, TileCache, null, Fetched, absent, failed, file, get_tile, tile_loaded,
  get_tile_bytes, bytes_loaded, Step, Steps, asked, bytes_asked, answered, bytes_answered, done,
  next, tile_size, tile_cache_byte_budget,
}
use open_distance.Tiles.Accounts.{touch_hit-absent, lru_touch-absent}

module _ (f : Float) (k : ℕ) where
  -- getTile holds a promise of null for the key, and no tile.
  pub record IsGone (s : TileCache f) : Type 0 where
    pub promise : lookup k s.pending ≡ some missing
    pub no_tile : lookup k s.cache.entries ≡ none

  get_tile-IsGone : (j : ℕ) (s : TileCache f) → IsGone s → IsGone (get_tile f j s).0
  unfolding get_tile
  get_tile-IsGone j s h = elim (Option-cases (lookup j s.cache.entries)) [
    | inr (hit, e) ↦
        rw (e, get_tile)
          (record {
            promise = h.promise;
            no_tile =
                touch_hit-absent (tile_size f) j k hit s.cache h.no_tile
                  (λ same. let gone : none ≡ some hit = rw (← same, h.no_tile) at e in cc);
          })
    | inl e ↦ elim (Option-cases (lookup j s.pending)) [
      | inr (p, e') ↦ rw (e, e', get_tile) h
      | inl e' ↦
          rw (e, e', get_tile)
            (record {
              promise =
                  ground (arith, lookup-insert j k loading s.pending, nat_beq_iff j k, h.promise);
              no_tile = h.no_tile;
            })
    ]
  ]

  tile_loaded-IsGone :
      (j : ℕ) (r : Fetched) (s : TileCache f)
      → lookup j s.pending ≡ some loading
      → IsGone s
      → IsGone (tile_loaded f j r s)
  unfolding tile_loaded
  tile_loaded-IsGone j absent s e h = record {
    promise = ground (arith, lookup-insert j k missing s.pending, h.promise);
    no_tile = h.no_tile;
  }
  tile_loaded-IsGone j failed s e h = record {
    promise = ground (arith, lookup-remove j k s.pending, nat_beq_iff j k, h.promise);
    no_tile = h.no_tile;
  }
  tile_loaded-IsGone j (file buf) s e h =
      let kept : lookup k (remove j s.pending) ≡ some missing =
        ground (arith, lookup-remove j k s.pending, nat_beq_iff j k, h.promise) in
      let apart : k ≢ j =
        λ same. let both : some missing ≡ some loading = rw (← same, h.promise) at e in cc in
      elim (Option-cases (decode f buf)) [
        | inl bad ↦ rw (bad, tile_loaded) (record { promise = kept; no_tile = h.no_tile })
        | inr (tile, good) ↦
            rw (good, tile_loaded)
              (record {
                promise = kept;
                no_tile =
                    lru_touch-absent (tile_size f) tile_cache_byte_budget j k tile s.cache h.no_tile
                      apart;
              })
      ]

  get_tile_bytes-IsGone : (j : ℕ) (s : TileCache f) → IsGone s → IsGone (get_tile_bytes f j s).0
  unfolding get_tile_bytes
  get_tile_bytes-IsGone j s h = elim (Option-cases (lookup j s.bytes_cache.entries)) [
    | inr (hit, e) ↦ rw (e, get_tile_bytes) (record { promise = h.promise; no_tile = h.no_tile })
    | inl e ↦ elim (Option-cases (lookup j s.bytes_pending)) [
      | inr (p, e') ↦ rw (e, e', get_tile_bytes) h
      | inl e' ↦ rw (e, e', get_tile_bytes) (record { promise = h.promise; no_tile = h.no_tile })
    ]
  ]

  bytes_loaded-IsGone :
      (j : ℕ) (r : Fetched) (s : TileCache f) → IsGone s → IsGone (bytes_loaded f j r s)
  unfolding bytes_loaded
  bytes_loaded-IsGone j absent s h = record { promise = h.promise; no_tile = h.no_tile }
  bytes_loaded-IsGone j failed s h = record { promise = h.promise; no_tile = h.no_tile }
  bytes_loaded-IsGone j (file buf) s h = record { promise = h.promise; no_tile = h.no_tile }

  Step-IsGone : {s s' : TileCache f} → Step f s s' → IsGone s → IsGone s'
  Step-IsGone {s} (asked j) h = get_tile-IsGone j s h
  Step-IsGone {s} (bytes_asked j) h = get_tile_bytes-IsGone j s h
  Step-IsGone {s} (answered j r e) h = tile_loaded-IsGone j r s e h
  Step-IsGone {s} (bytes_answered j r e) h = bytes_loaded-IsGone j r s h

  Steps-IsGone : {s s' : TileCache f} → Steps f s s' → IsGone s → IsGone s'
  Steps-IsGone done h = h
  Steps-IsGone (next before step) h = Step-IsGone step (Steps-IsGone before h)

  get_tile-null : (s : TileCache f) → IsGone s → (get_tile f k s).1 ≡ null
  unfolding get_tile
  get_tile-null s h = rw (h.no_tile, h.promise, get_tile) refl

-- Once the bucket has answered a load of getTile with no object, every later call for that tile
-- gives null, whatever happens in between: the bucket is never asked again.
pub Steps-null :
    (f : Float) (k : ℕ) (s s' : TileCache f)
    → lookup k s.cache.entries ≡ none
    → Steps f (tile_loaded f k absent s) s'
    → (get_tile f k s').1 ≡ null
unfolding tile_loaded
Steps-null f k s s' no_tile steps = get_tile-null f k s' (
    Steps-IsGone f k steps (record {
      promise = ground (arith, lookup-insert k k missing s.pending, nat_beq_iff k k);
      no_tile = no_tile;
    }))
