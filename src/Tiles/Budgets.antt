-- ===== src/Tiles/Budgets.antt =====
-- The byte counts of the two caches over the life of an isolate.
use open_distance.Prelude.{
  ℕ, ◌+◌, ◌≤◌, ◌≡◌, ◌≢◌, refl, none, some, List, [], ◌∷◌, ◌++◌, length, length-append, nat_eq,
  nat_beq_iff, arith, ◌⊎◌, inl, inr, Option-cases,
}
use open_distance.Prelude.Dict.{lookup, remove, lookup-insert, lookup-remove}
use open_distance.Float.{Float}
use open_distance.Tiles.Decode.{decode}
use open_distance.Tiles.Lru.{Lru, touch_hit, total, remove-absent}
use open_distance.Tiles.Cache.{
  Promise, loading, missing, TileCache, Fetched, absent, failed, file, get_tile, tile_loaded,
  get_tile_bytes, empty, bytes_loaded, Step, Steps, asked, bytes_asked, answered, bytes_answered,
  done, next, tile_size, tile_cache_byte_budget, bytes_cache_byte_budget,
}
use open_distance.Tiles.Accounts.{
  IsUnique, IsUnique-append, IsUnique-remove, IsCovered, total-remove, touched_total,
  lookup-removed, lru_touch_lem, bytes-lru_touch, touch_hit-absent,
}

module _ {V : Type 0} where
  length-remove :
      (size : V → ℕ) (k : ℕ) (v : V) (es : List (ℕ × V))
      → IsUnique size es
      → lookup k es ≡ some v
      → length (remove k es) + 1 ≡ length es
  unfolding lookup remove
  length-remove size k v [] u h = absurd (ground arith)
  length-remove size k v ((i, w) ∷ es) u h =
      ground (arith, length-remove size k v es u.1, remove-absent size k es, nat_beq_iff i k)

  -- a cache that is within its budget as far as eviction brings it
  abbrev pub IsWithin : ℕ → Lru V → Type 0
  IsWithin budget c = (c.bytes ≤ budget) ⊎ (length c.entries ≤ 1)

  -- What a hit keeps.
  touch_hit_lem :
      (size : V → ℕ) (budget k : ℕ) (v : V) (c : Lru V)
      → IsCovered size c
      → IsWithin budget c
      → lookup k c.entries ≡ some v
      → IsCovered size (touch_hit k v c)
        × IsWithin budget (touch_hit k v c)
        × (total size (touch_hit k v c).entries ≡ total size c.entries)
  unfolding touch_hit
  touch_hit_lem size budget k v c h within e =
      let same : total size (remove k c.entries ++ (k, v) ∷ []) ≡ total size c.entries =
        omega
          (arith, touched_total size k v c.entries, total-remove size k v c.entries h.unique e) in
      let long : length (remove k c.entries ++ (k, v) ∷ []) ≡ length c.entries = omega (
        arith,
        length-append (remove k c.entries) ((k, v) ∷ []),
        length-remove size k v c.entries h.unique e,
      ) in
      (
        record {
          unique =
              IsUnique-append size k v (remove k c.entries)
                (IsUnique-remove size k c.entries h.unique) (lookup-removed size k c.entries);
          covered = omega (arith, same, h.covered);
        },
        rw long within,
        same,
      )

module _ (f : Float) where
  -- Both counts cover their entries and are within their budgets as far as eviction brings them;
  -- the count of the decoded tiles is exact, and no tile that is being loaded is there.
  pub record IsBalanced (s : TileCache f) : Type 0 where
    pub tiles : IsCovered (tile_size f) s.cache
    pub exact : s.cache.bytes ≡ total (tile_size f) s.cache.entries
    pub tiles_within : IsWithin tile_cache_byte_budget s.cache
    pub files : IsCovered length s.bytes_cache
    pub files_within : IsWithin bytes_cache_byte_budget s.bytes_cache
    pub out : (j : ℕ) → lookup j s.pending ≡ some loading → lookup j s.cache.entries ≡ none

  empty-IsBalanced : IsBalanced (empty f)
  unfolding total lookup
  empty-IsBalanced = record {
    tiles = record { unique = tt; covered = omega arith };
    exact = refl;
    tiles_within = inl (omega arith);
    files = record { unique = tt; covered = omega arith };
    files_within = inl (omega arith);
    out = λ j e. refl;
  }

  get_tile-IsBalanced : (j : ℕ) (s : TileCache f) → IsBalanced s → IsBalanced (get_tile f j s).0
  unfolding get_tile
  get_tile-IsBalanced j s h = elim (Option-cases (lookup j s.cache.entries)) [
    | inr (hit, e) ↦
        let (covered, within, same) =
          touch_hit_lem (tile_size f) tile_cache_byte_budget j hit s.cache h.tiles h.tiles_within
            e in
        rw (e, get_tile)
          (record {
            tiles = covered;
            exact = unfold touch_hit in omega (arith, same, h.exact);
            tiles_within = within;
            files = h.files;
            files_within = h.files_within;
            out = λ i waiting.
                touch_hit-absent (tile_size f) j i hit s.cache (h.out i waiting)
                  (λ eq. let gone : none ≡ some hit = rw (← eq, h.out i waiting) at e in cc);
          })
    | inl e ↦ elim (Option-cases (lookup j s.pending)) [
      | inr (p, e') ↦ rw (e, e', get_tile) h
      | inl e' ↦
          rw (e, e', get_tile)
            (record {
              tiles = h.tiles;
              exact = h.exact;
              tiles_within = h.tiles_within;
              files = h.files;
              files_within = h.files_within;
              out = λ i waiting.
                  ground (arith, lookup-insert j i loading s.pending, nat_beq_iff j i, h.out i);
            })
    ]
  ]

  tile_loaded-IsBalanced :
      (j : ℕ) (r : Fetched) (s : TileCache f)
      → lookup j s.pending ≡ some loading
      → IsBalanced s
      → IsBalanced (tile_loaded f j r s)
  unfolding tile_loaded
  tile_loaded-IsBalanced j absent s e h = record {
    tiles = h.tiles;
    exact = h.exact;
    tiles_within = h.tiles_within;
    files = h.files;
    files_within = h.files_within;
    out =
        λ i waiting. ground (arith, lookup-insert j i missing s.pending, nat_beq_iff j i, h.out i);
  }
  tile_loaded-IsBalanced j failed s e h = record {
    tiles = h.tiles;
    exact = h.exact;
    tiles_within = h.tiles_within;
    files = h.files;
    files_within = h.files_within;
    out = λ i waiting. ground (arith, lookup-remove j i s.pending, h.out i);
  }
  tile_loaded-IsBalanced j (file buf) s e h =
      let (covered, within, there, others) =
        lru_touch_lem length bytes_cache_byte_budget j buf s.bytes_cache h.files in
      elim (Option-cases (decode f buf)) [
        | inl bad ↦
            rw (bad, tile_loaded)
              (record {
                tiles = h.tiles;
                exact = h.exact;
                tiles_within = h.tiles_within;
                files = covered;
                files_within = within;
                out = λ i waiting. ground (arith, lookup-remove j i s.pending, h.out i);
              })
        | inr (tile, good) ↦
            let (covered', within', there', others') =
              lru_touch_lem (tile_size f) tile_cache_byte_budget j tile s.cache h.tiles in
            rw (good, tile_loaded)
              (record {
                tiles = covered';
                exact = ground (
                  arith,
                  bytes-lru_touch (tile_size f) tile_cache_byte_budget j tile s.cache h.tiles,
                  remove-absent (tile_size f) j s.cache.entries (h.out j e),
                  h.exact,
                );
                tiles_within = within';
                files = covered;
                files_within = within;
                out = λ i waiting.
                    let kept : (lookup i s.pending ≡ some loading) × (i ≢ j) =
                      ground (arith, lookup-remove j i s.pending, nat_beq_iff j i) in
                    others' i kept.1 (h.out i kept.0);
              })
      ]

  get_tile_bytes-IsBalanced :
      (j : ℕ) (s : TileCache f) → IsBalanced s → IsBalanced (get_tile_bytes f j s).0
  unfolding get_tile_bytes
  get_tile_bytes-IsBalanced j s h = elim (Option-cases (lookup j s.bytes_cache.entries)) [
    | inr (hit, e) ↦
        let (covered, within, same) =
          touch_hit_lem length bytes_cache_byte_budget j hit s.bytes_cache h.files h.files_within
            e in
        rw (e, get_tile_bytes)
          (record {
            tiles = h.tiles;
            exact = h.exact;
            tiles_within = h.tiles_within;
            files = covered;
            files_within = within;
            out = h.out;
          })
    | inl e ↦ elim (Option-cases (lookup j s.bytes_pending)) [
      | inr (p, e') ↦ rw (e, e', get_tile_bytes) h
      | inl e' ↦
          rw (e, e', get_tile_bytes)
            (record {
              tiles = h.tiles;
              exact = h.exact;
              tiles_within = h.tiles_within;
              files = h.files;
              files_within = h.files_within;
              out = h.out;
            })
    ]
  ]

  -- the state with other files and file loads
  with_files :
      (s : TileCache f) (files : Lru (List ℕ)) (loads : List (ℕ × Promise))
      → IsBalanced s
      → IsCovered length files
      → IsWithin bytes_cache_byte_budget files
      → IsBalanced (record s { bytes_cache = files; bytes_pending = loads })
  with_files s files loads h covered within = record {
    tiles = h.tiles;
    exact = h.exact;
    tiles_within = h.tiles_within;
    files = covered;
    files_within = within;
    out = h.out;
  }

  bytes_loaded-IsBalanced :
      (j : ℕ) (r : Fetched) (s : TileCache f) → IsBalanced s → IsBalanced (bytes_loaded f j r s)
  unfolding bytes_loaded
  bytes_loaded-IsBalanced j absent s h = with_files s s.bytes_cache _ h h.files h.files_within
  bytes_loaded-IsBalanced j failed s h = with_files s s.bytes_cache _ h h.files h.files_within
  bytes_loaded-IsBalanced j (file buf) s h =
      let (covered, within, there, others) =
        lru_touch_lem length bytes_cache_byte_budget j buf s.bytes_cache h.files in
      with_files s _ _ h covered within

  Step-IsBalanced : {s s' : TileCache f} → Step f s s' → IsBalanced s → IsBalanced s'
  Step-IsBalanced {s} (asked j) h = get_tile-IsBalanced j s h
  Step-IsBalanced {s} (bytes_asked j) h = get_tile_bytes-IsBalanced j s h
  Step-IsBalanced {s} (answered j r e) h = tile_loaded-IsBalanced j r s e h
  Step-IsBalanced {s} (bytes_answered j r e) h = bytes_loaded-IsBalanced j r s h

  Steps-IsBalanced : {s s' : TileCache f} → Steps f s s' → IsBalanced s → IsBalanced s'
  Steps-IsBalanced done h = h
  Steps-IsBalanced (next before step) h = Step-IsBalanced step (Steps-IsBalanced before h)

-- Whatever calls and answers come from the start of an isolate: the count of the decoded tiles is
-- the sum of their sizes, the count of the files is no less than theirs, each is within its budget
-- or its cache has one entry at most, no key stands twice, and no tile in flight is in the cache.
pub empty-Steps-IsBalanced : (f : Float) (s : TileCache f) → Steps f (empty f) s → IsBalanced f s
empty-Steps-IsBalanced f s steps = Steps-IsBalanced f steps (empty-IsBalanced f)
