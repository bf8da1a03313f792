-- ===== src/Matrix/Answers.antt =====
-- What handleDistanceMatrix answers, by the sizes of the request.
use open_distance.Prelude.{
  ℕ, zero, suc, ◌*◌, ◌≤◌, ◌<◌, ◌≡◌, refl, ap, ◌∙◌, Bool, true, false, ◌||◌, Option, none, some,
  List, [], ◌∷◌, length, All, nat_beq, ltb, Option-cases, Bool-cases, inl, inr, some_pair-inj,
  ltb→lt, ltb-false→le, arith,
}
use open_distance.Text.{Text}
use open_distance.Float.{Float}
use open_distance.Elements.{split_multi}
use open_distance.Format.{Units}
use open_distance.Matrix.{Services, ResolvedEndpoint, LegCache, resolve_all}
use open_distance.Matrix.Row.{rows_from}
use open_distance.Matrix.Shape.{rows_from-shape}
use open_distance.Matrix.Handler.{
  Query, Body, invalid_request, max_elements_exceeded, matrix, MatrixResponse, MatrixEnv,
  WasmAttempt, addresses, matches, attempt, wants_wasm, units_of, tiled_matrix, serve,
  handle_distance_matrix,
}

-- Addresses and matches for `n` origins and `m` destinations, and `n` rows of `m` elements.
abbrev pub HasShape : ℕ → ℕ → Body → Type 0
HasShape n m (invalid_request e) = ⊥
HasShape n m (max_elements_exceeded e) = ⊥
HasShape n m (matrix oa da om dm rows v w) =
    (length oa ≡ n)
    × (length da ≡ m)
    × (length om ≡ n)
    × (length dm ≡ m)
    × (length rows ≡ n)
    × All (λ es. length es ≡ m) rows

-- A body fits a request of `n` origins and `m` destinations under a cap on its elements.
abbrev pub Fits : ℕ → ℕ → ℕ → Body → Type 0
Fits n m cap (invalid_request e) = n * m ≡ 0
Fits n m cap (max_elements_exceeded e) = cap < n * m
Fits n m cap (matrix oa da om dm rows v w) =
    (0 < n * m) × (n * m ≤ cap) × HasShape n m (matrix oa da om dm rows v w)

-- The answers of the WASM router have the shape of one origin's matrix.
abbrev pub IsShaped : WasmAttempt → Type 0
IsShaped try_wasm =
    (units : Units) (o : Text) (ds : List Text) (r : MatrixResponse)
    → try_wasm units o ds ≡ some r
    → HasShape 1 (length ds) r.body

attempt-HasShape :
    (auto_ok : Text → List Text → Bool) (try_wasm : WasmAttempt)
    → IsShaped try_wasm
    → (router : Option Text) (units : Units) (os ds : List Text) (r : MatrixResponse)
    → attempt try_wasm (wants_wasm auto_ok router os ds) units os ds ≡ some r
    → HasShape (length os) (length ds) r.body
unfolding wants_wasm
attempt-HasShape auto_ok try_wasm shaped router units [] ds r h = cc
attempt-HasShape auto_ok try_wasm shaped router units (o ∷ []) ds r h =
    elim (Bool-cases (wants_wasm auto_ok router (o ∷ []) ds)) [
      | inl wanted ↦ shaped units o ds r (rw wanted at h)
      | inr other ↦ let gone : none ≡ some r = rw other at h in cc
    ]
attempt-HasShape auto_ok try_wasm shaped router units (o ∷ o' ∷ os) ds r h = cc

no_elements : (n m : ℕ) → nat_beq n 0 || nat_beq m 0 ≡ true → n * m ≡ 0
no_elements zero m h = omega arith
no_elements (suc n) zero h = omega arith
no_elements (suc n) (suc m) h = absurd (ground arith)

some_elements : (n m : ℕ) → nat_beq n 0 || nat_beq m 0 ≡ false → 0 < n * m
some_elements zero m h = absurd (ground arith)
some_elements (suc n) zero h = absurd (ground arith)
some_elements (suc n) (suc m) h = grind arith

HasShape-Fits : (n m cap : ℕ) (b : Body) → 0 < n * m → n * m ≤ cap → HasShape n m b → Fits n m cap b
HasShape-Fits n m cap (invalid_request e) low high shape = absurd shape
HasShape-Fits n m cap (max_elements_exceeded e) low high shape = absurd shape
HasShape-Fits n m cap (matrix oa da om dm rows v w) low high shape = (low, high, shape)

module _ (f : Float) where
  length-addresses :
      (rs : List (ResolvedEndpoint f)) (qs : List Text)
      → length rs ≡ length qs
      → length (addresses f rs qs) ≡ length qs
  unfolding addresses
  length-addresses [] [] e = refl
  length-addresses [] (q ∷ qs) e = ground arith
  length-addresses (r ∷ rs) [] e = ground arith
  length-addresses (r ∷ rs) (q ∷ qs) e = ap suc (length-addresses rs qs (omega arith))

  length-matches : (rs : List (ResolvedEndpoint f)) → length (matches f rs) ≡ length rs
  unfolding matches
  length-matches [] = refl
  length-matches (r ∷ rs) = ap suc (length-matches rs)

  length-resolve_all : (s : Services f) (qs : List Text) → length (resolve_all f s qs) ≡ length qs
  unfolding resolve_all
  length-resolve_all s [] = refl
  length-resolve_all s (q ∷ qs) = ap suc (length-resolve_all s qs)

  module _ (s : Services f) (to_lower : Text → Text) (env : MatrixEnv) (fuel : ℕ) where
    tiled_matrix-HasShape :
        (units : Units) (os ds : List Text) (c c' : LegCache f) (r : MatrixResponse)
        → tiled_matrix f s to_lower env fuel units os ds c ≡ some (c', r)
        → HasShape (length os) (length ds) r.body
    unfolding tiled_matrix
    tiled_matrix-HasShape units os ds c c' r h =
        let o_r = resolve_all f s os in
        let d_r = resolve_all f s ds in
        let os_size = length-resolve_all s os in
        let ds_size = length-resolve_all s ds in
        elim (Option-cases (rows_from f s fuel units d_r 0 o_r c)) [
          | inl e ↦
              let gone : ◌≡◌ {A = Option (LegCache f × MatrixResponse)} none (some (c', r)) =
                rw e at h in
              cc
          | inr (made, e) ↦
              let (first, second) = some_pair-inj _ c' _ r (rw e at h) in
              let (count, widths) = rows_from-shape f s fuel units d_r 0 o_r c made.0 made.1 e in
              rw (← second) (
                length-addresses o_r os os_size,
                length-addresses d_r ds ds_size,
                length-matches o_r ∙ os_size,
                length-matches d_r ∙ ds_size,
                count ∙ os_size,
                rw ds_size at widths,
              )
        ]

    module _ (auto_ok : Text → List Text → Bool) (try_wasm : WasmAttempt) where
      serve-HasShape :
          IsShaped try_wasm
          → (q : Query) (os ds : List Text) (c c' : LegCache f) (r : MatrixResponse)
          → serve f s to_lower env fuel auto_ok try_wasm q os ds c ≡ some (c', r)
          → HasShape (length os) (length ds) r.body
      unfolding serve wants_wasm
      serve-HasShape shaped q os ds c c' r h =
          elim (Option-cases (
            attempt try_wasm (wants_wasm auto_ok q.router os ds) (units_of to_lower q.units) os
              ds)) [
                | inl e ↦
                    tiled_matrix-HasShape (units_of to_lower q.units) os ds c c' r
                      (rw (e, serve) at h)
                | inr (made, e) ↦
                    let (first, second) = some_pair-inj c c' made r (rw (e, serve) at h) in
                    rw (← second) (
                      attempt-HasShape auto_ok try_wasm shaped q.router (units_of to_lower q.units)
                        os ds made e)
              ]

      -- Where the WASM router answers in shape, each response of the endpoint fits the request: a
      -- request without elements is INVALID_REQUEST, one with more elements than the cap is
      -- MAX_ELEMENTS_EXCEEDED, and any other gets addresses and matches for every place, one row
      -- for an origin and one element in it for a destination.
      pub handle_distance_matrix-Fits :
          IsShaped try_wasm
          → (q : Query) (c c' : LegCache f) (r : MatrixResponse)
          → handle_distance_matrix f s to_lower env fuel auto_ok try_wasm q c ≡ some (c', r)
          → Fits
              (length (split_multi q.origins))
              (length (split_multi q.destinations))
              env.max_elements
              r.body
      unfolding handle_distance_matrix
      handle_distance_matrix-Fits shaped q c c' r h =
          let os = split_multi q.origins in
          let ds = split_multi q.destinations in
          elim (Bool-cases (nat_beq (length os) 0 || nat_beq (length ds) 0)) [
            | inl empty ↦
                let (first, second) = some_pair-inj c c' _ r (rw empty at h) in
                rw (← second) (no_elements (length os) (length ds) empty)
            | inr filled ↦ elim (Bool-cases (ltb env.max_elements (length os * length ds))) [
              | inl over ↦
                  let (first, second) = some_pair-inj c c' _ r (rw (filled, over) at h) in
                  rw (← second) (ltb→lt env.max_elements (length os * length ds) over)
              | inr under ↦
                  let served : serve f s to_lower env fuel auto_ok try_wasm q os ds c
                      ≡ some (c', r) =
                    rw (filled, under) at h in
                  HasShape-Fits (length os) (length ds) env.max_elements r.body
                    (some_elements (length os) (length ds) filled)
                    (ltb-false→le env.max_elements (length os * length ds) under)
                    (serve-HasShape shaped q os ds c c' r served)
            ]
          ]
