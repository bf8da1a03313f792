-- ===== src/Matrix/Answered.antt =====
-- What the responses say about the graph, and what a request leaves in the leg cache.
use open_distance.Prelude.{
  ℕ, zero, suc, ◌*◌, ◌≡◌, Bool, ◌||◌, Option, none, some, List, [], ◌∷◌, map, get_elem?, length,
  nat_beq, ltb, Option-cases, Bool-cases, inl, inr, some_pair-inj,
}
use open_distance.Text.{Text}
use open_distance.Float.{Float}
use open_distance.Elements.{split_multi}
use open_distance.Format.{Units}
use open_distance.Matrix.{Services, Element, ResolvedEndpoint, LegCache, resolve, resolve_all}
use open_distance.Matrix.Row.{row, rows_from}
use open_distance.Matrix.Shape.{row-RowCase}
use open_distance.Matrix.Stored.{AreResolved, IsRouted, IsSoundElement}
use open_distance.Matrix.Sources.{RowCase-IsRouted}
use open_distance.Matrix.Legs.{IsSoundRow, RowCase-IsSoundRow}
use open_distance.Matrix.Handler.{
  Query, Body, invalid_request, max_elements_exceeded, matrix, MatrixResponse, MatrixEnv,
  WasmAttempt, attempt, wants_wasm, units_of, tiled_matrix, serve, handle_distance_matrix,
}

get_elem?-map :
    {A B : Type 0} (g : A → B) (xs : List A) (n : ℕ) (x : A)
    → get_elem? xs n ≡ some x
    → get_elem? (map g xs) n ≡ some (g x)
get_elem?-map g [] n x h = cc
get_elem?-map g (y ∷ xs) zero x h = let same : y ≡ x = cc in rw same
get_elem?-map g (y ∷ xs) (suc n) x h = get_elem?-map g xs n x h

module _ (f : Float) (s : Services f) where
  -- Each element with status OK of the matrix, in the row of its origin and at its destination, has
  -- a leg between the two.
  abbrev pub IsSoundBody : List Text → List Text → Body → Type 0
  IsSoundBody os ds (invalid_request e) = Unit
  IsSoundBody os ds (max_elements_exceeded e) = Unit
  IsSoundBody os ds (matrix oa da om dm rows v w) =
      (n m : ℕ) (oq dq : Text) (es : List Element) (e : Element)
      → get_elem? os n ≡ some oq
      → get_elem? ds m ≡ some dq
      → get_elem? rows n ≡ some es
      → get_elem? es m ≡ some e
      → IsSoundElement f s (resolve f s oq) (resolve f s dq) e

  resolve_all-AreResolved : (qs : List Text) → AreResolved f s (resolve_all f s qs)
  unfolding resolve_all
  resolve_all-AreResolved [] n r h = cc
  resolve_all-AreResolved (q ∷ qs) zero r h = (q, cc)
  resolve_all-AreResolved (q ∷ qs) (suc n) r h = resolve_all-AreResolved qs n r h

  module _ (fuel : ℕ) where
    module _ (units : Units) (dsts : List (ResolvedEndpoint f))
        (resolved : AreResolved f s dsts) where
      abbrev AreSoundRows : List (ResolvedEndpoint f) → List (List Element) → Type 0
      AreSoundRows os rows =
          (n : ℕ) (o : ResolvedEndpoint f) (es : List Element)
          → get_elem? os n ≡ some o
          → get_elem? rows n ≡ some es
          → IsSoundRow f s units dsts o es

      cons-AreSoundRows :
          (o : ResolvedEndpoint f) (es : List Element) (os : List (ResolvedEndpoint f))
          (rows : List (List Element))
          → IsSoundRow f s units dsts o es
          → AreSoundRows os rows
          → AreSoundRows (o ∷ os) (es ∷ rows)
      cons-AreSoundRows o es os rows one rest zero o' es' at at' =
          let origin : o ≡ o' = cc in let row : es ≡ es' = cc in rw (← origin, ← row) one
      cons-AreSoundRows o es os rows one rest (suc n) o' es' at at' = rest n o' es' at at'

      rows_from-Sound :
          (i : ℕ) (os : List (ResolvedEndpoint f)) (c c' : LegCache f) (rows : List (List Element))
          → IsRouted f s c
          → rows_from f s fuel units dsts i os c ≡ some (c', rows)
          → IsRouted f s c' × AreSoundRows os rows
      unfolding rows_from
      rows_from-Sound i [] c c' rows old h =
          let (first, second) = some_pair-inj c c' [] rows h in
          (rw (← first) old, λ n o es at at'. absurd (let gone : none ≡ some o = at in cc))
      rows_from-Sound i (o ∷ os) c c' rows old h =
          elim (Option-cases (row f s fuel units dsts i o c)) [
            | inl e ↦
                let gone : ◌≡◌ {A = Option (LegCache f × List (List Element))} none
                    (some (c', rows)) =
                  rw e at h in
                cc
            | inr (one, e) ↦ elim (Option-cases (rows_from f s fuel units dsts (suc i) os one.0)) [
              | inl e' ↦
                  let gone : ◌≡◌ {A = Option (LegCache f × List (List Element))} none
                      (some (c', rows)) =
                    rw (e, e') at h in
                  cc
              | inr (rest, e') ↦
                  let (first, second) = some_pair-inj _ c' _ rows (rw (e, e') at h) in
                  let made = row-RowCase f s fuel units dsts i o c one.0 one.1 e in
                  let kept =
                    RowCase-IsRouted f s dsts fuel units i o c one.0 one.1 resolved made old in
                  let (last, others) = rows_from-Sound (suc i) os one.0 rest.0 rest.1 kept e' in
                  (
                    rw (← first) last,
                    rw (← second) (
                        cons-AreSoundRows o one.1 os rest.1
                          (RowCase-IsSoundRow f s units dsts fuel i o c one.0 one.1 made old)
                          others),
                  )
            ]
          ]

    module _ (to_lower : Text → Text) (env : MatrixEnv) where
      tiled_matrix-Sound :
          (units : Units) (os ds : List Text) (c c' : LegCache f) (r : MatrixResponse)
          → IsRouted f s c
          → tiled_matrix f s to_lower env fuel units os ds c ≡ some (c', r)
          → IsRouted f s c' × IsSoundBody os ds r.body
      unfolding tiled_matrix resolve_all
      tiled_matrix-Sound units os ds c c' r old h =
          let o_r = resolve_all f s os in
          let d_r = resolve_all f s ds in
          elim (Option-cases (rows_from f s fuel units d_r 0 o_r c)) [
            | inl e ↦
                let gone : ◌≡◌ {A = Option (LegCache f × MatrixResponse)} none (some (c', r)) =
                  rw e at h in
                cc
            | inr (made, e) ↦
                let (first, second) = some_pair-inj _ c' _ r (rw e at h) in
                let (kept, sound) =
                  rows_from-Sound units d_r (resolve_all-AreResolved ds) 0 o_r c made.0 made.1 old
                    e in
                (
                  rw (← first) kept,
                  rw (← second) (λ n m oq dq es e from to in_rows in_row.
                      sound n (resolve f s oq) es (get_elem?-map (resolve f s) os n oq from) in_rows
                        m (resolve f s dq) e (get_elem?-map (resolve f s) ds m dq to) in_row),
                )
          ]

      module _ (auto_ok : Text → List Text → Bool) (try_wasm : WasmAttempt) where
        -- The tiled search and the overlay answered.
        abbrev pub IsTiled : Query → Type 0
        IsTiled q =
            attempt try_wasm
              (wants_wasm auto_ok q.router (split_multi q.origins) (split_multi q.destinations))
              (units_of to_lower q.units) (split_multi q.origins) (split_multi q.destinations)
            ≡ none

        -- A request adds to the leg cache only legs of the graph: if each leg in it, under the key of
        -- a source and a destination node, is the time and the length of a path from the source to a
        -- snap of what some text resolves to, with the destination as its first snap, the same holds
        -- after the request.
        pub handle_distance_matrix-IsRouted :
            (q : Query) (c c' : LegCache f) (r : MatrixResponse)
            → IsRouted f s c
            → handle_distance_matrix f s to_lower env fuel auto_ok try_wasm q c ≡ some (c', r)
            → IsRouted f s c'
        unfolding handle_distance_matrix serve
        handle_distance_matrix-IsRouted q c c' r old h =
            let os = split_multi q.origins in
            let ds = split_multi q.destinations in
            let units = units_of to_lower q.units in
            let unchanged : (r' : MatrixResponse)
                → ◌≡◌ {A = Option (LegCache f × MatrixResponse)} (some (c, r')) (some (c', r))
                → IsRouted f s c' =
              λ r' e. rw (← (some_pair-inj c c' r' r e).0) old in
            elim (Bool-cases (nat_beq (length os) 0 || nat_beq (length ds) 0)) [
              | inl empty ↦ unchanged _ (rw empty at h)
              | inr filled ↦ elim (Bool-cases (ltb env.max_elements (length os * length ds))) [
                | inl over ↦ unchanged _ (rw (filled, over) at h)
                | inr under ↦
                    elim (Option-cases
                      (attempt try_wasm (wants_wasm auto_ok q.router os ds) units os ds)) [
                        | inr (made, e) ↦ unchanged made (rw (filled, under, serve, e) at h)
                        | inl e ↦
                            (tiled_matrix-Sound units os ds c c' r old
                              (rw (filled, under, serve, e) at h)).0
                      ]
              ]
            ]

        -- Where the leg cache holds only legs of the graph and the WASM router has not answered,
        -- each element with status OK has the rounded metres and seconds of a leg between its origin
        -- and its destination: of a path in the graph from the origin's first snap to one of the
        -- destination's own snaps, of such a path to a snap of what some text resolves to with the
        -- same first snap as the destination, or of the overlay's answer for the two points.
        pub handle_distance_matrix-Sound :
            (q : Query) (c c' : LegCache f) (r : MatrixResponse)
            → IsRouted f s c
            → IsTiled q
            → handle_distance_matrix f s to_lower env fuel auto_ok try_wasm q c ≡ some (c', r)
            → IsSoundBody (split_multi q.origins) (split_multi q.destinations) r.body
        unfolding handle_distance_matrix serve
        handle_distance_matrix-Sound q c c' r old tiled h =
            let os = split_multi q.origins in
            let ds = split_multi q.destinations in
            let units = units_of to_lower q.units in
            elim (Bool-cases (nat_beq (length os) 0 || nat_beq (length ds) 0)) [
              | inl empty ↦ rw (← (some_pair-inj c c' _ r (rw empty at h)).1) tt
              | inr filled ↦ elim (Bool-cases (ltb env.max_elements (length os * length ds))) [
                | inl over ↦ rw (← (some_pair-inj c c' _ r (rw (filled, over) at h)).1) tt
                | inr under ↦
                    (tiled_matrix-Sound units os ds c c' r old
                      (rw (filled, under, serve, tiled) at h)).1
              ]
            ]
