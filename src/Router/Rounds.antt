-- ===== src/Router/Rounds.antt =====
-- A round of the search, and so the loop, keeps what holds of its state.
use open_distance.Prelude.{
  ℕ, zero, suc, ◌+◌, ◌≡◌, refl, Bool, true, false, Option, none, some, List, [], ◌∷◌, nat_eq, inl,
  inr, Option-cases, All, if◌then◌else◌, set,
}
use open_distance.Prelude.Dict.{lookup, insert}
use open_distance.Prelude.Int.{ℤ}
use open_distance.Text.{text_eq}
use open_distance.Float.{Float}
use open_distance.Tiles.{Tile}
use open_distance.Heap.Every.{pop_rest-All}
use open_distance.Router.{
  NodeRef, DestGroup, TileScratch, Entry, Targets, Search, Round, load_scratch, settle, round,
  next_round, loop, stop, again,
}
use open_distance.Router.Paths.{tile_at}
use open_distance.Router.Sound.{Inv, Held, loaded_insert, expand-Inv, reach_target-Inv}

module _ (f : Float) (get_tile : ℤ → ℤ → Option (Tile f)) (expired : ℕ → Bool)
    (groups : List (DestGroup f)) (targets : Targets) (max_settled : ℕ) (src : NodeRef) where
  -- What a round passes on.
  pub data RoundInv : Round f get_tile expired groups targets max_settled → Type 0 where
    stopped :
        {s : Search f} → Inv f get_tile expired groups targets max_settled src s → RoundInv (stop s)
    continued :
        {s : Search f}
        → Inv f get_tile expired groups targets max_settled src s
        → RoundInv (again s)

  RoundInv-if :
      (b : Bool) {x y : Round f get_tile expired groups targets max_settled}
      → RoundInv x
      → RoundInv y
      → RoundInv (if b then x else y)
  RoundInv-if true p q = p
  RoundInv-if false p q = q

  settle-Inv :
      (cur : Entry f) (active : TileScratch f) (s : Search f)
      → Held f get_tile expired groups targets max_settled src cur
      → tile_at f get_tile cur.tile ≡ some active.tile
      → Inv f get_tile expired groups targets max_settled src s
      → RoundInv (settle f get_tile expired groups targets max_settled cur active s)
  unfolding settle
  settle-Inv cur active s p at v =
      let marked : TileScratch f = record active {
        visited = set active.visited cur.dense true;
        len_to = set active.len_to cur.dense (f.fround cur.len);
      } in
      let s₁ : Search f = record s {
        scratch = insert cur.tile marked s.scratch;
        settled = s.settled + 1;
      } in
      let v₁ : Inv f get_tile expired groups targets max_settled src s₁ = record {
        held = v.held;
        loaded =
            loaded_insert f get_tile expired groups targets max_settled src s.scratch cur.tile
              marked v.loaded at;
        legs = v.legs;
      } in
      let v₂ =
        reach_target-Inv f get_tile expired groups targets max_settled src cur.tile cur.dense cur.g
          cur.len s₁ p v₁ in
      RoundInv-if _ (stopped v₁) (
        RoundInv-if _ (stopped v₂) (
          RoundInv-if _ (continued v₂) (
            continued (
              expand-Inv f get_tile expired groups targets max_settled src active.tile cur _ p at
                v₂))))

  -- What a load answers: the scratch entries belong to their tiles, the loaded one among them.
  abbrev pub Loads : ℕ → Option (List (ℕ × TileScratch f) × TileScratch f) → Type 0
  Loads tp none = Unit {0}
  Loads tp (some (m, sc)) =
      ((k : ℕ) (c : TileScratch f) → lookup k m ≡ some c → tile_at f get_tile k ≡ some c.tile)
      × (tile_at f get_tile tp ≡ some sc.tile)

  pub load_scratch-Loads :
      (m : List (ℕ × TileScratch f)) (tp : ℕ)
      → ((k : ℕ) (c : TileScratch f) → lookup k m ≡ some c → tile_at f get_tile k ≡ some c.tile)
      → Loads tp (load_scratch f get_tile expired m tp)
  unfolding load_scratch
  load_scratch-Loads m tp h = elim (Option-cases (lookup tp m)) [
    | inr (sc, e) ↦ rw (e, load_scratch) (h, h tp sc e)
    | inl e ↦ elim (Option-cases (tile_at f get_tile tp)) [
      | inl gone ↦ rw (e, load_scratch, gone) tt
      | inr (tile, there) ↦
          rw (e, load_scratch, there)
            (loaded_insert f get_tile expired groups targets max_settled src m tp _ h there, there)
    ]
  ]

  round-Inv :
      (cur : Entry f) (rest : List (Entry f)) (s : Search f)
      → Held f get_tile expired groups targets max_settled src cur
      → All (Held f get_tile expired groups targets max_settled src) rest
      → Inv f get_tile expired groups targets max_settled src s
      → RoundInv (round f get_tile expired groups targets max_settled cur rest s)
  unfolding round
  round-Inv cur rest s p held v =
      elim (Option-cases (load_scratch f get_tile expired s.scratch cur.tile)) [
        | inl e ↦
            rw (e, round) (continued (record { held = held; loaded = v.loaded; legs = v.legs }))
        | inr (r, e) ↦
            let loads = rw e at (load_scratch-Loads s.scratch cur.tile v.loaded) in
            let s' : Search f = record s { heap = rest; scratch = r.0 } in
            let v' : Inv f get_tile expired groups targets max_settled src s' = record {
              held = held;
              loaded = loads.0;
              legs = v.legs;
            } in
            rw (e, round) (RoundInv-if _ (continued v') (settle-Inv cur r.1 s' p loads.1 v'))
      ]

  pub next_round-Inv :
      (s : Search f)
      → Inv f get_tile expired groups targets max_settled src s
      → RoundInv (next_round f get_tile expired groups targets max_settled s)
  unfolding next_round
  next_round-Inv s v = popped s.heap refl
    where
      popped :
          (heap : List (Entry f))
          → s.heap ≡ heap
          → RoundInv (next_round f get_tile expired groups targets max_settled s)
      popped [] e = rw (e, next_round) (stopped v)
      popped (x ∷ xs) e =
          let h : All (Held f get_tile expired groups targets max_settled src) (x ∷ xs) =
            rw e at v.held in
          let rest =
            pop_rest-All f (λ (e : Entry f). e.prio)
              (Held f get_tile expired groups targets max_settled src) x xs h.0 h.1 in
          rw (e, next_round) (RoundInv-if _ (stopped v) (round-Inv x _ s h.0 rest v))

  abbrev pub finish : ℕ → Round f get_tile expired groups targets max_settled → Option (Search f)
  finish fuel (stop s) = some s
  finish fuel (again s) = loop f get_tile expired groups targets max_settled fuel s

  finish-Inv :
      (fuel : ℕ) (s' : Search f)
      → ((s : Search f)
          → Inv f get_tile expired groups targets max_settled src s
          → loop f get_tile expired groups targets max_settled fuel s ≡ some s'
          → Inv f get_tile expired groups targets max_settled src s')
      → {r : Round f get_tile expired groups targets max_settled} → RoundInv r
      → finish fuel r ≡ some s'
      → Inv f get_tile expired groups targets max_settled src s'
  finish-Inv fuel s' ih (stopped {s} v) h = let e : s ≡ s' = cc in rw (← e) v
  finish-Inv fuel s' ih (continued {s} v) h = ih s v h

  pub loop-Inv :
      (fuel : ℕ) (s s' : Search f)
      → Inv f get_tile expired groups targets max_settled src s
      → loop f get_tile expired groups targets max_settled fuel s ≡ some s'
      → Inv f get_tile expired groups targets max_settled src s'
  unfolding loop
  loop-Inv zero s s' v h = cc
  loop-Inv (suc fuel) s s' v h =
      finish-Inv fuel s' (λ s₁ v₁ h₁. loop-Inv fuel s₁ s' v₁ h₁) (next_round-Inv s v) h
