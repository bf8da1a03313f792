-- ===== src/Router/Fuel.antt =====
-- The search ends: with enough fuel it returns a result.
use mathlib.Core.Path.{subst}
use open_distance.Prelude.{
  ℕ, zero, suc, ◌+◌, ◌-◌, ◌*◌, ◌%◌, ◌≤◌, ◌<◌, ◌≡◌, refl, Bool, true, false, ◌&&◌, ◌||◌, Option,
  none, some, List, [], ◌∷◌, nat_eq, nat_beq, leb, inl, inr, Bool-cases, Option-cases, arith,
  if◌then◌else◌, set, length,
}
use open_distance.Prelude.Dict.{insert, lookup-nil}
use open_distance.Prelude.Int.{ℤ}
use open_distance.Text.{Text, text_eq}
use open_distance.Float.{Float}
use open_distance.Tiles.{Tile, pack_tile_id}
use open_distance.Heap
use open_distance.Heap.Size.{length-pop_rest}
use open_distance.Router.Paths.{tile_at}
use open_distance.Router.Legs.{start-Inv}
use open_distance.Router.Sound.{Inv}
use open_distance.Router.Rounds.{
  Loads, RoundInv, stopped, continued, load_scratch-Loads, next_round-Inv, finish,
}
use open_distance.Router.{
  NodeRef, LegResult, DestGroup, TileScratch, Entry, Targets, Search, Round, load_scratch, expand,
  reach_target, settle, round, next_round, loop, stop, again, start, search_from, one_to_many,
  index_groups,
}
use open_distance.Router.Growth.{BoundedDegree, reach_target-Grown, expand-Grown, start_size}

module _ (f : Float) (get_tile : ℤ → ℤ → Option (Tile f)) (expired : ℕ → Bool)
    (groups : List (DestGroup f)) (targets : Targets) (max_settled : ℕ) where
  module _ (degree : ℕ) (bounded : BoundedDegree f get_tile degree) (src : NodeRef) where
    -- what is left to do: the entries in the heap, and those that settling can still push
    abbrev work : Search f → ℕ
    work s = length s.heap + (max_settled - s.settled) * (degree + 1)

    data Works (n : ℕ) : Round f get_tile expired groups targets max_settled → Type 0 where
      idle : {s : Search f} → Works n (stop s)
      busy : {s : Search f} → work s < n → Works n (again s)

    Works-if :
        {n : ℕ} (b : Bool) {x y : Round f get_tile expired groups targets max_settled}
        → Works n x
        → Works n y
        → Works n (if b then x else y)
    Works-if true p q = p
    Works-if false p q = q

    spare :
        (k settled : ℕ)
        → settled < k
        → (k - settled) * (degree + 1) ≡ (k - (settled + 1)) * (degree + 1) + degree + 1
    spare k settled h =
        let e : k - settled ≡ suc (k - (settled + 1)) = omega arith in rw e (omega arith)

    settle-Works :
        (cur : Entry f) (active : TileScratch f) (s : Search f) (n : ℕ)
        → tile_at f get_tile cur.tile ≡ some active.tile
        → s.settled < max_settled
        → work s < n
        → Works n (settle f get_tile expired groups targets max_settled cur active s)
    unfolding settle
    settle-Works cur active s n at room h =
        let marked : TileScratch f = record active {
          visited = set active.visited cur.dense true;
          len_to = set active.len_to cur.dense (f.fround cur.len);
        } in
        let s₁ : Search f = record s {
          scratch = insert cur.tile marked s.scratch;
          settled = s.settled + 1;
        } in
        let s₂ =
          reach_target f get_tile expired groups targets max_settled cur.tile cur.dense cur.g
            cur.len s₁ in
        let g₂ =
          reach_target-Grown f get_tile expired groups targets max_settled cur.tile cur.dense cur.g
            cur.len s₁ in
        let g₃ =
          expand-Grown f get_tile expired groups targets max_settled degree bounded active.tile cur
            s₂ at in
        let gain = spare max_settled s.settled room in
        let w₂ : work s₂ < n = rw g₂.settled (omega (arith, g₂.heap, gain)) in
        let w₃ : work (expand f get_tile expired groups targets max_settled active.tile cur s₂)
            < n =
          rw (g₃.settled, g₂.settled) (omega (arith, g₂.heap, g₃.heap, gain)) in
        let late = nat_beq (s₁.settled % 4096) 0 && expired s₁.settled in
        let done = nat_beq s₂.remaining 0 in
        Works-if late (idle {s = s₁}) (
          Works-if done (idle {s = s₂})
            (Works-if (leb active.tile.n_local cur.dense) (busy {s = s₂} w₂) (busy w₃)))

    round-Works :
        (cur : Entry f) (rest : List (Entry f)) (s : Search f)
        → Inv f get_tile expired groups targets max_settled src s
        → length rest < length s.heap
        → s.settled < max_settled
        → Works (work s) (round f get_tile expired groups targets max_settled cur rest s)
    unfolding round
    round-Works cur rest s v popped room =
        elim (Option-cases (load_scratch f get_tile expired s.scratch cur.tile)) [
          | inl e ↦ rw (e, round) (busy (omega arith))
          | inr (r, e) ↦
              let loads = rw e at (
                load_scratch-Loads f get_tile expired groups targets max_settled src s.scratch
                  cur.tile v.loaded) in
              let s' : Search f = record s { heap = rest; scratch = r.0 } in
              let less : work s' < work s = omega arith in
              rw (e, round)
                (Works-if _ (busy less) (settle-Works cur r.1 s' (work s) loads.1 room less))
        ]

    next_round-Works :
        (s : Search f)
        → Inv f get_tile expired groups targets max_settled src s
        → Works (work s) (next_round f get_tile expired groups targets max_settled s)
    unfolding next_round
    next_round-Works s v = popped s.heap (work s) refl refl
      where
        popped :
            (heap : List (Entry f)) (n : ℕ)
            → s.heap ≡ heap
            → work s ≡ n
            → Works n (next_round f get_tile expired groups targets max_settled s)
        popped [] n e en = rw (e, next_round) idle
        popped (x ∷ xs) n e en =
            let rest = Heap.pop_rest f (λ (e : Entry f). e.prio) x xs in
            let size : length rest < length s.heap =
              rw e (omega (arith, length-pop_rest f (λ (e : Entry f). e.prio) x xs)) in
            elim (Bool-cases (nat_beq s.remaining 0 || leb max_settled s.settled)) [
              | inl over ↦ rw (e, next_round, over) idle
              | inr on ↦
                  rw (e, next_round, on)
                    (subst
                      (λ k. Works k (round f get_tile expired groups targets max_settled x rest s))
                      en (round-Works x rest s v size (ground arith)))
            ]

    -- the rounds that the loop may take
    finish-some :
        (fuel : ℕ) (n : ℕ) {r : Round f get_tile expired groups targets max_settled}
        → ((s : Search f)
            → Inv f get_tile expired groups targets max_settled src s
            → work s < fuel
            → (s' : Search f) × (loop f get_tile expired groups targets max_settled fuel s
                ≡ some s'))
        → RoundInv f get_tile expired groups targets max_settled src r
        → Works n r
        → n ≤ fuel
        → (s' : Search f) × (finish f get_tile expired groups targets max_settled src fuel r
            ≡ some s')
    finish-some fuel n ih (stopped {s} v) w le = (s, refl)
    finish-some fuel n ih (continued {s} v) (busy w) le = ih s v (omega arith)

    loop-some :
        (fuel : ℕ) (s : Search f)
        → Inv f get_tile expired groups targets max_settled src s
        → work s < fuel
        → (s' : Search f) × (loop f get_tile expired groups targets max_settled fuel s ≡ some s')
    unfolding loop
    loop-some zero s v h = absurd (omega arith)
    loop-some (suc fuel) s v h =
        finish-some fuel (work s) (λ s₁ v₁ h₁. loop-some fuel s₁ v₁ h₁)
          (next_round-Inv f get_tile expired groups targets max_settled src s v)
          (next_round-Works s v) (omega arith)

    search_from-some :
        (fuel : ℕ) (r : Option (List (ℕ × TileScratch f) × TileScratch f))
        → Loads f get_tile expired groups targets max_settled src (pack_tile_id src.tx src.ty) r
        → max_settled * (degree + 1) + 1 < fuel
        → (out : List (Text × LegResult f)) × (search_from f get_tile expired groups targets
              max_settled fuel src r
            ≡ some out)
    unfolding search_from
    search_from-some fuel none loads h = ([], refl)
    search_from-some fuel (some (scratch, sc)) loads h =
        let s = start f get_tile expired groups targets max_settled src scratch sc in
        let v =
          start-Inv f get_tile expired groups targets max_settled src scratch sc loads.0 loads.1 in
        let (small, none_yet) =
          start_size f get_tile expired groups targets max_settled src scratch sc in
        let few : work s < fuel =
          let all_left : max_settled - 0 ≡ max_settled = omega arith in
          rw (none_yet, all_left) (omega (arith, small)) in
        let (s', ends) = loop-some fuel s v few in (s'.out, rw ends)

-- Where no node has more than `degree` edges, more fuel than the settled nodes can push entries
-- lets the search return a result.
pub one_to_many-some :
    (f : Float) (get_tile : ℤ → ℤ → Option (Tile f)) (expired : ℕ → Bool)
    (fuel max_settled degree : ℕ) (src : NodeRef) (groups : List (DestGroup f))
    → BoundedDegree f get_tile degree
    → max_settled * (degree + 1) + 1 < fuel
    → (out : List (Text × LegResult f)) × (one_to_many f get_tile expired fuel max_settled src
          groups
        ≡ some out)
unfolding one_to_many
one_to_many-some f get_tile expired fuel max_settled degree src groups bounded h =
    elim (Bool-cases (nat_beq (length groups) 0)) [
      | inl empty ↦ ([], rw empty)
      | inr more ↦
          let t = index_groups f groups [] in
          let loads =
            load_scratch-Loads f get_tile expired groups t max_settled src []
              (pack_tile_id src.tx src.ty) (λ k c e. cc (lookup-nil {V = TileScratch f} k)) in
          rw more (
            search_from-some f get_tile expired groups t max_settled degree bounded src fuel _ loads
              h)
    ]
