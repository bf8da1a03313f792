-- ===== src/L1/Sound.antt =====
-- The bidirectional search returns the time and the length of a walk.
use open_distance.Prelude.{
  ℕ, zero, suc, ◌+◌, ◌-◌, ◌≤◌, ◌≡◌, refl, ◌||◌, ◌⊎◌, Option, none, some, List, ◌∷◌, nat_beq,
  nat_beq_iff, nat_eq, leb, get_elem?, inl, inr, Bool-cases, Option-cases, arith,
}
use open_distance.Prelude.Dict.{lookup, insert, lookup-insert}
use open_distance.Float.{Float}
use open_distance.Heap
use open_distance.L1.{
  L1Graph, Entry, Side, Found, Search, Edge, edge_at, has_node, improves, better, relax, visit_edge,
  relax_all, expand, meet, grow, step_fwd, step_bwd, round, is_closed, top,
}
use open_distance.L1.Walks.{HasEdge, Walk, hop}

module _ (f : Float) (g : L1Graph f) where
  -- Every distance of a direction is that of a walk from its root, with the length kept beside it.
  pub record SideInv (root : ℕ) (s : Side f) : Type 0 where
    pub reached :
        (v t : ℕ)
        → lookup v s.dist ≡ some t
        → (l : ℕ) × (lookup v s.len ≡ some l) × Walk f g root v t l

  reached_insert :
      (root : ℕ) (s : Side f) (v t l : ℕ)
      → SideInv root s
      → Walk f g root v t l
      → (v' t' : ℕ) → lookup v' (insert v t s.dist) ≡ some t'
      → (l' : ℕ) × (lookup v' (insert v l s.len) ≡ some l') × Walk f g root v' t' l'
  reached_insert root s v t l inv w v' t' e = elim (Bool-cases (nat_beq v v')) [
    | inl same ↦
        let found : some t ≡ some t' = rw (lookup-insert v v' t s.dist, same) at e in
        let eq : v ≡ v' = (nat_beq_iff v v').0 same in
        let kept : t ≡ t' = cc in (l, rw (lookup-insert v v' l s.len, same), rw (← eq, ← kept) w)
    | inr other ↦
        let (l', found, walk) = inv.reached v' t' (rw (lookup-insert v v' t s.dist, other) at e) in
        (l', rw (lookup-insert v v' l s.len, other) found, walk)
  ]

  relax-SideInv :
      (root goal gu lu u : ℕ) (edge : Edge) (s : Side f)
      → Walk f g root u gu lu
      → HasEdge f g u edge
      → SideInv root s
      → SideInv root (relax f g goal gu lu edge s)
  unfolding relax
  relax-SideInv root goal gu lu u edge s w e v = elim (Bool-cases (has_node edge.target s.done)) [
    | inl old ↦ rw old v
    | inr new ↦ elim (Bool-cases (improves (gu + edge.time_s) (lookup edge.target s.dist))) [
      | inr worse ↦ rw (new, worse) v
      | inl shorter ↦
          rw (new, shorter)
            (record { reached = reached_insert root s _ _ _ v (hop edge w e refl refl refl) })
    ]
  ]

  relax_all-SideInv :
      (root goal gu lu u n i first last : ℕ) (s : Side f)
      → Walk f g root u gu lu
      → get_elem? g.edge_offsets u ≡ some first
      → get_elem? g.edge_offsets (u + 1) ≡ some last
      → first ≤ i
      → i + n ≤ last
      → SideInv root s
      → SideInv root (relax_all f g goal gu lu n i s)
  unfolding relax_all visit_edge
  relax_all-SideInv root goal gu lu u zero i first last s w at at' lo hi v = v
  relax_all-SideInv root goal gu lu u (suc n) i first last s w at at' lo hi v =
      let s' = visit_edge f g goal gu lu i s in
      let step : SideInv root s' = elim (Option-cases (edge_at f g i)) [
        | inl missing ↦ rw (missing, visit_edge) v
        | inr (edge, read) ↦
            rw (read, visit_edge)
              (relax-SideInv root goal gu lu u edge s w
                (i, first, last, at, at', lo, omega arith, read) v)
      ] in
      relax_all-SideInv root goal gu lu u n (suc i) first last s' w at at' (omega arith)
        (omega arith) step

  expand-SideInv :
      (root goal u gu lu : ℕ) (s : Side f)
      → Walk f g root u gu lu
      → SideInv root s
      → SideInv root (expand f g goal u gu lu s)
  unfolding expand
  expand-SideInv root goal u gu lu s w v = elim (Option-cases (get_elem? g.edge_offsets u)) [
    | inl missing ↦ rw (missing, expand) v
    | inr (first, at) ↦ elim (Option-cases (get_elem? g.edge_offsets (u + 1))) [
      | inl missing ↦ rw (at, expand, missing) v
      | inr (last, at') ↦
          rw (at, expand, at')
            (elim (Bool-cases (leb first last)) [
              | inl le ↦
                  relax_all-SideInv root goal gu lu u (last - first) first first last s w at at'
                    (omega arith) (ground arith) v
              | inr gt ↦
                  let none_left : last - first ≡ 0 = ground arith in
                  rw none_left (unfold relax_all in v)
            ])
    ]
  ]

  grow-SideInv : (root goal u : ℕ) (s : Side f) → SideInv root s → SideInv root (grow f g goal u s)
  unfolding grow
  grow-SideInv root goal u s v =
      let v' : SideInv root (record s { done = u ∷ s.done }) = record { reached = v.reached } in
      elim (Option-cases (lookup u s.dist)) [
        | inl e ↦ rw (e, grow) v'
        | inr (gu, e) ↦
            let (lu, e', w) = v.reached u gu e in
            rw (e, grow, e') (expand-SideInv root goal u gu lu _ w v')
      ]

  -- A meeting is the sum of two walks to one node.
  abbrev pub IsMeeting : ℕ → ℕ → Found → Type 0
  IsMeeting src dst b =
      (u : ℕ) × (t : ℕ) × (l : ℕ) × (t' : ℕ) × (l' : ℕ) × Walk f g src u t l
      × Walk f g dst u t' l'
      × (b.time_s ≡ t + t')
      × (b.len_m ≡ l + l')

  pub record Inv (src dst : ℕ) (s : Search f) : Type 0 where
    pub fwd : SideInv src s.fwd
    pub bwd : SideInv dst s.bwd
    pub met : (b : Found) → s.best ≡ some b → IsMeeting src dst b

  -- what `meet` may put in place of the best so far
  meet-cases :
      (root other_root u : ℕ) (own other : Side f) (best : Option Found) (b : Found)
      → SideInv root own
      → SideInv other_root other
      → meet f g u own other best ≡ some b
      → (best ≡ some b) ⊎ IsMeeting root other_root b
  unfolding meet
  meet-cases root other_root u own other best b v v' h = elim (Option-cases (lookup u other.dist)) [
    | inl e ↦ inl (rw (e, meet) at h)
    | inr (there, e) ↦ elim (Option-cases (lookup u own.dist)) [
      | inl e' ↦ inl (rw (e, meet, e') at h)
      | inr (own_t, e') ↦
          let (l, el, w) = v.reached u own_t e' in
          let (l', el', w') = v'.reached u there e in
          elim (Bool-cases (better (own_t + there) best)) [
            | inr worse ↦ inl (rw (e, meet, e', el, el', worse) at h)
            | inl win ↦
                let joined : Found = record { time_s = own_t + there; len_m = l + l' } in
                let found : some joined ≡ some b = rw (e, meet, e', el, el', win) at h in
                let same : joined ≡ b = cc in
                inr (u, own_t, l, there, l', w, w', rw (← same), rw (← same))
          ]
    ]
  ]

  IsMeeting-swap : (src dst : ℕ) (b : Found) → IsMeeting dst src b → IsMeeting src dst b
  IsMeeting-swap src dst b (u, t, l, t', l', w, w', p, q) =
      (u, t', l', t, l, w', w, omega arith, omega arith)

  SideInv-heap :
      (root : ℕ) (s : Side f) (heap : List (Entry f))
      → SideInv root s
      → SideInv root (record s { heap = heap })
  SideInv-heap root s heap v = record { reached = v.reached }

  module _ (src dst max_settled : ℕ) where
    step_fwd-Inv :
        (e : Entry f) (rest : List (Entry f)) (s : Search f)
        → Inv src dst s
        → Inv src dst (step_fwd f g src dst max_settled e rest s)
    unfolding step_fwd
    step_fwd-Inv e rest s v =
        let own : Side f = record s.fwd { heap = rest } in
        let own_v = SideInv-heap src s.fwd rest v.fwd in
        elim (Bool-cases (has_node e.node own.done)) [
          | inl old ↦ rw old (record { fwd = own_v; bwd = v.bwd; met = v.met })
          | inr new ↦ rw new (record {
            fwd = grow-SideInv src dst e.node own own_v;
            bwd = v.bwd;
            met = λ b h. elim (meet-cases src dst e.node own s.bwd s.best b own_v v.bwd h) [
              | inl kept ↦ v.met b kept
              | inr met ↦ met
            ];
          })
        ]

    step_bwd-Inv :
        (e : Entry f) (rest : List (Entry f)) (s : Search f)
        → Inv src dst s
        → Inv src dst (step_bwd f g src dst max_settled e rest s)
    unfolding step_bwd
    step_bwd-Inv e rest s v =
        let own : Side f = record s.bwd { heap = rest } in
        let own_v = SideInv-heap dst s.bwd rest v.bwd in
        elim (Bool-cases (has_node e.node own.done)) [
          | inl old ↦ rw old (record { fwd = v.fwd; bwd = own_v; met = v.met })
          | inr new ↦ rw new (record {
            fwd = v.fwd;
            bwd = grow-SideInv dst src e.node own own_v;
            met = λ b h. elim (meet-cases dst src e.node own s.fwd s.best b own_v v.fwd h) [
              | inl kept ↦ v.met b kept
              | inr met ↦ IsMeeting-swap src dst b met
            ];
          })
        ]

    pub round-Inv :
        (s s' : Search f)
        → Inv src dst s
        → round f g src dst max_settled s ≡ some s'
        → Inv src dst s'
    unfolding round
    round-Inv s s' v h = elim (Option-cases (Heap.pop f (λ (e : Entry f). e.prio) s.fwd.heap)) [
      | inl e ↦ let gone : none ≡ some s' = rw (e, round) at h in cc
      | inr (p, e) ↦ elim (Option-cases (Heap.pop f (λ (e : Entry f). e.prio) s.bwd.heap)) [
        | inl e' ↦ let gone : none ≡ some s' = rw (e, round, e') at h in cc
        | inr (q, e') ↦
            elim (Bool-cases (leb max_settled s.settled || is_closed f g src dst max_settled s)) [
              | inl over ↦ let gone : none ≡ some s' = rw (e, round, e', over) at h in cc
              | inr on ↦ elim (Bool-cases (f.le (top f g s.fwd.heap) (top f g s.bwd.heap))) [
                | inl forward ↦
                    let next : some (step_fwd f g src dst max_settled p.0 p.1 s) ≡ some s' =
                      rw (e, round, e', on, forward) at h in
                    let same : step_fwd f g src dst max_settled p.0 p.1 s ≡ s' = cc in
                    rw (← same) (step_fwd-Inv p.0 p.1 s v)
                | inr backward ↦
                    let next : some (step_bwd f g src dst max_settled q.0 q.1 s) ≡ some s' =
                      rw (e, round, e', on, backward) at h in
                    let same : step_bwd f g src dst max_settled q.0 q.1 s ≡ s' = cc in
                    rw (← same) (step_bwd-Inv q.0 q.1 s v)
              ]
            ]
      ]
    ]
