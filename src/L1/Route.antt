-- ===== src/L1/Route.antt =====
-- What `bidirAStarL1` returns, and that it returns.
use open_distance.Prelude.{
  ℕ, zero, suc, ◌≡◌, none, some, nat_beq, nat_beq_iff, nat_eq, inl, inr, Bool-cases, Option-cases,
}
use open_distance.Prelude.Dict.{lookup}
use open_distance.Float.{Float}
use open_distance.L1.{L1Graph, Search, Result, round, loop, start, side, bidir_a_star_l1}
use open_distance.L1.Walks.{Walk, here, IsSymmetric, Walk-join}
use open_distance.L1.Sound.{SideInv, Inv, round-Inv}

module _ (f : Float) (g : L1Graph f) (src dst max_settled : ℕ) where
  loop-Inv :
      (fuel : ℕ) (s s' : Search f)
      → Inv f g src dst s
      → loop f g src dst max_settled fuel s ≡ some s'
      → Inv f g src dst s'
  unfolding loop
  loop-Inv zero s s' v h = cc
  loop-Inv (suc fuel) s s' v h = elim (Option-cases (round f g src dst max_settled s)) [
    | inl e ↦
        let ended : some s ≡ some s' = rw (e, loop) at h in let same : s ≡ s' = cc in rw (← same) v
    | inr (next, e) ↦
        loop-Inv fuel next s' (round-Inv f g src dst max_settled s next v e) (rw (e, loop) at h)
  ]

  side-SideInv : (root goal : ℕ) → SideInv f g root (side f g src dst max_settled root goal)
  unfolding lookup
  side-SideInv root goal = record {
    reached = λ v t e. elim (Bool-cases (nat_beq root v)) [
      | inl same ↦
          let found : some 0 ≡ some t = rw same at e in
          let eq : root ≡ v = (nat_beq_iff root v).0 same in
          let kept : 0 ≡ t = cc in (0, rw same, rw (← eq, ← kept) here)
      | inr other ↦ let gone : none ≡ some t = rw other at e in cc
    ];
  }

  start-Inv : Inv f g src dst (start f g src dst max_settled)
  start-Inv = record { fwd = side-SideInv src dst; bwd = side-SideInv dst src; met = λ b e. cc }

-- On an overlay whose edges all have their reverses, a result of the search is the time and the
-- length of a walk from the source to the destination.
pub bidir_a_star_l1-Walk :
    (f : Float) (g : L1Graph f) (fuel src dst max_settled : ℕ) (r : Result)
    → IsSymmetric f g
    → bidir_a_star_l1 f g fuel src dst max_settled ≡ some (some r)
    → Walk f g src dst r.time_s r.len_m
unfolding bidir_a_star_l1
bidir_a_star_l1-Walk f g fuel src dst max_settled r sym h = elim (Bool-cases (nat_beq src dst)) [
  | inl same ↦
      let eq : src ≡ dst = (nat_beq_iff src dst).0 same in
      let nothing : Result = record { time_s = 0; len_m = 0; settled = 0 } in
      let found : some (some nothing) ≡ some (some r) = rw same at h in
      let kept : nothing ≡ r = cc in rw (← kept, ← eq) here
  | inr apart ↦
      elim (Option-cases (loop f g src dst max_settled fuel (start f g src dst max_settled))) [
        | inl out ↦ let gone : none ≡ some (some r) = rw (apart, out) at h in cc
        | inr (s, ends) ↦
            let v =
              loop-Inv f g src dst max_settled fuel _ s (start-Inv f g src dst max_settled) ends in
            elim (Option-cases s.best) [
              | inl e ↦ let gone : some none ≡ some (some r) = rw (apart, ends, e) at h in cc
              | inr (b, e) ↦
                  let (u, t, l, t', l', w, w', p, q) = v.met b e in
                  let all : Result = record {
                    time_s = b.time_s;
                    len_m = b.len_m;
                    settled = s.settled;
                  } in
                  let found : some (some all) ≡ some (some r) = rw (apart, ends, e) at h in
                  let kept : all ≡ r = cc in rw (← kept, p, q) (Walk-join f g sym w w')
            ]
      ]
]
