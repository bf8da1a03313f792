-- ===== src/Matrix/Sound.antt =====
-- The legs behind the elements with status OK.
use open_distance.Prelude.{
  ◌>>=◌, ℕ, suc, ◌+◌, ◌≡◌, refl, sym, ap, ◌∙◌, ◌&&◌, not, Option, none, some, List, [], ◌∷◌,
  get_elem?, All, Option-cases, Bool-cases, inl, inr, nat_beq, nat_beq_iff, nat_eq, arith,
}
use open_distance.Prelude.Dict.{lookup, lookup-insert, lookup-nil, has_value}
use open_distance.Text.{Text, text_eq, same_text_iff}
use open_distance.Float.{Float}
use open_distance.Router.{NodeRef, LegResult}
use open_distance.Matrix.{
  Services, ResolvedEndpoint, LegCache, Legs, top1, node_id_str, leg_cache_key,
  load_leg_cache_batch,
}
use open_distance.Matrix.Groups.{is_hit, point, group_id, cacheable, need_l1, l1_legs}
use open_distance.Matrix.Row.{leg_for, known}
use open_distance.Matrix.Stored.{
  Source, searched_for, stored_for, overlay, IsRouted, id_eq, index_of-group_id,
}
use open_distance.Matrix.Sources.{LeadTo}

load_leg_cache_batch-lookup :
    (f : Float) (version : Text) (cache : LegCache f) (src t1 : NodeRef) (ds : List NodeRef)
    (leg : LegResult f)
    → lookup (node_id_str t1) (load_leg_cache_batch f version cache src ds) ≡ some leg
    → (d : NodeRef) × (node_id_str d ≡ node_id_str t1)
      × (lookup (leg_cache_key version src d) cache ≡ some leg)
unfolding load_leg_cache_batch
load_leg_cache_batch-lookup f version cache src t1 [] leg h =
    cc (lookup-nil {V = LegResult f} (node_id_str t1))
load_leg_cache_batch-lookup f version cache src t1 (d ∷ ds) leg h =
    let loaded = load_leg_cache_batch f version cache src ds in
    elim (Option-cases (lookup (leg_cache_key version src d) cache)) [
      | inl e ↦
          load_leg_cache_batch-lookup f version cache src t1 ds leg
            (rw (load_leg_cache_batch, e) at h)
      | inr (found, e) ↦
          let split =
            sym (lookup-insert (node_id_str d) (node_id_str t1) found loaded)
            ∙ rw (load_leg_cache_batch, e) at h in
          elim (Bool-cases (text_eq.same (node_id_str d) (node_id_str t1))) [
            | inl same ↦
                (d, (same_text_iff (node_id_str d) (node_id_str t1)).0 same, e ∙ (rw same at split))
            | inr other ↦
                load_leg_cache_batch-lookup f version cache src t1 ds leg (rw other at split)
          ]
    ]

module _ (f : Float) (s : Services f) (dsts : List (ResolvedEndpoint f)) where
  -- the destinations that the overlay is asked for, with their points
  abbrev pub Asked : ℕ × Option (f.R × f.R) → Type 0
  Asked e = (r : ResolvedEndpoint f) × (get_elem? dsts e.0 ≡ some r) × (point r.geocode ≡ e.1)

  pub need_l1-Asked :
      (cached computed : Legs f) (j : ℕ) (rs : List (ResolvedEndpoint f))
      → ((i : ℕ) → get_elem? dsts (j + i) ≡ get_elem? rs i)
      → All Asked (need_l1 f cached computed j rs)
  unfolding need_l1
  need_l1-Asked cached computed j [] suffix = tt
  need_l1-Asked cached computed j (r ∷ rs) suffix =
      let later : (i : ℕ) → get_elem? dsts (suc j + i) ≡ get_elem? rs i =
        λ i. (let shift : suc j + i ≡ j + suc i = omega arith in rw shift (suffix (suc i))) in
      let rest = need_l1-Asked cached computed (suc j) rs later in
      let start : j + 0 ≡ j = omega arith in
      let here : get_elem? dsts j ≡ some r = rw start at (suffix 0) in
      elim (Option-cases (top1 f r)) [
        | inl e ↦ rw (need_l1, e) rest
        | inr (t1, e) ↦
            elim (Bool-cases (
              is_hit r.geocode
              && not (has_value (lookup (node_id_str t1) cached))
              && not (has_value (lookup (group_id j) computed)))) [
                | inl asked ↦ rw (need_l1, e, asked) ((r, here, refl), rest)
                | inr skipped ↦ rw (need_l1, e, skipped) rest
              ]
      ]

  asked-Source :
      (o r r' : ResolvedEndpoint f) (ask : f.R → f.R → f.R → f.R → Option (LegResult f))
      (p : Option (f.R × f.R)) (leg : LegResult f)
      → s.l1_route ≡ some ask
      → r' ≡ r
      → point r'.geocode ≡ p
      → ((point o.geocode >>= λ from. p >>= λ to. ask from.0 from.1 to.0 to.1) ≡ some leg)
      → Source f s o r leg
  asked-Source o r r' ask p leg bound same at h = elim (Option-cases (point o.geocode)) [
    | inl e ↦ let gone : none ≡ some leg = rw e at h in cc
    | inr (from, e) ↦ elim (Option-cases p) [
      | inl e' ↦ let gone : none ≡ some leg = rw (e, e') at h in cc
      | inr (to, e') ↦
          overlay ask from.0 from.1 to.0 to.1 bound e
            (ap (λ (x : ResolvedEndpoint f). point x.geocode) (sym same) ∙ at ∙ e')
            (rw (e, e') at h)
    ]
  ]

  ask-Source :
      (o r : ResolvedEndpoint f) (ask : f.R → f.R → f.R → f.R → Option (LegResult f))
      (need : List (ℕ × Option (f.R × f.R))) (j : ℕ) (leg : LegResult f)
      → s.l1_route ≡ some ask
      → All Asked need
      → get_elem? dsts j ≡ some r
      → lookup j (l1_legs f (some ask) (point o.geocode) need) ≡ some (some leg)
      → Source f s o r leg
  unfolding l1_legs lookup
  ask-Source o r ask [] j leg bound asked at h = cc
  ask-Source o r ask ((j', p) ∷ need) j leg bound asked at h = elim (Bool-cases (nat_beq j' j)) [
    | inl same ↦
        let ((r', at', point_of), others) = asked in
        let index : j' ≡ j = (nat_beq_iff j' j).0 same in
        let both : some r' ≡ some r = sym at' ∙ ap (get_elem? dsts) index ∙ at in
        let one : r' ≡ r = cc in
        let got : some (point o.geocode >>= λ from. p >>= λ to. ask from.0 from.1 to.0 to.1)
            ≡ some (some leg) =
          rw (l1_legs, lookup, same) at h in
        let answered : (point o.geocode >>= λ from. p >>= λ to. ask from.0 from.1 to.0 to.1)
            ≡ some leg =
          cc in
        asked-Source o r r' ask p leg bound one point_of answered
    | inr other ↦ ask-Source o r ask need j leg bound asked.1 at (rw (l1_legs, lookup, other) at h)
  ]

  l1_legs-Source :
      (o r : ResolvedEndpoint f) (need : List (ℕ × Option (f.R × f.R))) (j : ℕ) (leg : LegResult f)
      → All Asked need
      → get_elem? dsts j ≡ some r
      → lookup j (l1_legs f s.l1_route (point o.geocode) need) ≡ some (some leg)
      → Source f s o r leg
  unfolding l1_legs lookup
  l1_legs-Source o r need j leg asked at h = elim (Option-cases s.l1_route) [
    | inl e ↦
        let gone : ◌≡◌ {A = Option (Option (LegResult f))} none (some (some leg)) =
          rw (e, l1_legs) at h in
        cc
    | inr (ask, e) ↦ ask-Source o r ask need j leg e asked at (rw e at h)
  ]

  -- The leg of a destination, where one was found.
  pub leg_for-Source :
      (cache : LegCache f) (computed : Legs f) (o r : ResolvedEndpoint f) (src t1 : NodeRef) (j : ℕ)
      (need : List (ℕ × Option (f.R × f.R))) (leg : LegResult f)
      → IsRouted f s cache
      → LeadTo f s dsts src computed
      → All Asked need
      → top1 f o ≡ some src
      → top1 f r ≡ some t1
      → get_elem? dsts j ≡ some r
      → leg_for f
          (load_leg_cache_batch f s.data_version cache src (cacheable f dsts))
          computed
          (l1_legs f s.l1_route (point o.geocode) need)
          j
          t1
        ≡ some leg
      → Source f s o r leg
  unfolding leg_for
  leg_for-Source cache computed o r src t1 j need leg old lead asked from to at h =
      let cached = load_leg_cache_batch f s.data_version cache src (cacheable f dsts) in
      let l1 = l1_legs f s.l1_route (point o.geocode) need in
      elim (Option-cases (lookup (node_id_str t1) cached)) [
        | inr (found, e) ↦
            let same : some found ≡ some leg = rw (leg_for, e) at h in
            let (d, id, stored) =
              load_leg_cache_batch-lookup f s.data_version cache src t1 (cacheable f dsts) leg
                (e ∙ same) in
            let node = id_eq f s d t1 id in
            stored_for src t1 from to (old src t1 leg (rw node at stored))
        | inl e ↦ elim (Option-cases (lookup (group_id j) computed)) [
          | inr (found, e') ↦
              let same : some found ≡ some leg = rw (leg_for, e, e') at h in
              let (j', r', index, at', path) = lead (group_id j) leg (e' ∙ same) in
              let both : some j ≡ some j' = sym (index_of-group_id j) ∙ index in
              let one : j ≡ j' = cc in
              let shared : some r' ≡ some r = sym at' ∙ ap (get_elem? dsts) (sym one) ∙ at in
              let own : r' ≡ r = cc in searched_for src from (rw own at path)
          | inl e' ↦
              let rest : known f (lookup j l1) ≡ some leg = rw (leg_for, e, e') at h in
              elim (Option-cases (lookup j l1)) [
                | inl e'' ↦ let gone : none ≡ some leg = rw e'' at rest in cc
                | inr (answer, e'') ↦
                    let same : answer ≡ some leg = rw e'' at rest in
                    l1_legs-Source o r need j leg asked at (e'' ∙ ap some same)
              ]
        ]
      ]
