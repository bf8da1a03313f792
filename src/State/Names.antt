-- ===== src/State/Names.antt =====
-- Which states a name can give.
use open_distance.Prelude.{
  ◌≡◌, ◌≢◌, ◌⊎◌, refl, sym, ◌∙◌, Bool, true, false, ◌&&◌, ◌||◌, not, Option, none, some, List, [],
  ◌∷◌, if◌then◌else◌, nat_beq_iff, Bool-cases, Option-cases, inl, inr, arith,
}
use open_distance.Text.{Text, codes, text_eq, same_text_iff}
use open_distance.Elements.{trim, is_empty}
use open_distance.State.{
  starts_with, includes, trailing_code, named_state, zips, zip_state, parse_state,
}
use open_distance.State.Tables.{state_names}

and_left : (a b : Bool) → a && b ≡ true → a ≡ true
and_left true b h = refl
and_left false b h = h

and_right : (a b : Bool) → a && b ≡ true → b ≡ true
and_right true b h = h
and_right false b h = cc

or_false : (a : Bool) → a || false ≡ a
or_false true = refl
or_false false = refl

starts_with-starts_with :
    (p t s : Text) → starts_with p t ≡ true → starts_with t s ≡ true → starts_with p s ≡ true
starts_with-starts_with [] t s h h' = refl
starts_with-starts_with (a ∷ p) [] s h h' = cc
starts_with-starts_with (a ∷ p) (b ∷ t) [] h h' = cc
starts_with-starts_with (a ∷ p) (b ∷ t) (c ∷ s) h h' =
    ground (arith, starts_with-starts_with p t s, nat_beq_iff a b, nat_beq_iff b c, nat_beq_iff a c)

includes-starts_with :
    (p t s : Text) → includes p t ≡ true → starts_with t s ≡ true → includes p s ≡ true
unfolding includes
includes-starts_with p [] [] h h' = h
includes-starts_with p [] (d ∷ s) h h' = rw (starts_with-starts_with p [] (d ∷ s) h refl)
includes-starts_with p (c ∷ t) [] h h' = cc
includes-starts_with p (c ∷ t) (d ∷ s) h h' =
    ground (arith, starts_with-starts_with p (c ∷ t) (d ∷ s), includes-starts_with p t s)

includes-includes : (p t s : Text) → includes p t ≡ true → includes t s ≡ true → includes p s ≡ true
unfolding includes
includes-includes p t [] h h' = includes-starts_with p t [] h h'
includes-includes p t (d ∷ s) h h' =
    ground (arith, includes-starts_with p t (d ∷ s), includes-includes p t s)

-- Each name with the code includes the short one.
abbrev longer : Text → Text → List (Text × Text) → Bool
longer short code [] = true
longer short code ((name, c) ∷ rest) =
    (not (text_eq.same c code) || includes short name) && longer short code rest

-- The names with the code come after the short one, which stands for another, and include it.
abbrev shadowed : Text → Text → List (Text × Text) → Bool
shadowed short code [] = true
shadowed short code ((name, c) ∷ rest) =
    not (text_eq.same c code)
    && (if text_eq.same name short then longer short code rest else shadowed short code rest)

other_code :
    (c code : Text)
    → not (text_eq.same c code) ≡ true
    → ◌≡◌ {A = Option Text} (some c) (some code)
    → ⊥
other_code c code h e =
    let same : c ≡ code = cc in
    let gone : text_eq.same c code ≡ true = (same_text_iff c code).1 same in
    absurd (let clash : false ≡ true = rw gone at h in cc)

named_state-longer :
    (short code s : Text) (table : List (Text × Text))
    → includes short s ≡ false
    → longer short code table ≡ true
    → named_state s table ≢ some code
unfolding named_state
named_state-longer short code s [] off h e = cc
named_state-longer short code s ((name, c) ∷ rest) off h e = elim (Bool-cases (includes name s)) [
  | inr missed ↦
      named_state-longer short code s rest off
        (and_right (not (text_eq.same c code) || includes short name) _ h)
        (rw (named_state, missed) at e)
  | inl found ↦ elim (Bool-cases (includes short name)) [
    | inl within ↦
        let gone : false ≡ true = sym off ∙ includes-includes short name s within found in cc
    | inr without ↦
        let apart : not (text_eq.same c code) ≡ true =
          sym (or_false (not (text_eq.same c code)))
          ∙ (rw without at (and_left (not (text_eq.same c code) || includes short name) _ h)) in
        absurd (other_code c code apart (rw (named_state, found) at e))
  ]
]

named_state-shadowed :
    (short code s : Text) (table : List (Text × Text))
    → shadowed short code table ≡ true
    → named_state s table ≢ some code
unfolding named_state
named_state-shadowed short code s [] h e = cc
named_state-shadowed short code s ((name, c) ∷ rest) h e =
    let apart = and_left (not (text_eq.same c code)) _ h in
    let others = and_right (not (text_eq.same c code)) _ h in
    elim (Bool-cases (includes name s)) [
      | inl found ↦ absurd (other_code c code apart (rw (named_state, found) at e))
      | inr missed ↦ elim (Bool-cases (text_eq.same name short)) [
        | inl same ↦
            let at : name ≡ short = (same_text_iff name short).0 same in
            named_state-longer short code s rest (rw at at missed) (rw same at others)
              (rw (named_state, missed) at e)
        | inr other ↦
            named_state-shadowed short code s rest (rw other at others)
              (rw (named_state, missed) at e)
      ]
    ]

west_virginia-shadowed : shadowed (codes "virginia") (codes "WV") state_names ≡ true
unfolding includes
west_virginia-shadowed = refl

-- The state of a query is WV only by a code in it, or by a ZIP where no name is found: the name
-- "virginia" is found in each text that has "west virginia" in it, and comes first.
pub parse_state-west_virginia :
    (to_upper to_lower : Text → Text) (q : Text)
    → parse_state to_upper to_lower q ≡ some (codes "WV")
    → (trailing_code (to_upper (trim q)) ≡ some (codes "WV"))
      ⊎ ((named_state (to_lower (trim q)) state_names ≡ none)
          × (zip_state (zips false (trim q)) ≡ some (codes "WV")))
unfolding parse_state
parse_state-west_virginia to_upper to_lower q h =
    let t = trim q in
    elim (Bool-cases (is_empty t)) [
      | inl empty ↦ let gone : ◌≡◌ {A = Option Text} none (some (codes "WV")) = rw empty at h in cc
      | inr filled ↦ elim (Option-cases (trailing_code (to_upper t))) [
        | inr (code, e) ↦ inl (e ∙ (rw (filled, e) at h))
        | inl e ↦ elim (Option-cases (named_state (to_lower t) state_names)) [
          | inr (code, e') ↦ absurd (
              named_state-shadowed (codes "virginia") (codes "WV") (to_lower t) state_names
                west_virginia-shadowed (e' ∙ (rw (filled, e, e') at h)))
          | inl e' ↦ inr (e', rw (filled, e, e') at h)
        ]
      ]
    ]
