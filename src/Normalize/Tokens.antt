-- ===== src/Normalize/Tokens.antt =====
-- The abbreviation of a token.
use open_distance.Prelude.{
  ◌≡◌, refl, none, some, List, [], ◌∷◌, All, Bool-cases, Option-cases, inl, inr,
}
use open_distance.Prelude.Dict.{lookup}
use open_distance.Text.{Text, text_eq, same_text}
use open_distance.Normalize.{suffix_abbr, dir_abbr, inherited, abbreviate}

-- A value that is found satisfies what all values do.
All-lookup :
    (P : Text → Type 0) (t v : Text) (m : List (Text × Text))
    → All (λ e. P e.1) m
    → lookup t m ≡ some v
    → P v
unfolding lookup
All-lookup P t v [] h e = absurd (let no : none ≡ some v = e in cc)
All-lookup P t v ((k, w) ∷ m) h e = elim (Bool-cases (same_text k t)) [
  | inl here ↦
      let found : some w ≡ some v = rw here at e in let same : w ≡ v = cc in rw (← same) h.0
  | inr later ↦ All-lookup P t v m h.1 (rw later at e)
]

abbrev IsShort : Text → Type 0
IsShort t = abbreviate t ≡ t

suffixes : All (λ e. IsShort e.1) suffix_abbr
unfolding abbreviate
suffixes = (
  refl,
  (
    refl,
    (
      refl,
      (
        refl,
        (
          refl,
          (
            refl,
            (
              refl,
              (
                refl,
                (
                  refl,
                  (
                    refl,
                    (
                      refl,
                      (
                        refl,
                        (
                          refl,
                          (
                            refl,
                            (
                              refl,
                              (
                                refl,
                                (
                                  refl,
                                  (
                                    refl,
                                    (
                                      refl,
                                      (
                                        refl,
                                        (
                                          refl,
                                          (
                                            refl,
                                            (
                                              refl,
                                              (
                                                refl,
                                                (
                                                  refl,
                                                  (
                                                    refl,
                                                    (
                                                      refl,
                                                      (
                                                        refl,
                                                        (refl, (refl, (refl, (refl, (refl, tt))))),
                                                      ),
                                                    ),
                                                  ),
                                                ),
                                              ),
                                            ),
                                          ),
                                        ),
                                      ),
                                    ),
                                  ),
                                ),
                              ),
                            ),
                          ),
                        ),
                      ),
                    ),
                  ),
                ),
              ),
            ),
          ),
        ),
      ),
    ),
  ),
)

directions : All (λ e. IsShort e.1) dir_abbr
unfolding abbreviate
directions = (refl, (refl, (refl, (refl, (refl, (refl, (refl, (refl, tt))))))))

abbreviate-suffix : (t s : Text) → lookup t suffix_abbr ≡ some s → abbreviate t ≡ s
unfolding abbreviate
abbreviate-suffix t s e = rw e refl

abbreviate-inherited :
    (t o : Text) → lookup t suffix_abbr ≡ none → lookup t inherited ≡ some o → abbreviate t ≡ o
unfolding abbreviate
abbreviate-inherited t o e e' = rw (e, e') refl

abbreviate-other :
    (t : Text)
    → lookup t suffix_abbr ≡ none
    → lookup t inherited ≡ none
    → abbreviate t ≡ (elim (lookup t dir_abbr) [ some d ↦ d | none ↦ t ])
unfolding abbreviate
abbreviate-other t e e' = rw (e, e') refl

objects : All (λ e. IsShort e.1) inherited
unfolding abbreviate
objects = (refl, tt)

-- Abbreviating a token twice is abbreviating it once.
pub abbreviate-abbreviate : (t : Text) → abbreviate (abbreviate t) ≡ abbreviate t
abbreviate-abbreviate t = elim (Option-cases (lookup t suffix_abbr)) [
  | inr (s, e) ↦ rw (abbreviate-suffix t s e) (All-lookup IsShort t s suffix_abbr suffixes e)
  | inl e ↦ elim (Option-cases (lookup t inherited)) [
    | inr (o, e₁) ↦ rw (abbreviate-inherited t o e e₁) (All-lookup IsShort t o inherited objects e₁)
    | inl e₁ ↦ elim (Option-cases (lookup t dir_abbr)) [
      | inr (d, e') ↦
          let here : abbreviate t ≡ d = rw e' at (abbreviate-other t e e₁) in
          rw here (All-lookup IsShort t d dir_abbr directions e')
      | inl e' ↦
          let here : abbreviate t ≡ t = rw e' at (abbreviate-other t e e₁) in rw (here, here) refl
    ]
  ]
]
