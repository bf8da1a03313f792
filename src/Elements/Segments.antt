-- ===== src/Elements/Segments.antt =====
-- The places of a joined text, with blanks around them and with empty places between.
use open_distance.Prelude.{
  ℕ, ◌≡◌, refl, ap, ◌∙◌, sym, map, append_assoc, Bool-cases, inl, inr, Bool, true, false, ◌&&◌,
  ◌||◌, not, some, List, [], ◌∷◌, ◌++◌, nat_beq, All, arith, if◌then◌else◌,
}
use open_distance.Text.{Text}
use open_distance.Elements.{
  bar, is_space, is_empty, trim_start, trim_end, trim, split_bars, trim_all, split_multi,
}

unfoldable pub has_bar : Text → Bool
has_bar [] = false
has_bar (c ∷ s) = nat_beq c bar || has_bar s

abbrev pub all_blank : Text → Bool
all_blank [] = true
all_blank (c ∷ s) = is_space c && all_blank s

-- a text does not start with a blank, and does not end with one
abbrev pub starts_clear : Text → Bool
starts_clear [] = true
starts_clear (c ∷ s) = not (is_space c)

abbrev pub ends_clear : Text → Bool
ends_clear [] = true
ends_clear (c ∷ []) = not (is_space c)
ends_clear (c ∷ d ∷ s) = ends_clear (d ∷ s)

-- what stands between two bars: a place, which may be empty, with blanks before and after it
pub record Segment : Type 0 where
  pub before : Text
  pub place : Text
  pub after : Text

abbrev pub written : Segment → Text
written g = g.before ++ (g.place ++ g.after)

pub record IsSegment (g : Segment) : Type 0 where
  pub barless : has_bar (written g) ≡ false
  pub before_blank : all_blank g.before ≡ true
  pub after_blank : all_blank g.after ≡ true
  pub starts : starts_clear g.place ≡ true
  pub ends : ends_clear g.place ≡ true

-- the segments with a bar between any two
unfoldable pub join_bars : Segment → List Segment → Text
join_bars g [] = written g
join_bars g (h ∷ hs) = written g ++ (bar ∷ join_bars h hs)

-- the places that are not empty, in their order
abbrev pub places : List Segment → List Text
places [] = []
places (g ∷ gs) = if is_empty g.place then places gs else g.place ∷ places gs

split_bars-last : (s : Text) → has_bar s ≡ false → split_bars s ≡ s ∷ []
unfolding split_bars has_bar
split_bars-last [] h = refl
split_bars-last (c ∷ s) h =
    let parts : (nat_beq c bar ≡ false) × (has_bar s ≡ false) = ground arith in
    rw (parts.0, split_bars-last s parts.1) refl

split_bars-append :
    (s rest : Text) → has_bar s ≡ false → split_bars (s ++ (bar ∷ rest)) ≡ s ∷ split_bars rest
unfolding split_bars has_bar
split_bars-append [] rest h = refl
split_bars-append (c ∷ s) rest h =
    let parts : (nat_beq c bar ≡ false) × (has_bar s ≡ false) = ground arith in
    rw (parts.0, split_bars-append s rest parts.1) refl

trim_end-blank : (s : Text) → all_blank s ≡ true → trim_end s ≡ []
trim_end-blank [] h = refl
trim_end-blank (c ∷ s) h = elim (Bool-cases (is_space c)) [
  | inl blank ↦
      let rest : all_blank s ≡ true = rw blank at h in rw (trim_end-blank s rest, blank) refl
  | inr other ↦ let gone : false ≡ true = rw other at h in cc
]

trim_end-append : (s after : Text) → all_blank after ≡ true → trim_end (s ++ after) ≡ trim_end s
trim_end-append [] after h = trim_end-blank after h
trim_end-append (c ∷ s) after h = rw (trim_end-append s after h) refl

trim_end-clear : (s : Text) → ends_clear s ≡ true → trim_end s ≡ s
trim_end-clear [] h = refl
trim_end-clear (c ∷ []) h = elim (Bool-cases (is_space c)) [
  | inl blank ↦ let gone : false ≡ true = rw blank at h in cc
  | inr other ↦ rw other refl
]
trim_end-clear (c ∷ d ∷ s) h = rw (trim_end-clear (d ∷ s) h) refl

ends_clear-append :
    (before : Text) (c : ℕ) (s : Text)
    → ends_clear (c ∷ s) ≡ true
    → ends_clear (before ++ (c ∷ s)) ≡ true
ends_clear-append [] c s h = h
ends_clear-append (b ∷ []) c s h = h
ends_clear-append (b ∷ b' ∷ before) c s h = ends_clear-append (b' ∷ before) c s h

trim_start-append :
    (before s : Text)
    → all_blank before ≡ true
    → starts_clear s ≡ true
    → trim_start (before ++ s) ≡ s
trim_start-append [] [] h clear = refl
trim_start-append [] (c ∷ s) h clear = elim (Bool-cases (is_space c)) [
  | inl blank ↦ let gone : false ≡ true = rw blank at clear in cc
  | inr other ↦ rw other refl
]
trim_start-append (b ∷ before) s h clear = elim (Bool-cases (is_space b)) [
  | inl blank ↦
      let rest : all_blank before ≡ true = rw blank at h in
      rw (blank, trim_start-append before s rest clear) refl
  | inr other ↦ let gone : false ≡ true = rw other at h in cc
]

trim-written :
    (before place after : Text)
    → all_blank before ≡ true
    → all_blank after ≡ true
    → starts_clear place ≡ true
    → ends_clear place ≡ true
    → trim (before ++ (place ++ after)) ≡ place
unfolding trim
trim-written before [] after b a starts ends =
    rw (trim_end-append before after a, trim_end-blank before b) refl
trim-written before (c ∷ s) after b a starts ends =
    let grouped : before ++ ((c ∷ s) ++ after) ≡ (before ++ (c ∷ s)) ++ after =
      sym (append_assoc before (c ∷ s) after) in
    rw
      (
        grouped,
        trim_end-append (before ++ (c ∷ s)) after a,
        trim_end-clear (before ++ (c ∷ s)) (ends_clear-append before c s ends),
      )
      (trim_start-append before (c ∷ s) b starts)

trim_all-written : (gs : List Segment) → All IsSegment gs → trim_all (map written gs) ≡ places gs
unfolding trim_all
trim_all-written [] h = refl
trim_all-written (g ∷ gs) (h, hs) =
    rw
      (
        trim-written g.before g.place g.after h.before_blank h.after_blank h.starts h.ends,
        trim_all-written gs hs,
      )
      refl

split_bars-join_bars :
    (g : Segment) (gs : List Segment)
    → All IsSegment (g ∷ gs)
    → split_bars (join_bars g gs) ≡ map written (g ∷ gs)
unfolding join_bars
split_bars-join_bars g [] h = split_bars-last (written g) h.0.barless
split_bars-join_bars g (i ∷ gs) h =
    rw (split_bars-append (written g) (join_bars i gs) h.0.barless, split_bars-join_bars i gs h.1)
      refl

split_multi-trim_all : (s : Text) → split_multi (some s) ≡ trim_all (split_bars s)
unfolding split_multi split_bars trim_all trim
split_multi-trim_all [] = refl
split_multi-trim_all (c ∷ s) = refl

-- Of places with a bar between any two, with blanks around them, `splitMulti` gives those that are
-- not empty, without the blanks and in their order.
pub split_multi-join_bars :
    (g : Segment) (gs : List Segment)
    → All IsSegment (g ∷ gs)
    → split_multi (some (join_bars g gs)) ≡ places (g ∷ gs)
split_multi-join_bars g gs h =
    split_multi-trim_all (join_bars g gs)
    ∙ ap trim_all (split_bars-join_bars g gs h)
    ∙ trim_all-written (g ∷ gs) h
