-- ===== src/Text.antt =====
-- The language's strings, as the lists of their code units.
use Prim.Native.Char.{code}
use Prim.Native.String.{String}
use open_distance.Prelude.{
  ℕ, Bool, true, false, ◌&&◌, ◌≡◌, ◌↔◌, List, [], ◌∷◌, nat_beq, nat_beq_iff, Eq, arith,
}

abbrev pub Text : Type 0
Text = List ℕ

-- a literal
abbrev pub codes : String → Text
codes String.[] = []
codes (String.◌∷◌ c s) = code c ∷ codes s

abbrev pub same_text : Text → Text → Bool
same_text [] [] = true
same_text (a ∷ s) (b ∷ t) = nat_beq a b && same_text s t
same_text _ _ = false

pub same_text_iff : (s t : Text) → (same_text s t ≡ true) ↔ (s ≡ t)
same_text_iff [] [] = ground arith
same_text_iff [] (b ∷ t) = ground arith
same_text_iff (a ∷ s) [] = ground arith
same_text_iff (a ∷ s) (b ∷ t) = ground (arith, nat_beq_iff a b, same_text_iff s t)

instance abbrev pub text_eq : Eq Text
text_eq = record { same = same_text; same_iff = same_text_iff }
