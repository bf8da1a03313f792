-- ===== src/Matrix/Keys.antt =====
-- The keys of the leg cache tell the legs of one version apart.
use open_distance.Prelude.{
  suc, ◌≡◌, refl, sym, ap, ◌∙◌, true, false, [], ◌∷◌, ◌++◌, arith, append_assoc,
}
use open_distance.Prelude.Int.{ℤ}
use open_distance.Text.{Text, text_eq, codes}
use open_distance.Router.{NodeRef}
use open_distance.Decimal.{show_nat, show_int}
use open_distance.Decimal.RoundTrip.{Stops, show_nat-inj, show_nat-head}
use open_distance.Matrix.{node_id_str, leg_cache_key}

show_int-inj :
    (a b : ℤ) (s t : Text)
    → Stops s
    → Stops t
    → show_int a ++ s ≡ show_int b ++ t
    → (a ≡ b) × (s ≡ t)
unfolding show_int
show_int-inj (ℤ.pos n) (ℤ.pos m) s t hs ht e =
    let (same, rest) = show_nat-inj n m s t hs ht e in (rw same, rest)
show_int-inj (ℤ.negsuc n) (ℤ.negsuc m) s t hs ht e =
    let tails : show_nat (suc n) ++ s ≡ show_nat (suc m) ++ t = cc in
    let (same, rest) = show_nat-inj (suc n) (suc m) s t hs ht tails in
    let heads : n ≡ m = omega arith in (rw heads, rest)
show_int-inj (ℤ.pos n) (ℤ.negsuc m) s t hs ht e =
    let (c, r, shown, digit) = show_nat-head n in
    let clash : c ∷ (r ++ s) ≡ 45 ∷ (show_nat (suc m) ++ t) = rw shown at e in
    let minus : c ≡ 45 = cc in let gone : false ≡ true = rw minus at digit in cc
show_int-inj (ℤ.negsuc n) (ℤ.pos m) s t hs ht e =
    let (c, r, shown, digit) = show_nat-head m in
    let clash : 45 ∷ (show_nat (suc n) ++ s) ≡ c ∷ (r ++ t) = rw shown at e in
    let minus : c ≡ 45 = cc in let gone : false ≡ true = rw minus at digit in cc

node_id_str-append :
    (n : NodeRef) (s : Text)
    → node_id_str n ++ s ≡ show_int n.tx ++ (44 ∷ (show_int n.ty ++ (44 ∷ (show_nat n.dense ++ s))))
unfolding node_id_str
node_id_str-append n s = rw (
  append_assoc (show_int n.tx) (44 ∷ (show_int n.ty ++ (44 ∷ show_nat n.dense))) s,
  append_assoc (show_int n.ty) (44 ∷ show_nat n.dense) s,
)

node_eq : (a b : NodeRef) → a.tx ≡ b.tx → a.ty ≡ b.ty → a.dense ≡ b.dense → a ≡ b
node_eq a b x y z =
    ap (λ v. record { tx = v; ty = a.ty; dense = a.dense }) x
    ∙ ap (λ v. record { tx = b.tx; ty = v; dense = a.dense }) y
    ∙ ap (λ v. record { tx = b.tx; ty = b.ty; dense = v }) z

pub node_id_str-inj :
    (a b : NodeRef) (s t : Text)
    → Stops s
    → Stops t
    → node_id_str a ++ s ≡ node_id_str b ++ t
    → (a ≡ b) × (s ≡ t)
unfolding node_id_str Stops
node_id_str-inj a b s t hs ht e =
    let e₀ = sym (node_id_str-append a s) ∙ e ∙ node_id_str-append b t in
    let (x, e₁) = show_int-inj a.tx b.tx _ _ refl refl e₀ in
    let e₂ : show_int a.ty ++ (44 ∷ (show_nat a.dense ++ s))
        ≡ show_int b.ty ++ (44 ∷ (show_nat b.dense ++ t)) =
      cc in
    let (y, e₃) = show_int-inj a.ty b.ty _ _ refl refl e₂ in
    let e₄ : show_nat a.dense ++ s ≡ show_nat b.dense ++ t = cc in
    let (z, e₅) = show_nat-inj a.dense b.dense s t hs ht e₄ in (node_eq a b x y z, e₅)

prefix-inj : (p : Text) (s t : Text) → p ++ s ≡ p ++ t → s ≡ t
prefix-inj [] s t e = e
prefix-inj (c ∷ p) s t e = let e' : p ++ s ≡ p ++ t = cc in prefix-inj p s t e'

-- Two keys of one version are equal only for the same source and the same destination.
pub leg_cache_key-inj :
    (version : Text) (src dst src' dst' : NodeRef)
    → leg_cache_key version src dst ≡ leg_cache_key version src' dst'
    → (src ≡ src') × (dst ≡ dst')
unfolding leg_cache_key Stops
leg_cache_key-inj version src dst src' dst' e =
    let e₁ = prefix-inj version _ _ (prefix-inj (codes "leg2:") _ _ e) in
    let e₂ : node_id_str src ++ (58 ∷ (node_id_str dst ++ codes ":driving"))
        ≡ node_id_str src' ++ (58 ∷ (node_id_str dst' ++ codes ":driving")) =
      cc in
    let (from, e₃) = node_id_str-inj src src' _ _ refl refl e₂ in
    let e₄ : node_id_str dst ++ codes ":driving" ≡ node_id_str dst' ++ codes ":driving" = cc in
    (from, (node_id_str-inj dst dst' _ _ refl refl e₄).0)
