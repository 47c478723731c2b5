-- ===== src/Matchmaking/Engine/Pairs/Keys.antt =====
-- When two pairs have the same key (pairKey of engine.go).
use Prim.Native.Char.{Char, code}
use text.Mathlib.TextLemmas.{nil-append, cons-append, head-eq_of_cons-eq, tail-eq_of_cons-eq}
use match_mate_dating_web.Base.{
  ◌≡◌, refl, sym, ap, ◌∙◌, true, ◌⊎◌, inl, inr, String, arith, Bool-cases,
}
use match_mate_dating_web.Base.Numerals.RoundTrip.{has_no_bar}
use match_mate_dating_web.Base.Text.{◌<>◌}
use match_mate_dating_web.Matchmaking.Engine.Pairs.{pair_key, text_less}

starts_at_bar : (t : String) → "" <> "|" <> t ≡ String.◌∷◌ "|" t
starts_at_bar t = rw (nil-append ("|" <> t), cons-append "|" "" t, nil-append t) refl

-- The text before the first bar and the text behind it.
bar_inj :
    (s t u v : String)
    → has_no_bar s ≡ true
    → has_no_bar u ≡ true
    → s <> "|" <> t ≡ u <> "|" <> v
    → (s ≡ u) × (t ≡ v)
unfolding has_no_bar
bar_inj String.[] t String.[] v h k e =
    (refl, tail-eq_of_cons-eq (sym (starts_at_bar t) ∙ e ∙ starts_at_bar v))
bar_inj String.[] t (String.◌∷◌ d u) v h k e =
    let first : ◌≡◌ {A = Char} "|" d =
      head-eq_of_cons-eq (sym (starts_at_bar t) ∙ e ∙ cons-append d u ("|" <> v)) in
    absurd (ground (arith, k, ap code first))
bar_inj (String.◌∷◌ c s) t String.[] v h k e =
    let first : ◌≡◌ {A = Char} "|" c =
      head-eq_of_cons-eq (sym (starts_at_bar v) ∙ sym e ∙ cons-append c s ("|" <> t)) in
    absurd (ground (arith, h, ap code first))
bar_inj (String.◌∷◌ c s) t (String.◌∷◌ d u) v h k e =
    let both = sym (cons-append c s ("|" <> t)) ∙ e ∙ cons-append d u ("|" <> v) in
    let (same, behind) =
      bar_inj s t u v (ground (arith, h)) (ground (arith, k)) (tail-eq_of_cons-eq both) in
    (ap (λ x. String.◌∷◌ x s) (head-eq_of_cons-eq both) ∙ ap (λ x. String.◌∷◌ d x) same, behind)

-- The key of a pair is the two texts in one order or the other.
pair_key-cases : (a b : String) → (pair_key a b ≡ a <> "|" <> b) ⊎ (pair_key a b ≡ b <> "|" <> a)
unfolding pair_key
pair_key-cases a b = elim (Bool-cases (text_less a b)) [
  | inl before ↦ inl (rw before refl)
  | inr after ↦ inr (rw after refl)
]

-- Pairs of texts without bars that have the same key are the same up to their order.
pub pair_key_inj :
    (a b c d : String)
    → has_no_bar a ≡ true
    → has_no_bar b ≡ true
    → has_no_bar c ≡ true
    → has_no_bar d ≡ true
    → pair_key a b ≡ pair_key c d
    → ((a ≡ c) × (b ≡ d)) ⊎ ((a ≡ d) × (b ≡ c))
pair_key_inj a b c d ha hb hc hd e = elim (pair_key-cases a b) [
  | inl ab ↦ elim (pair_key-cases c d) [
    | inl cd ↦ inl (bar_inj a b c d ha hc (sym ab ∙ e ∙ cd))
    | inr dc ↦ inr (bar_inj a b d c ha hd (sym ab ∙ e ∙ dc))
  ]
  | inr ba ↦ elim (pair_key-cases c d) [
    | inl cd ↦ let (bc, ad) = bar_inj b a c d hb hc (sym ba ∙ e ∙ cd) in inr (ad, bc)
    | inr dc ↦ let (bd, ac) = bar_inj b a d c hb hd (sym ba ∙ e ∙ dc) in inl (ac, bd)
  ]
]
