-- ===== src/Parking/Order.antt =====
-- The orders by which cars are sorted and spots compared.
use liviq.Base.{◌≡◌, refl, true, false, [], ◌∷◌, arith, Text}
use liviq.Base.Sort.{OrderLaws}
use liviq.Base.Float.{Float, FloatLaws}
use liviq.Parking.{text_lt, key_less}

text_lt_irrefl : (s : Text) → text_lt s s ≡ false
unfolding text_lt
text_lt_irrefl [] = refl
text_lt_irrefl (a ∷ s) = ground (arith, text_lt_irrefl s)

text_lt_asym : (s t : Text) → text_lt s t ≡ true → text_lt t s ≡ false
unfolding text_lt
text_lt_asym [] [] h = refl
text_lt_asym [] (b ∷ t) h = refl
text_lt_asym (a ∷ s) [] h = cc
text_lt_asym (a ∷ s) (b ∷ t) h = ground (arith, text_lt_asym s t)

text_lt_trans : (s t u : Text) → text_lt t s ≡ false → text_lt u t ≡ false → text_lt u s ≡ false
unfolding text_lt
text_lt_trans [] [] u h k = k
text_lt_trans [] (b ∷ t) [] h k = refl
text_lt_trans [] (b ∷ t) (c ∷ u) h k = refl
text_lt_trans (a ∷ s) [] u h k = cc
text_lt_trans (a ∷ s) (b ∷ t) [] h k = cc
text_lt_trans (a ∷ s) (b ∷ t) (c ∷ u) h k = ground (arith, text_lt_trans s t u)

pub text_lt-OrderLaws : OrderLaws text_lt
text_lt-OrderLaws = record { irrefl = text_lt_irrefl; asym = text_lt_asym; trans = text_lt_trans }

module _ (float : Float) (hypot : float.F → float.F → float.F) (laws : FloatLaws float) where
  open float use {F, lt}

  pub key_less_irrefl : (p : F × Text) → key_less float hypot p p ≡ false
  unfolding key_less
  key_less_irrefl (a, s) = rw (laws.irrefl a, key_less) (text_lt_irrefl s)

  pub key_less_asym :
      (p q : F × Text) → key_less float hypot p q ≡ true → key_less float hypot q p ≡ false
  unfolding key_less
  key_less_asym (a, s) (b, t) h = ground (arith, laws.lt_le a b, text_lt_asym s t)

  pub key_less_trans :
      (p q r : F × Text)
      → key_less float hypot q p ≡ false
      → key_less float hypot r q ≡ false
      → key_less float hypot r p ≡ false
  unfolding key_less
  key_less_trans (a, s) (b, t) (c, u) h k = ground (
    arith,
    laws.trans a b c,
    laws.trans b c a,
    laws.trans c a b,
    laws.lt_le a b,
    laws.lt_le b c,
    text_lt_trans s t u,
  )

  pub key_less-OrderLaws : OrderLaws (key_less float hypot)
  key_less-OrderLaws = record {
    irrefl = key_less_irrefl;
    asym = key_less_asym;
    trans = key_less_trans;
  }
