-- ===== src/Base/Sort.antt =====
-- `sorted(xs, key=…)`: a stable sort. `below x y` says that the key of `x` is smaller.
use mathlib.Core.List.{Perm}
use mathlib.Core.List.Perm
use mathlib.Core.Path.{◌≡◌}
use mathlib.Core.Bool.{Bool, true, false}
use mathlib.Core.Logic.{inl, inr}
use mathlib.Core.List.{List, [], ◌∷◌}
use liviq.Base.Tests.{if◌then◌else◌, Bool-cases}
use liviq.Base.Lists.{All, All-map_weaken}

module _ {ℓ} {A : Type ℓ} (below : A → A → Bool) where
  unfoldable pub insert : A → List A → List A
  insert x [] = x ∷ []
  insert x (y ∷ ys) = if below y x then y ∷ insert x ys else x ∷ y ∷ ys

  unfoldable pub sorted : List A → List A
  unfolding insert
  sorted [] = []
  sorted (x ∷ xs) = insert x (sorted xs)

  insert-perm : (x : A) (ys : List A) → Perm (insert x ys) (x ∷ ys)
  unfolding insert
  insert-perm x [] = Perm.refl (x ∷ [])
  insert-perm x (y ∷ ys) = elim (Bool-cases (below y x)) [
    | inl b ↦ rw b (Perm.trans (Perm.cons y (insert-perm x ys)) (Perm.swap x y ys))
    | inr b ↦ rw b (Perm.refl (x ∷ y ∷ ys))
  ]

  pub sorted-perm : (xs : List A) → Perm (sorted xs) xs
  unfolding sorted
  sorted-perm [] = Perm.refl []
  sorted-perm (x ∷ xs) = Perm.trans (insert-perm x (sorted xs)) (Perm.cons x (sorted-perm xs))

  module _ {κ} (P : A → Type κ) where
    All-insert : (x : A) (ys : List A) → P x → All P ys → All P (insert x ys)
    unfolding insert
    All-insert x [] p h = (p, tt)
    All-insert x (y ∷ ys) p h = elim (Bool-cases (below y x)) [
      | inl b ↦ rw b (h.0, All-insert x ys p h.1)
      | inr b ↦ rw b (p, h)
    ]

    All-of_insert : (x : A) (ys : List A) → All P (insert x ys) → P x × All P ys
    unfolding insert
    All-of_insert x [] h = h
    All-of_insert x (y ∷ ys) h = elim (Bool-cases (below y x)) [
      | inl b ↦
          let g : All P (y ∷ insert x ys) = rw b at h in
          let (px, rest) = All-of_insert x ys g.1 in (px, (g.0, rest))
      | inr b ↦ rw b at h
    ]

    -- What holds of every item holds of every item sorted, and the other way round.
    pub All-sorted : (xs : List A) → All P xs → All P (sorted xs)
    unfolding sorted
    All-sorted [] h = tt
    All-sorted (x ∷ xs) h = All-insert x (sorted xs) h.0 (All-sorted xs h.1)

    pub All-of_sorted : (xs : List A) → All P (sorted xs) → All P xs
    unfolding sorted
    All-of_sorted [] h = tt
    All-of_sorted (x ∷ xs) h =
        let (p, rest) = All-of_insert x (sorted xs) h in (p, All-of_sorted xs rest)

  -- What a test of order owes a sort: `below` is a strict order whose negation is transitive.
  pub record OrderLaws : Type ℓ where
    pub irrefl : (a : A) → below a a ≡ false
    pub asym : (a b : A) → below a b ≡ true → below b a ≡ false
    pub trans : (a b c : A) → below b a ≡ false → below c b ≡ false → below c a ≡ false

  -- No item stands behind one that it is below.
  abbrev pub IsSorted : List A → Type 0
  IsSorted [] = Unit
  IsSorted (x ∷ xs) = All (λ y. below y x ≡ false) xs × IsSorted xs

  insert-IsSorted : (laws : OrderLaws) (x : A) (ys : List A) → IsSorted ys → IsSorted (insert x ys)
  unfolding insert
  insert-IsSorted laws x [] h = (tt, tt)
  insert-IsSorted laws x (y ∷ ys) h = elim (Bool-cases (below y x)) [
    | inl b ↦ rw b (
      All-insert (λ z. below z y ≡ false) x ys (laws.asym y x b) h.0,
      insert-IsSorted laws x ys h.1,
    )
    | inr b ↦ rw b (
      (
        b,
        All-map_weaken (λ z. below z y ≡ false) (λ z. below z x ≡ false) ys
            (λ z c. laws.trans x y z b c) h.0,
      ),
      h,
    )
  ]

  pub sorted-IsSorted : (laws : OrderLaws) (xs : List A) → IsSorted (sorted xs)
  unfolding sorted
  sorted-IsSorted laws [] = tt
  sorted-IsSorted laws (x ∷ xs) = insert-IsSorted laws x (sorted xs) (sorted-IsSorted laws xs)
