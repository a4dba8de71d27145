-- ===== src/Http.antt =====
-- How a request to apps/api ends, and the handlers' chain of guards and changes over the state.
pub mod Rules
use liviq.Base.{ℕ, Bool, true, false, Option, none, some, Text, if◌then◌else◌}

-- `refused` is an `HTTPException`; `crashed` an exception that no handler catches.
pub data Reply (A : Type 0) : Type 0 where
  ok : A → Reply A
  refused : (status_code : ℕ) → (detail : Text) → Reply A
  crashed : Reply A

abbrev pub is_ok : {A : Type 0} → Reply A → Bool
is_ok (ok a) = true
is_ok _ = false

-- The state comes back after an exception too: what was written before it is visible.
abbrev pub Action : Type 0 → Type 0 → Type 0
Action S A = S → Reply A × S

module _ {S A : Type 0} where
  unfoldable pub pure : A → Action S A
  pure a s = (ok a, s)

  unfoldable pub refuse : ℕ → Text → Action S A
  refuse status_code detail s = (refused status_code detail, s)

  unfoldable pub gets : (S → A) → Action S A
  gets f s = (ok (f s), s)

  unfoldable pub or_refuse : Option A → ℕ → Text → Action S A
  unfolding refuse pure
  or_refuse none status_code detail = refuse status_code detail
  or_refuse (some a) status_code detail = pure a

infixl 5 ◌>>=◌ ◌>>◌
unfoldable pub ◌>>=◌ : {S A B : Type 0} → Action S A → (A → Action S B) → Action S B
◌>>=◌ m f s =
    let (r, t) = m s in
    elim r [
      | ok a ↦ f a t
      | refused status_code detail ↦ (refused status_code detail, t)
      | crashed ↦ (crashed, t)
    ]

abbrev pub ◌>>◌ : {S B : Type 0} → Action S (Unit {0}) → Action S B → Action S B
m >> k = m >>= λ _. k

unfoldable pub refuse_if : {S : Type 0} → Bool → ℕ → Text → Action S (Unit {0})
refuse_if c status_code detail s = (if c then refused status_code detail else ok tt, s)

unfoldable pub modify : {S : Type 0} → (S → S) → Action S (Unit {0})
modify f s = (ok tt, f s)
