-- ===== src/Http/Rules.antt =====
-- What holds of a handler's answer and of the state behind it: one rule for each kind of step.
use liviq.Base.{
  ℕ, ◌≡◌, ◌⊎◌, refl, inl, inr, Bool, true, false, Option, none, some, Text, if◌then◌else◌,
}
use liviq.Http.{Reply, ok, refused, Action, pure, refuse_if, or_refuse, gets, modify, ◌>>=◌, ◌>>◌}

module _ {κ} {S B : Type 0} (R : Reply B × S → Type κ) where
  pub pure_rule : (b : B) (s : S) → R (ok b, s) → R (pure b s)
  unfolding pure
  pure_rule b s h = h

  pub modify_rule : (f : S → S) (k : Action S B) (s : S) → R (k (f s)) → R ((modify f >> k) s)
  unfolding ◌>>=◌ modify
  modify_rule f k s h = h

  pub gets_rule :
      {A : Type 0} (f : S → A) (k : A → Action S B) (s : S) → R (k (f s) s) → R ((gets f >>= k) s)
  unfolding ◌>>=◌ gets
  gets_rule f k s h = h

  pub refuse_if_rule :
      (b : Bool) (status_code : ℕ) (detail : Text) (k : Action S B) (s : S)
      → R (refused status_code detail, s)
      → (b ≡ false → R (k s))
      → R ((refuse_if b status_code detail >> k) s)
  unfolding ◌>>=◌ refuse_if
  refuse_if_rule true c d k s h next = h
  refuse_if_rule false c d k s h next = next refl

  pub if_rule :
      (b : Bool) (m k : Action S B) (s : S)
      → (b ≡ true → R (m s))
      → (b ≡ false → R (k s))
      → R ((if b then m else k) s)
  if_rule true m k s h g = h refl
  if_rule false m k s h g = g refl

  pub or_refuse_rule :
      {A : Type 0} (o : Option A) (status_code : ℕ) (detail : Text) (k : A → Action S B) (s : S)
      → R (refused status_code detail, s)
      → ((a : A) → o ≡ some a → R (k a s))
      → R ((or_refuse o status_code detail >>= k) s)
  unfolding ◌>>=◌ or_refuse
  or_refuse_rule none c d k s h next = h
  or_refuse_rule (some a) c d k s h next = next a refl

  -- An action that changes nothing, whose answer is known where it gives one.
  pub reads_rule :
      {A : Type 0} (P : A → Type 0) (m : Action S A) (k : A → Action S B) (s : S)
      → ((c : ℕ) × (d : Text) × (m s ≡ (refused c d, s))) ⊎ ((a : A) × (m s ≡ (ok a, s)) × P a)
      → ((c : ℕ) (d : Text) → R (refused c d, s))
      → ((a : A) → P a → R (k a s))
      → R ((m >>= k) s)
  unfolding ◌>>=◌
  reads_rule P m k s (inl (c, d, e)) h next = rw (◌>>=◌, e) (rw e (h c d))
  reads_rule P m k s (inr (a, e, p)) h next = rw (◌>>=◌, e) (rw e (next a p))
