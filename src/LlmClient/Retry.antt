-- ===== src/LlmClient/Retry.antt =====
-- The retries are bounded, and stop at the first answer that settles the call.
use liviq.Base.{
  ℕ, zero, suc, ◌+◌, ◌≤◌, ◌<◌, ◌≡◌, refl, ap, ◌∙◌, ◌⊎◌, inl, inr, none, some, arith, length,
  Option-cases, Bool-cases, some, sym, ltb, some_cancel,
}
use liviq.LlmClient.{
  Posted, Outcome, answered, transport_error, delivered, rejected, unavailable, settled, Tried,
  retry_from, post_with_retry,
}

-- A failure that may pass: of the transport, or a status of 500 and above.
abbrev pub IsTemporary : Posted → Type 0
IsTemporary transport_error = Unit
IsTemporary (answered status body) = 500 ≤ status

-- What a post that is not such a failure comes to.
abbrev pub Settles : Posted → Outcome → Type 0
Settles transport_error o = ⊥
Settles (answered status body) o =
    ((status < 400) × (o ≡ delivered body))
    ⊎ ((400 ≤ status) × (status < 500) × (o ≡ rejected status))

settled-IsTemporary : (p : Posted) → settled p ≡ none → IsTemporary p
unfolding settled
settled-IsTemporary transport_error e = tt
settled-IsTemporary (answered status body) e = ground arith

settled-Settles : (p : Posted) (o : Outcome) → settled p ≡ some o → Settles p o
unfolding settled
settled-Settles transport_error o e = cc
settled-Settles (answered status body) o e = elim (Bool-cases (ltb status 400)) [
  | inl fine ↦ inl (ground arith, sym (some_cancel (rw fine at e)))
  | inr bad ↦ elim (Bool-cases (ltb status 500)) [
    | inl refused ↦ inr (ground arith, ground arith, sym (some_cancel (rw (bad, refused) at e)))
    | inr broken ↦ let g : none ≡ some o = rw (bad, broken) at e in cc
  ]
]

-- The same in the words of the code.
record IsLooped (post : ℕ → Posted) (left attempt : ℕ) (t : Tried) : Type 0 where
  bounded : t.posts ≤ suc left
  waited : suc (length t.waits) ≡ t.posts
  retried : (n : ℕ) → suc n < t.posts → settled (post (attempt + n)) ≡ none
  ended :
      (n : ℕ)
      → suc n ≡ t.posts
      → (settled (post (attempt + n)) ≡ some t.outcome)
        ⊎ ((settled (post (attempt + n)) ≡ none) × (t.outcome ≡ unavailable) × (t.posts ≡ suc left))

-- A loop that starts at an attempt with as many retries left.
pub record IsTried (post : ℕ → Posted) (left attempt : ℕ) (t : Tried) : Type 0 where
  pub bounded : t.posts ≤ suc left
  pub waited : suc (length t.waits) ≡ t.posts
  pub retried : (n : ℕ) → suc n < t.posts → IsTemporary (post (attempt + n))
  pub ended :
      (n : ℕ)
      → suc n ≡ t.posts
      → Settles (post (attempt + n)) t.outcome
        ⊎ (IsTemporary (post (attempt + n)) × (t.outcome ≡ unavailable) × (t.posts ≡ suc left))

retry_from-IsLooped :
    (post : ℕ → Posted) (left attempt : ℕ)
    → IsLooped post left attempt (retry_from post left attempt)
unfolding retry_from
retry_from-IsLooped post zero attempt = elim (Option-cases (settled (post attempt))) [
  | inl e ↦
      rw (e, retry_from)
        (record {
          bounded = omega arith;
          waited = refl;
          retried = λ n h. absurd (omega arith);
          ended = λ n h. inr (at n h ∙ e, refl, refl);
        })
  | inr (o, e) ↦
      rw (e, retry_from)
        (record {
          bounded = omega arith;
          waited = refl;
          retried = λ n h. absurd (omega arith);
          ended = λ n h. inl (at n h ∙ e);
        })
]
  where
    at : (n : ℕ) → suc n ≡ 1 → settled (post (attempt + n)) ≡ settled (post attempt)
    at n h = let same : attempt + n ≡ attempt = omega arith in ap (λ (k : ℕ). settled (post k)) same
retry_from-IsLooped post (suc left) attempt = go (retry_from-IsLooped post left (suc attempt))
  where
    at : (n : ℕ) → suc n ≡ 1 → settled (post (attempt + n)) ≡ settled (post attempt)
    at n h = let same : attempt + n ≡ attempt = omega arith in ap (λ (k : ℕ). settled (post k)) same

    shift : (n : ℕ) → settled (post (attempt + suc n)) ≡ settled (post (suc attempt + n))
    shift n =
        let same : attempt + suc n ≡ suc attempt + n = omega arith in
        ap (λ (k : ℕ). settled (post k)) same

    go :
        IsLooped post left (suc attempt) (retry_from post left (suc attempt))
        → IsLooped post (suc left) attempt (retry_from post (suc left) attempt)
    go later = elim (Option-cases (settled (post attempt))) [
      | inr (o, e) ↦
          rw (e, retry_from)
            (record {
              bounded = omega arith;
              waited = refl;
              retried = λ n h. absurd (omega arith);
              ended = λ n h. inl (at n h ∙ e);
            })
      | inl e ↦
          rw (e, retry_from)
            (record {
              bounded = omega (arith, later.bounded);
              waited = omega (arith, later.waited);
              retried = λ n h. retried e n h;
              ended = λ n h. ended n h;
            })
    ]
      where
        retried :
            settled (post attempt) ≡ none
            → (n : ℕ) → suc n < suc (retry_from post left (suc attempt)).posts
            → settled (post (attempt + n)) ≡ none
        retried e zero h = at zero refl ∙ e
        retried e (suc n) h = shift n ∙ later.retried n (omega arith)

        ended :
            (n : ℕ)
            → suc n ≡ suc (retry_from post left (suc attempt)).posts
            → (settled (post (attempt + n)) ≡ some (retry_from post left (suc attempt)).outcome)
              ⊎ ((settled (post (attempt + n)) ≡ none)
                  × ((retry_from post left (suc attempt)).outcome ≡ unavailable)
                  × (suc (retry_from post left (suc attempt)).posts ≡ suc (suc left)))
        ended zero h = absurd (omega (arith, later.waited))
        ended (suc n) h = elim (later.ended n (omega arith)) [
          | inl e ↦ inl (shift n ∙ e)
          | inr (e, u, c) ↦ inr (shift n ∙ e, u, ap suc c)
        ]

IsLooped-IsTried :
    (post : ℕ → Posted) (left attempt : ℕ) (t : Tried)
    → IsLooped post left attempt t
    → IsTried post left attempt t
IsLooped-IsTried post left attempt t h = record {
  bounded = h.bounded;
  waited = h.waited;
  retried = λ n e. settled-IsTemporary _ (h.retried n e);
  ended = λ n e. elim (h.ended n e) [
    | inl f ↦ inl (settled-Settles _ _ f)
    | inr (f, u, c) ↦ inr (settled-IsTemporary _ f, u, c)
  ];
}

-- A call is posted at most three times, with one wait between two posts. Every post but the last
-- met a failure of the transport or a status of 500 and above. The last one gave a body with a
-- status below 400, or was refused with a status from 400 to 499, or met such a failure too, and
-- then it was the third and the model is unavailable.
pub post_with_retry-IsTried : (post : ℕ → Posted) → IsTried post 2 0 (post_with_retry post)
unfolding post_with_retry
post_with_retry-IsTried post = IsLooped-IsTried post 2 0 _ (retry_from-IsLooped post 2 0)
