-- ===== src/Confidence.antt =====
-- packages/ai-core/src/ai_core/confidence.py: the confidence of an answer.
use liviq.Base.{
  ℕ, ◌≤◌, ◌<◌, ◌≡◌, refl, Bool, true, false, arith, if◌then◌else◌, Bool-cases, inl, inr,
}
use liviq.Base.Float.{Float, FloatLaws, AtMost, max_of, min_of}

pub record ConfidenceVerdict (F : Type 0) : Type 0 where
  pub score : F
  pub should_fallback : Bool
  pub needs_review : Bool

-- `a` only where `b`
abbrev pub implied : Bool → Bool → Bool
implied true b = b
implied false b = true

module _ (f : Float) where
  open f use {F, lt, add, sub, mul, round3, of_nat, lit}

  abbrev pub retrieval_weight : F
  retrieval_weight = lit 6 10

  abbrev pub citation_weight : F
  citation_weight = lit 4 10

  abbrev pub fallback_threshold : F
  fallback_threshold = lit 45 100

  abbrev pub review_threshold : F
  review_threshold = lit 65 100

  unfoldable pub citation_score : Bool → ℕ → F
  citation_score citations_valid invalid_citation_count = max_of f (lit 0 1) (
      sub (if citations_valid then lit 1 1 else lit 0 1)
        (mul (lit 2 10) (of_nat invalid_citation_count)))

  unfoldable pub raw_score : F → Bool → ℕ → F
  raw_score top_retrieval_score citations_valid invalid_citation_count =
      add (mul retrieval_weight (max_of f (lit 0 1) (min_of f (lit 1 1) top_retrieval_score)))
        (mul citation_weight (citation_score citations_valid invalid_citation_count))

  unfoldable pub assess : F → Bool → ℕ → ConfidenceVerdict F
  assess top_retrieval_score citations_valid invalid_citation_count =
      let score = round3 (raw_score top_retrieval_score citations_valid invalid_citation_count) in
      record {
        score = score;
        should_fallback = lt score fallback_threshold;
        needs_review = lt score review_threshold;
      }

  module _ (laws : FloatLaws f) where
    max_mono : (c a b : F) → AtMost f a b → AtMost f (max_of f c a) (max_of f c b)
    max_mono c a b h = elim (Bool-cases (lt c a)) [
      | inl ca ↦ elim (Bool-cases (lt c b)) [
        | inl cb ↦ rw (ca, cb) h
        | inr cb ↦ rw (ca, cb) (laws.trans a b c h cb)
      ]
      | inr ca ↦ elim (Bool-cases (lt c b)) [
        | inl cb ↦ rw (ca, cb) (laws.lt_le c b cb)
        | inr cb ↦ rw (ca, cb) (laws.irrefl c)
      ]
    ]

    min_mono : (c a b : F) → AtMost f a b → AtMost f (min_of f c a) (min_of f c b)
    min_mono c a b h = elim (Bool-cases (lt a c)) [
      | inl ac ↦ elim (Bool-cases (lt b c)) [
        | inl bc ↦ rw (ac, bc) h
        | inr bc ↦ rw (ac, bc) (laws.lt_le a c ac)
      ]
      | inr ac ↦ elim (Bool-cases (lt b c)) [
        | inl bc ↦ rw (ac, bc) (laws.trans c a b ac h)
        | inr bc ↦ rw (ac, bc) (laws.irrefl c)
      ]
    ]

    -- `bool` arguments: true is at least false
    abbrev Implies : Bool → Bool → Type 0
    Implies a b = a ≡ true → b ≡ true

    start_mono :
        (v w : Bool)
        → Implies v w
        → AtMost f (if v then lit 1 1 else lit 0 1) (if w then lit 1 1 else lit 0 1)
    start_mono true true i = laws.irrefl (lit 1 1)
    start_mono true false i = cc (i refl)
    start_mono false true i = laws.lit_mono 0 1 1 1 (omega arith) (omega arith) (omega arith)
    start_mono false false i = laws.irrefl (lit 0 1)

    nonneg : (n d : ℕ) → 0 < d → AtMost f (lit 0 1) (lit n d)
    nonneg n d pos = laws.lit_mono 0 1 n d (omega arith) pos (omega arith)

    citation_score_mono :
        (v w : Bool) (m n : ℕ)
        → Implies v w
        → n ≤ m
        → AtMost f (citation_score v m) (citation_score w n)
    unfolding citation_score
    citation_score_mono v w m n i le = max_mono (lit 0 1) _ _ (
        laws.sub_mono _ _ _ _ (start_mono v w i)
          (laws.mul_mono _ _ (lit 2 10) (nonneg 2 10 (omega arith)) (laws.of_nat_mono n m le)))

    raw_score_mono :
        (s t : F) (v w : Bool) (m n : ℕ)
        → AtMost f s t
        → Implies v w
        → n ≤ m
        → AtMost f (raw_score s v m) (raw_score t w n)
    unfolding raw_score
    raw_score_mono s t v w m n st i le =
        laws.add_mono _ _ _ _
          (laws.mul_mono _ _ retrieval_weight (nonneg 6 10 (omega arith))
            (max_mono (lit 0 1) _ _ (min_mono (lit 1 1) s t st)))
          (laws.mul_mono _ _ citation_weight (nonneg 4 10 (omega arith))
            (citation_score_mono v w m n i le))

    below_mono : (a b c : F) → AtMost f a b → lt b c ≡ true → lt a c ≡ true
    below_mono a b c ab bc = elim (Bool-cases (lt a c)) [
      | inl yes_below ↦ yes_below
      | inr at_least ↦ cc (laws.trans c a b at_least ab, bc)
    ]

    implied-true : (a b : Bool) → (a ≡ true → b ≡ true) → implied a b ≡ true
    implied-true true b h = h refl
    implied-true false b h = refl

    below_up : (a c d : F) → AtMost f c d → lt a c ≡ true → lt a d ≡ true
    below_up a c d cd ac = elim (Bool-cases (lt a d)) [
      | inl yes_below ↦ yes_below
      | inr at_least ↦ cc (laws.trans c d a cd at_least, ac)
    ]

    -- Under the laws of `FloatLaws`, better evidence never turns an answer into a fallback or a
    -- review: with a retrieval score no lower, citations no less valid and no more invalid
    -- references, the score is no lower, and each flag that is raised was raised before. Whatever
    -- the evidence, a fallback is flagged for review.
    pub assess_mono :
        (s t : F) (v w : Bool) (m n : ℕ)
        → AtMost f s t
        → (v ≡ true → w ≡ true)
        → n ≤ m
        → AtMost f (assess s v m).score (assess t w n).score
          × (implied (assess t w n).should_fallback (assess s v m).should_fallback ≡ true)
          × (implied (assess t w n).needs_review (assess s v m).needs_review ≡ true)
          × (implied (assess s v m).should_fallback (assess s v m).needs_review ≡ true)
    unfolding assess
    assess_mono s t v w m n st i le =
        let a = round3 (raw_score s v m) in
        let b = round3 (raw_score t w n) in
        let ab = laws.round3_mono _ _ (raw_score_mono s t v w m n st i le) in
        let low_high = laws.lit_mono 45 100 65 100 (omega arith) (omega arith) (omega arith) in
        (
          ab,
          implied-true _ _ (below_mono a b fallback_threshold ab),
          implied-true _ _ (below_mono a b review_threshold ab),
          implied-true _ _ (below_up a fallback_threshold review_threshold low_high),
        )
