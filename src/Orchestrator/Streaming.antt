-- ===== src/Orchestrator/Streaming.antt =====
-- The tokens of the answer turn: what is shown of an answer while it still streams.
use liviq.Base.{
  ℕ, ◌≡◌, refl, sym, ap, ◌∙◌, ◌⊎◌, inl, inr, Bool, true, false, List, [], ◌∷◌, ◌++◌, arith,
  if◌then◌else◌, Text, starts_with, lstrip, Bool-cases,
}
use liviq.Orchestrator.Texts.{Gate, no_evidence_gate, no_evidence_marker, hold, fallback, flush}
use liviq.Orchestrator.Evidence.{Streamed, stream_deltas, with_token}

-- `"".join(ts)`
abbrev pub joined_text : List Text → Text
joined_text [] = []
joined_text (t ∷ ts) = t ++ joined_text ts

append_nil : {A : Type 0} (xs : List A) → xs ++ [] ≡ xs
append_nil [] = refl
append_nil (x ∷ xs) = ap (λ ys. x ∷ ys) (append_nil xs)

append_assoc : {A : Type 0} (xs ys zs : List A) → (xs ++ ys) ++ zs ≡ xs ++ (ys ++ zs)
append_assoc [] ys zs = refl
append_assoc (x ∷ xs) ys zs = ap (λ r. x ∷ r) (append_assoc xs ys zs)

-- A text that starts with p, with more behind it, starts with p.
starts_with-append : (s t p : Text) → starts_with s p ≡ true → starts_with (s ++ t) p ≡ true
unfolding starts_with
starts_with-append s t [] h = refl
starts_with-append [] t (b ∷ p) h = cc
starts_with-append (a ∷ s) t (b ∷ p) h = ground (arith, starts_with-append s t p)

-- Of two beginnings of one text, one begins the other.
starts_with-comparable :
    (s t p : Text)
    → starts_with (s ++ t) p ≡ true
    → (starts_with s p ≡ true) ⊎ (starts_with p s ≡ true)
unfolding starts_with
starts_with-comparable s t [] h = inl refl
starts_with-comparable [] t (b ∷ p) h = inr refl
starts_with-comparable (a ∷ s) t (b ∷ p) h = ground (arith, starts_with-comparable s t p)

lstrip-append :
    (is_space : ℕ → Bool) (s t : Text)
    → (lstrip is_space s ≡ []) ⊎ (lstrip is_space (s ++ t) ≡ lstrip is_space s ++ t)
unfolding lstrip
lstrip-append is_space [] t = inl refl
lstrip-append is_space (a ∷ s) t = elim (Bool-cases (is_space a)) [
  | inl space ↦ rw (space, lstrip) (lstrip-append is_space s t)
  | inr ink ↦ rw (ink, lstrip) (inr refl)
]

-- What a text starts with, it starts with in part.
starts_with-shorter : (p s t : Text) → starts_with p (s ++ t) ≡ true → starts_with p s ≡ true
unfolding starts_with
starts_with-shorter p [] t h = refl
starts_with-shorter [] (a ∷ s) t h = cc
starts_with-shorter (b ∷ p) (a ∷ s) t h = ground (arith, starts_with-shorter p s t)

starts_with-neither :
    (s t p : Text)
    → starts_with s p ≡ false
    → starts_with p s ≡ false
    → (starts_with (s ++ t) p ≡ false) × (starts_with p (s ++ t) ≡ false)
starts_with-neither s t p m k = (
  elim (Bool-cases (starts_with (s ++ t) p)) [
    | inr e ↦ e
    | inl e ↦ elim (starts_with-comparable s t p e) [ inl f ↦ cc | inr f ↦ cc ]
  ],
  elim (Bool-cases (starts_with p (s ++ t))) [
    | inr e ↦ e
    | inl e ↦ cc (starts_with-shorter p s t e)
  ],
)

module _ (is_space : ℕ → Bool) where
  abbrev marked : Text → Bool
  marked t = starts_with (lstrip is_space t) no_evidence_marker

  abbrev partly : Text → Bool
  partly t = starts_with no_evidence_marker (lstrip is_space t)

  marked-append : (s t : Text) → marked s ≡ true → marked (s ++ t) ≡ true
  unfolding starts_with
  marked-append s t h = elim (lstrip-append is_space s t) [
    | inl bare ↦ cc (sym h ∙ ap (λ r. starts_with r no_evidence_marker) bare ∙ nil)
    | inr cut ↦ rw cut (starts_with-append (lstrip is_space s) t no_evidence_marker h)
  ]
    where
      nil : starts_with [] no_evidence_marker ≡ false
      nil = refl

  unmarked-append :
      (s t : Text)
      → marked s ≡ false
      → partly s ≡ false
      → (marked (s ++ t) ≡ false) × (partly (s ++ t) ≡ false)
  unfolding starts_with
  unmarked-append s t m p = elim (lstrip-append is_space s t) [
    | inl bare ↦ cc (sym nil ∙ ap (λ r. starts_with no_evidence_marker r) (sym bare) ∙ p)
    | inr cut ↦ rw cut (starts_with-neither (lstrip is_space s) t no_evidence_marker m p)
  ]
    where
      nil : starts_with no_evidence_marker [] ≡ true
      nil = refl

  -- What the user may see of an answer: nothing of one that starts with the marker of no evidence,
  -- or that a beginning of the marker is all of, and all of any other.
  abbrev pub shown : Text → Text
  shown t =
      if starts_with (lstrip is_space t) no_evidence_marker
      then []
      else if starts_with no_evidence_marker (lstrip is_space t)
      then []
      else t

  gate-fallback_marked : (t : Text) → no_evidence_gate is_space t ≡ fallback → marked t ≡ true
  unfolding no_evidence_gate
  gate-fallback_marked t h = elim (Bool-cases (marked t)) [
    | inl m ↦ m
    | inr m ↦ elim (Bool-cases (partly t)) [ inl p ↦ cc | inr p ↦ cc ]
  ]

  gate-flush_unmarked :
      (t : Text) → no_evidence_gate is_space t ≡ flush → (marked t ≡ false) × (partly t ≡ false)
  unfolding no_evidence_gate
  gate-flush_unmarked t h = elim (Bool-cases (marked t)) [
    | inl m ↦ cc
    | inr m ↦ elim (Bool-cases (partly t)) [ inl p ↦ cc | inr p ↦ (m, p) ]
  ]

  shown-hold : (t : Text) → no_evidence_gate is_space t ≡ hold → shown t ≡ []
  unfolding no_evidence_gate
  shown-hold t h = elim (Bool-cases (marked t)) [
    | inl m ↦ rw (shown, m) refl
    | inr m ↦ elim (Bool-cases (partly t)) [ inl p ↦ rw (shown, m, p) refl | inr p ↦ cc ]
  ]

  shown-fallback : (s t : Text) → no_evidence_gate is_space s ≡ fallback → shown (s ++ t) ≡ []
  unfolding no_evidence_gate
  shown-fallback s t h = rw (shown, marked-append s t (gate-fallback_marked s h)) refl

  shown-flush : (s t : Text) → no_evidence_gate is_space s ≡ flush → shown (s ++ t) ≡ s ++ t
  unfolding no_evidence_gate
  shown-flush s t h =
      let clear : (marked (s ++ t) ≡ false) × (partly (s ++ t) ≡ false) =
        unmarked-append s t (gate-flush_unmarked s h).0 (gate-flush_unmarked s h).1 in
      rw (shown, clear.0, clear.1) refl

  joined_text-flushed :
      (joined : Text) (ds : List Text)
      → joined_text (stream_deltas is_space joined true ds).tokens ≡ joined_text ds
  unfolding stream_deltas
  joined_text-flushed joined [] = refl
  joined_text-flushed joined (d ∷ ds) = ap (λ r. d ++ r) (joined_text-flushed (joined ++ d) ds)

  joined_text-held :
      (joined : Text) (ds : List Text)
      → no_evidence_gate is_space joined ≡ hold
      → joined_text (stream_deltas is_space joined false ds).tokens
        ≡ shown (joined ++ joined_text ds)
  unfolding stream_deltas
  joined_text-held joined [] h = rw (append_nil joined) (sym (shown-hold joined h))
  joined_text-held joined (d ∷ ds) h =
      go (no_evidence_gate is_space (joined ++ d)) refl (joined_text-held (joined ++ d) ds)
      ∙ ap shown (append_assoc joined d (joined_text ds))
    where
      go :
          (g : Gate)
          → no_evidence_gate is_space (joined ++ d) ≡ g
          → (no_evidence_gate is_space (joined ++ d) ≡ hold
              → joined_text (stream_deltas is_space (joined ++ d) false ds).tokens
                ≡ shown ((joined ++ d) ++ joined_text ds))
          → joined_text
              (elim g as (λ _. Streamed) [
                | fallback ↦ record { tokens = []; joined = joined ++ d; broke = true }
                | hold ↦ stream_deltas is_space (joined ++ d) false ds
                | flush ↦ with_token (joined ++ d) (stream_deltas is_space (joined ++ d) true ds)
              ]).tokens
            ≡ shown ((joined ++ d) ++ joined_text ds)
      go fallback e later = sym (shown-fallback (joined ++ d) (joined_text ds) e)
      go hold e later = later e
      go flush e later =
          ap (λ r. (joined ++ d) ++ r) (joined_text-flushed (joined ++ d) ds)
          ∙ sym (shown-flush (joined ++ d) (joined_text ds) e)

  -- However the answer is cut into deltas, the tokens in a row are nothing, where the answer
  -- without its leading white space starts with the marker of no evidence or is a beginning of
  -- it; for any other answer they are the whole answer.
  pub joined_text-stream_deltas :
      (ds : List Text)
      → joined_text (stream_deltas is_space [] false ds).tokens ≡ shown (joined_text ds)
  unfolding no_evidence_gate lstrip starts_with
  joined_text-stream_deltas ds = joined_text-held [] ds refl
