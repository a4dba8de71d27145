-- ===== src/Parking/Pick.antt =====
-- The nearest spot: `_pick_nearest` and `nearest_available_spots` choose the least key.
use liviq.Base.{
  ℕ, zero, suc, ◌⊎◌, ◌≡◌, refl, sym, ap, subst, ◌∙◌, Bool, true, false, Option, none, some, List,
  [], ◌∷◌, ◌++◌, if◌then◌else◌, filter, length, take, drop, Text, All, Bool-cases, inl, inr,
  some_cancel,
}
use liviq.Base.Sort.{OrderLaws, IsSorted, sorted, sorted-perm, sorted-IsSorted}
use liviq.Base.Float.{Float, FloatLaws}
use mathlib.Core.List.{Perm}
use liviq.Parking.{Spot, key_less, pick_key, better, pick_from, pick_nearest, nearest_free, is_free}
use liviq.Parking.Order.{key_less_irrefl, key_less_asym, key_less_trans}

some≢none : {A : Type 0} {a : A} → (some a ≡ none) → ⊥
some≢none e = cc

module _ (float : Float) (hypot : float.F → float.F → float.F) (laws : FloatLaws float) where
  open float use {F, lt}

  module _ (anchor : Option (F × F)) (is_candidate : Spot F → Bool) where
    abbrev key : Spot F → F × Text
    key s = pick_key float hypot anchor s

    -- `best_key` is the key of `best`.
    abbrev IsKeyed : Option ((F × Text) × Spot F) → Type 0
    IsKeyed none = Unit
    IsKeyed (some (k, b)) = (k ≡ key b) × (is_candidate b ≡ true)

    -- r is a candidate as near as the best so far and as every candidate that is left.
    abbrev pub NotAbove : Spot F → Spot F → Type 0
    NotAbove r s = is_candidate s ≡ true → key_less float hypot (key s) (key r) ≡ false

    abbrev BestAbove : Spot F → Option ((F × Text) × Spot F) → Type 0
    BestAbove r none = Unit
    BestAbove r (some (k, b)) = key_less float hypot k (key r) ≡ false

    better-IsKeyed :
        (best : Option ((F × Text) × Spot F)) (s : Spot F)
        → IsKeyed best
        → IsKeyed (better float hypot anchor is_candidate best s)
    unfolding better
    better-IsKeyed best s h = elim (Bool-cases (is_candidate s)) [
      | inr out ↦ rw (out, better) h
      | inl c ↦ rw (c, better) (go best h c)
    ]
      where
        go :
            (best : Option ((F × Text) × Spot F))
            → IsKeyed best
            → is_candidate s ≡ true
            → IsKeyed (elim best [
              | none ↦ some (key s, s)
              | some (k, b) ↦
                  if key_less float hypot (key s) k then some (key s, s) else some (k, b)
            ])
        go none h c = (refl, c)
        go (some (k, b)) h c = elim (Bool-cases (key_less float hypot (key s) k)) [
          | inl e ↦ rw e (refl, c)
          | inr e ↦ rw e h
        ]

    better-NotAbove :
        (r : Spot F) (best : Option ((F × Text) × Spot F)) (s : Spot F)
        → BestAbove r (better float hypot anchor is_candidate best s)
        → NotAbove r s × BestAbove r best
    unfolding better
    better-NotAbove r best s h = elim (Bool-cases (is_candidate s)) [
      | inr out ↦ (λ c. cc, rw out at h)
      | inl c ↦ go best (rw c at h)
    ]
      where
        go :
            (best : Option ((F × Text) × Spot F))
            → BestAbove r (elim best [
              | none ↦ some (key s, s)
              | some (k, b) ↦
                  if key_less float hypot (key s) k then some (key s, s) else some (k, b)
            ])
            → NotAbove r s × BestAbove r best
        go none h = (λ _. h, tt)
        go (some (k, b)) h = elim (Bool-cases (key_less float hypot (key s) k)) [
          | inl e ↦
              let g : key_less float hypot (key s) (key r) ≡ false = rw e at h in
              (
                λ _. g,
                key_less_trans float hypot laws (key r) (key s) k g
                    (key_less_asym float hypot laws (key s) k e),
              )
          | inr e ↦
              let g : key_less float hypot k (key r) ≡ false = rw e at h in
              (λ _. key_less_trans float hypot laws (key r) k (key s) g e, g)
        ]

    pick_from-NotAbove :
        (best : Option ((F × Text) × Spot F)) (ss : List (Spot F)) (r : Spot F)
        → IsKeyed best
        → pick_from float hypot anchor is_candidate best ss ≡ some r
        → (is_candidate r ≡ true) × BestAbove r best × All (NotAbove r) ss
    unfolding pick_from
    pick_from-NotAbove none [] r h e = cc
    pick_from-NotAbove (some (k, b)) [] r h e =
        let same : b ≡ r = some_cancel e in
        (
          ap is_candidate (sym same) ∙ h.1,
          ap (λ q. key_less float hypot q (key r)) (h.0 ∙ ap key same)
              ∙ key_less_irrefl float hypot laws (key r),
          tt,
        )
    pick_from-NotAbove best (s ∷ ss) r h e =
        let rest =
          pick_from-NotAbove (better float hypot anchor is_candidate best s) ss r
            (better-IsKeyed best s h) e in
        let here = better-NotAbove r best s rest.1 in (rest.0, here.1, (here.0, rest.2))

    better-some :
        (k : F × Text) (b s : Spot F)
        → (better float hypot anchor is_candidate (some (k, b)) s ≡ none)
        → ⊥
    unfolding better
    better-some k b s e = elim (Bool-cases (is_candidate s)) [
      | inr out ↦ some≢none (rw (out, better) at e)
      | inl c ↦ elim (Bool-cases (key_less float hypot (key s) k)) [
        | inl l ↦ some≢none (rw (c, l, better) at e)
        | inr l ↦ some≢none (rw (c, l, better) at e)
      ]
    ]

    better-none :
        (best : Option ((F × Text) × Spot F)) (s : Spot F)
        → better float hypot anchor is_candidate best s ≡ none
        → (best ≡ none) × (is_candidate s ≡ false)
    unfolding better
    better-none (some (k, b)) s e = absurd (better-some k b s e)
    better-none none s e = (
      refl,
      elim (Bool-cases (is_candidate s)) [
        | inr out ↦ out
        | inl c ↦ absurd (some≢none (rw (c, better) at e))
      ],
    )

    pick_from-none :
        (best : Option ((F × Text) × Spot F)) (ss : List (Spot F))
        → pick_from float hypot anchor is_candidate best ss ≡ none
        → (best ≡ none) × All (λ s. is_candidate s ≡ false) ss
    unfolding pick_from
    pick_from-none none [] e = (refl, tt)
    pick_from-none (some (k, b)) [] e = cc
    pick_from-none best (s ∷ ss) e =
        let rest = pick_from-none (better float hypot anchor is_candidate best s) ss e in
        let here = better-none best s rest.0 in (here.0, (here.1, rest.1))

    -- What the search owes its caller: a candidate whose key no other candidate's is below, or
    -- nothing where there is no candidate.
    abbrev pub IsNearest : List (Spot F) → Option (Spot F) → Type 0
    IsNearest spots none = All (λ s. is_candidate s ≡ false) spots
    IsNearest spots (some r) = (is_candidate r ≡ true) × All (NotAbove r) spots

    -- For any anchor and any test of candidates: a spot that `_pick_nearest` returns is a
    -- candidate, and no candidate of the list has a smaller key; where it returns none, no spot of
    -- the list is a candidate.
    pub pick_nearest-IsNearest :
        (spots : List (Spot F))
        → IsNearest spots (pick_nearest float hypot spots anchor is_candidate)
    unfolding pick_nearest
    pick_nearest-IsNearest spots = go (pick_from float hypot anchor is_candidate none spots) refl
      where
        go :
            (o : Option (Spot F))
            → pick_from float hypot anchor is_candidate none spots ≡ o
            → IsNearest spots o
        go none e = (pick_from-none none spots e).1
        go (some r) e = let (c, _, all) = pick_from-NotAbove none spots r tt e in (c, all)

  -- Of a list cut at n, the first part has n items or the second has none.
  take-or_drop_nil :
      {A : Type 0} (n : ℕ) (xs : List A) → (length (take n xs) ≡ n) ⊎ (drop n xs ≡ [])
  take-or_drop_nil zero xs = inl refl
  take-or_drop_nil (suc n) [] = inr refl
  take-or_drop_nil (suc n) (x ∷ xs) = elim (take-or_drop_nil n xs) [
    | inl e ↦ inl (ap suc e)
    | inr e ↦ inr e
  ]

  take-drop : {A : Type 0} (n : ℕ) (xs : List A) → take n xs ++ drop n xs ≡ xs
  take-drop zero xs = refl
  take-drop (suc n) [] = refl
  take-drop (suc n) (x ∷ xs) = ap (λ ys. x ∷ ys) (take-drop n xs)

  -- The spots that are offered, followed by the rest, are a permutation of the free spots in which
  -- no one has a smaller key than one before it, and there is a rest only where top_k spots are
  -- offered.
  pub nearest_free-IsSorted :
      (spots : List (Spot F)) (anchor : F × F) (occupied : List Text) (ev_preferred : Bool)
      (top_k : ℕ)
      → (rest : List (Spot F)) × Perm
          (nearest_free float hypot spots anchor occupied ev_preferred top_k ++ rest)
          (filter (λ s. is_free occupied ev_preferred s) spots)
        × IsSorted
            (λ s t.
              key_less float hypot
                (pick_key float hypot (some anchor) s)
                (pick_key float hypot (some anchor) t))
            (nearest_free float hypot spots anchor occupied ev_preferred top_k ++ rest)
        × ((length (nearest_free float hypot spots anchor occupied ev_preferred top_k) ≡ top_k)
            ⊎ (rest ≡ []))
  unfolding nearest_free
  nearest_free-IsSorted spots anchor occupied ev_preferred top_k =
      let free = filter (λ s. is_free occupied ev_preferred s) spots in
      let below : Spot F → Spot F → Bool = λ s t.
        key_less float hypot (pick_key float hypot (some anchor) s)
          (pick_key float hypot (some anchor) t) in
      let order : OrderLaws below = record {
        irrefl = λ s. key_less_irrefl float hypot laws (pick_key float hypot (some anchor) s);
        asym = λ s t.
            key_less_asym float hypot laws (pick_key float hypot (some anchor) s)
              (pick_key float hypot (some anchor) t);
        trans = λ s t u.
            key_less_trans float hypot laws (pick_key float hypot (some anchor) s)
              (pick_key float hypot (some anchor) t) (pick_key float hypot (some anchor) u);
      } in
      (
        drop top_k (sorted below free),
        rw (take-drop top_k (sorted below free)) (sorted-perm below free),
        rw (take-drop top_k (sorted below free)) (sorted-IsSorted below order free),
        take-or_drop_nil top_k (sorted below free),
      )

module _ (float : Float) (hypot : float.F → float.F → float.F) (anchor : Option (float.F × float.F))
    (is_candidate : Spot float.F → Bool) (P : Spot float.F → Type 0) where
  abbrev BestHas : Option ((float.F × Text) × Spot float.F) → Type 0
  BestHas none = Unit
  BestHas (some (k, b)) = P b × (is_candidate b ≡ true)

  better_has :
      (best : Option ((float.F × Text) × Spot float.F)) (s : Spot float.F)
      → P s
      → BestHas best
      → BestHas (better float hypot anchor is_candidate best s)
  unfolding better
  better_has best s p h = elim (Bool-cases (is_candidate s)) [
    | inr out ↦ rw (out, better) h
    | inl c ↦ rw (c, better) (go best c h)
  ]
    where
      go :
          (best : Option ((float.F × Text) × Spot float.F))
          → is_candidate s ≡ true
          → BestHas best
          → BestHas (elim best [
            | none ↦ some (pick_key float hypot anchor s, s)
            | some (k, b) ↦
                if key_less float hypot (pick_key float hypot anchor s) k
                then some (pick_key float hypot anchor s, s)
                else some (k, b)
          ])
      go none c h = (p, c)
      go (some (k, b)) c h =
          elim (Bool-cases (key_less float hypot (pick_key float hypot anchor s) k)) [
            | inl e ↦ rw e (p, c)
            | inr e ↦ rw e h
          ]

  pick_from_has :
      (best : Option ((float.F × Text) × Spot float.F)) (ss : List (Spot float.F))
      (r : Spot float.F)
      → All P ss
      → BestHas best
      → pick_from float hypot anchor is_candidate best ss ≡ some r
      → P r × (is_candidate r ≡ true)
  unfolding pick_from
  pick_from_has none [] r a h e = cc
  pick_from_has (some (k, b)) [] r a h e =
      subst (λ q. P q × (is_candidate q ≡ true)) (some_cancel e) h
  pick_from_has best (s ∷ ss) r a h e =
      pick_from_has (better float hypot anchor is_candidate best s) ss r a.1
        (better_has best s a.0 h) e

  -- Whatever holds of every spot holds of the one that is picked, and it is a candidate.
  pub pick_nearest_has :
      (spots : List (Spot float.F)) (r : Spot float.F)
      → All P spots
      → pick_nearest float hypot spots anchor is_candidate ≡ some r
      → P r × (is_candidate r ≡ true)
  unfolding pick_nearest
  pick_nearest_has spots r a e = pick_from_has none spots r a tt e
