-- ===== src/History/Select.antt =====
-- What is kept of a conversation.
use mathlib.Core.List.{foldl, flatten, append-nil, append_assoc}
use liviq.Base.{
  ℕ, ◌+◌, ◌≤◌, ◌≡◌, refl, sym, subst, ap, ◌∙◌, Bool, true, false, ◌||◌, not, List, [], ◌∷◌, ◌++◌,
  arith, if◌then◌else◌, ltb, ◌==◌, length, filter, take, leb, is_empty, any, Text, codes, text_eq,
  strip, Bool-cases, inl, inr, length-take, length-append, length-map,
}
use liviq.Base.Sort.{sorted}
use liviq.History.{
  Message, Turn, add_to_last, add_message, group_turns, pick_turns, chosen_indices, relevant_turns,
  select_relevant_messages, scored_from, ranks_above, history_inject_turns, bigrams, Ratio,
}

flatten-append : (ts us : List Turn) → flatten (ts ++ us) ≡ flatten ts ++ flatten us
unfolding flatten
flatten-append [] us = refl
flatten-append (t ∷ ts) us =
    ap (λ (ms : List Message). t ++ ms) (flatten-append ts us)
    ∙ sym (append_assoc t (flatten ts) (flatten us))

flatten-add_to_last :
    (t : Turn) (ts : List Turn) (m : Message)
    → flatten (add_to_last (t ∷ ts) m) ≡ flatten (t ∷ ts) ++ m ∷ []
unfolding add_to_last flatten
flatten-add_to_last t [] m = simp (append-nil)
flatten-add_to_last t (u ∷ ts) m =
    ap (λ (ms : List Message). t ++ ms) (flatten-add_to_last u ts m)
    ∙ sym (append_assoc t (flatten (u ∷ ts)) (m ∷ []))

module _ (is_space : ℕ → Bool) where
  -- A message with a text that is not blank.
  abbrev pub has_text : Message → Bool
  has_text (role, content) = not (is_empty (strip is_space content))

  flatten-add_message :
      (turns : List Turn) (m : Message)
      → flatten (add_message is_space turns m)
        ≡ flatten turns ++ (if has_text m then m ∷ [] else [])
  unfolding add_message flatten
  flatten-add_message turns (role, content) =
      elim (Bool-cases (is_empty (strip is_space content))) [
        | inl blank ↦ rw blank (sym (append-nil (flatten turns)))
        | inr full ↦ rw full (grown turns)
      ]
    where
      grown :
          (ts : List Turn)
          → flatten (
              if text_eq role (codes "user") || is_empty ts
              then ts ++ ((role, content) ∷ []) ∷ []
              else add_to_last ts (role, content))
            ≡ flatten ts ++ (role, content) ∷ []
      grown [] = elim (Bool-cases (text_eq role (codes "user"))) [ inl u ↦ rw u | inr u ↦ rw u ]
      grown (t ∷ ts) = elim (Bool-cases (text_eq role (codes "user"))) [
        | inl u ↦ rw u (flatten-append (t ∷ ts) (((role, content) ∷ []) ∷ []))
        | inr u ↦ rw u (flatten-add_to_last t ts (role, content))
      ]

  flatten-foldl :
      (turns : List Turn) (ms : List Message)
      → flatten (foldl (add_message is_space) turns ms) ≡ flatten turns ++ filter has_text ms
  flatten-foldl turns [] = sym (append-nil (flatten turns))
  flatten-foldl turns (m ∷ ms) =
      flatten-foldl (add_message is_space turns m) ms
      ∙ ap (λ (l : List Message). l ++ filter has_text ms) (flatten-add_message turns m)
      ∙ append_assoc (flatten turns) (if has_text m then m ∷ [] else []) (filter has_text ms)
      ∙ ap (λ (l : List Message). flatten turns ++ l) (split m ms)
    where
      split :
          (m : Message) (ms : List Message)
          → (if has_text m then m ∷ [] else []) ++ filter has_text ms ≡ filter has_text (m ∷ ms)
      split m ms = elim (Bool-cases (has_text m)) [ inl h ↦ rw h | inr h ↦ rw h ]

  -- Grouping into turns loses no message and keeps the order: the turns in a row are the messages
  -- that have a text.
  pub flatten-group_turns :
      (ms : List Message) → flatten (group_turns is_space ms) ≡ filter has_text ms
  unfolding group_turns flatten
  flatten-group_turns ms = flatten-foldl [] ms

count_from :
    (i : ℕ) (c : List ℕ)
    → length (filter (λ j. leb (i + 1) j) c) + (if any (λ j. i == j) c then 1 else 0)
      ≤ length (filter (λ j. leb i j) c)
count_from i [] = omega arith
count_from i (j ∷ c) = ground (arith, count_from i c)

length-pick_turns :
    (i : ℕ) (c : List ℕ) (ts : List Turn)
    → length (pick_turns i c ts) ≤ length (filter (λ j. leb i j) c)
unfolding pick_turns
length-pick_turns i c [] = omega arith
length-pick_turns i c (t ∷ ts) = ground (arith, length-pick_turns (i + 1) c ts, count_from i c)

length-filter-le {ℓ} : {A : Type ℓ} (p : A → Bool) (xs : List A) → length (filter p xs) ≤ length xs
length-filter-le p [] = omega arith
length-filter-le p (x ∷ xs) = ground (arith, length-filter-le p xs)

pick_turns-last :
    (i : ℕ) (c : List ℕ) (ts : List Turn) (t : Turn)
    → any (λ j. i + length ts == j) c ≡ true
    → pick_turns i c (ts ++ t ∷ []) ≡ pick_turns i c ts ++ t ∷ []
unfolding pick_turns
pick_turns-last i c [] t h =
    let here : any (λ j. i == j) c ≡ true =
      subst (λ (k : ℕ). any (λ j. k == j) c ≡ true) (omega arith) h in
    rw here
pick_turns-last i c (u ∷ ts) t h =
    let later : any (λ j. i + 1 + length ts == j) c ≡ true =
      subst (λ (k : ℕ). any (λ j. k == j) c ≡ true) (omega arith) h in
    let first = (if any (λ j. i == j) c then u ∷ [] else []) in
    ap (λ (l : List Turn). first ++ l) (pick_turns-last (i + 1) c ts t later)
    ∙ sym (append_assoc first (pick_turns (i + 1) c ts) (t ∷ []))

is_empty-snoc : (ts : List Turn) (t : Turn) → is_empty (ts ++ t ∷ []) ≡ false
is_empty-snoc [] t = refl
is_empty-snoc (u ∷ ts) t = refl

module _ (is_space is_word : ℕ → Bool) (question : Text) (messages : List Message) where
  abbrev pub indices : List ℕ
  indices = chosen_indices is_word (bigrams is_word question) (group_turns is_space messages)

  length-indices : length indices ≤ history_inject_turns
  unfolding chosen_indices
  length-indices =
      let turns = group_turns is_space messages in
      let order = sorted ranks_above (scored_from is_word (bigrams is_word question) 0 turns) in
      let best = take 2 order in
      omega (
        arith,
        length-map (λ (e : Ratio × ℕ). e.1) (filter (λ e. ltb 0 e.0.0) best),
        length-filter-le (λ (e : Ratio × ℕ). ltb 0 e.0.0) best,
        length-take 2 order,
      )

  relevant_turns-le :
      length (relevant_turns is_space is_word question messages) ≤ history_inject_turns
  unfolding relevant_turns
  relevant_turns-le =
      let turns = group_turns is_space messages in
      ground (
        arith,
        length-pick_turns 0 indices turns,
        length-filter-le (λ (j : ℕ). leb 0 j) indices,
        length-indices,
      )

  last_index :
      (ts : List Turn) (t : Turn)
      → group_turns is_space messages ≡ ts ++ t ∷ []
      → any (λ j. 0 + length ts == j) indices ≡ true
  unfolding chosen_indices
  last_index ts t e = ground (arith, ap (λ (l : List Turn). length l) e, length-append ts (t ∷ []))

  -- Of a conversation whose last turn is `t`, at most two earlier turns are kept, and `t` is kept
  -- behind them, however unlike the question it is.
  pub select_keeps_last :
      (ts : List Turn) (t : Turn)
      → group_turns is_space messages ≡ ts ++ t ∷ []
      → let earlier = pick_turns 0 indices ts in
        (length earlier ≤ 2)
        × (select_relevant_messages is_space is_word question messages ≡ flatten earlier ++ t)
  unfolding select_relevant_messages relevant_turns flatten
  select_keeps_last ts t e =
      let earlier = pick_turns 0 indices ts in
      let all_turns : relevant_turns is_space is_word question messages ≡ earlier ++ t ∷ [] =
        ground (arith, is_empty-snoc ts t, pick_turns-last 0 indices ts t (last_index ts t e), e) in
      (
        omega (
          arith,
          relevant_turns-le,
          ap (λ (l : List Turn). length l) all_turns,
          length-append earlier (t ∷ []),
        ),
        ap (λ (l : List Turn). flatten l) all_turns
            ∙ flatten-append earlier (t ∷ [])
            ∙ ap (λ (l : List Message). flatten earlier ++ l) (append-nil t),
      )
