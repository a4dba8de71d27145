-- ===== src/Chunking/Pack.antt =====
-- The chunks of a document: their numbers, and what is packed into each.
use liviq.Base.{
  ℕ, suc, ◌+◌, ◌≤◌, ◌≡◌, refl, sym, ap, ◌∙◌, subst, ◌⊎◌, true, false, ◌&&◌, not, Option, List, [],
  ◌∷◌, ◌++◌, map, arith, if◌then◌else◌, ltb, leb, strip, All-append, is_empty, length, Text, join,
  All, Bool-cases, inl, inr,
}
use mathlib.Core.List.{append_assoc}
use liviq.Tokens.{estimate_tokens}
use liviq.Chunking.{
  Patterns, Chunk, pack, make_chunk, make_chunks, chunk_sections, chunk_text, pieces_of,
  split_sections, join_sentences, split_oversized,
}

-- The chunks are numbered one by one from n.
abbrev pub IsNumbered : ℕ → List Chunk → Type 0
IsNumbered n [] = Unit
IsNumbered n (c ∷ cs) = (c.index ≡ n) × IsNumbered (suc n) cs

IsNumbered-append :
    (n : ℕ) (cs ds : List Chunk)
    → IsNumbered n cs
    → IsNumbered (n + length cs) ds
    → IsNumbered n (cs ++ ds)
IsNumbered-append n [] ds h k = subst (λ m. IsNumbered m ds) (omega arith) k
IsNumbered-append n (c ∷ cs) ds h k =
    (h.0, IsNumbered-append (suc n) cs ds h.1 (subst (λ m. IsNumbered m ds) (omega arith) k))

module _ (p : Patterns) where
  make_chunks-IsNumbered :
      (n : ℕ) (heading : Option Text) (cs : List Text) → IsNumbered n (make_chunks p n heading cs)
  unfolding make_chunks make_chunk
  make_chunks-IsNumbered n heading [] = tt
  make_chunks-IsNumbered n heading (c ∷ cs) = (refl, make_chunks-IsNumbered (suc n) heading cs)

  length-make_chunks :
      (n : ℕ) (heading : Option Text) (cs : List Text)
      → length (make_chunks p n heading cs) ≡ length cs
  unfolding make_chunks
  length-make_chunks n heading [] = refl
  length-make_chunks n heading (c ∷ cs) = ap suc (length-make_chunks (suc n) heading cs)

  chunk_sections-IsNumbered :
      (max n : ℕ) (ss : List (Option Text × Text)) → IsNumbered n (chunk_sections p max n ss)
  unfolding chunk_sections
  chunk_sections-IsNumbered max n [] = tt
  chunk_sections-IsNumbered max n ((heading, body) ∷ ss) =
      let contents = pack max [] (pieces_of p max (p.paragraphs body)) in
      IsNumbered-append n (make_chunks p n heading contents)
        (chunk_sections p max (n + length contents) ss) (make_chunks-IsNumbered n heading contents)
        (subst (λ m. IsNumbered m (chunk_sections p max (n + length contents) ss))
          (ap (λ m. n + m) (sym (length-make_chunks n heading contents)))
          (chunk_sections-IsNumbered max (n + length contents) ss))

  -- Whatever the regular expressions do, the chunks of a document are numbered 0, 1, 2 and so on
  -- across its sections.
  pub chunk_text-IsNumbered : (max : ℕ) (text : Text) → IsNumbered 0 (chunk_text p max text)
  unfolding chunk_text
  chunk_text-IsNumbered max text =
      chunk_sections-IsNumbered max 0 (split_sections p (p.drop_contents text))

abbrev pub paragraph_break : Text
paragraph_break = 10 ∷ 10 ∷ []

abbrev pub concat : List (List Text) → List Text
concat [] = []
concat (g ∷ gs) = g ++ concat gs

-- A group is one piece, or stays within the limit.
abbrev pub IsWithin : ℕ → List Text → Type 0
IsWithin max g = (length g ≡ 1) ⊎ (estimate_tokens (join paragraph_break g) ≤ max)

-- The pieces in order, cut into groups that are joined by a blank line.
abbrev pub IsPacked : ℕ → List Text → List Text → Type 0
IsPacked max pieces contents =
    (groups : List (List Text)) × (concat groups ≡ pieces)
    × (map (join paragraph_break) groups ≡ contents)
    × All (IsWithin max) groups

abbrev pub IsFilled : Text → Type 0
IsFilled t = is_empty t ≡ false

join-snoc :
    (g : Text) (gs : List Text) (t : Text)
    → join paragraph_break ((g ∷ gs) ++ t ∷ []) ≡ join paragraph_break (g ∷ gs) ++ (10 ∷ 10 ∷ t)
unfolding join
join-snoc g [] t = refl
join-snoc g (h ∷ gs) t =
    ap (λ r. g ++ (paragraph_break ++ r)) (join-snoc h gs t)
    ∙ sym (append_assoc g (paragraph_break ++ join paragraph_break (h ∷ gs)) (10 ∷ 10 ∷ t))

IsFilled-append : (s t : Text) → IsFilled s → IsFilled (s ++ t)
IsFilled-append [] t h = cc
IsFilled-append (a ∷ s) t h = refl

-- One round of the loop, on a current text that is not empty.
pack_full :
    (max : ℕ) (current t : Text) (pieces : List Text)
    → IsFilled current
    → ltb max (estimate_tokens (current ++ (10 ∷ 10 ∷ t))) ≡ true
    → pack max current (t ∷ pieces) ≡ current ∷ pack max t pieces
unfolding pack
pack_full max current t pieces filled full = rw (filled, full, pack) refl

pack_room :
    (max : ℕ) (current t : Text) (pieces : List Text)
    → IsFilled current
    → ltb max (estimate_tokens (current ++ (10 ∷ 10 ∷ t))) ≡ false
    → pack max current (t ∷ pieces) ≡ pack max (current ++ (10 ∷ 10 ∷ t)) pieces
unfolding pack
pack_room max current t pieces filled room = rw (filled, room, pack) refl

pack_end : (max : ℕ) (current : Text) → IsFilled current → pack max current [] ≡ current ∷ []
unfolding pack
pack_end max current filled = rw (filled, pack) refl

IsPacked-cons :
    (max : ℕ) (g pieces contents : List Text)
    → IsWithin max g
    → IsPacked max pieces contents
    → IsPacked max (g ++ pieces) (join paragraph_break g ∷ contents)
IsPacked-cons max g pieces contents within (groups, all, made, ok) =
    (g ∷ groups, ap (λ r. g ++ r) all, ap (λ r. join paragraph_break g ∷ r) made, (within, ok))

pack_group :
    (max : ℕ) (g : Text) (gs pieces : List Text)
    → IsFilled (join paragraph_break (g ∷ gs))
    → IsWithin max (g ∷ gs)
    → All IsFilled pieces
    → IsPacked max ((g ∷ gs) ++ pieces) (pack max (join paragraph_break (g ∷ gs)) pieces)
unfolding join
pack_group max g gs [] filled within h =
    rw (pack_end max (join paragraph_break (g ∷ gs)) filled)
      (IsPacked-cons max (g ∷ gs) [] [] within ([], refl, refl, tt))
pack_group max g gs (t ∷ pieces) filled within h =
    let joined = join paragraph_break (g ∷ gs) in
    let longer = pack_group max g (gs ++ t ∷ []) pieces in
    let alone = pack_group max t [] pieces h.0 (inl refl) h.1 in
    elim (Bool-cases (ltb max (estimate_tokens (joined ++ (10 ∷ 10 ∷ t))))) [
      | inl full ↦
          rw (pack_full max joined t pieces filled full)
            (IsPacked-cons max (g ∷ gs) (t ∷ pieces) (pack max t pieces) within alone)
      | inr room ↦
          rw
            (
              pack_room max joined t pieces filled room,
              sym (join-snoc g gs t),
              sym (append_assoc gs (t ∷ []) pieces),
            )
            (longer
              (subst IsFilled (sym (join-snoc g gs t))
                (IsFilled-append joined (10 ∷ 10 ∷ t) filled))
              (inr (subst (λ r. estimate_tokens r ≤ max) (sym (join-snoc g gs t)) (ground arith)))
              h.1)
    ]

pack-IsPacked :
    (max : ℕ) (pieces : List Text) → All IsFilled pieces → IsPacked max pieces (pack max [] pieces)
unfolding pack join
pack-IsPacked max [] h = ([], refl, refl, tt)
pack-IsPacked max (t ∷ pieces) h = pack_group max t [] pieces h.0 (inl refl) h.1

module _ (p : Patterns) where
  -- A text is taken over only where it is not empty.
  join_sentences-IsFilled :
      (max : ℕ) (current : Text) (ss : List Text) → All IsFilled (join_sentences p max current ss)
  unfolding join_sentences
  join_sentences-IsFilled max current [] = elim (Bool-cases (is_empty current)) [
    | inl e ↦ rw e tt
    | inr e ↦ rw e (e, tt)
  ]
  join_sentences-IsFilled max current (s ∷ ss) =
      let candidate = if is_empty current then s else strip p.is_space (current ++ (32 ∷ s)) in
      let full = not (is_empty current) && ltb max (estimate_tokens candidate) in
      let blank = is_empty (strip p.is_space s) in
      let next = if blank then current else if full then s else candidate in
      let rest = join_sentences-IsFilled max next ss in
      elim (Bool-cases (not blank && full)) [
        | inl taken ↦ rw taken (ground arith, rest)
        | inr kept ↦ rw kept rest
      ]

  split_oversized-IsFilled :
      (max : ℕ) (q : Text) → IsFilled q → All IsFilled (split_oversized p max q)
  unfolding split_oversized
  split_oversized-IsFilled max q h = elim (Bool-cases (leb (estimate_tokens q) max)) [
    | inl fits ↦ rw fits (h, tt)
    | inr long ↦ rw long (join_sentences-IsFilled max [] (p.sentences q))
  ]

  pieces_of-IsFilled : (max : ℕ) (qs : List Text) → All IsFilled (pieces_of p max qs)
  unfolding pieces_of
  pieces_of-IsFilled max [] = tt
  pieces_of-IsFilled max (q ∷ qs) = elim (Bool-cases (is_empty (strip p.is_space q))) [
    | inl blank ↦ rw blank (pieces_of-IsFilled max qs)
    | inr ink ↦ rw ink (
        All-append IsFilled (split_oversized p max (strip p.is_space q)) (pieces_of p max qs)
          (split_oversized-IsFilled max (strip p.is_space q) ink) (pieces_of-IsFilled max qs))
  ]

  -- Whatever the regular expressions do: of the pieces of a section none is lost, doubled or moved.
  -- The contents of its chunks are its pieces in order, cut into groups that are joined by blank
  -- lines, and a group of more than one piece stays within the limit of tokens.
  pub pack-pieces_of :
      (max : ℕ) (paragraphs : List Text)
      → IsPacked max (pieces_of p max paragraphs) (pack max [] (pieces_of p max paragraphs))
  pack-pieces_of max paragraphs =
      pack-IsPacked max (pieces_of p max paragraphs) (pieces_of-IsFilled max paragraphs)
