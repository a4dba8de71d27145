-- ===== src/Citations/Check.antt =====
-- What the check of the citations says: it is sound and complete for the references found.
use liviq.Base.{
  ◌∙◌, ℕ, zero, suc, ◌-◌, ◌<◌, ◌≡◌, refl, sym, ap, subst, Bool, true, false, ◌&&◌, ◌||◌, not,
  Option, some, List, [], ◌∷◌, map, arith, leb, ◌==◌, length, get_elem?, take, Text, All,
  Bool-cases, inl, inr,
}
use liviq.Retrieval.{RetrievedChunk}
use liviq.Citations.{
  Citation, CitationCheck, cite, with_citation, with_invalid, check_refs, verify_citations,
  insert_ref, sorted_set, find_refs,
}

-- `n in ns`
abbrev pub mem_ref : ℕ → List ℕ → Bool
mem_ref n [] = false
mem_ref n (m ∷ ms) = n == m || mem_ref n ms

mem-insert_ref : (k n : ℕ) (ms : List ℕ) → mem_ref k (insert_ref n ms) ≡ (k == n || mem_ref k ms)
unfolding insert_ref
mem-insert_ref k n [] = refl
mem-insert_ref k n (m ∷ ms) = ground (arith, mem-insert_ref k n ms)

mem-sorted_set : (k : ℕ) (ns : List ℕ) → mem_ref k (sorted_set ns) ≡ mem_ref k ns
unfolding sorted_set
mem-sorted_set k [] = refl
mem-sorted_set k (n ∷ ns) = ground (arith, mem-insert_ref k n (sorted_set ns), mem-sorted_set k ns)

module _ {F : Type 0} (chunks : List (RetrievedChunk F)) where
  abbrev pub in_range : ℕ → Bool
  in_range n = leb 1 n && leb n (length chunks)

  -- A citation whose number is that of a chunk, with the source of that chunk and the first 200
  -- characters of its text.
  pub record QuotesChunk (c : Citation) : Type 0 where
    pub chunk : RetrievedChunk F
    pub numbered : get_elem? chunks (c.ref - 1) ≡ some chunk
    pub chunk_id : c.chunk_id ≡ chunk.chunk_id
    pub document_id : c.document_id ≡ chunk.document_id
    pub document_title : c.document_title ≡ chunk.document_title
    pub quote : c.quote ≡ take 200 chunk.content
    pub page : c.page ≡ chunk.page
    pub clause : c.clause ≡ chunk.clause

get_elem?-some :
    {A : Type 0} (xs : List A) (i : ℕ) → i < length xs → (a : A) × (get_elem? xs i ≡ some a)
get_elem?-some [] i h = absurd (omega arith)
get_elem?-some (x ∷ xs) zero h = (x, refl)
get_elem?-some (x ∷ xs) (suc i) h = get_elem?-some xs i (omega arith)

module _ {F : Type 0} (chunks : List (RetrievedChunk F)) where
  cite-QuotesChunk :
      (n : ℕ) (d : RetrievedChunk F)
      → get_elem? chunks (n - 1) ≡ some d
      → QuotesChunk chunks (cite n d)
  unfolding cite
  cite-QuotesChunk n d e = record {
    chunk = d;
    numbered = e;
    chunk_id = refl;
    document_id = refl;
    document_title = refl;
    quote = refl;
    page = refl;
    clause = refl;
  }

  check_refs-in :
      (n : ℕ) (ns : List ℕ) (d : RetrievedChunk F)
      → in_range chunks n ≡ true
      → get_elem? chunks (n - 1) ≡ some d
      → check_refs chunks (n ∷ ns) ≡ with_citation (cite n d) (check_refs chunks ns)
  unfolding check_refs
  check_refs-in n ns d h e = rw (h, e)

  check_refs-out :
      (n : ℕ) (ns : List ℕ)
      → in_range chunks n ≡ false
      → check_refs chunks (n ∷ ns) ≡ with_invalid n (check_refs chunks ns)
  unfolding check_refs
  check_refs-out n ns h = rw h

  abbrev Sorts : List ℕ → CitationCheck → Type 0
  Sorts ns k =
      All (QuotesChunk chunks) k.citations
      × ((n : ℕ)
          → mem_ref n (map (λ (c : Citation). c.ref) k.citations)
            ≡ (mem_ref n ns && in_range chunks n))
      × ((n : ℕ) → mem_ref n k.invalid_refs ≡ (mem_ref n ns && not (in_range chunks n)))

  both : (a b c d : Bool) → d ≡ (b && c) → (a ≡ true → c ≡ true) → (a || d) ≡ ((a || b) && c)
  both true b c d e h = ground arith
  both false b c d e h = e

  neither : (a b c d : Bool) → d ≡ (b && c) → (a ≡ true → c ≡ false) → d ≡ ((a || b) && c)
  neither true b c d e h = ground arith
  neither false b c d e h = e

  range_of : (m n : ℕ) (b : Bool) → in_range chunks n ≡ b → (m == n) ≡ true → in_range chunks m ≡ b
  range_of m n b h e = ground arith

  check_refs-Sorts : (ns : List ℕ) → Sorts ns (check_refs chunks ns)
  unfolding cite
  check_refs-Sorts [] = unfold check_refs in (tt, λ n. refl, λ n. refl)
  check_refs-Sorts (n ∷ ns) =
      let (quoted, found, missed) = check_refs-Sorts ns in
      elim (Bool-cases (in_range chunks n)) [
        | inl here ↦
            let (d, e) = get_elem?-some chunks (n - 1) (ground arith) in
            subst (Sorts (n ∷ ns)) (sym (check_refs-in n ns d here e)) (
              (cite-QuotesChunk n d e, quoted),
              λ m.
                  both (m == n) (mem_ref m ns) (in_range chunks m) _ (found m)
                    (range_of m n true here),
              λ m.
                  neither (m == n) (mem_ref m ns) (not (in_range chunks m)) _ (missed m)
                    (λ q. ap not (range_of m n true here q)),
            )
        | inr away ↦ subst (Sorts (n ∷ ns)) (sym (check_refs-out n ns away)) (
          quoted,
          λ m.
              neither (m == n) (mem_ref m ns) (in_range chunks m) _ (found m)
                (range_of m n false away),
          λ m.
              both (m == n) (mem_ref m ns) (not (in_range chunks m)) _ (missed m)
                (λ q. ap not (range_of m n false away q)),
        )
      ]

  -- Every citation carries the number, the source and the first 200 characters of the chunk of
  -- its number. A number is cited exactly when the answer refers to it and the chunks have it,
  -- and is listed as invalid exactly when the answer refers to it and the chunks lack it.
  pub verify_citations-sorts :
      (digit : ℕ → Option ℕ) (answer : Text) (n : ℕ)
      → let k = verify_citations digit answer chunks in
        All (QuotesChunk chunks) k.citations
        × (mem_ref n (map (λ (c : Citation). c.ref) k.citations)
            ≡ (mem_ref n (find_refs digit answer) && in_range chunks n))
        × (mem_ref n k.invalid_refs
            ≡ (mem_ref n (find_refs digit answer) && not (in_range chunks n)))
  unfolding verify_citations
  verify_citations-sorts digit answer n =
      let refs = find_refs digit answer in
      let (quoted, found, missed) = check_refs-Sorts (sorted_set refs) in
      (
        quoted,
        found n ∙ ap (λ (b : Bool). b && in_range chunks n) (mem-sorted_set n refs),
        missed n ∙ ap (λ (b : Bool). b && not (in_range chunks n)) (mem-sorted_set n refs),
      )
