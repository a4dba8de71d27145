-- ===== src/RateLimit/Bound.antt =====
-- The limits hold while Redis counts.
use liviq.Base.{
  ℕ, zero, suc, ◌+◌, ◌-◌, ◌≤◌, ◌<◌, ◌≡◌, refl, sym, ap, ◌∙◌, subst, All, Bool, true, false, ◌&&◌,
  Option, none, some, List, [], ◌∷◌, arith, if◌then◌else◌, ◌==◌, ltb, text_eq, text_eq→eq,
  text_eq_refl, Text, Bool-cases, inl, inr,
}
use liviq.RateLimit.{
  Counters, Verdict, below, over, broken, incr_window, window_ttl, test_limit, check_rate_limit,
  user_key, tenant_key,
}
use liviq.RateLimit.Counting.{
  counted, incremented, timed, CounterLaws, value, Lasts, Grows, counted-Lasts, incremented-Grows,
  value-incremented, timed-Grows, value-timed, Grows-refl, Grows-trans, either,
}

-- A minute, and a time within it.
module _ (redis : Counters) (laws : CounterLaws redis) (start : ℕ) where
  open redis use {S}

  abbrev IsIn : ℕ → Type 0
  IsIn now = (start ≤ now) × (now < start + 60000)

  abbrev count : S → Text → ℕ
  count s k = value (laws.entry s k)

  -- The new count is returned and stored, and no counter that lasts falls.
  record Counts (now : ℕ) (k : Text) (s : S) (r : Option ℕ × S) : Type 0 where
    returned : r.0 ≡ some (suc (counted now (laws.entry s k)))
    stored : Lasts start (laws.entry s k) → count r.1 k ≡ suc (count s k)
    grows : (q : Text) → Grows start (laws.entry s q) (laws.entry r.1 q)

  incr-Counts : (now : ℕ) (k : Text) (s : S) → IsIn now → Counts now k s (redis.incr now k s)
  incr-Counts now k s h = record {
    returned = laws.incr_counts now k s;
    stored = λ l.
        ap value (
          laws.incr_stores now k s k
          ∙ ap (λ b. if b then incremented now (laws.entry s k) else laws.entry s k)
              (text_eq_refl k))
        ∙ value-incremented start now (laws.entry s k) h.1 l;
    grows = λ q. subst (Grows start (laws.entry s q)) (sym (laws.incr_stores now k s q)) (
        either (Grows start (laws.entry s q)) (text_eq q k) _ _
          (incremented-Grows start now (laws.entry s q) h.1) (Grows-refl start (laws.entry s q)));
  }

  expire-Grows :
      (now : ℕ) (k : Text) (s : S) (q : Text)
      → IsIn now
      → Grows start (laws.entry s q) (laws.entry (redis.expire now k window_ttl s).1 q)
  expire-Grows now k s q h =
      subst (Grows start (laws.entry s q)) (sym (laws.expire_stores now k window_ttl s q)) (
        either (Grows start (laws.entry s q)) (text_eq q k) _ _
          (timed-Grows start now (laws.entry s q) h.0 h.1) (Grows-refl start (laws.entry s q)))

  expire-value :
      (now : ℕ) (k : Text) (s : S)
      → IsIn now
      → Lasts start (laws.entry s k)
      → count (redis.expire now k window_ttl s).1 k ≡ count s k
  expire-value now k s h l =
      ap value (
        laws.expire_stores now k window_ttl s k
        ∙ ap (λ b. if b then timed now window_ttl (laws.entry s k) else laws.entry s k)
            (text_eq_refl k))
      ∙ value-timed start now window_ttl (laws.entry s k) h.1 l

  incr_window-Counts :
      (now : ℕ) (k : Text) (s : S) → IsIn now → Counts now k s (incr_window redis now k s)
  unfolding incr_window
  incr_window-Counts now k s h =
      let c = incr-Counts now k s h in
      let n = suc (counted now (laws.entry s k)) in
      let t = (redis.incr now k s).1 in
      elim (Bool-cases (n == 1)) [
        | inr later ↦
            rw (c.returned, later, incr_window)
              (record { returned = refl; stored = c.stored; grows = c.grows })
        | inl first ↦
            rw (c.returned, first, incr_window, laws.expire_answers now k window_ttl t)
              (record {
                returned = refl;
                stored = λ l. expire-value now k t h (c.grows k l).0 ∙ c.stored l;
                grows = λ q.
                    Grows-trans start (laws.entry s q) (laws.entry t q) _ (c.grows q)
                      (expire-Grows now k t q h);
              })
      ]

  -- A test is passed below its limit and then counts, and no counter that lasts falls.
  record Tested (limit : ℕ) (k : Text) (s : S) (r : Verdict × S) : Type 0 where
    works : (r.0 ≡ broken) → ⊥
    passes : Lasts start (laws.entry s k) → 0 < limit → r.0 ≡ below → count s k < limit
    stored : Lasts start (laws.entry s k) → 0 < limit → count r.1 k ≡ suc (count s k)
    grows : (q : Text) → Grows start (laws.entry s q) (laws.entry r.1 q)

  test_limit-Tested :
      (now limit : ℕ) (k : Text) (s : S)
      → IsIn now
      → Tested limit k s (test_limit redis now limit k s)
  unfolding test_limit
  test_limit-Tested now zero k s i = record {
    works = λ e. cc;
    passes = λ l h e. absurd (omega arith);
    stored = λ l h. absurd (omega arith);
    grows = λ q. Grows-refl start (laws.entry s q);
  }
  test_limit-Tested now (suc m) k s i =
      let c = incr_window-Counts now k s i in
      let limited : (suc m == 0) ≡ false = ground arith in
      elim (Bool-cases (ltb (suc m) (suc (counted now (laws.entry s k))))) [
        | inl beyond ↦
            rw (limited, c.returned, beyond, test_limit)
              (record {
                works = λ e. cc;
                passes = λ l h e. cc;
                stored = λ l h. c.stored l;
                grows = c.grows;
              })
        | inr within ↦
            rw (limited, c.returned, within, test_limit)
              (record {
                works = λ e. cc;
                passes = λ l h e. ground (arith, counted-Lasts start now (laws.entry s k) i.1 l);
                stored = λ l h. c.stored l;
                grows = c.grows;
              })
      ]

  module _ (window : Text) (user_limit tenant_limit : ℕ) where
    abbrev pub check : ℕ → Text → Text → S → Bool × S
    check now user tenant s =
        check_rate_limit redis now window user tenant user_limit tenant_limit s

    -- A question that passes was below its limit at this key, and is counted there.
    abbrev Within : ℕ → Text → S → Bool × S → Type 0
    Within limit key s r =
        Lasts start (laws.entry s key)
        → 0 < limit
        → r.0 ≡ true
        → (suc (count s key) ≤ limit) × (suc (count s key) ≤ count r.1 key)

    record Checked (user tenant : Text) (s : S) (r : Bool × S) : Type 0 where
      of_user : Within user_limit (user_key redis user window) s r
      of_tenant : Within tenant_limit (tenant_key redis tenant window) s r
      grows : (q : Text) → Grows start (laws.entry s q) (laws.entry r.1 q)

    check-Checked :
        (now : ℕ) (user tenant : Text) (s : S)
        → IsIn now
        → Checked user tenant s (check now user tenant s)
    unfolding check_rate_limit
    check-Checked now user tenant s i =
        go (test_limit redis now user_limit uk s).0 refl (test_limit redis now tenant_limit tk t).0
          refl
      where
        uk : Text
        uk = user_key redis user window

        tk : Text
        tk = tenant_key redis tenant window

        t : S
        t = (test_limit redis now user_limit uk s).1

        u : S
        u = (test_limit redis now tenant_limit tk t).1

        first : Tested user_limit uk s (test_limit redis now user_limit uk s)
        first = test_limit-Tested now user_limit uk s i

        second : Tested tenant_limit tk t (test_limit redis now tenant_limit tk t)
        second = test_limit-Tested now tenant_limit tk t i

        both : (q : Text) → Grows start (laws.entry s q) (laws.entry u q)
        both q =
            Grows-trans start (laws.entry s q) (laws.entry t q) (laws.entry u q) (first.grows q)
              (second.grows q)

        go :
            (v : Verdict)
            → (test_limit redis now user_limit uk s).0 ≡ v
            → (x : Verdict) → (test_limit redis now tenant_limit tk t).0 ≡ x
            → Checked user tenant s (elim v as (λ _. Bool × S) [
              | over ↦ (false, t)
              | broken ↦ (true, t)
              | below ↦ elim x as (λ _. Bool × S) [
                | over ↦ (false, u)
                | broken ↦ (true, u)
                | below ↦ (true, u)
              ]
            ])
        go broken e x f = absurd (first.works e)
        go over e x f = record {
          of_user = λ l h g. cc;
          of_tenant = λ l h g. cc;
          grows = first.grows;
        }
        go below e broken f = absurd (second.works f)
        go below e over f = record { of_user = λ l h g. cc; of_tenant = λ l h g. cc; grows = both }
        go below e below f = record {
          of_user = λ l h g. (
            first.passes l h e,
            omega (arith, first.stored l h, (second.grows uk (first.grows uk l).0).1),
          );
          of_tenant = λ l h g. (
            omega (arith, second.passes (first.grows tk l).0 h f, (first.grows tk l).1),
            omega (arith, second.stored (first.grows tk l).0 h, (first.grows tk l).1),
          );
          grows = both;
        }

    -- A question at some time, by a user of a complex.
    abbrev pub Question : Type 0
    Question = ℕ × Text × Text

    abbrev pub AreIn : List Question → Type 0
    AreIn qs = All (λ (q : Question). (start ≤ q.0) × (q.0 < start + 60000)) qs

    -- How many of the chosen questions pass, asked in a row.
    pub passed : (Question → Bool) → List Question → S → ℕ
    passed chosen [] s = 0
    passed chosen ((now, user, tenant) ∷ qs) s =
        let r = check now user tenant s in
        (if r.0 && chosen (now, user, tenant) then 1 else 0) + passed chosen qs r.1

    passed_le :
        (limit : ℕ) (key : Text) (chosen : Question → Bool)
        → ((now : ℕ) (user tenant : Text) (s : S)
            → IsIn now
            → Lasts start (laws.entry s key)
            → chosen (now, user, tenant) ≡ true
            → (check now user tenant s).0 ≡ true
            → (suc (count s key) ≤ limit)
              × (suc (count s key) ≤ count (check now user tenant s).1 key))
        → (qs : List Question) (s : S) → AreIn qs
        → Lasts start (laws.entry s key)
        → passed chosen qs s ≤ limit - count s key
    unfolding passed
    passed_le limit key chosen within [] s i l = omega arith
    passed_le limit key chosen within ((now, user, tenant) ∷ qs) s i l =
        let r = check now user tenant s in
        let (lasts, more) = (check-Checked now user tenant s i.0).grows key l in
        let rest = passed_le limit key chosen within qs r.1 i.1 lasts in
        elim (Bool-cases (r.0 && chosen (now, user, tenant))) [
          | inr none_passes ↦ rw none_passes (omega (arith, rest, more))
          | inl passes ↦
              let both = within now user tenant s i.0 l (ground arith) (ground arith) in
              rw passes (omega (arith, rest, both.0, both.1))
        ]

    -- While Redis answers every command, with INCR and EXPIRE as documented, deadlines included,
    -- with a limit above zero for one user, and where no counter of this window stands for that
    -- user at first: of the questions that are asked within the minute of the window, by whom and
    -- in what order they are, at most that many of that user pass. A Redis that fails is not
    -- covered: then the code lets a question pass.
    pub passed_user-le :
        (user : Text) (qs : List Question) (s : S)
        → 0 < user_limit
        → AreIn qs
        → laws.entry s (user_key redis user window) ≡ none
        → passed (λ q. text_eq q.1 user) qs s ≤ user_limit
    passed_user-le user qs s h i fresh = omega (
      arith,
      passed_le user_limit (user_key redis user window) (λ q. text_eq q.1 user)
          (λ now v t r n l c a.
            subst (λ (x : Text). Within user_limit (user_key redis x window) r (check now v t r))
              (text_eq→eq v user c) ((check-Checked now v t r n).of_user) l h a)
          qs s i (subst (Lasts start) (sym fresh) tt),
    )

    -- While Redis answers every command, with INCR and EXPIRE as documented, deadlines included,
    -- with a limit above zero for one complex, and where no counter of this window stands for
    -- that complex at first: of the questions that are asked within the minute of the window, by
    -- whom and in what order they are, at most that many of that complex pass. A Redis that fails
    -- is not covered: then the code lets a question pass.
    pub passed_tenant-le :
        (tenant : Text) (qs : List Question) (s : S)
        → 0 < tenant_limit
        → AreIn qs
        → laws.entry s (tenant_key redis tenant window) ≡ none
        → passed (λ q. text_eq q.2 tenant) qs s ≤ tenant_limit
    passed_tenant-le tenant qs s h i fresh = omega (
      arith,
      passed_le tenant_limit (tenant_key redis tenant window) (λ q. text_eq q.2 tenant)
          (λ now v t r n l c a.
            subst
              (λ (x : Text). Within tenant_limit (tenant_key redis x window) r (check now v t r))
              (text_eq→eq t tenant c) ((check-Checked now v t r n).of_tenant) l h a)
          qs s i (subst (Lasts start) (sym fresh) tt),
    )
