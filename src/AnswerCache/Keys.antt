-- ===== src/AnswerCache/Keys.antt =====
-- The keys of the cache, read back: which complex, which person, which roles.
use liviq.Base.{
  ℕ, ◌≡◌, refl, sym, ◌∙◌, subst, true, false, [], ◌∷◌, ◌++◌, ◌==◌, Text, codes, text_eq,
  text_eq_refl, arith, All, All-map_weaken,
}
use liviq.Base.Decimal.{dec, dec_injective, IsDigit, dec-IsDigit}
use liviq.Registry.{ToolContext}
use liviq.AnswerCache.{key_prefix, user_key, tenant_key, building_of, joined}

-- A text without the mark that separates the parts of a key.
abbrev pub IsPart : Text → Type 0
IsPart s = All (λ c. (c == 58) ≡ false) s

-- A caller whose parts of the key are separated: ids and names have no colon.
pub record IsPlain (ctx : ToolContext) : Type 0 where
  pub tenant : IsPart ctx.tenant_id
  pub user : IsPart ctx.user_id
  pub roles : IsPart (joined ctx.roles)
  pub visibilities : IsPart (joined ctx.visibilities)
  pub building : IsPart (building_of ctx)

cons_cancel : {a b : ℕ} {s t : Text} → a ∷ s ≡ b ∷ t → (a ≡ b) × (s ≡ t)
cons_cancel e = (cc, cc)

append_cancel : (p s t : Text) → p ++ s ≡ p ++ t → s ≡ t
append_cancel [] s t e = e
append_cancel (c ∷ p) s t e = append_cancel p s t (cons_cancel e).1

part_cancel :
    (a b s t : Text) → IsPart a → IsPart b → a ++ (58 ∷ s) ≡ b ++ (58 ∷ t) → (a ≡ b) × (s ≡ t)
part_cancel [] [] s t h k e = (refl, (cons_cancel e).1)
part_cancel [] (b ∷ bs) s t h k e = let same = (cons_cancel e).0 in ground (arith, k.0)
part_cancel (a ∷ as') [] s t h k e = let same = (cons_cancel e).0 in ground (arith, h.0)
part_cancel (a ∷ as') (b ∷ bs) s t h k e =
    let (same, rest) = cons_cancel e in
    let (parts, tails) = part_cancel as' bs s t h.1 k.1 rest in (rw (same, parts) refl, tails)

dec-IsPart : (n : ℕ) → IsPart (dec n)
dec-IsPart n =
    All-map_weaken IsDigit (λ c. (c == 58) ≡ false) (dec n) (λ c (d, small, e). ground arith)
      (dec-IsDigit n)

-- What two equal keys have in common behind the prefix: the generation, the backend and the hash.
pub record SameTail (g h : ℕ) (b c : Text) (x y : Text) : Type 0 where
  pub generation : g ≡ h
  pub backend_and_hash : b ++ (58 ∷ x) ≡ c ++ (58 ∷ y)

tail_cancel :
    (g h : ℕ) (b c x y : Text)
    → dec g ++ (58 ∷ (b ++ (58 ∷ x))) ≡ dec h ++ (58 ∷ (c ++ (58 ∷ y)))
    → SameTail g h b c x y
tail_cancel g h b c x y e =
    let (same, rest) = part_cancel (dec g) (dec h) _ _ (dec-IsPart g) (dec-IsPart h) e in
    record { generation = dec_injective g h same; backend_and_hash = rest }

pub user_key_cancel :
    (p q : ToolContext) (g h : ℕ) (b c x y : Text)
    → IsPlain p
    → IsPlain q
    → user_key p g b x ≡ user_key q h c y
    → (p.tenant_id ≡ q.tenant_id) × (p.user_id ≡ q.user_id) × SameTail g h b c x y
unfolding user_key
user_key_cancel p q g h b c x y i j e =
    let (tenant, r) =
      part_cancel p.tenant_id q.tenant_id _ _ i.tenant j.tenant
        (append_cancel (key_prefix ++ codes "u:") _ _ e) in
    let (user, s) = part_cancel p.user_id q.user_id _ _ i.user j.user r in
    (tenant, user, tail_cancel g h b c x y s)

pub tenant_key_cancel :
    (p q : ToolContext) (g h : ℕ) (b c x y : Text)
    → IsPlain p
    → IsPlain q
    → tenant_key p g b x ≡ tenant_key q h c y
    → (p.tenant_id ≡ q.tenant_id)
      × (joined p.roles ≡ joined q.roles)
      × (joined p.visibilities ≡ joined q.visibilities)
      × (building_of p ≡ building_of q)
      × SameTail g h b c x y
unfolding tenant_key
tenant_key_cancel p q g h b c x y i j e =
    let (tenant, r) =
      part_cancel p.tenant_id q.tenant_id _ _ i.tenant j.tenant
        (append_cancel (key_prefix ++ codes "t:") _ _ e) in
    let (roles, s) = part_cancel (joined p.roles) (joined q.roles) _ _ i.roles j.roles r in
    let (visible, t) =
      part_cancel (joined p.visibilities) (joined q.visibilities) _ _ i.visibilities j.visibilities
        s in
    let (building, u) = part_cancel (building_of p) (building_of q) _ _ i.building j.building t in
    (tenant, roles, visible, building, tail_cancel g h b c x y u)

false≢true : false ≡ true → ⊥
false≢true e = cc

keys_differ :
    (p q : ToolContext) (g h : ℕ) (b c x y : Text)
    → text_eq (user_key p g b x) (tenant_key q h c y) ≡ false
unfolding user_key tenant_key text_eq
keys_differ p q g h b c x y = refl

-- No answer of a person stands at the key of a complex.
pub keys_apart :
    (p q : ToolContext) (g h : ℕ) (b c x y : Text) → user_key p g b x ≡ tenant_key q h c y → ⊥
keys_apart p q g h b c x y e = false≢true (
    sym (keys_differ p q g h b c x y)
    ∙ subst (λ (k : Text). text_eq (user_key p g b x) k ≡ true) e (text_eq_refl (user_key p g b x)))
