-- ===== src/AnswerCache/Isolated.antt =====
-- Whose answer a lookup may find, whatever was stored before, in whatever order, by whom.
use liviq.Base.{ℕ, ◌≡◌, ◌⊎◌, true, false, some, ◌++◌, ◌∷◌, Text}
use liviq.Registry.{ToolContext}
use liviq.AnswerCache.{
  CachedAnswer, Payload, Cache, Python, encode, decode, is_personal, user_key, tenant_key, joined,
  building_of, qhash, generation,
}
use liviq.AnswerCache.Owned.{CacheLaws, Reach, Origin, WasStored}

module _ (python : Python) {F : Type 0} (redis : Cache (Payload F)) (laws : CacheLaws redis) where
  open redis use {S}

  -- How a lookup comes to its answer.
  record IsHit (now : ℕ) (ctx : ToolContext) (question backend : Text) (s : S)
      (cached : CachedAnswer F) : Type 0 where
    gen : ℕ
    p : Payload F
    current : generation python redis ctx.tenant_id s ≡ some gen
    content : decode python p ≡ some cached
    found :
        (redis.answer now (user_key ctx gen backend (qhash python question)) s ≡ some (some p))
        ⊎ (redis.answer now (tenant_key ctx gen backend (qhash python question)) s ≡ some (some p))

  -- What an answer that is found has in common with the one that asks.
  pub record IsServed (s : S) (reach : Reach python redis laws s) (ctx : ToolContext)
      (question backend : Text) (cached : CachedAnswer F) : Type 0 where
    pub origin : Origin python redis laws
    pub happened : WasStored python redis laws s reach origin
    pub tenant : origin.owner.tenant_id ≡ ctx.tenant_id
    pub content : decode python (encode origin.done ctx.tenant_id) ≡ some cached
    pub current : generation python redis ctx.tenant_id s ≡ some origin.gen
    pub labels :
        origin.backend ++ (58 ∷ qhash python origin.question)
        ≡ backend ++ (58 ∷ qhash python question)
    pub personal : is_personal origin.done.tool_path ≡ true → origin.owner.user_id ≡ ctx.user_id
    pub shared :
        is_personal origin.done.tool_path ≡ false
        → (joined origin.owner.roles ≡ joined ctx.roles)
          × (joined origin.owner.visibilities ≡ joined ctx.visibilities)
          × (building_of origin.owner ≡ building_of ctx)
