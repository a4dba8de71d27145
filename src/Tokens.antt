-- ===== src/Tokens.antt =====
-- packages/ai-core/src/ai_core/llm/tokens.py: the estimate of a text's tokens. A text is a list
-- of code points, so `ord` is the identity.
use liviq.Base.{
  ℕ, ◌+◌, ◌*◌, ◌-◌, ◌/◌, ◌≤◌, ◌≡◌, Bool, ◌&&◌, List, [], ◌∷◌, ◌++◌, arith, if◌then◌else◌, leb,
  length, length-append, any, is_empty, Text,
}

-- `_CJK_RANGES`
abbrev pub cjk_ranges : List (ℕ × ℕ)
cjk_ranges =
    (0xAC00, 0xD7A3)
    ∷ (0x1100, 0x11FF)
    ∷ (0x3130, 0x318F)
    ∷ (0x4E00, 0x9FFF)
    ∷ (0x3040, 0x30FF)
    ∷ []

abbrev pub latin_chars_per_token : ℕ
latin_chars_per_token = 4

unfoldable pub is_cjk : ℕ → Bool
is_cjk c = any (λ (r : ℕ × ℕ). leb r.0 c && leb c r.1) cjk_ranges

-- sum(1 for ch in text if _is_cjk(ch))
unfoldable pub count_cjk : Text → ℕ
count_cjk [] = 0
count_cjk (c ∷ s) = (if is_cjk c then 1 else 0) + count_cjk s

-- `math.ceil(other / 4)` is written with whole numbers.
unfoldable pub estimate_tokens : Text → ℕ
estimate_tokens text =
    if is_empty text
    then 0
    else (let cjk = count_cjk text in
        let other = length text - cjk in
        cjk + (other + (latin_chars_per_token - 1)) / latin_chars_per_token)

count_cjk-le-length : (s : Text) → count_cjk s ≤ length s
unfolding count_cjk
count_cjk-le-length [] = omega arith
count_cjk-le-length (c ∷ s) = ground (arith, count_cjk-le-length s)

count_cjk-append : (s t : Text) → count_cjk (s ++ t) ≡ count_cjk s + count_cjk t
unfolding count_cjk
count_cjk-append [] t = omega arith
count_cjk-append (c ∷ s) t = omega (arith, count_cjk-append s t)

estimate_tokens-closed :
    (s : Text) → estimate_tokens s ≡ count_cjk s + (length s - count_cjk s + 3) / 4
unfolding estimate_tokens count_cjk
estimate_tokens-closed [] = omega arith
estimate_tokens-closed (c ∷ s) = omega arith

-- The estimate of a text of n characters lies between n / 4 and n.
pub estimate_tokens_bounds :
    (s : Text) → (estimate_tokens s ≤ length s) × (length s ≤ 4 * estimate_tokens s)
estimate_tokens_bounds s = omega (arith, estimate_tokens-closed s, count_cjk-le-length s)

-- Two texts joined are estimated at no less than either and no more than the two together.
pub estimate_tokens-append :
    (s t : Text)
    → (estimate_tokens s ≤ estimate_tokens (s ++ t))
      × (estimate_tokens t ≤ estimate_tokens (s ++ t))
      × (estimate_tokens (s ++ t) ≤ estimate_tokens s + estimate_tokens t)
estimate_tokens-append s t =
    rw
      (
        estimate_tokens-closed s,
        estimate_tokens-closed t,
        estimate_tokens-closed (s ++ t),
        count_cjk-append s t,
        length-append s t,
      )
      (omega (arith, count_cjk-le-length s, count_cjk-le-length t))
