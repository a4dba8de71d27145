-- ===== src/RateLimit/Counting.antt =====
-- The counters of Redis with their deadlines, and what stands of them within a minute.
use liviq.Base.{
  ℕ, suc, ◌+◌, ◌*◌, ◌≤◌, ◌<◌, ◌≡◌, refl, Bool, true, false, Option, none, some, arith,
  if◌then◌else◌, ltb, text_eq, Text,
}
use liviq.RateLimit.{Counters, window_ttl}

-- The value of a counter, and when it ends, if it does.
abbrev pub Entry : Type 0
Entry = Option (ℕ × Option ℕ)

abbrev pub lives : ℕ → Option ℕ → Bool
lives now none = true
lives now (some deadline) = ltb now deadline

abbrev pub counted : ℕ → Entry → ℕ
counted now none = 0
counted now (some (n, deadline)) = if lives now deadline then n else 0

-- `INCR` keeps the deadline of a counter that lives, and begins anew at one without a deadline.
abbrev pub incremented : ℕ → Entry → Entry
incremented now none = some (1, none)
incremented now (some (n, deadline)) =
    if lives now deadline then some (suc n, deadline) else some (1, none)

-- `EXPIRE` sets the deadline of a counter that lives; at a time to live of 0 it is over at once.
abbrev pub timed : ℕ → ℕ → Entry → Entry
timed now ttl none = none
timed now ttl (some (n, deadline)) =
    if lives now deadline then some (n, some (now + ttl * 1000)) else none

-- A Redis that answers every command, with times in milliseconds.
pub record CounterLaws (redis : Counters) : Type 0 where
  pub entry : redis.S → Text → Entry
  pub incr_counts :
      (now : ℕ) (k : Text) (s : redis.S)
      → (redis.incr now k s).0 ≡ some (suc (counted now (entry s k)))
  pub incr_stores :
      (now : ℕ) (k : Text) (s : redis.S) (q : Text)
      → entry (redis.incr now k s).1 q
        ≡ (if text_eq q k then incremented now (entry s q) else entry s q)
  pub expire_answers :
      (now : ℕ) (k : Text) (ttl : ℕ) (s : redis.S) → (redis.expire now k ttl s).0 ≡ true
  pub expire_stores :
      (now : ℕ) (k : Text) (ttl : ℕ) (s : redis.S) (q : Text)
      → entry (redis.expire now k ttl s).1 q
        ≡ (if text_eq q k then timed now ttl (entry s q) else entry s q)

abbrev pub value : Entry → ℕ
value none = 0
value (some (n, deadline)) = n

-- Nothing of a counter ends before a minute that starts at some time is over.
abbrev pub Lasts : ℕ → Entry → Type 0
Lasts start none = Unit
Lasts start (some (n, none)) = Unit
Lasts start (some (n, some deadline)) = start + 60000 ≤ deadline

-- A later state of a counter that lasts: it lasts, and is not less.
abbrev pub Grows : ℕ → Entry → Entry → Type 0
Grows start e f = Lasts start e → Lasts start f × (value e ≤ value f)

pub counted-Lasts :
    (start now : ℕ) (e : Entry) → now < start + 60000 → Lasts start e → counted now e ≡ value e
counted-Lasts start now none h l = refl
counted-Lasts start now (some (n, none)) h l = refl
counted-Lasts start now (some (n, some d)) h l = ground arith

pub incremented-Grows :
    (start now : ℕ) (e : Entry) → now < start + 60000 → Grows start e (incremented now e)
incremented-Grows start now none h l = (tt, omega arith)
incremented-Grows start now (some (n, none)) h l = (tt, omega arith)
incremented-Grows start now (some (n, some d)) h l =
    let alive : ltb now d ≡ true = ground arith in rw alive (l, omega arith)

pub value-incremented :
    (start now : ℕ) (e : Entry)
    → now < start + 60000
    → Lasts start e
    → value (incremented now e) ≡ suc (value e)
value-incremented start now none h l = refl
value-incremented start now (some (n, none)) h l = refl
value-incremented start now (some (n, some d)) h l =
    let alive : ltb now d ≡ true = ground arith in rw alive refl

pub timed-Grows :
    (start now : ℕ) (e : Entry)
    → start ≤ now
    → now < start + 60000
    → Grows start e (timed now window_ttl e)
timed-Grows start now none b h l = (tt, omega arith)
timed-Grows start now (some (n, none)) b h l = (omega arith, omega arith)
timed-Grows start now (some (n, some d)) b h l =
    let alive : ltb now d ≡ true = ground arith in rw alive (omega arith, omega arith)

pub value-timed :
    (start now ttl : ℕ) (e : Entry)
    → now < start + 60000
    → Lasts start e
    → value (timed now ttl e) ≡ value e
value-timed start now ttl none h l = refl
value-timed start now ttl (some (n, none)) h l = refl
value-timed start now ttl (some (n, some d)) h l =
    let alive : ltb now d ≡ true = ground arith in rw alive refl

pub Grows-refl : (start : ℕ) (e : Entry) → Grows start e e
Grows-refl start e l = (l, omega arith)

pub Grows-trans : (start : ℕ) (e f g : Entry) → Grows start e f → Grows start f g → Grows start e g
Grows-trans start e f g h k l = let (m, a) = h l in let (n, b) = k m in (n, omega (arith, a, b))

-- What holds of a changed counter and of a left one, holds of what the test gives.
pub either : (P : Entry → Type 0) (b : Bool) (x y : Entry) → P x → P y → P (if b then x else y)
either P true x y h g = h
either P false x y h g = g
