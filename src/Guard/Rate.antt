-- ===== src/Guard/Rate.antt =====
-- `createMessageRateLimiter` of src/connection-guard.mjs over many messages.
use factory_network_server.Prelude.{
  ℕ, ◌+◌, ◌*◌, ◌-◌, ◌≤◌, ◌<◌, ◌≡◌, refl, List, [], ◌∷◌, length, min, arith,
}
use factory_network_server.Guard.{Limiter, take, passed}

-- Each of the times lies before `t`.
abbrev pub Before : ℕ → List ℕ → Type 0
Before t [] = Unit
Before t (x ∷ xs) = (x < t) × Before t xs

-- If the limit is positive and all times lie before the end of the limiter's window, exactly as
-- many messages pass as the limit has left, or all of them if they are fewer.
pub passed_in_window :
    (ts : List ℕ) (l : Limiter)
    → 0 < l.limit
    → Before (l.window_started_at + l.window_ms) ts
    → passed ts l ≡ min (length ts) (l.limit - l.count)
unfolding passed take
passed_in_window [] l h b = omega arith
passed_in_window (t ∷ ts) l h (b, bs) =
    ground (arith, passed_in_window ts (record l { count = l.count + 1 }) h bs)

passed_after_roll :
    (ts : List ℕ) (l : Limiter) (t : ℕ)
    → 0 < l.limit
    → Before (t + l.window_ms) ts
    → passed ts (record l { window_started_at = t; count = 1 }) ≤ l.limit - 1
passed_after_roll ts l t h b =
    omega (arith, passed_in_window ts (record l { window_started_at = t; count = 1 }) h b)

Before-mono : (s t : ℕ) (ts : List ℕ) → s ≤ t → Before s ts → Before t ts
Before-mono s t [] h b = tt
Before-mono s t (x ∷ ts) h (b, bs) = (omega arith, Before-mono s t ts h bs)

-- None of the times lies before `t`.
abbrev pub From : ℕ → List ℕ → Type 0
From t [] = Unit
From t (x ∷ xs) = (t ≤ x) × From t xs

passed-le :
    (ts : List ℕ) (l : Limiter) (t : ℕ)
    → 0 < l.limit
    → From t ts
    → Before (t + l.window_ms) ts
    → passed ts l ≤ (l.limit - l.count) + l.limit
unfolding passed take
passed-le [] l t h f b = omega arith
passed-le (x ∷ ts) l t h (f, fs) (b, bs) = ground (
  arith,
  passed_after_roll ts l x h (Before-mono (t + l.window_ms) (x + l.window_ms) ts (omega arith) bs),
  passed-le ts (record l { count = l.count + 1 }) t h fs bs,
)

-- If the limit is positive, of messages at times that lie within one window's length of each other
-- at most twice the limit pass, whatever the limiter's state was.
pub passed-le_twice :
    (ts : List ℕ) (l : Limiter) (t : ℕ)
    → 0 < l.limit
    → From t ts
    → Before (t + l.window_ms) ts
    → passed ts l ≤ 2 * l.limit
passed-le_twice ts l t h f b = omega (arith, passed-le ts l t h f b)

-- A limit of 0 lets every message through.
pub passed_unlimited : (ts : List ℕ) (l : Limiter) → l.limit ≡ 0 → passed ts l ≡ length ts
unfolding passed take
passed_unlimited [] l h = refl
passed_unlimited (t ∷ ts) l h = ground (arith, passed_unlimited ts (take t l).0)
