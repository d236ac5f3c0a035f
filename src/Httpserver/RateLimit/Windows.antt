-- ===== src/Httpserver/RateLimit/Windows.antt =====
-- What the limiter lets through in one window, and what Retry-After promises.
use wbsv.Common.{
  ℕ, ◌+◌, ◌-◌, ◌*◌, ◌/◌, ◌^◌, ◌≤◌, ◌<◌, min, ◌≡◌, ap, ◌∙◌, ◌⊎◌, inr, Bool, true, false, List, [],
  ◌∷◌, arith, if◌then◌else◌, length, All, ℤ, ◌+ℤ◌, ◌-ℤ◌, pos,
}
use wbsv.Httpserver.RateLimit.{
  is_disabled, new_limiter, largest_at_most, FixedWindowLimiter, second, retry_after_seconds, renew,
  admit, allow,
}
use native.Mathlib.Decide.{dec_lt}

-- A limiter in use, with a window that began at `start` and `count` requests let through since.
abbrev pub running : (limit window start count : ℕ) → FixedWindowLimiter
running limit window start count = record {
  limit = pos limit;
  window = pos window;
  window_start = start;
  count = pos count;
}

module _ (limit window : ℕ) where
  renew_in_window :
      (start count t : ℕ)
      → 0 < start
      → t < start + window
      → renew (running limit window start count) t ≡ running limit window start count
  unfolding renew
  renew_in_window start count t h k = ground arith

  allow-eq-admit :
      (start count t : ℕ)
      → 0 < start
      → t < start + window
      → allow (running limit window start count) t ≡ admit (running limit window start count) t
  unfolding allow
  allow-eq-admit start count t h k = ap (λ l. admit l t) (renew_in_window start count t h k)

  allow_below :
      (start count t : ℕ)
      → 0 < start
      → t < start + window
      → count < limit
      → allow (running limit window start count) t
        ≡ (running limit window start (count + 1), true, pos 0)
  allow_below start count t h k m = allow-eq-admit start count t h k ∙ below
    where
      below :
          admit (running limit window start count) t
          ≡ (running limit window start (count + 1), true, pos 0)
      below = unfold admit in ground arith

  -- How long is left of the window.
  abbrev left : (start t : ℕ) → ℤ
  left start t = largest_at_most (pos start +ℤ pos window -ℤ pos t)

  allow_at_limit :
      (start t : ℕ)
      → 0 < start
      → t < start + window
      → allow (running limit window start limit) t
        ≡ (running limit window start limit, false, retry_after_seconds (left start t))
  allow_at_limit start t h k = allow-eq-admit start limit t h k ∙ refused
    where
      refused :
          admit (running limit window start limit) t
          ≡ (running limit window start limit, false, retry_after_seconds (left start t))
      refused = unfold admit in ground arith

  -- No overflow: the seconds are rounded up.
  retry_after_rounds :
      (start t : ℕ)
      → start ≤ t
      → t < start + window
      → window + second ≤ 2 ^ 63
      → retry_after_seconds (left start t) ≡ pos ((start + window - t + second - 1) / second)
  unfolding retry_after_seconds
  retry_after_rounds start t h k small = ground arith

  allow_new_window :
      (start count t : ℕ)
      → 0 < limit
      → (start ≡ 0) ⊎ (start + window ≤ t)
      → allow (running limit window start count) t ≡ (running limit window t 1, true, pos 0)
  unfolding allow
  allow_new_window start count t h k = ap (λ l. admit l t) fresh ∙ first
    where
      fresh : renew (running limit window start count) t ≡ running limit window t 0
      fresh = unfold renew in ground arith

      first : admit (running limit window t 0) t ≡ (running limit window t 1, true, pos 0)
      first = unfold admit in ground arith

-- A new limiter lets its first request through.
pub allow-new_limiter :
    (limit window : ℤ) (current : ℕ)
    → is_disabled limit window ≡ false
    → (allow (new_limiter limit window) current).1 ≡ true
unfolding allow renew admit new_limiter is_disabled
allow-new_limiter limit window current h = ground (arith, h)

-- How many of these requests are let through, and the limiter behind them.
unfoldable pub admitted : FixedWindowLimiter → List ℕ → ℕ
admitted l [] = 0
admitted l (t ∷ ts) =
    let rest = admitted (allow l t).0 ts in (if (allow l t).1 then 1 else 0) + rest

module _ (limit window start : ℕ) (opened : 0 < start) where
  -- The requests of one window: as many are let through as the limit still allows.
  admitted_from :
      (ts : List ℕ) (count : ℕ)
      → All (λ t. t < start + window) ts
      → count ≤ limit
      → admitted (running limit window start count) ts ≡ min (limit - count) (length ts)
  unfolding admitted
  admitted_from [] count h k = omega arith
  admitted_from (t ∷ ts) count (h, hs) k = elim (dec_lt count limit) [
    | yes below ↦
        rw (allow_below limit window start count t opened h below)
          (omega (arith, admitted_from ts (count + 1) hs (omega arith)))
    | no full ↦
        let same : count ≡ limit = omega arith in
        rw (same, allow_at_limit limit window start t opened h)
          (omega (arith, admitted_from ts limit hs (omega arith)))
  ]

-- One limiter: of the requests that it is asked for in one window, exactly as many are let through as
-- the limit allows: all of them, or `limit`, whichever is less. The first of them, at `t`, opens the
-- window: none was open or the last one is over.
pub admitted_in_window :
    (limit window start count t : ℕ) (ts : List ℕ)
    → 0 < limit
    → 0 < t
    → (start ≡ 0) ⊎ (start + window ≤ t)
    → All (λ u. u < t + window) ts
    → admitted (running limit window start count) (t ∷ ts) ≡ min limit (length (t ∷ ts))
unfolding admitted
admitted_in_window limit window start count t ts h p k later =
    rw (allow_new_window limit window start count t h k)
      (omega (arith, admitted_from limit window t p ts 1 later (omega arith)))

-- One limiter, with a window that leaves room for a second in an int64: a request that is refused is
-- told to wait `r` seconds, one at least: after `r` seconds a request is let through, if no other came
-- before it, and one second earlier it is still refused.
pub retry_after_exact :
    (limit window start t : ℕ)
    → 0 < limit
    → 0 < start
    → start ≤ t
    → t < start + window
    → window + second ≤ 2 ^ 63
    → (r : ℕ) × (allow (running limit window start limit) t
        ≡ (running limit window start limit, false, pos r))
      × (0 < r)
      × ((allow (running limit window start limit) (t + r * second)).1 ≡ true)
      × ((allow (running limit window start limit) (t + (r - 1) * second)).1 ≡ false)
retry_after_exact limit window start t h p from k small =
    let r = (start + window - t + second - 1) / second in
    (
      r,
      allow_at_limit limit window start t p k
          ∙ ap (λ n. (running limit window start limit, false, n))
              (retry_after_rounds limit window start t from k small),
      omega arith,
      ap (λ (o : FixedWindowLimiter × Bool × ℤ). o.1)
          (allow_new_window limit window start limit (t + r * second) h (inr (omega arith))),
      ap (λ (o : FixedWindowLimiter × Bool × ℤ). o.1)
          (allow_at_limit limit window start (t + (r - 1) * second) p (omega arith)),
    )
