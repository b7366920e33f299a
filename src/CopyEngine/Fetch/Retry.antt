-- ===== src/CopyEngine/Fetch/Retry.antt =====
-- How often a fetch is tried, and with what result.
use mathlib.Core.Path.{subst}
use girasolbot.Prelude.{
  ℕ, zero, suc, ◌+◌, ◌≤◌, ◌<◌, ◌≡◌, refl, Bool, true, false, Option, some, none, [], ◌∷◌, String,
  take, get_or, drop, sym, ap, ◌∙◌, arith, ◌⊎◌,
}
use girasolbot.Float.{Float}
use girasolbot.CopyEngine.Fetch.{
  Fetched, parsed, failed, is_429, retry, fetch_and_parse_with_retry, retry_delays_ms,
}

-- The delays from one attempt on.
take-delays :
    (n attempt : ℕ)
    → attempt < 3
    → take (suc n) (drop attempt retry_delays_ms)
      ≡ get_or retry_delays_ms attempt 0 ∷ take n (drop (attempt + 1) retry_delays_ms)
take-delays n zero h = refl
take-delays n (suc zero) h = refl
take-delays n (suc (suc zero)) h = refl
take-delays n (suc (suc (suc a))) h = ground arith

module _ (F : Float) where
  abbrev pub is_limited : Fetched F → Bool
  is_limited (parsed t) = false
  is_limited (failed e) = is_429 e

  retry-stop :
      (replies : ℕ → Fetched F) (left attempt : ℕ) (last : Option String)
      → (is_limited (replies attempt) ≡ false) ⊎ (3 ≤ attempt)
      → retry F replies (suc left) attempt last ≡ (replies attempt, [])
  unfolding retry
  retry-stop replies left attempt last h = ground arith

  limited-failed :
      (f : Fetched F) → is_limited f ≡ true → (e : String) × (f ≡ failed e) × (is_429 e ≡ true)
  limited-failed (parsed t) h = cc
  limited-failed (failed e) h = (e, refl, h)

  retry-continue :
      (replies : ℕ → Fetched F) (left attempt : ℕ) (last : Option String)
      → is_limited (replies attempt) ≡ true
      → attempt < 3
      → (next : Option String) × (let later = retry F replies left (attempt + 1) next in
          retry F replies (suc left) attempt last
          ≡ (later.0, get_or retry_delays_ms attempt 0 ∷ later.1))
  unfolding retry
  retry-continue replies left attempt last h small =
      let (e, fails, limited) = limited-failed (replies attempt) h in (some e, ground arith)

  -- The attempts from `attempt` on, when the one that decides is `n` attempts later.
  retry_until :
      (replies : ℕ → Fetched F) (n k left attempt : ℕ) (last : Option String)
      → k ≡ n + attempt
      → left + attempt ≡ 4
      → k ≤ 3
      → ((i : ℕ) → attempt ≤ i → i < k → is_limited (replies i) ≡ true)
      → (is_limited (replies k) ≡ false) ⊎ (3 ≤ k)
      → retry F replies left attempt last ≡ (replies k, take n (drop attempt retry_delays_ms))
  retry_until replies n k zero attempt last ek e small limited stop = ground arith
  retry_until replies zero k (suc left) attempt last ek e small limited stop =
      let same : k ≡ attempt = omega (arith, ek) in
      rw (same) (
        retry-stop replies left attempt last
          (subst (λ x. (is_limited (replies x) ≡ false) ⊎ (3 ≤ x)) same stop))
  retry_until replies (suc n) k (suc left) attempt last ek e small limited stop =
      let early : attempt < 3 = omega (arith, ek, small) in
      let before : attempt < k = omega (arith, ek) in
      let (next, step) =
        retry-continue replies left attempt last (limited attempt (omega arith) before) early in
      let later =
        retry_until replies n k left (attempt + 1) next (omega (arith, ek)) (omega (arith, e)) small
          (λ i after within. limited i (omega (arith, after)) within) stop in
      step ∙ rw later (ap (λ ds. (replies k, ds)) (sym (take-delays n attempt early)))

  -- A fetch ends with the first answer that is not a rate limit, after the delays of as many waits as
  -- there were rate limits before it; the fourth answer ends it in any case. So a transaction that the
  -- node hands out within four attempts is parsed, and an error of another kind is final at once.
  pub fetch_and_parse_with_retry-first :
      (replies : ℕ → Fetched F) (k : ℕ)
      → k ≤ 3
      → ((i : ℕ) → i < k → is_limited (replies i) ≡ true)
      → (is_limited (replies k) ≡ false) ⊎ (k ≡ 3)
      → fetch_and_parse_with_retry F replies ≡ (replies k, take k retry_delays_ms)
  unfolding fetch_and_parse_with_retry
  fetch_and_parse_with_retry-first replies k small limited stop =
      retry_until replies k k 4 0 none (omega arith) refl small (λ i after. limited i)
        (ground arith)
