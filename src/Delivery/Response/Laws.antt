-- ===== src/Delivery/Response/Laws.antt =====
-- The disposition of every response, and the bounds of the backoff.
use install_singboxhysteria.Delivery.Response.{
  backoff_delay, classify_response, status, ack, retry, permanent, Status, spread, not_int,
}
use native.Mathlib.Nat.{pow-suc}
use install_singboxhysteria.Common.{
  ℕ, min, none, some, true, zero, suc, ◌≡◌, arith, ◌⊎◌, List, ◌≤◌, ◌<◌, Bool, Option, ◌^◌, ◌*◌, ◌↔◌,
  is_some, inl, inr, refl, Bool-cases, ltb, ltb→lt,
}

-- The transient statuses.
abbrev pub Transient : ℕ → Type 0
Transient s = (s ≡ 408) ⊎ ((s ≡ 429) ⊎ ((500 ≤ s) × (s < 600)))

module _ (success_body : List ℕ → Bool) where
  int_status_iff :
      (s : ℕ) (body : List ℕ)
      → (((classify_response success_body (status s) body).0 ≡ ack)
          ↔ ((200 ≤ s) × (s < 300) × (success_body body ≡ true)))
        × (((classify_response success_body (status s) body).0 ≡ retry) ↔ Transient s)
        × (((classify_response success_body (status s) body).0 ≡ permanent)
            ↔ (is_some (classify_response success_body (status s) body).1 ≡ true))
  unfolding classify_response
  int_status_iff s body = (
    ((λ h. ground (arith, h)), λ h. ground (arith, h)),
    ((λ h. ground (arith, h)), λ h. ground (arith, h)),
    ((λ h. ground (arith, h)), λ h. ground (arith, h)),
  )

  -- For every status, an int or not, and every body: acknowledged exactly on an int of 2xx whose body is the
  -- success schema, retried exactly on the ints 408, 429 and 5xx, and given a quarantine token exactly when
  -- it is permanent.
  pub classify_response_iff :
      (st : Status) (body : List ℕ)
      → (((classify_response success_body st body).0 ≡ ack)
          ↔ ((s : ℕ) × ((st ≡ status s) × ((200 ≤ s) × (s < 300) × (success_body body ≡ true)))))
        × (((classify_response success_body st body).0 ≡ retry)
            ↔ ((s : ℕ) × ((st ≡ status s) × Transient s)))
        × (((classify_response success_body st body).0 ≡ permanent)
            ↔ (is_some (classify_response success_body st body).1 ≡ true))
  unfolding classify_response
  classify_response_iff not_int body =
      (((λ h. cc), λ (s, (e, h)). cc), ((λ h. cc), λ (s, (e, h)). cc), ((λ h. refl), λ h. refl))
  classify_response_iff (status s) body =
      let f = int_status_iff s body in
      (
        ((λ h. (s, (refl, f.0.0 h))), λ (k, (e, h)). let same : s ≡ k = cc in f.0.1 (rw (same) h)),
        ((λ h. (s, (refl, f.1.0 h))), λ (k, (e, h)). let same : s ≡ k = cc in f.1.1 (rw (same) h)),
        f.2,
      )

one-le-pow : (n : ℕ) → 1 ≤ 2 ^ n
one-le-pow zero = omega arith
one-le-pow (suc n) = omega (arith, pow-suc 2 n, one-le-pow n)

spread_bounds :
    (attempt : ℕ) (jitter : Option ℕ)
    → (1000 ≤ spread (2 ^ attempt) jitter) × (spread (2 ^ attempt) jitter ≤ 60 * 2000)
spread_bounds attempt none = omega (arith, one-le-pow attempt)
spread_bounds attempt (some span) =
    let low : 1 ≤ min 60 (2 ^ attempt) = omega (arith, one-le-pow attempt) in
    let high : min 60 (2 ^ attempt) ≤ 60 = omega arith in (grind arith, grind arith)

-- Before attempt 1024 there is a delay, between half a second and a minute whatever the jitter; from that
-- attempt on the computation overflows and there is none.
pub backoff_delay_bounds :
    (attempt : ℕ) (jitter : Option ℕ)
    → ((attempt < 1024)
        × ((d : ℕ) × ((backoff_delay attempt jitter ≡ some d) × ((1000 ≤ d) × (d ≤ 60 * 2000)))))
      ⊎ ((1024 ≤ attempt) × (backoff_delay attempt jitter ≡ none))
unfolding backoff_delay
backoff_delay_bounds attempt jitter = elim (Bool-cases (ltb attempt 1024)) [
  | inl h ↦ inl (
    ltb→lt attempt 1024 h,
    (spread (2 ^ attempt) jitter, (rw (backoff_delay, h) refl, spread_bounds attempt jitter)),
  )
  | inr h ↦ inr (ground (arith, h), rw (backoff_delay, h) refl)
]

-- Without jitter the delay never shrinks from one attempt to the next, and doubles until the cap.
spread_doubles :
    (attempt : ℕ) → spread (2 ^ suc attempt) none ≡ min (60 * 2000) (2 * spread (2 ^ attempt) none)
spread_doubles attempt = omega (arith, pow-suc 2 attempt)
