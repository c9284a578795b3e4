-- ===== src/Delivery/Response.antt =====
-- monitor-v2/remote_probe/delivery.py: `classify_response`, `backoff_delay`.
-- `success_body` is `success_body_response`: what `json.loads` makes of a body is not modelled.
pub mod Laws
use install_singboxhysteria.Common.{
  ℕ, [], ◌∷◌, none, some, true, false, zero, suc, inl, inr, refl, ◌≡◌, arith, Bool, List, min,
  Option, leb, if◌then◌else◌, ◌^◌, ◌&&◌, ◌==◌, ◌*◌, ltb, ◌||◌, ◌+◌,
}

pub data Disposition : Type 0 where
  ack retry permanent : Disposition

pub data Token : Type 0 where
  malformed_2xx redirect oversize client_error unknown_response : Token

-- A status as the code sees it: an int, or a value of another type.
pub data Status : Type 0 where
  status : ℕ → Status
  not_int : Status

unfoldable pub in_class : ℕ → ℕ → ℕ → Bool
in_class low high s = leb low s && ltb s high

module _ (success_body : List ℕ → Bool) where
  unfoldable pub classify_response : Status → List ℕ → Disposition × Option Token
  unfolding in_class
  classify_response not_int body = (permanent, some unknown_response)
  classify_response (status s) body =
      if in_class 200 300 s
      then (if success_body body then (ack, none) else (permanent, some malformed_2xx))
      else if in_class 300 400 s
      then (permanent, some redirect)
      else if s == 408 || s == 429
      then (retry, none)
      else if s == 413
      then (permanent, some oversize)
      else if in_class 400 500 s
      then (permanent, some client_error)
      else if in_class 500 600 s
      then (retry, none)
      else (permanent, some unknown_response)

-- The jitter's value in thousandths, cut to [0, 1].
abbrev clamp_span : ℕ → ℕ
clamp_span span = min 1000 span

-- `1.0 * 2 ** attempt`: from 2 ** 1024 on the integer has no float, and the code raises OverflowError.
abbrev pub float_power : ℕ → Option ℕ
float_power attempt = if ltb attempt 1024 then some (2 ^ attempt) else none

-- min(60, power), times 0.5 + 0.5 * span where a jitter is given; in seconds times 2000.
abbrev pub spread : ℕ → Option ℕ → ℕ
spread power none = min 60 power * 2000
spread power (some span) = min 60 power * (1000 + clamp_span span)

-- none is the OverflowError.
unfoldable pub backoff_delay : ℕ → Option ℕ → Option ℕ
backoff_delay attempt jitter = elim (float_power attempt) [
  | none ↦ none
  | some power ↦ some (spread power jitter)
]
