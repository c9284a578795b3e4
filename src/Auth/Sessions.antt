-- ===== src/Auth/Sessions.antt =====
-- monitor-v2/web/auth.py: `SessionStore`. A token is a number, a time a whole number of seconds. The
-- random tokens are arguments of `create`, and the fingerprint's hash is a parameter. The mutex makes
-- each operation one step.
pub mod Expiry
use install_singboxhysteria.Common.{
  ℕ, [], ◌∷◌, none, some, true, false, zero, suc, inl, inr, refl, ◌≡◌, arith, Option, List, Bool,
  if◌then◌else◌, min, leb, ◌+◌, ◌-◌, ◌==◌, ltb,
}
use install_singboxhysteria.Dict.{find, put, remove}

pub record Session : Type 0 where
  pub created : ℕ
  pub expires : ℕ
  pub idle_expires : ℕ
  pub csrf_token : ℕ
  pub step_up_expires : Option ℕ
  pub step_up_granted_at : Option ℕ
  pub stepup_fp : Option ℕ

pub record Store : Type 0 where
  pub ttl : ℕ
  pub step_up_ttl : ℕ
  pub idle_ttl : ℕ
  pub sessions : List (ℕ × Session)

unfoldable pub is_expired : Session → ℕ → Bool
is_expired s now = leb (min s.expires s.idle_expires) now

unfoldable pub with_sessions : List (ℕ × Session) → Store → Store
with_sessions l st = record st { sessions = l }

-- `self._sessions.get(token)`, of which an expired one counts as none.
unfoldable pub live : ℕ → ℕ → Store → Option Session
unfolding is_expired
live now token st = elim (find token st.sessions) [
  | none ↦ none
  | some s ↦ if is_expired s now then none else some s
]

-- `resolve` and `activity` delete a session that they find expired.
unfoldable pub purge : ℕ → ℕ → Store → Store
unfolding is_expired with_sessions
purge now token st = elim (find token st.sessions) [
  | none ↦ st
  | some s ↦ if is_expired s now then with_sessions (remove token st.sessions) st else st
]

unfoldable pub resolve : ℕ → ℕ → Store → Option Session × Store
unfolding live purge
resolve now token st = (live now token st, purge now token st)

unfoldable pub activity : ℕ → ℕ → Store → Option ℕ × Store
unfolding live purge with_sessions
activity now token st = elim (live now token st) [
  | none ↦ (none, purge now token st)
  | some s ↦
      let until = min (now + st.idle_ttl) s.expires in
      (
        some (until - now),
        with_sessions (put token (record s { idle_expires = until }) st.sessions) st,
      )
]

unfoldable pub remaining : ℕ → ℕ → Store → ℕ
unfolding live
remaining now token st = elim (live now token st) [
  | none ↦ 0
  | some s ↦ min s.expires s.idle_expires - now
]

unfoldable pub drop_session : ℕ → Store → Store
unfolding with_sessions
drop_session token st = with_sessions (remove token st.sessions) st

abbrev pub is_except : Option ℕ → ℕ → Bool
is_except none k = false
is_except (some t) k = k == t

unfoldable pub keep_except : Option ℕ → List (ℕ × Session) → List (ℕ × Session)
keep_except e [] = []
keep_except e ((k, s) ∷ d) =
    let rest = keep_except e d in if is_except e k then (k, s) ∷ rest else rest

-- `drop_all(except_token)`.
unfoldable pub drop_all : Option ℕ → Store → Store
unfolding keep_except with_sessions
drop_all e st = with_sessions (keep_except e st.sessions) st

unfoldable pub step_up_active : ℕ → ℕ → Store → Bool
unfolding live
step_up_active now token st = elim (live now token st) [
  | none ↦ false
  | some s ↦ elim s.step_up_expires [ none ↦ false | some until ↦ ltb now until ]
]

-- `step_up_credentials`: whether the window is open, and its fingerprint.
unfoldable pub step_up_credentials : ℕ → ℕ → Store → Bool × Option ℕ
unfolding live
step_up_credentials now token st = elim (live now token st) [
  | none ↦ (false, none)
  | some s ↦ elim s.step_up_expires [
    | none ↦ (false, none)
    | some until ↦ if leb until now then (false, none) else (true, s.stepup_fp)
  ]
]

abbrev pub no_step_up : Session → Session
no_step_up s = record s { step_up_expires = none; step_up_granted_at = none; stepup_fp = none }

unfoldable pub revoke_each : List (ℕ × Session) → List (ℕ × Session)
revoke_each [] = []
revoke_each ((k, s) ∷ d) = (k, no_step_up s) ∷ revoke_each d

unfoldable pub revoke_all_step_ups : Store → Store
unfolding revoke_each with_sessions
revoke_all_step_ups st = with_sessions (revoke_each st.sessions) st

abbrev pub ttl_or : Option ℕ → ℕ → ℕ
ttl_or none d = d
ttl_or (some t) d = t

module _ (fingerprint : ℕ → ℕ → ℕ) where
  -- The record that a login makes.
  unfoldable pub new_session : ℕ → ℕ → Bool → ℕ → Store → Session
  new_session token csrf verified now st = record {
    created = now;
    expires = now + st.ttl;
    idle_expires = min (now + st.idle_ttl) (now + st.ttl);
    csrf_token = csrf;
    step_up_expires = if verified then some (now + st.ttl) else none;
    step_up_granted_at = if verified then some now else none;
    stepup_fp = if verified then some (fingerprint token now) else none;
  }

  unfoldable pub create : ℕ → ℕ → Bool → ℕ → Store → Store
  unfolding new_session with_sessions
  create token csrf verified now st =
      with_sessions (put token (new_session token csrf verified now st) st.sessions) st

  unfoldable pub grant_step_up : ℕ → ℕ → Option ℕ → Store → Option ℕ × Store
  unfolding live with_sessions
  grant_step_up now token ttl st = elim (live now token st) [
    | none ↦ (none, st)
    | some s ↦
        let until = min (now + ttl_or ttl st.step_up_ttl) s.expires in
        (
          some until,
          with_sessions
              (put token
                (record s {
                  step_up_expires = some until;
                  step_up_granted_at = some now;
                  stepup_fp = some (fingerprint token now);
                })
                st.sessions)
              st,
        )
  ]
