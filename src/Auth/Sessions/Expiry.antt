-- ===== src/Auth/Sessions/Expiry.antt =====
-- An expired session never comes back.
use install_singboxhysteria.Auth.Sessions.{
  Session, Store, live, purge, keep_except, Bool, min, resolve, is_expired, with_sessions, activity,
  drop_session, leb, drop_all, grant_step_up, revoke_all_step_ups, create, is_except, revoke_each,
  no_step_up, new_session,
}
use install_singboxhysteria.Common.{
  ℕ, [], ◌∷◌, none, some, true, false, inl, inr, refl, ◌≡◌, arith, Option, List, Bool-cases, Bool,
  min, ◌==◌, ◌≤◌, ap, sym, Option-cases, eqb→eq, leb, ◌∙◌, leb→le,
}
use install_singboxhysteria.Dict.{find, put, remove, find-put_other, find-remove, find-remove_other}

-- The calls that can change the store.
pub data Call : Type 0 where
  resolving touching dropping : ℕ → Call
  dropping_all : Option ℕ → Call
  granting : ℕ → Option ℕ → Call
  revoking : Call
  creating : ℕ → ℕ → Bool → Call

-- A session of `k`, if there is one, is expired at `n`.
abbrev pub Dead : ℕ → ℕ → List (ℕ × Session) → Type 0
Dead n k d = (s : Session) → find k d ≡ some s → min s.expires s.idle_expires ≤ n

-- The calls, the newest last, each at its time.
module _ (fingerprint : ℕ → ℕ → ℕ) where
  run_call : ℕ → Call → Store → Store
  run_call now (resolving k) st = (resolve now k st).1
  run_call now (touching k) st = (activity now k st).1
  run_call now (dropping k) st = drop_session k st
  run_call now (dropping_all e) st = drop_all e st
  run_call now (granting k ttl) st = (grant_step_up fingerprint now k ttl st).1
  run_call now revoking st = revoke_all_step_ups st
  run_call now (creating k csrf v) st = create fingerprint k csrf v now st

  pub run_calls : List (ℕ × Call) → Store → Store
  unfolding run_call
  run_calls [] st = st
  run_calls ((now, c) ∷ cs) st = run_calls cs (run_call now c st)

Dead-remove : (n k j : ℕ) (d : List (ℕ × Session)) → Dead n k d → Dead n k (remove j d)
Dead-remove n k j d h s e = elim (Bool-cases (k == j)) [
  | inl q ↦
      let gone = ap (λ x. find x (remove j d)) (eqb→eq k j q) ∙ find-remove j d in
      let no = sym gone ∙ e in cc
  | inr q ↦ h s (sym (find-remove_other k j d q) ∙ e)
]

Dead-put :
    (n k j : ℕ) (x : Session) (d : List (ℕ × Session))
    → (k == j) ≡ false
    → Dead n k d
    → Dead n k (put j x d)
Dead-put n k j x d q h s e = h s (sym (find-put_other k j x d q) ∙ e)

keep-none :
    (k : ℕ) (e : Option ℕ) (d : List (ℕ × Session))
    → is_except e k ≡ false
    → find k (keep_except e d) ≡ none
unfolding keep_except find
keep-none k e [] h = refl
keep-none k e ((j, s) ∷ d) h = elim (Bool-cases (j == k)) [
  | inl q ↦ rw (ap (is_except e) (eqb→eq j k q), h) (keep-none k e d h)
  | inr q ↦ elim (Bool-cases (is_except e j)) [
    | inl x ↦ rw (x, q) (keep-none k e d h)
    | inr x ↦ rw x (keep-none k e d h)
  ]
]

keep-same :
    (k : ℕ) (e : Option ℕ) (d : List (ℕ × Session))
    → is_except e k ≡ true
    → find k (keep_except e d) ≡ find k d
unfolding keep_except find
keep-same k e [] h = refl
keep-same k e ((j, s) ∷ d) h = elim (Bool-cases (j == k)) [
  | inl q ↦ rw (ap (is_except e) (eqb→eq j k q), h, q) refl
  | inr q ↦ elim (Bool-cases (is_except e j)) [
    | inl x ↦ rw (x, q) (keep-same k e d h)
    | inr x ↦ rw (x, q) (keep-same k e d h)
  ]
]

Dead-keep :
    (n k : ℕ) (e : Option ℕ) (d : List (ℕ × Session)) → Dead n k d → Dead n k (keep_except e d)
Dead-keep n k e d h s f = elim (Bool-cases (is_except e k)) [
  | inl x ↦ h s (sym (keep-same k e d x) ∙ f)
  | inr x ↦ let gone = sym (keep-none k e d x) ∙ f in cc
]

-- The session that a revoked one was.
revoke-was :
    (k : ℕ) (d : List (ℕ × Session)) (s : Session)
    → find k (revoke_each d) ≡ some s
    → (r : Session) × (find k d ≡ some r)
      × (s.expires ≡ r.expires)
      × (s.idle_expires ≡ r.idle_expires)
unfolding revoke_each find
revoke-was k [] s h = cc
revoke-was k ((j, r) ∷ d) s h = elim (Bool-cases (j == k)) [
  | inl q ↦
      let found : some (no_step_up r) ≡ some s = rw q at h in
      let this : no_step_up r ≡ s = cc in
      (
        r,
        rw q refl,
        ap (λ (x : Session). x.expires) (sym this),
        ap (λ (x : Session). x.idle_expires) (sym this),
      )
  | inr q ↦ rw q (revoke-was k d s (rw q at h))
]

live-Dead : (n now k : ℕ) (st : Store) → n ≤ now → Dead n k st.sessions → live now k st ≡ none
unfolding live is_expired
live-Dead n now k st le h = elim (Option-cases (find k st.sessions)) [
  | inl none_there ↦ rw (live, none_there) refl
  | inr f ↦
      let late : leb (min f.0.expires f.0.idle_expires) now ≡ true = ground (arith, h f.0 f.1) in
      rw (live, f.1, late) refl
]

purge-Dead :
    (n now k j : ℕ) (st : Store) → Dead n k st.sessions → Dead n k (purge now j st).sessions
unfolding purge with_sessions
purge-Dead n now k j st h = elim (Option-cases (find j st.sessions)) [
  | inl none_there ↦ rw (purge, none_there) h
  | inr f ↦ elim (Bool-cases (is_expired f.0 now)) [
    | inl x ↦ rw (purge, f.1, x) (Dead-remove n k j st.sessions h)
    | inr x ↦ rw (purge, f.1, x) h
  ]
]

abbrev creates : ℕ → Call → Bool
creates k (creating j csrf v) = j == k
creates k _ = false

-- A live session is another one than the dead.
live_other :
    (n now k j : ℕ) (st : Store) (s : Session)
    → n ≤ now
    → Dead n k st.sessions
    → live now j st ≡ some s
    → (k == j) ≡ false
live_other n now k j st s le h f = elim (Bool-cases (k == j)) [
  | inl q ↦
      let gone = sym f ∙ ap (λ x. live now x st) (sym (eqb→eq k j q)) ∙ live-Dead n now k st le h in
      cc
  | inr q ↦ q
]

touch-Dead :
    (n now k j : ℕ) (st : Store)
    → n ≤ now
    → Dead n k st.sessions
    → Dead n k (activity now j st).1.sessions
unfolding activity with_sessions
touch-Dead n now k j st le h = elim (Option-cases (live now j st)) [
  | inl gone ↦ rw (activity, gone) (purge-Dead n now k j st h)
  | inr f ↦
      rw (activity, f.1) (Dead-put n k j _ st.sessions (live_other n now k j st f.0 le h f.1) h)
]

grant-Dead :
    (fp : ℕ → ℕ → ℕ) (n now k j : ℕ) (ttl : Option ℕ) (st : Store)
    → n ≤ now
    → Dead n k st.sessions
    → Dead n k (grant_step_up fp now j ttl st).1.sessions
unfolding grant_step_up with_sessions
grant-Dead fp n now k j ttl st le h = elim (Option-cases (live now j st)) [
  | inl gone ↦ rw (grant_step_up, gone) h
  | inr f ↦
      rw (grant_step_up, f.1)
        (Dead-put n k j _ st.sessions (live_other n now k j st f.0 le h f.1) h)
]

call-Dead :
    (fp : ℕ → ℕ → ℕ) (n now k : ℕ) (c : Call) (st : Store)
    → n ≤ now
    → creates k c ≡ false
    → Dead n k st.sessions
    → Dead n k (run_call fp now c st).sessions
unfolding run_call with_sessions resolve drop_session drop_all revoke_all_step_ups create
call-Dead fp n now k (resolving j) st le new h = purge-Dead n now k j st h
call-Dead fp n now k (touching j) st le new h = touch-Dead n now k j st le h
call-Dead fp n now k (dropping j) st le new h = Dead-remove n k j st.sessions h
call-Dead fp n now k (dropping_all e) st le new h = Dead-keep n k e st.sessions h
call-Dead fp n now k (granting j ttl) st le new h = grant-Dead fp n now k j ttl st le h
call-Dead fp n now k revoking st le new h = λ s f.
    let was = revoke-was k st.sessions s f in
    let before = h was.0 was.1 in ground (arith, was.2, was.3, before)
call-Dead fp n now k (creating j csrf v) st le new h =
    Dead-put n k j (new_session fp j csrf v now st) st.sessions (ground (arith, new)) h

-- The calls come at `n` or later, and none of them creates `k`.
abbrev pub Later : ℕ → ℕ → List (ℕ × Call) → Type 0
Later n k [] = Unit {0}
Later n k ((now, c) ∷ cs) = (n ≤ now) × (creates k c ≡ false) × Later n k cs

calls-Dead :
    (fp : ℕ → ℕ → ℕ) (n k : ℕ) (cs : List (ℕ × Call)) (st : Store)
    → Later n k cs
    → Dead n k st.sessions
    → Dead n k (run_calls fp cs st).sessions
unfolding run_calls
calls-Dead fp n k [] st l h = h
calls-Dead fp n k ((now, c) ∷ cs) st l h =
    calls-Dead fp n k cs _ l.2 (call-Dead fp n now k c st l.0 l.1 h)

live-none : (n k : ℕ) (st : Store) → live n k st ≡ none → Dead n k st.sessions
unfolding live is_expired
live-none n k st h s f = elim (Bool-cases (is_expired s n)) [
  | inl x ↦ leb→le (min s.expires s.idle_expires) n x
  | inr x ↦
      let there : live n k st ≡ some s = rw (live, f, x) refl in let clash = sym there ∙ h in cc
]

-- A token that is not live at `n` is not live at any later time either, whatever calls follow at `n` or
-- later, in any order of their times, where none of them creates a session of that very token.
pub expired_never_revived :
    (fp : ℕ → ℕ → ℕ) (n k : ℕ) (cs : List (ℕ × Call)) (st : Store) (later : ℕ)
    → live n k st ≡ none
    → Later n k cs
    → n ≤ later
    → live later k (run_calls fp cs st) ≡ none
expired_never_revived fp n k cs st later h l le =
    live-Dead n later k (run_calls fp cs st) le (calls-Dead fp n k cs st l (live-none n k st h))
