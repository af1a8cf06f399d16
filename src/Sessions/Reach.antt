-- ===== src/Sessions/Reach.antt =====
-- Every state that the operations of the sessions reach is well formed; what the wakes of
-- the timers report.
use purecheckers.Base.{
  is_some, ℕ, ◌<◌, ◌≤◌, ◌≡◌, refl, ◌⊎◌, inl, inr, Bool, true, false, not, ◌&&◌, ltb, Bool-cases,
  Option-cases, Option, none, some, List, [], ◌∷◌, ◌++◌, arith,
}
use purecheckers.Sessions.{
  Phase, Context, Notice, Session, Event, State, put, shown, with_notice, truthy, is_in_game,
  get_or_create_session, set_phase, set_matchmaking_deadline, check_deadline, force_idle,
  handle_disconnect, disconnect_timeout, handle_reconnect, remove_session, apply_session_notice,
}
use purecheckers.Sessions.Laws.{
  IsFit, put-IsFit, session-Fits, with_notice-Fits, get_or_create_session-IsFit, set_phase-IsFit,
  force_idle-IsFit, handle_disconnect-IsFit,
}
use purecheckers.Sessions.Timers.{is_current, set_matchmaking_deadline-IsFit, check_deadline-IsFit}

disconnect_timeout-IsFit : (s : State) (user : ℕ) → IsFit s → IsFit (disconnect_timeout s user)
unfolding disconnect_timeout
disconnect_timeout-IsFit s user h = elim (Option-cases (s.sessions user)) [
  | inl e ↦ rw (e, disconnect_timeout) h
  | inr (u, e) ↦
      let f = session-Fits s user u h e in
      let k =
        put-IsFit s user (some (record u { disconnect_timer = none; disconnect_deadline = none })) h
          (record { context = f.context; game_timer = λ z. cc; search_timer = f.search_timer }) in
      elim (Bool-cases (is_in_game u.phase && not (is_some u.connection_id))) [
        | inl i ↦ rw (e, disconnect_timeout, i) k
        | inr i ↦ rw (e, disconnect_timeout, i) k
      ]
]

handle_reconnect-IsFit :
    (s : State) (user connection : ℕ) → IsFit s → IsFit (handle_reconnect s user connection)
unfolding handle_reconnect
handle_reconnect-IsFit s user connection h = elim (Option-cases (s.sessions user)) [
  | inl e ↦ rw (e, handle_reconnect) h
  | inr (u, e) ↦
      let f = session-Fits s user u h e in
      rw (e, handle_reconnect)
        (put-IsFit s user
          (some (record u {
            connection_id = some connection;
            disconnected_at = none;
            disconnect_deadline = none;
            disconnect_timer = none;
          }))
          h (record { context = f.context; game_timer = λ z. cc; search_timer = f.search_timer }))
]

apply_session_notice-IsFit :
    (s : State) (user : ℕ) (n : Option Notice) → IsFit s → IsFit (apply_session_notice s user n)
unfolding apply_session_notice
apply_session_notice-IsFit s user none h = elim (Option-cases (s.sessions user)) [
  | inl e ↦ rw (e, apply_session_notice) h
  | inr (u, e) ↦ rw (e, apply_session_notice) h
]
apply_session_notice-IsFit s user (some n) h = elim (Option-cases (s.sessions user)) [
  | inl e ↦ rw (e, apply_session_notice) h
  | inr (u, e) ↦
      rw (e, apply_session_notice)
        (put-IsFit s user (some (with_notice u n)) h
          (with_notice-Fits u n (session-Fits s user u h e)))
]

abbrev pub start : State
start = record { sessions = λ _. none; next_timer = 0; events = [] }

-- The states that calls of the module's functions and wakes of its timers reach.
pub data Reached : State → Type 0 where
  begins : Reached start
  creates :
      {s : State} (user : ℕ) (username : List ℕ) (is_guest : Bool)
      → Reached s
      → Reached (get_or_create_session s user username is_guest)
  enters :
      {s : State} (user : ℕ) (phase : Phase) (c : Context)
      → Reached s
      → Reached (set_phase s user phase c).0
  searches :
      {s : State} (user joined_at fallback_at now : ℕ)
      → Reached s
      → Reached (set_matchmaking_deadline s user joined_at fallback_at now).0
  wakes_search :
      {s : State} (user timer joined_at fallback_at now : ℕ)
      → Reached s
      → Reached (check_deadline s user timer joined_at fallback_at now)
  idles : {s : State} (user : ℕ) → Reached s → Reached (force_idle s user)
  disconnects : {s : State} (user now : ℕ) → Reached s → Reached (handle_disconnect s user now)
  wakes_game : {s : State} (user : ℕ) → Reached s → Reached (disconnect_timeout s user)
  reconnects :
      {s : State} (user connection : ℕ) → Reached s → Reached (handle_reconnect s user connection)
  removes : {s : State} (user : ℕ) → Reached s → Reached (remove_session s user)
  notices :
      {s : State} (user : ℕ) (n : Option Notice)
      → Reached s
      → Reached (apply_session_notice s user n)

remove_session-IsFit : (s : State) (user : ℕ) → IsFit s → IsFit (remove_session s user)
unfolding remove_session
remove_session-IsFit s user h = put-IsFit s user none h tt

-- In every reached state each session has the context that its phase needs, a disconnect timer is
-- armed only in a game without a connection and with a deadline, and a search timer only while
-- searching.
pub Reached-IsFit : {s : State} → Reached s → IsFit s
Reached-IsFit begins = λ user. tt
Reached-IsFit (creates {s = s} user username is_guest r) =
    get_or_create_session-IsFit s user username is_guest (Reached-IsFit r)
Reached-IsFit (enters {s = s} user phase c r) = set_phase-IsFit s user phase c (Reached-IsFit r)
Reached-IsFit (searches {s = s} user joined_at fallback_at now r) =
    set_matchmaking_deadline-IsFit s user joined_at fallback_at now (Reached-IsFit r)
Reached-IsFit (wakes_search {s = s} user timer joined_at fallback_at now r) =
    check_deadline-IsFit s user timer joined_at fallback_at now (Reached-IsFit r)
Reached-IsFit (idles {s = s} user r) = force_idle-IsFit s user (Reached-IsFit r)
Reached-IsFit (disconnects {s = s} user now r) =
    handle_disconnect-IsFit s user now (Reached-IsFit r)
Reached-IsFit (wakes_game {s = s} user r) = disconnect_timeout-IsFit s user (Reached-IsFit r)
Reached-IsFit (reconnects {s = s} user connection r) =
    handle_reconnect-IsFit s user connection (Reached-IsFit r)
Reached-IsFit (removes {s = s} user r) = remove_session-IsFit s user (Reached-IsFit r)
Reached-IsFit (notices {s = s} user n r) = apply_session_notice-IsFit s user n (Reached-IsFit r)

-- In a reached state the wake of an armed disconnect timer disarms it and reports the session's game.
pub disconnect_timeout-reports :
    {s : State} (user : ℕ) (u : Session)
    → Reached s
    → s.sessions user ≡ some u
    → is_some u.disconnect_timer ≡ true
    → ((disconnect_timeout s user).events
        ≡ s.events ++ Event.game_timeout user u.context.game_id ∷ [])
      × (truthy u.context.game_id ≡ true)
      × ((disconnect_timeout s user).sessions user
          ≡ some (record u { disconnect_timer = none; disconnect_deadline = none }))
unfolding disconnect_timeout put
disconnect_timeout-reports {s} user u r e t =
    let f = session-Fits s user u (Reached-IsFit r) e in
    (
      ground (arith, f.game_timer t),
      ground (arith, f.game_timer t, f.context),
      ground (arith, f.game_timer t),
    )

-- The wake of a search's timer reports the search's end only to a user who still makes that very
-- search and whose deadline has passed; the wake of any other timer leaves everything as it was.
pub check_deadline-reports :
    (s : State) (user timer joined_at fallback_at now : ℕ) (u : Session)
    → s.sessions user ≡ some u
    → (((check_deadline s user timer joined_at fallback_at now).events
          ≡ s.events ++ Event.search_deadline user ∷ [])
        × (is_current u timer joined_at fallback_at ≡ true)
        × (fallback_at ≤ now))
      ⊎ (((check_deadline s user timer joined_at fallback_at now).events ≡ s.events)
          × ((is_current u timer joined_at fallback_at ≡ true) × (now < fallback_at)
              ⊎ (is_current u timer joined_at fallback_at ≡ false)
                × (check_deadline s user timer joined_at fallback_at now ≡ s)))
unfolding check_deadline put
check_deadline-reports s user timer joined_at fallback_at now u e =
    elim (Bool-cases (is_current u timer joined_at fallback_at)) [
      | inr m ↦ inr (rw (e, check_deadline, m) (refl, inr (refl, refl)))
      | inl m ↦ elim (Bool-cases (ltb now fallback_at)) [
        | inl l ↦ inr (rw (e, check_deadline, m, l) (refl, inl (refl, ground arith)))
        | inr l ↦ inl (rw (e, check_deadline, m, l) (refl, refl, ground arith))
      ]
    ]

-- The session that two notices leave does not depend on the order in which they come, if two
-- of one sequence number show the same.
pub with_notice_comm :
    (u : Session) (a b : Notice)
    → (a.sequence ≡ b.sequence → shown a ≡ shown b)
    → with_notice (with_notice u a) b ≡ with_notice (with_notice u b) a
unfolding with_notice
with_notice_comm u a b h = ground arith
