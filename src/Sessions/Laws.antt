-- ===== src/Sessions/Laws.antt =====
-- Every reached state of the sessions is well formed: a session's context fits its phase, and a
-- timer is armed only where its phase lets it be.
use purecheckers.Base.{
  is_some, ℕ, ◌≡◌, subst, inl, inr, Bool, true, false, not, ◌&&◌, ◌==◌, Bool-cases, Option-cases,
  Option, none, some, List, arith,
}
use purecheckers.Sessions.{
  Phase, idle, allowed, Context, Notice, Session, State, put, new_session, clear_context,
  enter_phase, with_notice, lost_in_game, lost_elsewhere, has_context, is_matchmaking, is_in_game,
  is_idle, get_or_create_session, set_phase, force_idle, handle_disconnect,
}

pub record Fits (u : Session) : Type 0 where
  pub context : has_context u.phase u.context ≡ true
  pub game_timer :
      is_some u.disconnect_timer ≡ true
      → (is_in_game u.phase ≡ true)
        × (is_some u.connection_id ≡ false)
        × (is_some u.disconnect_deadline ≡ true)
  pub search_timer :
      is_some u.fallback_timer ≡ true
      → (is_matchmaking u.phase ≡ true) × (is_some u.matchmaking_fallback_at ≡ true)

-- The session of a user, if there is one, fits.
abbrev pub FitsOption : Option Session → Type 0
FitsOption none = Unit {0}
FitsOption (some u) = Fits u

abbrev pub IsFit : State → Type 0
IsFit s = (user : ℕ) → FitsOption (s.sessions user)

pub put-IsFit :
    (s : State) (user : ℕ) (v : Option Session) → IsFit s → FitsOption v → IsFit (put s user v)
unfolding put
put-IsFit s user v h k other = elim (Bool-cases (user == other)) [
  | inl e ↦ rw e k
  | inr e ↦ rw e (h other)
]

new_session-Fits : (username : List ℕ) (is_guest : Bool) → Fits (new_session username is_guest)
unfolding new_session
new_session-Fits username is_guest = ground arith

enter_phase-Fits :
    (u : Session) (phase : Phase) (c : Context)
    → has_context phase c ≡ true
    → Fits (enter_phase u phase c)
unfolding enter_phase clear_context
enter_phase-Fits u phase c h = ground arith

idle-Fits : (u : Session) → Fits (clear_context (record u { phase = idle }))
unfolding clear_context
idle-Fits u = ground arith

pub with_notice-Fits : (u : Session) (n : Notice) → Fits u → Fits (with_notice u n)
unfolding with_notice
with_notice-Fits u n f = ground arith

lost_in_game-Fits :
    (u : Session) (timer now : ℕ)
    → is_in_game u.phase ≡ true
    → Fits u
    → Fits (lost_in_game u timer now)
unfolding lost_in_game
lost_in_game-Fits u timer now h f = ground arith

lost_elsewhere-Fits : (u : Session) (now : ℕ) → Fits u → Fits (lost_elsewhere u now)
unfolding lost_elsewhere
lost_elsewhere-Fits u now f = ground arith

pub session-Fits :
    (s : State) (user : ℕ) (u : Session) → IsFit s → s.sessions user ≡ some u → Fits u
session-Fits s user u h e = subst FitsOption e (h user)

pub get_or_create_session-IsFit :
    (s : State) (user : ℕ) (username : List ℕ) (is_guest : Bool)
    → IsFit s
    → IsFit (get_or_create_session s user username is_guest)
unfolding get_or_create_session
get_or_create_session-IsFit s user username is_guest h = elim (Option-cases (s.sessions user)) [
  | inl e ↦
      rw (e, get_or_create_session) (put-IsFit s user _ h (new_session-Fits username is_guest))
  | inr (u, e) ↦
      let f = session-Fits s user u h e in
      rw (e, get_or_create_session)
        (put-IsFit s user (some (record u { username = username; is_guest = is_guest })) h (record {
          context = f.context;
          game_timer = f.game_timer;
          search_timer = f.search_timer;
        }))
]

pub set_phase-IsFit :
    (s : State) (user : ℕ) (phase : Phase) (c : Context)
    → IsFit s
    → IsFit (set_phase s user phase c).0
unfolding set_phase
set_phase-IsFit s user phase c h = elim (Option-cases (s.sessions user)) [
  | inl e ↦ rw (e, set_phase) h
  | inr (u, e) ↦ elim (Bool-cases (allowed u.phase phase)) [
    | inr n ↦ rw (e, set_phase, n) h
    | inl a ↦ elim (Bool-cases (has_context phase c)) [
      | inr n ↦ rw (e, set_phase, a, n) h
      | inl k ↦
          rw (e, set_phase, a, k)
            (put-IsFit s user (some (enter_phase u phase c)) h (enter_phase-Fits u phase c k))
    ]
  ]
]

pub force_idle-IsFit : (s : State) (user : ℕ) → IsFit s → IsFit (force_idle s user)
unfolding force_idle
force_idle-IsFit s user h = elim (Option-cases (s.sessions user)) [
  | inl e ↦ rw (e, force_idle) h
  | inr (u, e) ↦
      let k = put-IsFit s user (some (clear_context (record u { phase = idle }))) h (idle-Fits u) in
      elim (Bool-cases (is_idle u.phase)) [
        | inl i ↦ rw (e, force_idle, i) k
        | inr i ↦ rw (e, force_idle, i) k
      ]
]

pub handle_disconnect-IsFit :
    (s : State) (user now : ℕ) → IsFit s → IsFit (handle_disconnect s user now)
unfolding handle_disconnect
handle_disconnect-IsFit s user now h = elim (Option-cases (s.sessions user)) [
  | inl e ↦ rw (e, handle_disconnect) h
  | inr (u, e) ↦
      let f = session-Fits s user u h e in
      elim (Bool-cases (not (is_some u.connection_id) && is_some u.disconnect_timer)) [
        | inl k ↦ rw (e, handle_disconnect, k) h
        | inr k ↦ elim (Bool-cases (is_in_game u.phase)) [
          | inl g ↦
              rw (e, handle_disconnect, k, g)
                (put-IsFit s user (some (lost_in_game u s.next_timer now)) h
                  (lost_in_game-Fits u s.next_timer now g f))
          | inr g ↦
              let lost =
                put-IsFit s user (some (lost_elsewhere u now)) h (lost_elsewhere-Fits u now f) in
              elim (Bool-cases (is_matchmaking u.phase)) [
                | inl m ↦
                    rw (e, handle_disconnect, k, g, m)
                      (force_idle-IsFit (put s user (some (lost_elsewhere u now))) user lost)
                | inr m ↦ rw (e, handle_disconnect, k, g, m) lost
              ]
        ]
      ]
]
