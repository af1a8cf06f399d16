-- ===== src/Sessions/Phases.antt =====
-- The changes of phase: which are taken, and what they make of the session and its timers.
use purecheckers.Base.{
  ℕ, zero, suc, ◌+◌, ◌==◌, ◌≡◌, refl, ap, sym, ◌∙◌, ◌⊎◌, inl, inr, Bool, Bool-cases, true, false,
  ◌&&◌, is_some, Option, Option-cases, none, some, ◌∷◌, [], ◌++◌, arith,
}
use purecheckers.Board.{Color}
use purecheckers.Sessions.{
  Phase, idle, in_room, matchmaking, in_game, spectating, allowed, Context, Session, phase_changed,
  State, put, clear_context, has_context, truthy, is_idle, is_matchmaking, is_this, notify,
  enter_phase, set_phase, check_deadline,
}

-- A user who is idle may begin anything else, and whoever is not may become idle; a room or a search leads
-- into a game, a search into a room, and a spectator may watch another game.
unfoldable pub Follows : Phase → Phase → Type 0
Follows p q =
    (p ≡ idle) × (¬ (q ≡ idle))
    ⊎ ((¬ (p ≡ idle)) × (q ≡ idle)
        ⊎ ((q ≡ in_game) × ((p ≡ in_room) ⊎ (p ≡ matchmaking))
            ⊎ ((p ≡ matchmaking) × (q ≡ in_room) ⊎ (p ≡ spectating) × (q ≡ spectating))))

-- An identifier that is neither missing nor 0.
abbrev pub Named : Option ℕ → Type 0
Named o = (n : ℕ) × (o ≡ some (n + 1))

-- A room and a spectator's room are named; a game is named, with the player's color.
abbrev pub Given : Phase → Context → Type 0
Given idle c = true ≡ true
Given in_room c = Named c.room_id
Given matchmaking c = true ≡ true
Given in_game c = Named c.game_id × ((color : Color) × (c.game_color ≡ some color))
Given spectating c = Named c.spectating_room_id

-- The session is in the phase, with its context alone and without a timer; nobody else's session changes,
-- the change is published, and no timer of a search that the session made before it does anything.
pub record Entered (s : State) (user : ℕ) (u : Session) (phase : Phase) (c : Context)
    (after : State) : Type 0 where
  pub session : Session
  pub found : after.sessions user ≡ some session
  pub in_phase : session.phase ≡ phase
  pub with_context : session.context ≡ c
  pub no_search : session.fallback_timer ≡ none
  pub no_disconnect : session.disconnect_timer ≡ none
  pub same_connection : session.connection_id ≡ u.connection_id
  pub same_notice : session.notice ≡ u.notice
  pub others : (k : ℕ) → user == k ≡ false → after.sessions k ≡ s.sessions k
  pub published : after.events ≡ s.events ++ phase_changed ∷ []
  pub stale :
      (timer joined_at fallback_at now : ℕ)
      → check_deadline after user timer joined_at fallback_at now ≡ after

allowed-Follows : (p q : Phase) → allowed p q ≡ true → Follows p q
unfolding Follows
allowed-Follows idle idle h = absurd (ground (arith, h))
allowed-Follows idle in_room h = inl (refl, λ e. absurd (ground (arith, ap is_idle e)))
allowed-Follows idle matchmaking h = inl (refl, λ e. absurd (ground (arith, ap is_idle e)))
allowed-Follows idle in_game h = inl (refl, λ e. absurd (ground (arith, ap is_idle e)))
allowed-Follows idle spectating h = inl (refl, λ e. absurd (ground (arith, ap is_idle e)))
allowed-Follows in_room idle h = inr (inl (λ e. absurd (ground (arith, ap is_idle e)), refl))
allowed-Follows in_room in_room h = absurd (ground (arith, h))
allowed-Follows in_room matchmaking h = absurd (ground (arith, h))
allowed-Follows in_room in_game h = inr (inr (inl (refl, inl refl)))
allowed-Follows in_room spectating h = absurd (ground (arith, h))
allowed-Follows matchmaking idle h = inr (inl (λ e. absurd (ground (arith, ap is_idle e)), refl))
allowed-Follows matchmaking in_room h = inr (inr (inr (inl (refl, refl))))
allowed-Follows matchmaking matchmaking h = absurd (ground (arith, h))
allowed-Follows matchmaking in_game h = inr (inr (inl (refl, inr refl)))
allowed-Follows matchmaking spectating h = absurd (ground (arith, h))
allowed-Follows in_game idle h = inr (inl (λ e. absurd (ground (arith, ap is_idle e)), refl))
allowed-Follows in_game in_room h = absurd (ground (arith, h))
allowed-Follows in_game matchmaking h = absurd (ground (arith, h))
allowed-Follows in_game in_game h = absurd (ground (arith, h))
allowed-Follows in_game spectating h = absurd (ground (arith, h))
allowed-Follows spectating idle h = inr (inl (λ e. absurd (ground (arith, ap is_idle e)), refl))
allowed-Follows spectating in_room h = absurd (ground (arith, h))
allowed-Follows spectating matchmaking h = absurd (ground (arith, h))
allowed-Follows spectating in_game h = absurd (ground (arith, h))
allowed-Follows spectating spectating h = inr (inr (inr (inr (refl, refl))))

begun : (q : Phase) → (¬ (q ≡ idle)) → allowed idle q ≡ true
begun idle n = absurd (n refl)
begun in_room n = refl
begun matchmaking n = refl
begun in_game n = refl
begun spectating n = refl

ended : (p : Phase) → (¬ (p ≡ idle)) → allowed p idle ≡ true
ended idle n = absurd (n refl)
ended in_room n = refl
ended matchmaking n = refl
ended in_game n = refl
ended spectating n = refl

Follows-allowed : (p q : Phase) → Follows p q → allowed p q ≡ true
unfolding Follows
Follows-allowed p q (inl (e, n)) = ap (λ z. allowed z q) e ∙ begun q n
Follows-allowed p q (inr (inl (n, e))) = ap (allowed p) e ∙ ended p n
Follows-allowed p q (inr (inr (inl (e, inl k)))) = ap (allowed p) e ∙ ap (λ z. allowed z in_game) k
Follows-allowed p q (inr (inr (inl (e, inr k)))) = ap (allowed p) e ∙ ap (λ z. allowed z in_game) k
Follows-allowed p q (inr (inr (inr (inl (e, k))))) =
    ap (allowed p) k ∙ ap (λ z. allowed z in_room) e
Follows-allowed p q (inr (inr (inr (inr (e, k))))) =
    ap (allowed p) k ∙ ap (λ z. allowed z spectating) e

truthy-Named : (o : Option ℕ) → truthy o ≡ true → Named o
truthy-Named none h = absurd (ground (arith, h))
truthy-Named (some zero) h = absurd (ground (arith, h))
truthy-Named (some (suc n)) h = (n, ap some (omega arith))

Named-truthy : (o : Option ℕ) → Named o → truthy o ≡ true
Named-truthy o (n, e) = ap truthy e ∙ ground arith

a_color : (o : Option Color) → is_some o ≡ true → (color : Color) × (o ≡ some color)
a_color none h = absurd (ground (arith, h))
a_color (some color) h = (color, refl)

has_context-Given : (q : Phase) (c : Context) → has_context q c ≡ true → Given q c
has_context-Given idle c h = refl
has_context-Given in_room c h = truthy-Named c.room_id h
has_context-Given matchmaking c h = refl
has_context-Given in_game c h =
    (truthy-Named c.game_id (ground (arith, h)), a_color c.game_color (ground (arith, h)))
has_context-Given spectating c h = truthy-Named c.spectating_room_id h

Given-has_context : (q : Phase) (c : Context) → Given q c → has_context q c ≡ true
Given-has_context idle c g = refl
Given-has_context in_room c g = Named-truthy c.room_id g
Given-has_context matchmaking c g = refl
Given-has_context in_game c (g, (color, e)) = ground (arith, Named-truthy c.game_id g, ap is_some e)
Given-has_context spectating c g = Named-truthy c.spectating_room_id g

abbrev phase_allows : Phase → Option Session → Bool
phase_allows phase none = false
phase_allows phase (some u) = allowed u.phase phase

-- No search's timer is armed after a change of phase, so none of those armed before does anything.
set_phase-stale :
    (s : State) (user : ℕ) (u : Session)
    → s.sessions user ≡ some u
    → u.fallback_timer ≡ none
    → (timer joined_at fallback_at now : ℕ)
    → check_deadline s user timer joined_at fallback_at now ≡ s
unfolding check_deadline
set_phase-stale s user u e f timer joined_at fallback_at now =
    let off : (is_matchmaking u.phase
          && is_this u.fallback_timer timer
          && is_this u.matchmaking_joined_at joined_at
          && is_this u.matchmaking_fallback_at fallback_at)
        ≡ false =
      ground (arith, ap (λ z. is_this z timer) f) in
    rw (e, check_deadline, off) refl

-- The state that a change of phase leaves.
abbrev changed : State → ℕ → Session → Phase → Context → State
changed s user u phase c = notify (put s user (some (enter_phase u phase c))) phase_changed

changed-Entered :
    (s : State) (user : ℕ) (u : Session) (phase : Phase) (c : Context)
    → Entered s user u phase c (changed s user u phase c)
unfolding put enter_phase clear_context
changed-Entered s user u phase c =
    let here : (changed s user u phase c).sessions user ≡ some (enter_phase u phase c) =
      ground arith in
    record {
      session = enter_phase u phase c;
      found = here;
      in_phase = refl;
      with_context = refl;
      no_search = refl;
      no_disconnect = refl;
      same_connection = refl;
      same_notice = refl;
      others = λ k e. ground (arith, e);
      published = refl;
      stale = set_phase-stale (changed s user u phase c) user (enter_phase u phase c) here refl;
    }

-- `setPhase` either succeeds for an existing session whose phase the new one may follow, with what the new phase
-- needs: the session is then in the phase with that context alone, keeps its connection and notice, has no
-- timer, no timer of an earlier search does anything any more, everyone else's session stays, and the change
-- is published; or it fails, because there is no session, the phase may not follow or its context is
-- missing, and then leaves everything as it was.
pub set_phase-Decides :
    (s : State) (user : ℕ) (phase : Phase) (c : Context)
    → ((u : Session) × (s.sessions user ≡ some u)
        × Follows u.phase phase
        × Given phase c
        × ((set_phase s user phase c).1 ≡ true)
        × Entered s user u phase c (set_phase s user phase c).0)
      ⊎ (((u : Session) → s.sessions user ≡ some u → Follows u.phase phase → ¬ Given phase c)
          × ((set_phase s user phase c).1 ≡ false)
          × ((set_phase s user phase c).0 ≡ s))
unfolding set_phase
set_phase-Decides s user phase c = elim (Option-cases (s.sessions user)) [
  | inl e ↦ inr (
    λ u q. absurd (ground (arith, ap is_some (sym e ∙ q))),
    rw (e, set_phase) refl,
    rw (e, set_phase) refl,
  )
  | inr (u, e) ↦ elim (Bool-cases (allowed u.phase phase)) [
    | inr a ↦ inr (
      λ v q f.
          absurd (
            ground
              (arith, a, Follows-allowed v.phase phase f, ap (phase_allows phase) (sym e ∙ q))),
      rw (e, set_phase, a) refl,
      rw (e, set_phase, a) refl,
    )
    | inl a ↦ elim (Bool-cases (has_context phase c)) [
      | inr k ↦ inr (
        λ v q f g. ground (arith, k, Given-has_context phase c g),
        rw (e, set_phase, a, k) refl,
        rw (e, set_phase, a, k) refl,
      )
      | inl k ↦ inl (
        u,
        e,
        allowed-Follows u.phase phase a,
        has_context-Given phase c k,
        rw (e, set_phase, a, k) refl,
        rw (e, set_phase, a, k) (changed-Entered s user u phase c),
      )
    ]
  ]
]
