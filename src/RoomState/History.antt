-- ===== src/RoomState/History.antt =====
-- What holds of every list of accepted transitions from a waiting room.
use purecheckers.Base.{
  ◌≡◌, refl, ap, sym, subst, ◌∙◌, ◌⊎◌, inl, inr, Bool, true, false, ◌&&◌, List, [], ◌∷◌, ◌++◌, ◌∈◌,
  arith, any_of,
}
use purecheckers.Game.Invariant.{same_text_iff}
use purecheckers.Rooms
use purecheckers.RoomState.{
  Status, waiting, starting, playing, closed, RoomState, Context, member_ids, same_status,
  same_members, transitions, allows, keeps_start, starts_ready, is_started, as_room,
}
use purecheckers.RoomState.Allowed.{Allowed, allows-Allowed, members-ids}

-- A transition to a room, with what is known when it is decided.
abbrev pub Step : Type 0
Step = Context × RoomState

-- Each step is an accepted transition from the room before it.
unfoldable pub accepted : RoomState → List Step → Bool
accepted t [] = true
accepted t ((ctx, u) ∷ rest) = allows t u ctx && accepted u rest

unfoldable pub last_room : RoomState → List Step → RoomState
last_room t [] = t
last_room t ((ctx, u) ∷ rest) = last_room u rest

-- In these very steps a waiting room that could start, by the users of that step, was started with its
-- players, and each room after it has started with the same players.
pub record StartedIn (s : RoomState) (steps : List Step) : Type 0 where
  pub before : List Step
  pub ctx : Context
  pub first : RoomState
  pub after : List Step
  pub split : steps ≡ before ++ (ctx, first) ∷ after
  pub was_waiting : (last_room s before).status ≡ waiting
  pub could_start :
      Rooms.can_start_room (as_room ctx.users.is_bot Rooms.waiting (last_room s before)) ≡ true
  pub into_starting : first.status ≡ starting
  pub players : member_ids first.players ≡ member_ids (last_room s before).players
  pub kept :
      (x : Step)
      → x ∈ after
      → (is_started x.1.status ≡ true) × (member_ids x.1.players ≡ member_ids first.players)

pub record IsLawful (s : RoomState) (steps : List Step) : Type 0 where
  pub origin : (last_room s steps).origin ≡ s.origin
  pub challenge : (last_room s steps).challenge ≡ s.challenge
  pub started : is_started (last_room s steps).status ≡ true → StartedIn s steps
  pub final :
      (u : RoomState) (ctx : Context)
      → (last_room s steps).status ≡ closed
      → allows (last_room s steps) u ctx ≡ false

closed_final : (t u : RoomState) (ctx : Context) → t.status ≡ closed → allows t u ctx ≡ false
unfolding allows transitions any_of
closed_final t u ctx e = rw e refl

only_starting :
    (v : Status)
    → is_started v ≡ true
    → any_of (same_status v) (transitions waiting) ≡ true
    → v ≡ starting
unfolding transitions any_of
only_starting waiting h k = absurd (ground (arith, h))
only_starting starting h k = refl
only_starting playing h k = absurd (ground (arith, k))
only_starting closed h k = absurd (ground (arith, h))

was_ready :
    (t u : RoomState) (ctx : Context)
    → t.status ≡ waiting
    → u.status ≡ starting
    → starts_ready t u ctx ≡ true
    → (Rooms.can_start_room (as_room ctx.users.is_bot Rooms.waiting t) ≡ true)
      × (same_members t.players u.players ≡ true)
unfolding starts_ready
was_ready t u ctx a b h = (ground (arith, a, b, h), ground (arith, a, b, h))

kept_players :
    (t u : RoomState)
    → is_started t.status ≡ true
    → is_started u.status ≡ true
    → keeps_start t u ≡ true
    → member_ids u.players ≡ member_ids t.players
unfolding keeps_start
kept_players t u a b h =
    sym ((same_text_iff (member_ids t.players) (member_ids u.players)).0 (ground (arith, a, b, h)))

no_way : (v : Status) → any_of (same_status v) (transitions closed) ≡ true → ⊥
unfolding transitions any_of
no_way v h = ground (arith, h)

-- Each step leads to a room that has started, with the players of `t`.
abbrev StaysStarted : RoomState → List Step → Type 0
StaysStarted t steps =
    (is_started t.status ≡ true)
    × ((x : Step)
        → x ∈ steps
        → (is_started x.1.status ≡ true) × (member_ids x.1.players ≡ member_ids t.players))

later :
    (t u : RoomState) (ctx : Context) (rest : List Step)
    → StartedIn u rest
    → StartedIn t ((ctx, u) ∷ rest)
unfolding last_room
later t u ctx rest f = record {
  before = (ctx, u) ∷ f.before;
  ctx = f.ctx;
  first = f.first;
  after = f.after;
  split = ap (λ z. (ctx, u) ∷ z) f.split;
  was_waiting = f.was_waiting;
  could_start = f.could_start;
  into_starting = f.into_starting;
  players = f.players;
  kept = f.kept;
}

stays :
    (t u : RoomState) (ctx : Context) (rest : List Step)
    → Allowed t u ctx
    → is_started t.status ≡ true
    → StaysStarted u rest
    → StaysStarted t ((ctx, u) ∷ rest)
stays t u ctx rest a on (next, kept) =
    let same = kept_players t u on next a.keeps in
    (
      on,
      λ x m. elim m [
        | inl e ↦
            subst {A = Step}
              (λ z.
                (is_started z.1.status ≡ true) × (member_ids z.1.players ≡ member_ids t.players))
              (sym e) (next, same)
        | inr e ↦ ((kept x e).0, (kept x e).1 ∙ same)
      ],
    )

by_table :
    (t u : RoomState) (ctx : Context) (v : Status)
    → Allowed t u ctx
    → t.status ≡ v
    → any_of (same_status u.status) (transitions v) ≡ true
by_table t u ctx v a e =
    sym (ap (λ z. any_of (same_status u.status) (transitions z)) e) ∙ a.by_table

first_step :
    (t u : RoomState) (ctx : Context) (rest : List Step)
    → Allowed t u ctx
    → StaysStarted u rest
    → (v : Status) → t.status ≡ v
    → StartedIn t ((ctx, u) ∷ rest) ⊎ StaysStarted t ((ctx, u) ∷ rest)
unfolding last_room
first_step t u ctx rest a k waiting e =
    let to = only_starting u.status k.0 (by_table t u ctx waiting a e) in
    let ready = was_ready t u ctx e to a.ready in
    inl (record {
      before = [];
      ctx = ctx;
      first = u;
      after = rest;
      split = refl;
      was_waiting = e;
      could_start = ready.0;
      into_starting = to;
      players = sym (members-ids t.players u.players ready.1);
      kept = k.1;
    })
first_step t u ctx rest a k starting e = inr (stays t u ctx rest a (ap is_started e) k)
first_step t u ctx rest a k playing e = inr (stays t u ctx rest a (ap is_started e) k)
first_step t u ctx rest a k closed e = absurd (no_way u.status (by_table t u ctx closed a e))

steps-StartedIn :
    (steps : List Step) (t : RoomState)
    → accepted t steps ≡ true
    → is_started (last_room t steps).status ≡ true
    → StartedIn t steps ⊎ StaysStarted t steps
unfolding accepted last_room
steps-StartedIn [] t h on = inr (on, λ x m. absurd m)
steps-StartedIn ((ctx, u) ∷ rest) t h on =
    let a = allows-Allowed t u ctx (ground (arith, h)) in
    elim (steps-StartedIn rest u (ground (arith, h)) on) [
      | inl f ↦ inl (later t u ctx rest f)
      | inr k ↦ first_step t u ctx rest a k t.status refl
    ]

kept_by_steps :
    (steps : List Step) (t : RoomState)
    → accepted t steps ≡ true
    → ((last_room t steps).origin ≡ t.origin) × ((last_room t steps).challenge ≡ t.challenge)
unfolding accepted last_room
kept_by_steps [] t h = (refl, refl)
kept_by_steps ((ctx, u) ∷ rest) t h =
    let a = allows-Allowed t u ctx (ground (arith, h)) in
    let k = kept_by_steps rest u (ground (arith, h)) in (k.0 ∙ a.origin, k.1 ∙ a.challenge)

-- In every list of accepted transitions from a waiting room, the origin and the challenge stay as they
-- were; if the last room starts or plays, then some step of the list took a waiting room that could start,
-- by the users as they were at that step, to STARTING with its players, and every room after that step has
-- started with these players; and from a closed room no transition is accepted.
pub History-IsLawful :
    (s : RoomState) (steps : List Step)
    → s.status ≡ waiting
    → accepted s steps ≡ true
    → IsLawful s steps
History-IsLawful s steps e h = record {
  origin = (kept_by_steps steps s h).0;
  challenge = (kept_by_steps steps s h).1;
  started = λ on. elim (steps-StartedIn steps s h on) [
    | inl f ↦ f
    | inr k ↦ absurd (ground (arith, k.0, ap is_started e))
  ];
  final = λ u ctx. closed_final (last_room s steps) u ctx;
}
