-- ===== src/Rooms/Departure.antt =====
-- What a departure leaves in a room, and that a room that can start is settled.
use purecheckers.Base.{
  ℕ, ◌≡◌, refl, sym, ap, ◌∙◌, subst, inl, inr, Bool, true, false, not, ◌&&◌, ◌||◌, Bool-cases, List,
  [], ◌∷◌, ◌∈◌, arith, if◌then◌else◌, list_cases, length, ◌==◌,
}
use purecheckers.Rooms.{
  Member, Room, every, some_member, kept, can_edit_room_settings, reset_readiness, is_user,
  is_other, is_human, with_host, remove_member, is_room_player_ready, can_start_room,
}

pub kept-mem :
    (test : Member → Bool) (p : Member) (ps : List Member)
    → p ∈ kept test ps
    → (p ∈ ps) × (test p ≡ true)
unfolding kept
kept-mem test p [] h = absurd h
kept-mem test p (q ∷ ps) h = elim (Bool-cases (test q)) [
  | inl t ↦
      let k : p ∈ q ∷ kept test ps =
        subst (λ z. p ∈ (if z then q ∷ kept test ps else kept test ps)) t h in
      elim k [
        | inl e ↦ (inl e, ap test e ∙ t)
        | inr m ↦ (inr (kept-mem test p ps m).0, (kept-mem test p ps m).1)
      ]
  | inr t ↦
      let k : p ∈ kept test ps =
        subst (λ z. p ∈ (if z then q ∷ kept test ps else kept test ps)) t h in
      (inr (kept-mem test p ps k).0, (kept-mem test p ps k).1)
]

pub mem-kept :
    (test : Member → Bool) (p : Member) (ps : List Member)
    → p ∈ ps
    → test p ≡ true
    → p ∈ kept test ps
unfolding kept
mem-kept test p [] h t = absurd h
mem-kept test p (q ∷ ps) (inl e) t = rw (sym (ap test e) ∙ t) (inl e)
mem-kept test p (q ∷ ps) (inr h) t = elim (Bool-cases (test q)) [
  | inl u ↦ rw u (inr (mem-kept test p ps h t))
  | inr u ↦ rw u (mem-kept test p ps h t)
]

some_member-mem :
    (test : Member → Bool) (ps : List Member)
    → some_member test ps ≡ true
    → (p : Member) × (p ∈ ps) × (test p ≡ true)
unfolding some_member
some_member-mem test [] h = absurd (ground arith)
some_member-mem test (q ∷ ps) h = elim (Bool-cases (test q)) [
  | inl t ↦ (q, inl refl, t)
  | inr t ↦ let (p, m, e) = some_member-mem test ps (ground arith) in (p, inr m, e)
]

mem-reset_readiness :
    (p : Member) (ps : List Member) → p ∈ ps → record p { ready = p.is_bot } ∈ reset_readiness ps
unfolding reset_readiness
mem-reset_readiness p [] h = absurd h
mem-reset_readiness p (q ∷ ps) (inl e) =
    inl (ap {A = Member} {B = Member} (λ z. record z { ready = z.is_bot }) e)
mem-reset_readiness p (q ∷ ps) (inr h) = inr (mem-reset_readiness p ps h)

reset_readiness-mem :
    (p : Member) (ps : List Member)
    → p ∈ reset_readiness ps
    → (q : Member) × (q ∈ ps) × (p ≡ record q { ready = q.is_bot })
unfolding reset_readiness
reset_readiness-mem p [] h = absurd h
reset_readiness-mem p (q ∷ ps) (inl e) = (q, inl refl, e)
reset_readiness-mem p (q ∷ ps) (inr h) = let (o, m, e) = reset_readiness-mem p ps h in (o, inr m, e)

-- The host is a human player of the room.
unfoldable pub HasHost : Room → Type 0
HasHost r = (p : Member) × (p ∈ r.players) × (p.is_bot ≡ false) × (p.user_id ≡ r.host_id)

with_host-HasHost :
    (r : Room) (first : Member) (others : List Member)
    → kept is_human r.players ≡ first ∷ others
    → HasHost (with_host r first (first ∷ others))
unfolding HasHost with_host
with_host-HasHost r first others e =
    elim (Bool-cases (some_member (is_user r.host_id) (first ∷ others))) [
      | inl t ↦
          let (p, m, u) = some_member-mem (is_user r.host_id) (first ∷ others) t in
          let k = kept-mem is_human p r.players (subst (λ z. p ∈ z) (sym e) m) in
          rw t (p, k.0, ground arith, ground arith)
      | inr t ↦
          let k = kept-mem is_human first r.players (subst (λ z. first ∈ z) (sym e) (inl refl)) in
          rw t (first, k.0, ground arith, refl)
    ]

reset-HasHost : (r : Room) → HasHost r → HasHost (record r { players = reset_readiness r.players })
unfolding HasHost
reset-HasHost r (p, m, b, h) =
    (record p { ready = p.is_bot }, mem-reset_readiness p r.players m, b, h)

players-unready :
    (r : Room) (ps : List Member)
    → length ps == 2 ≡ true
    → some_member is_human ps ≡ true
    → every (is_room_player_ready r) ps ≡ true
    → (every (λ p. not p.ready) ps && (not r.auto_ready || length ps == 1)) ≡ false
unfolding every some_member
players-unready r [] l s e = absurd (ground arith)
players-unready r (a ∷ []) l s e = absurd (ground arith)
players-unready r (a ∷ b ∷ []) l s e = ground arith
players-unready r (a ∷ b ∷ c ∷ ps) l s e = absurd (ground arith)

-- The settings of a room that can start can no longer be edited.
pub can_start_room-edit : (r : Room) → can_start_room r ≡ true → can_edit_room_settings r ≡ false
unfolding can_start_room can_edit_room_settings
can_start_room-edit r h = ground (arith, players-unready r r.players)

-- What the departure of `user` from `before` leaves in `after`.
pub record Left (user : ℕ) (before after : Room) : Type 0 where
  pub host : HasHost after
  players_left : (p : Member) → p ∈ after.players → is_other user p ≡ true
  spectators_left : after.spectators ≡ kept (is_other user) before.spectators
  stays :
      (p : Member)
      → p ∈ before.players
      → is_other user p ≡ true
      → (q : Member) × (q ∈ after.players) × (q.user_id ≡ p.user_id) × (q.is_bot ≡ p.is_bot)
  pub unready :
      some_member (is_user user) before.players ≡ true
      → (p : Member) → p ∈ after.players
      → p.ready ≡ p.is_bot

-- The room of a departure before readiness is reset.
abbrev emptied : Room → ℕ → Room
emptied r user = record r {
  players = kept (is_other user) r.players;
  spectators = kept (is_other user) r.spectators;
}

with_host-players :
    (r : Room) (first : Member) (humans : List Member)
    → ((with_host r first humans).players ≡ r.players)
      × ((with_host r first humans).spectators ≡ r.spectators)
unfolding with_host
with_host-players r first humans = (ground arith, ground arith)

reset-Left :
    (r h : Room) (user : ℕ)
    → HasHost h
    → h.players ≡ kept (is_other user) r.players
    → h.spectators ≡ kept (is_other user) r.spectators
    → Left user r (record h { players = reset_readiness h.players })
reset-Left r h user host e s = record {
  host = reset-HasHost h host;
  players_left = λ p m.
      let (q, k, eq) = reset_readiness-mem p h.players m in
      let t = (kept-mem (is_other user) q r.players (subst (λ z. q ∈ z) e k)).1 in
      ap (is_other user) eq ∙ t;
  spectators_left = s;
  stays = λ p m t.
      let k = mem-kept (is_other user) p r.players m t in
      (
        record p { ready = p.is_bot },
        mem-reset_readiness p h.players (subst (λ z. p ∈ z) (sym e) k),
        refl,
        refl,
      );
  unready = λ _ p m.
      let (q, k, eq) = reset_readiness-mem p h.players m in
      ap (λ z. z.ready) eq ∙ sym (ap (λ z. z.is_bot) eq);
}

plain-Left :
    (r h : Room) (user : ℕ)
    → HasHost h
    → h.players ≡ kept (is_other user) r.players
    → h.spectators ≡ kept (is_other user) r.spectators
    → some_member (is_user user) r.players ≡ false
    → Left user r h
plain-Left r h user host e s none_left = record {
  host = host;
  players_left = λ p m. (kept-mem (is_other user) p r.players (subst (λ z. p ∈ z) e m)).1;
  spectators_left = s;
  stays = λ p m t.
      (p, subst (λ z. p ∈ z) (sym e) (mem-kept (is_other user) p r.players m t), refl, refl);
  unready = λ t. cc;
}

-- When a departure leaves the room open, the room has a human player as its host, `user` is neither a
-- player nor a spectator, every other player and spectator stays, and if `user` was a player the
-- remaining humans are not ready and the bots are.
pub remove_member-Left :
    (r : Room) (user : ℕ) → (remove_member r user).1 ≡ false → Left user r (remove_member r user).0
unfolding remove_member
remove_member-Left r user h =
    let was = some_member (is_user user) r.players in
    let left = emptied r user in
    elim (Bool-cases (r.challenge && was)) [
      | inl c ↦ absurd (ground arith)
      | inr c ↦ elim (list_cases (kept is_human left.players)) [
        | inl e ↦ absurd (ground arith)
        | inr (first, others, e) ↦
            let host = with_host-HasHost left first others e in
            let (same, seen) = with_host-players left first (first ∷ others) in
            elim (Bool-cases was) [
              | inl w ↦
                  rw (c, remove_member, e, w)
                    (reset-Left r (with_host left first (first ∷ others)) user host same seen)
              | inr w ↦
                  rw (c, remove_member, e, w)
                    (plain-Left r (with_host left first (first ∷ others)) user host same seen w)
            ]
      ]
    ]
