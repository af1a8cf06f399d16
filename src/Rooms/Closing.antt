-- ===== src/Rooms/Closing.antt =====
-- When a departure closes a room, and whether the room that it leaves open can start.
use purecheckers.Base.{
  ℕ, ◌≡◌, refl, sym, ap, ◌∙◌, subst, ◌⊎◌, inl, inr, ◌↔◌, Bool, true, false, ◌&&◌, Bool-cases, List,
  [], ◌∷◌, ◌∈◌, arith, list_cases,
}
use purecheckers.Rooms.{
  Member, Room, every, some_member, kept, is_user, is_other, is_human, with_host, remove_member,
  is_room_player_ready, can_start_room,
}
use purecheckers.Rooms.Departure.{kept-mem, mem-kept, HasHost, remove_member-Left}

no_human :
    (r : Room) (user : ℕ)
    → kept is_human (kept (is_other user) r.players) ≡ []
    → (p : Member) → p ∈ r.players
    → is_other user p ≡ true
    → p.is_bot ≡ true
no_human r user e p m t = elim (Bool-cases p.is_bot) [
  | inl b ↦ b
  | inr b ↦
      let k = mem-kept (is_other user) p r.players m t in
      let found = mem-kept is_human p (kept (is_other user) r.players) k (ground arith) in
      absurd (subst (λ z. p ∈ z) e found)
]

some_human :
    (r : Room) (user : ℕ) (first : Member) (others : List Member)
    → kept is_human (kept (is_other user) r.players) ≡ first ∷ others
    → (first ∈ r.players) × (is_other user first ≡ true) × (first.is_bot ≡ false)
some_human r user first others e =
    let (k, b) =
      kept-mem is_human first (kept (is_other user) r.players)
        (subst (λ z. first ∈ z) (sym e) (inl refl)) in
    let (m, t) = kept-mem (is_other user) first r.players k in (m, t, ground arith)

-- A departure closes the room exactly when a player leaves a challenge, or no human player but `user`
-- is there.
pub remove_member-closes :
    (r : Room) (user : ℕ)
    → ((remove_member r user).1 ≡ true) ↔ (
        (r.challenge ≡ true) × (some_member (is_user user) r.players ≡ true)
        ⊎ ((p : Member) → p ∈ r.players → is_other user p ≡ true → p.is_bot ≡ true))
unfolding remove_member
remove_member-closes r user =
    elim (Bool-cases (r.challenge && some_member (is_user user) r.players)) [
      | inl c ↦ (λ h. inl (ground arith, ground arith), λ k. rw c refl)
      | inr c ↦ elim (list_cases (kept is_human (kept (is_other user) r.players))) [
        | inl e ↦ (λ h. inr (no_human r user e), λ k. rw (c, remove_member, e) refl)
        | inr (first, others, e) ↦
            let (m, t, b) = some_human r user first others e in
            (
              λ h. absurd (ground arith),
              λ k. elim k [
                | inl both ↦ absurd (ground arith)
                | inr none_left ↦ cc (none_left first m t, b)
              ],
            )
      ]
    ]

every-mem :
    (test : Member → Bool) (p : Member) (ps : List Member)
    → every test ps ≡ true
    → p ∈ ps
    → test p ≡ true
unfolding every
every-mem test p [] h m = absurd m
every-mem test p (q ∷ ps) h (inl e) = ap test e ∙ ground arith
every-mem test p (q ∷ ps) h (inr m) = every-mem test p ps (ground arith) m

remove_member-auto_ready :
    (r : Room) (user : ℕ) → (remove_member r user).0.auto_ready ≡ r.auto_ready
unfolding remove_member with_host
remove_member-auto_ready r user =
    elim (list_cases (kept is_human (kept (is_other user) r.players))) [
      | inl e ↦ ground arith
      | inr (first, others, e) ↦ ground arith
    ]

unready_host :
    (r : Room)
    → HasHost r
    → r.auto_ready ≡ false
    → ((p : Member) → p ∈ r.players → p.ready ≡ p.is_bot)
    → can_start_room r ≡ false
unfolding HasHost can_start_room
unready_host r (p, m, b, e) a u = elim (Bool-cases (every (is_room_player_ready r) r.players)) [
  | inl t ↦ absurd (ground (arith, every-mem (is_room_player_ready r) p r.players t m, u p m))
  | inr t ↦ ground arith
]

-- Unless the room readies its players by itself, a room that a player left and that stays open cannot
-- start.
pub remove_member-start :
    (r : Room) (user : ℕ)
    → some_member (is_user user) r.players ≡ true
    → r.auto_ready ≡ false
    → (remove_member r user).1 ≡ false
    → can_start_room (remove_member r user).0 ≡ false
remove_member-start r user w a h =
    let l = remove_member-Left r user h in
    unready_host (remove_member r user).0 l.host (remove_member-auto_ready r user ∙ a) (l.unready w)
