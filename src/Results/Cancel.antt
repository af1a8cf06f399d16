-- ===== src/Results/Cancel.antt =====
-- The cancelling of a rematch opens its result again, or closes it after the deadline.
use purecheckers.Base.{
  ℕ, ◌≡◌, refl, ap, sym, subst, ◌∙◌, ◌⊎◌, inl, inr, Bool, Bool-cases, true, false, not, ◌&&◌,
  if◌then◌else◌, Option, none, some, List, [], ◌∷◌, ◌++◌, map, filter, is_empty, leb, arith, all_of,
  any_of, is_some,
}
use purecheckers.Results.{
  Player, Result, Run, Users, Role, player_role, spectator_role, Notice, opened, starting,
  rematched, closed, Status, is_rematching, player_ids, valid_id, valid_player, valid_players,
  valid_spectators, valid_frame, valid_rematch, valid_phase, is_valid, normalize_result_state,
  reset_player, result_viewers, close_if_empty, withdraw_all, expired, expire, expire_action, act,
  notices_of, transition_result, result_after_cancelled_rematch, rematch_game, then_expired,
  cancel_rematch,
}
use purecheckers.Results.Withdraw.{and_both}
use purecheckers.Results.Expiry.{Closes, expire-Closes, is_valid-IsValid, IsValid-is_valid}

ids-reset :
    (users : Users) (ps : List Player) → player_ids (map (reset_player users) ps) ≡ player_ids ps
unfolding reset_player
ids-reset users [] = refl
ids-reset users (p ∷ ps) = ap (λ z. p.user_id ∷ z) (ids-reset users ps)

reset-valid_players :
    (users : Users) (seen : List ℕ) (ps : List Player)
    → valid_players users seen ps ≡ true
    → valid_players users seen (map (reset_player users) ps) ≡ true
unfolding valid_players valid_player reset_player
reset-valid_players users seen [] h = refl
reset-valid_players users seen (p ∷ ps) h =
    let v = and_both (valid_player users seen p) (valid_players users (p.user_id ∷ seen) ps) h in
    ground (arith, v.0, reset-valid_players users (p.user_id ∷ seen) ps v.1)

abbrev pub is_reset : Users → Player → Bool
is_reset users p =
    if users.is_bot p.user_id then not p.viewing && p.requested else p.viewing && not p.requested

all-is_reset :
    (users : Users) (ps : List Player)
    → all_of (is_reset users) (map (reset_player users) ps) ≡ true
unfolding reset_player all_of
all-is_reset users [] = refl
all-is_reset users (p ∷ ps) = ground (arith, all-is_reset users ps)

-- The result opened again: each human views it and has asked for nothing, and each bot has asked.
abbrev pub reopened : Users → Result → Result
reopened users s = record s {
  status = opened;
  rematch = none;
  players = map (reset_player users) s.players;
}

-- Each human views the result and has asked for nothing, each bot has asked; the rest is as before, and nobody
-- is told of anything.
pub record Reopens (s : Result) (users : Users) (after : Option (Result × List Notice))
    : Type 0 where
  pub result : Result
  pub taken : after ≡ some (result, [])
  pub is_opened : result.status ≡ opened
  pub no_rematch : result.rematch ≡ none
  pub reset : all_of (is_reset users) result.players ≡ true
  pub same_players : player_ids result.players ≡ player_ids s.players
  pub same_spectators : result.spectators ≡ s.spectators
  pub same_deadline : result.deadline ≡ s.deadline

offered :
    (users : Users) (s : Result) (t : Status)
    → is_rematching t ≡ true
    → valid_phase users s t ≡ true
    → is_some s.rematch ≡ true
unfolding valid_phase
offered users s opened r h = absurd (ground (arith, r))
offered users s starting r h = ground (arith, h)
offered users s rematched r h = rematch_some s.rematch (ground (arith, h))
  where
    rematch_some : (o : _) → is_some (rematch_game o) ≡ true → is_some o ≡ true
    rematch_some none k = k
    rematch_some (some r) k = refl
offered users s closed r h = absurd (ground (arith, r))

module _ (s : Result) (run : Run) (users : Users) (h : is_valid s run users ≡ true) where
  reopened-valid : is_valid (reopened users s) run users ≡ true
  unfolding valid_phase valid_rematch
  reopened-valid =
      let v = is_valid-IsValid s run users h in
      let ids = ids-reset users s.players in
      IsValid-is_valid (reopened users s) run users (record {
        framed = ap (valid_frame run s.deadline) ids ∙ v.framed;
        playing = reset-valid_players users [] s.players v.playing;
        watching =
            ap (λ z. valid_spectators users run.room_id s.deadline z s.spectators) ids ∙ v.watching;
        offering = refl;
        phased = refl;
      })

  cancelled :
      is_rematching s.status ≡ true
      → result_after_cancelled_rematch s run users ≡ some (reopened users s)
  unfolding result_after_cancelled_rematch normalize_result_state
  cancelled r =
      let v = is_valid-IsValid s run users h in
      rw (r, offered users s s.status r v.phased, reopened-valid) refl

abbrev pub some_human : Users → List Player → Bool
some_human users = any_of (λ p. not (users.is_bot p.user_id))

human-views :
    (users : Users) (ps : List Player) (ws : List (ℕ × Role))
    → some_human users ps ≡ true
    → is_empty (
        map (λ p. (p.user_id, player_role)) (filter (λ p. p.viewing) (map (reset_player users) ps))
        ++ ws)
      ≡ false
unfolding reset_player any_of filter
human-views users [] ws h = absurd (ground (arith, h))
human-views users (p ∷ ps) ws h = elim (Bool-cases (users.is_bot p.user_id)) [
  | inl b ↦ rw (b, filter) (human-views users ps ws (ground (arith, b, h)))
  | inr b ↦ rw (b, filter) refl
]

none_expired :
    (s : Result) (now : ℕ)
    → leb s.deadline now ≡ false
    → filter (λ w. leb w.deadline now) s.spectators ≡ []
    → expired s now ≡ []
unfolding expired
none_expired s now l e = rw (l, e) refl

early :
    (s : Result) (run : Run) (users : Users) (now : ℕ)
    → is_valid (reopened users s) run users ≡ true
    → some_human users s.players ≡ true
    → valid_id now ≡ true
    → expired (reopened users s) now ≡ []
    → transition_result (reopened users s) expire_action run users now []
      ≡ some (reopened users s, [])
unfolding transition_result act notices_of expire withdraw_all close_if_empty result_viewers
    normalize_result_state any_of
early s run users now v human n e =
    rw
      (
        n,
        e,
        human-views users s.players (map (λ w. (w.user_id, spectator_role)) s.spectators) human,
        v,
      )
      refl

-- The rematch of a valid result with a human player is cancelled at a time that is a valid number, before
-- which no spectator's deadline has passed unless the result's has. At or after the result's deadline the
-- result closes, nobody views it, and each human player and each spectator gets one notice; before it the
-- result is open again without a rematch, each human views it and has not asked for a rematch, each bot
-- has, and players, spectators and deadline stay.
pub cancel_rematch-Decides :
    (s : Result) (run : Run) (users : Users) (now : ℕ)
    → is_valid s run users ≡ true
    → is_rematching s.status ≡ true
    → some_human users s.players ≡ true
    → valid_id now ≡ true
    → (leb s.deadline now ≡ false → filter (λ w. leb w.deadline now) s.spectators ≡ [])
    → ((leb s.deadline now ≡ true) × Closes (reopened users s) run (cancel_rematch s run users now))
      ⊎ ((leb s.deadline now ≡ false) × Reopens s users (cancel_rematch s run users now))
unfolding cancel_rematch
cancel_rematch-Decides s run users now h r human n watching =
    let v = reopened-valid s run users h in
    let e = sym (cancelled s run users h r) in
    elim (Bool-cases (leb s.deadline now)) [
      | inl l ↦ inl (
        l,
        subst (λ z. Closes (reopened users s) run (then_expired run users now z)) e
            (expire-Closes (reopened users s) run users now [] v refl refl n l),
      )
      | inr l ↦
          let quiet = none_expired (reopened users s) now l (watching l) in
          inr (
            l,
            subst (λ z. Reopens s users (then_expired run users now z)) e
                (record {
                  result = reopened users s;
                  taken = early s run users now v human n quiet;
                  is_opened = refl;
                  no_rematch = refl;
                  reset = all-is_reset users s.players;
                  same_players = ids-reset users s.players;
                  same_spectators = refl;
                  same_deadline = refl;
                }),
          )
    ]
