-- ===== src/Results/Withdraw.antt =====
-- What a withdrawal of a user, and of all the viewers, leaves of a result.
use purecheckers.Base.{
  ℕ, ◌≡◌, refl, ap, ◌∙◌, if_ind, Bool, true, false, not, ◌&&◌, ◌||◌, ◌==◌, List, [], ◌∷◌, arith,
  all_of, filter, includes, ℕ_discrete,
}
use purecheckers.Results.{
  Player, Spectator, Result, Users, player_ids, valid_player, valid_players, gone, withdraw_player,
  withdraw, withdraw_all,
}

pub ids-withdraw_player :
    (user : ℕ) (ps : List Player) → player_ids (withdraw_player user ps) ≡ player_ids ps
unfolding withdraw_player
ids-withdraw_player user [] = refl
ids-withdraw_player user (p ∷ ps) =
    if_ind {A = List Player} (λ z. player_ids z ≡ p.user_id ∷ player_ids ps) (p.user_id == user)
      (λ _.
        ap (λ z. z ∷ player_ids ps)
          (if_ind {A = Player} (λ z. z.user_id ≡ p.user_id) p.viewing (λ _. refl) (λ _. refl)))
      (λ _. ap (λ z. p.user_id ∷ z) (ids-withdraw_player user ps))

gone-user_id : (p : Player) → (gone p).user_id ≡ p.user_id
gone-user_id p = if_ind {A = Player} (λ z. z.user_id ≡ p.user_id) p.viewing (λ _. refl) (λ _. refl)

pub and_both : (a b : Bool) → (a && b) ≡ true → (a ≡ true) × (b ≡ true)
and_both true b h = (refl, h)
and_both false b h = absurd (ground arith)

pub gone_hidden : (p : Player) → (gone p).viewing ≡ false
gone_hidden p = if_ind {A = Player} (λ z. z.viewing ≡ false) p.viewing (λ _. refl) (λ f. f)

pub gone-valid_player :
    (users : Users) (seen : List ℕ) (p : Player)
    → valid_player users seen p ≡ true
    → valid_player users seen (gone p) ≡ true
unfolding valid_player
gone-valid_player users seen p h = ground arith

pub withdraw_player-valid_players :
    (users : Users) (user : ℕ) (seen : List ℕ) (ps : List Player)
    → valid_players users seen ps ≡ true
    → valid_players users seen (withdraw_player user ps) ≡ true
unfolding valid_players withdraw_player
withdraw_player-valid_players users user seen [] h = refl
withdraw_player-valid_players users user seen (p ∷ ps) h =
    let v = and_both (valid_player users seen p) (valid_players users (p.user_id ∷ seen) ps) h in
    if_ind {A = List Player} (λ z. valid_players users seen z ≡ true) (p.user_id == user)
      (λ _. ground (
        arith,
        gone-valid_player users seen p v.0,
        v.1,
        ap (λ z. valid_players users (z ∷ seen) ps) (gone-user_id p),
      ))
      (λ _. ground (arith, v.0, withdraw_player-valid_players users user (p.user_id ∷ seen) ps v.1))

-- Every player who views the result is among the users.
abbrev pub viewers_in : List ℕ → List Player → Bool
viewers_in us = all_of (λ p. not p.viewing || includes us p.user_id)

abbrev pub spectators_in : List ℕ → List Spectator → Bool
spectators_in us = all_of (λ w. includes us w.user_id)

unseen :
    (users : Users) (seen us : List ℕ) (user : ℕ) (ps : List Player)
    → valid_players users seen ps ≡ true
    → includes seen user ≡ true
    → viewers_in (user ∷ us) ps ≡ true
    → viewers_in us ps ≡ true
unfolding valid_players valid_player all_of includes
unseen users seen us user [] v i h = refl
unseen users seen us user (p ∷ ps) v i h =
    let w = and_both (valid_player users seen p) (valid_players users (p.user_id ∷ seen) ps) v in
    let k =
      and_both (not p.viewing || includes (user ∷ us) p.user_id) (viewers_in (user ∷ us) ps) h in
    let rest = unseen users (p.user_id ∷ seen) us user ps w.1 (ground (arith, i)) k.1 in
    elim (ℕ_discrete user p.user_id) [
      | yes e ↦ absurd (ground (arith, w.0, ap (includes seen) e, i))
      | no f ↦ ground (arith, rest, k.0, f)
    ]

withdraw_player-in :
    (users : Users) (seen us : List ℕ) (user : ℕ) (ps : List Player)
    → valid_players users seen ps ≡ true
    → viewers_in (user ∷ us) ps ≡ true
    → viewers_in us (withdraw_player user ps) ≡ true
unfolding valid_players all_of withdraw_player includes
withdraw_player-in users seen us user [] v h = refl
withdraw_player-in users seen us user (p ∷ ps) v h =
    let w = and_both (valid_player users seen p) (valid_players users (p.user_id ∷ seen) ps) v in
    let k =
      and_both (not p.viewing || includes (user ∷ us) p.user_id) (viewers_in (user ∷ us) ps) h in
    if_ind {A = List Player} (λ z. viewers_in us z ≡ true) (p.user_id == user)
      (λ e. ground (
        arith,
        unseen users (p.user_id ∷ seen) us user ps w.1 (ground (arith, e)) k.1,
        gone_hidden p,
      ))
      (λ f. ground (arith, f, k.0, withdraw_player-in users (p.user_id ∷ seen) us user ps w.1 k.1))

filter-in :
    (us : List ℕ) (user : ℕ) (ws : List Spectator)
    → spectators_in (user ∷ us) ws ≡ true
    → spectators_in us (filter (λ w. not (w.user_id == user)) ws) ≡ true
unfolding all_of filter includes
filter-in us user [] h = refl
filter-in us user (w ∷ ws) h =
    let k = and_both (includes (user ∷ us) w.user_id) (spectators_in (user ∷ us) ws) h in
    if_ind {A = List Spectator} (λ z. spectators_in us z ≡ true) (not (w.user_id == user))
      (λ f. ground (arith, f, k.0, filter-in us user ws k.1)) (λ _. filter-in us user ws k.1)

-- A result from which all the users have withdrawn, when they were all that viewed it.
pub record Emptied (users : Users) (s s' : Result) : Type 0 where
  pub players : viewers_in [] s'.players ≡ true
  pub spectators : spectators_in [] s'.spectators ≡ true
  pub valid : valid_players users [] s'.players ≡ true
  pub same_ids : player_ids s'.players ≡ player_ids s.players
  pub same_status : s'.status ≡ s.status
  pub same_deadline : s'.deadline ≡ s.deadline
  pub same_rematch : s'.rematch ≡ s.rematch

pub withdraw_all-Emptied :
    (users : Users) (us : List ℕ) (s : Result)
    → valid_players users [] s.players ≡ true
    → viewers_in us s.players ≡ true
    → spectators_in us s.spectators ≡ true
    → Emptied users s (withdraw_all us s)
unfolding withdraw_all withdraw
withdraw_all-Emptied users [] s v p w = record {
  players = p;
  spectators = w;
  valid = v;
  same_ids = refl;
  same_status = refl;
  same_deadline = refl;
  same_rematch = refl;
}
withdraw_all-Emptied users (u ∷ us) s v p w =
    let e =
      withdraw_all-Emptied users us (withdraw u s)
        (withdraw_player-valid_players users u [] s.players v)
        (withdraw_player-in users [] us u s.players v p) (filter-in us u s.spectators w) in
    record {
      players = e.players;
      spectators = e.spectators;
      valid = e.valid;
      same_ids = e.same_ids ∙ ids-withdraw_player u s.players;
      same_status = e.same_status;
      same_deadline = e.same_deadline;
      same_rematch = e.same_rematch;
    }
