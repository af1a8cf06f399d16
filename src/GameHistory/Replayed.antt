-- ===== src/GameHistory/Replayed.antt =====
-- The recorded moves of a game can be replayed.
use purecheckers.Base.{
  ℕ, ◌+◌, ◌-◌, ◌==◌, ◌≡◌, refl, ap, sym, subst, ◌∙◌, if_ind, Bool, false, ◌||◌, Option, none, some,
  List, [], ◌∷◌, ◌++◌, map, flat_map, arith, is_some,
}
use purecheckers.Board.{Color, red, black, same_color, Cell}
use purecheckers.Game.{Game, MoveResult, Played, new_game, make_move, tick_time}
use purecheckers.Game.Turns.{make_move-Plays}
use purecheckers.Game.Reach.{Reached, starts, moves, ticks}
use purecheckers.Puzzle.{Hop}
use purecheckers.GameHistory.{
  Described, at_last, with_captured, describe_step, replay_move, replay_or_stop, describe_from,
  nothing_yet, describe_history,
}
use purecheckers.GameHistory.Recorded.{entry_of, make_move-Recorded}
use purecheckers.GameHistory.Log.{hops_of, IsLogged, describe_step-IsLogged}
use purecheckers.GameHistory.Timeless.{timeless, timeless_play, timeless_option, make_move-timeless}

-- The loop plays the entries from one state to another.
data Runs : Game → Bool → Described → List (Option Hop) → Game → Bool → Described → Type 0 where
  done : {g : Game} {b : Bool} {d : Described} → Runs g b d [] g b d
  step :
      {g h : Game} {b c : Bool} {d e : Described} (entry : Option Hop) (rest : List (Option Hop))
      (after : Game × MoveResult)
      → replay_move g entry ≡ some after
      → Runs after.0 after.1.chain_continues (describe_step g after b d) rest h c e
      → Runs g b d (entry ∷ rest) h c e

Runs-describe_from :
    {g h : Game} {b c : Bool} {d e : Described} {entries : List (Option Hop)} (i : ℕ)
    → Runs g b d entries h c e
    → describe_from g i b d entries ≡ e
unfolding describe_from
Runs-describe_from i done = refl
Runs-describe_from {g = g} {b = b} {d = d} i (step entry rest after e r) =
    ap (replay_or_stop g i b d (λ g' b' d'. describe_from g' (i + 1) b' d' rest)) e
    ∙ Runs-describe_from (i + 1) r

Runs-one_more :
    {g h : Game} {b c : Bool} {d e : Described} {entries : List (Option Hop)} (entry : Option Hop)
    (after : Game × MoveResult)
    → Runs g b d entries h c e
    → replay_move h entry ≡ some after
    → Runs g b d (entries ++ entry ∷ []) after.0 after.1.chain_continues (describe_step h after c e)
Runs-one_more entry after done k = step entry [] after k done
Runs-one_more entry after (step first rest a e r) k =
    step first (rest ++ entry ∷ []) a e (Runs-one_more entry after r k)

at_last-append : (xs : List Played) (p : Played) → at_last (xs ++ p ∷ []) ≡ p ∷ []
unfolding at_last
at_last-append [] p = refl
at_last-append (x ∷ []) p = refl
at_last-append (x ∷ y ∷ xs) p = at_last-append (y ∷ xs) p

with_captured-valid :
    (c : Color) (taken : List Cell) (d : Described)
    → (with_captured c taken d).invalid_move_index ≡ d.invalid_move_index
with_captured-valid red taken d = refl
with_captured-valid black taken d = refl

describe_step-moves :
    (g : Game) (after : Game × MoveResult) (b : Bool) (d : Described)
    → (describe_step g after b d).moves ≡ d.moves ++ at_last after.0.move_history
unfolding describe_step
describe_step-moves g after b d = refl

describe_step-valid :
    (g : Game) (after : Game × MoveResult) (b : Bool) (d : Described)
    → (describe_step g after b d).invalid_move_index ≡ d.invalid_move_index
unfolding describe_step
describe_step-valid g after b d = with_captured-valid g.current_player _ d

tick_time-history : (g : Game) (seconds : ℕ) → (tick_time g seconds).move_history ≡ g.move_history
unfolding tick_time
tick_time-history g seconds = ground arith

tick_time-ongoing :
    (g : Game) (seconds : ℕ) → (tick_time g seconds).game_over ≡ false → g.game_over ≡ false
unfolding tick_time
tick_time-ongoing g seconds h = ground arith

tick_time-timeless :
    (g : Game) (seconds : ℕ)
    → (tick_time g seconds).game_over ≡ false
    → timeless (tick_time g seconds) ≡ timeless g
unfolding tick_time timeless
tick_time-timeless g seconds =
    if_ind (λ z. z.game_over ≡ false → timeless z ≡ timeless g)
      (g.game_over || g.turn_time == 0 || seconds == 0) (λ _ _. refl)
      (λ _.
        if_ind (λ z. z.game_over ≡ false → timeless z ≡ timeless g)
          (same_color g.current_player red)
          (λ _.
            if_ind (λ z. z.game_over ≡ false → timeless z ≡ timeless g) (g.red_time - seconds == 0)
              (λ _ h. absurd (ground (arith, h))) (λ _ _. refl))
          (λ _.
            if_ind (λ z. z.game_over ≡ false → timeless z ≡ timeless g)
              (g.black_time - seconds == 0) (λ _ h. absurd (ground (arith, h))) (λ _ _. refl)))

-- The same move of two games that differ in their clocks.
record Again (h : Game) (fr fc tr tc : ℕ) (after : Game × MoveResult) : Type 0 where
  again : Game × MoveResult
  made : make_move h fr fc tr tc ≡ some again
  same : timeless_play again ≡ timeless_play after

after_or : Game × MoveResult → Option (Game × MoveResult) → Game × MoveResult
after_or d none = d
after_or d (some a) = a

made-Again :
    (h : Game) (fr fc tr tc : ℕ) (after : Game × MoveResult) (o : Option (Game × MoveResult))
    → make_move h fr fc tr tc ≡ o
    → timeless_option o ≡ some (timeless_play after)
    → Again h fr fc tr tc after
unfolding after_or
made-Again h fr fc tr tc after none e k = absurd (ground (arith, ap is_some k))
made-Again h fr fc tr tc after (some again) e k = record {
  again = again;
  made = e;
  same = ap (after_or (timeless_play after)) k;
}

timeless-Again :
    (g h : Game) (fr fc tr tc : ℕ) (after : Game × MoveResult)
    → timeless h ≡ timeless g
    → make_move g fr fc tr tc ≡ some after
    → Again h fr fc tr tc after
timeless-Again g h fr fc tr tc after s e =
    made-Again h fr fc tr tc after (make_move h fr fc tr tc) refl (
      sym (make_move-timeless h fr fc tr tc)
      ∙ ap (λ z. make_move z fr fc tr tc) s
      ∙ make_move-timeless g fr fc tr tc
      ∙ ap timeless_option e)

-- The replay of the history of `g`, and that it is up to date with `g` but for the clocks.
record Replay (turn_time : ℕ) (g : Game) : Type 0 where
  now : Game
  going : Bool
  so_far : Described
  runs : Runs (new_game turn_time) false nothing_yet (map entry_of g.move_history) now going so_far
  moves_are : so_far.moves ≡ g.move_history
  logged : IsLogged going so_far
  valid : so_far.invalid_move_index ≡ none
  same : g.game_over ≡ false → timeless now ≡ timeless g

map-append_one :
    (xs : List Played) (p : Played)
    → map entry_of (xs ++ p ∷ []) ≡ map entry_of xs ++ entry_of p ∷ []
map-append_one [] p = refl
map-append_one (x ∷ xs) p = ap (λ z. entry_of x ∷ z) (map-append_one xs p)

make_move-Replay :
    (turn_time : ℕ) (g : Game) (fr fc tr tc : ℕ) (after : Game × MoveResult)
    → make_move g fr fc tr tc ≡ some after
    → Replay turn_time g
    → Replay turn_time after.0
unfolding timeless
make_move-Replay turn_time g fr fc tr tc after e r =
    let rec = make_move-Recorded g fr fc tr tc after e in
    let a =
      timeless-Again g r.now fr fc tr tc after
        (r.same (make_move-Plays g fr fc tr tc after e).ongoing) e in
    let next = describe_step r.now a.again r.going r.so_far in
    let again_history : a.again.0.move_history ≡ after.0.move_history =
      ap (λ z. z.0.move_history) a.same in
    let entry : Hop = record { from_row = fr; from_col = fc; to_row = tr; to_col = tc } in
    let entries : map entry_of g.move_history ++ some entry ∷ []
        ≡ map entry_of after.0.move_history =
      ap (λ z. map entry_of g.move_history ++ z ∷ []) (sym rec.is_hop)
      ∙ sym (map-append_one g.move_history rec.entry)
      ∙ ap (map entry_of) (sym rec.added) in
    record {
      now = a.again.0;
      going = a.again.1.chain_continues;
      so_far = next;
      runs =
          subst
            (λ z.
              Runs (new_game turn_time) false nothing_yet z a.again.0 a.again.1.chain_continues
                next)
            entries (Runs-one_more (some entry) a.again r.runs a.made);
      moves_are =
          describe_step-moves r.now a.again r.going r.so_far
          ∙ ap (λ z. z ++ at_last a.again.0.move_history) r.moves_are
          ∙ ap (λ z. g.move_history ++ at_last z) (again_history ∙ rec.added)
          ∙ ap (λ z. g.move_history ++ z) (at_last-append g.move_history rec.entry)
          ∙ sym rec.added;
      logged =
          describe_step-IsLogged r.now a.again r.going a.again.1.chain_continues r.so_far r.logged;
      valid = describe_step-valid r.now a.again r.going r.so_far ∙ r.valid;
      same = λ _. ap (λ z. z.0) a.same;
    }

Reached-Replay : {clock : ℕ} (turn_time : ℕ) {g : Game} → Reached clock g → Replay turn_time g
unfolding new_game timeless flat_map
Reached-Replay turn_time starts = record {
  now = new_game turn_time;
  going = false;
  so_far = nothing_yet;
  runs = done;
  moves_are = refl;
  logged = record { hops = refl; in_progress = λ h. absurd (ground (arith, h)) };
  valid = refl;
  same = λ _. refl;
}
Reached-Replay turn_time (moves {g = g} fr fc tr tc after k e) =
    make_move-Replay turn_time g fr fc tr tc after e (Reached-Replay turn_time k)
Reached-Replay turn_time (ticks {g = g} seconds k) =
    let r = Reached-Replay turn_time k in
    let history = tick_time-history g seconds in
    record {
      now = r.now;
      going = r.going;
      so_far = r.so_far;
      runs =
          subst
            (λ z.
              Runs (new_game turn_time) false nothing_yet (map entry_of z) r.now r.going r.so_far)
            (sym history) r.runs;
      moves_are = r.moves_are ∙ sym history;
      logged = r.logged;
      valid = r.valid;
      same = λ o. r.same (tick_time-ongoing g seconds o) ∙ sym (tick_time-timeless g seconds o);
    }

-- A game's recorded moves are replayed to the last.
pub record IsReplayable (turn_time : ℕ) (g : Game) : Type 0 where
  pub moves :
      (describe_history turn_time (some (map entry_of g.move_history))).moves ≡ g.move_history
  pub turns :
      hops_of (describe_history turn_time (some (map entry_of g.move_history))).move_log
      ≡ g.move_history
  pub valid :
      (describe_history turn_time (some (map entry_of g.move_history))).invalid_move_index ≡ none

-- Whatever moves and ticks of the clock a game comes to from a new one, describeHistory replays its
-- recorded moves to the last, with no invalid one, describes each as it was recorded, and its turns have
-- these moves as their hops, in their order, however the clocks of the two games were set.
pub Reached-IsReplayable :
    {clock : ℕ} {g : Game} (turn_time : ℕ) → Reached clock g → IsReplayable turn_time g
unfolding describe_history
Reached-IsReplayable turn_time k =
    let r = Reached-Replay turn_time k in
    let e = Runs-describe_from 0 r.runs in
    record {
      moves = ap (λ z. z.moves) e ∙ r.moves_are;
      turns = ap (λ z. hops_of z.move_log) e ∙ r.logged.hops ∙ r.moves_are;
      valid = ap (λ z. z.invalid_move_index) e ∙ r.valid;
    }
