-- ===== src/RoomState.antt =====
-- The stored state of a room: server/domain/roomState.js. assertRoomTransition is the Boolean `allows`,
-- false where the source throws.
pub mod Data
mod Surroundings
pub mod Normal
pub mod Allowed
pub mod History
pub mod Stored
use package.purecheckers.Base.{
  ℕ, Bool, true, false, not, ◌&&◌, ◌||◌, ltb, leb, ◌==◌, if◌then◌else◌, Option, none, some, List,
  [], ◌∷◌, ◌++◌, map, length, is_empty, filter, all_of, any_of, is_some,
}
use package.purecheckers.Game.{same_text}
use package.purecheckers.Rooms
unfoldable pub use Data.*
unfoldable pub use Surroundings.*

abbrev pub is_settings : RoomState → Option Command → Bool
is_settings before none = false
is_settings before (some c) = elim c.payload [
  | room_settings ↦ same_number (some c.user_id) before.host_id
  | _ ↦ false
]

unfoldable pub affords : Users → ℕ → Member → Bool
affords users buy_in p =
    not (users.is_guest p.user_id || users.is_bot p.user_id || ltb (users.coins p.user_id) buy_in)

unfoldable pub allows_settings : RoomState → RoomState → Context → Bool
allows_settings before after ctx =
    same_settings before.settings after.settings
    || is_settings before ctx.command
      && Rooms.can_edit_room_settings (as_room (λ _. false) (stored_status before.status) before)
      && same_status after.status waiting
      && same_number after.host_id before.host_id
      && same_members before.players after.players
      && same_members before.spectators after.spectators
      && not after.settings.auto_ready
      && (after.settings.allow_spectators || is_empty after.spectators)
      && (after.settings.buy_in == 0
          || all_of (affords ctx.users after.settings.buy_in) after.players)

abbrev pub invite_list : Option (List Invite) → List Invite
invite_list none = []
invite_list (some invites) = invites

unfoldable pub added_invites : RoomState → RoomState → List Invite
added_invites before after =
    filter (λ i. not (any_of (λ prior. same_invite prior i) (invite_list before.invites)))
      (invite_list after.invites)

abbrev pub is_invite : RoomState → Option Command → List Invite → Bool
is_invite before none added = false
is_invite before (some c) [] = false
is_invite before (some c) (i ∷ more) = elim c.payload [
  | room_invite target ↦
      same_number (some c.user_id) before.host_id
      && is_empty more
      && same_number (some i.user_id) target
  | _ ↦ false
]

unfoldable pub allows_invites : RoomState → RoomState → Context → Bool
allows_invites before after ctx =
    let added = added_invites before after in
    is_empty added
    || is_invite before ctx.command added
      && same_status before.status waiting
      && length before.players == 1
      && not (is_some before.challenge)
      && same_status after.status waiting

abbrev pub declines : RoomState → RoomState → Option Command → Bool
declines before after none = true
declines before after (some c) = elim c.payload [
  | room_invite_decline ↦
      let prior = invite_list before.invites in
      any_of (λ i. i.user_id == c.user_id) prior
      && same_room after
          (record before { invites = some (filter (λ i. not (i.user_id == c.user_id)) prior) })
  | _ ↦ true
]

unfoldable pub find_member : ℕ → List Member → Option Member
find_member user [] = none
find_member user (p ∷ ps) = if p.user_id == user then some p else find_member user ps

abbrev pub invited : Option Bool → Bool
invited none = false
invited (some flag) = flag

abbrev pub same_entry : Option Member → Member → Bool
same_entry none p = true
same_entry (some prior) p =
    same_flag (invited prior.joined_via_invite) (invited p.joined_via_invite)

abbrev pub is_started : Status → Bool
is_started waiting = false
is_started starting = true
is_started playing = true
is_started closed = false

-- A room that has started keeps its players until it closes or waits again.
unfoldable pub keeps_start : RoomState → RoomState → Bool
keeps_start before after =
    not (is_started before.status && is_started after.status)
    || same_text (member_ids before.players) (member_ids after.players)
      && same_attempt before.start_attempt after.start_attempt
      && same_number before.host_id after.host_id

unfoldable pub starts_ready : RoomState → RoomState → Context → Bool
starts_ready before after ctx =
    not (same_status before.status waiting && same_status after.status starting)
    || Rooms.can_start_room (as_room ctx.users.is_bot Rooms.waiting before)
      && same_members before.players after.players
      && not (is_some ctx.run)

abbrev pub is_aborted : Option Run → Bool
is_aborted none = false
is_aborted (some r) = elim r.status [ aborted_run ↦ true | _ ↦ false ]

-- A game is over, for the closing of its room, when its run no longer is open or the game itself is over.
abbrev pub is_finished : Option Run → Bool
is_finished none = false
is_finished (some r) = elim r.status [ open_run ↦ r.game_over | _ ↦ true ]

abbrev pub is_over : Option Run → Bool
is_over none = false
is_over (some r) = r.game_over

abbrev pub is_unplayed : Option Run → Bool
is_unplayed none = false
is_unplayed (some r) = not r.started && not r.has_moves

abbrev pub plays_run : ℕ → Option ℕ → Option Attempt → Option Run → Bool
plays_run room_id game attempt none = false
plays_run room_id game none (some r) = false
plays_run room_id game (some a) (some r) =
    same_number r.room_id (some room_id)
    && same_number (some r.id) game
    && same_text r.key a.key
    && same_text (r.red_player_id ∷ r.black_player_id ∷ []) a.players

unfoldable pub allows_run : RoomState → RoomState → Context → Bool
allows_run before after ctx =
    (not (same_status before.status starting)
      || is_started after.status
      || not (is_some ctx.run)
      || is_aborted ctx.run)
    && (not (same_status after.status playing)
        || plays_run ctx.room_id after.game_id after.start_attempt ctx.run)
    && (not (same_status before.status playing && is_over ctx.run)
        || all_of (λ p. any_of (λ prior. prior.user_id == p.user_id) before.spectators)
            after.spectators)
    && (not (same_status before.status playing && same_status after.status closed)
        || is_finished ctx.run)
    && (not (same_status before.status playing && same_status after.status waiting)
        || is_aborted ctx.run && is_unplayed ctx.run)

unfoldable pub allows : RoomState → RoomState → Context → Bool
allows before after ctx =
    any_of (same_status after.status) (transitions before.status)
    && same_origin before.origin after.origin
    && allows_settings before after ctx
    && allows_invites before after ctx
    && declines before after ctx.command
    && same_challenge before.challenge after.challenge
    && all_of (λ p. same_entry (find_member p.user_id before.players) p) after.players
    && keeps_start before after
    && starts_ready before after ctx
    && allows_run before after ctx

abbrev pub unready : Users → Member → Member
unready users p = record p { ready = users.is_bot p.user_id }

unfoldable pub room_after_aborted_start : RoomState → Users → RoomState
room_after_aborted_start s users = record s {
  game_id = none;
  start_attempt = none;
  players = map (unready users) s.players;
}

pub data Role : Type 0 where
  player_role spectator_role : Role

unfoldable pub room_claims : RoomState → Users → List (ℕ × Role)
room_claims s users =
    if same_status s.status closed
    then []
    else (if same_status s.status waiting || same_status s.status starting
        then map (λ p. (p.user_id, player_role))
            (filter (λ p. not (users.is_bot p.user_id)) s.players)
        else [])
      ++ map (λ p. (p.user_id, spectator_role)) s.spectators
