-- ===== src/RoomState/Data.antt =====
-- The stored state of a room and the equality of its parts. Every field has the type that the source
-- asks for, so that its tests of a type are left out; `online` and `ready` are given.
use purecheckers.Base.{
  ℕ, Bool, true, false, not, ◌&&◌, ◌==◌, Option, none, some, List, [], ◌∷◌, map,
}
use purecheckers.Game.{same_text}

pub data Status : Type 0 where
  waiting starting playing closed : Status

pub data Origin : Type 0 where
  from_room from_quickplay from_bot : Origin

pub record Settings : Type 0 where
  pub buy_in : ℕ
  pub turn_timer : ℕ
  pub is_private : Bool
  pub allow_spectators : Bool
  pub auto_ready : Bool

pub record Member : Type 0 where
  pub user_id : ℕ
  pub online : Bool
  pub disconnect_deadline : Option ℕ
  pub ready : Bool
  pub joined_via_invite : Option Bool

-- A challenge, or an invitation to a room.
pub record Invite : Type 0 where
  pub user_id : ℕ
  pub expires_at : ℕ

pub record Attempt : Type 0 where
  pub key : List ℕ
  pub players : List ℕ

pub record RoomState : Type 0 where
  pub status : Status
  pub host_id : Option ℕ
  pub challenge : Option Invite
  pub invites : Option (List Invite)
  pub settings : Settings
  pub origin : Origin
  pub players : List Member
  pub spectators : List Member
  pub start_attempt : Option Attempt
  pub game_id : Option ℕ

pub record Users : Type 0 where
  pub known : ℕ → Bool
  pub is_bot : ℕ → Bool
  pub is_guest : ℕ → Bool
  pub coins : ℕ → ℕ

abbrev pub member_ids : List Member → List ℕ
member_ids = map (λ p. p.user_id)

abbrev pub same_flag : Bool → Bool → Bool
same_flag true b = b
same_flag false b = not b

abbrev pub same_number : Option ℕ → Option ℕ → Bool
same_number none none = true
same_number none (some b) = false
same_number (some a) none = false
same_number (some a) (some b) = a == b

abbrev pub same_option_flag : Option Bool → Option Bool → Bool
same_option_flag none none = true
same_option_flag none (some b) = false
same_option_flag (some a) none = false
same_option_flag (some a) (some b) = same_flag a b

abbrev pub same_status : Status → Status → Bool
same_status waiting waiting = true
same_status starting starting = true
same_status playing playing = true
same_status closed closed = true
same_status _ _ = false

abbrev pub same_origin : Origin → Origin → Bool
same_origin from_room from_room = true
same_origin from_quickplay from_quickplay = true
same_origin from_bot from_bot = true
same_origin _ _ = false

abbrev pub same_settings : Settings → Settings → Bool
same_settings a b =
    a.buy_in == b.buy_in
    && a.turn_timer == b.turn_timer
    && same_flag a.is_private b.is_private
    && same_flag a.allow_spectators b.allow_spectators
    && same_flag a.auto_ready b.auto_ready

abbrev pub same_member : Member → Member → Bool
same_member a b =
    a.user_id == b.user_id
    && same_flag a.online b.online
    && same_number a.disconnect_deadline b.disconnect_deadline
    && same_flag a.ready b.ready
    && same_option_flag a.joined_via_invite b.joined_via_invite

abbrev pub same_members : List Member → List Member → Bool
same_members [] [] = true
same_members [] (b ∷ bs) = false
same_members (a ∷ rest) [] = false
same_members (a ∷ rest) (b ∷ bs) = same_member a b && same_members rest bs

abbrev pub same_invite : Invite → Invite → Bool
same_invite a b = a.user_id == b.user_id && a.expires_at == b.expires_at

abbrev pub same_challenge : Option Invite → Option Invite → Bool
same_challenge none none = true
same_challenge none (some b) = false
same_challenge (some a) none = false
same_challenge (some a) (some b) = same_invite a b

abbrev pub same_invite_list : List Invite → List Invite → Bool
same_invite_list [] [] = true
same_invite_list [] (b ∷ bs) = false
same_invite_list (a ∷ rest) [] = false
same_invite_list (a ∷ rest) (b ∷ bs) = same_invite a b && same_invite_list rest bs

abbrev pub same_invites : Option (List Invite) → Option (List Invite) → Bool
same_invites none none = true
same_invites none (some b) = false
same_invites (some a) none = false
same_invites (some a) (some b) = same_invite_list a b

abbrev pub same_attempt : Option Attempt → Option Attempt → Bool
same_attempt none none = true
same_attempt none (some b) = false
same_attempt (some a) none = false
same_attempt (some a) (some b) = same_text a.key b.key && same_text a.players b.players

unfoldable pub same_room : RoomState → RoomState → Bool
same_room a b =
    same_status a.status b.status
    && same_number a.host_id b.host_id
    && same_challenge a.challenge b.challenge
    && same_invites a.invites b.invites
    && same_settings a.settings b.settings
    && same_origin a.origin b.origin
    && same_members a.players b.players
    && same_members a.spectators b.spectators
    && same_attempt a.start_attempt b.start_attempt
    && same_number a.game_id b.game_id
