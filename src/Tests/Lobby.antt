-- ===== src/Tests/Lobby.antt =====
-- The theorems on rooms at a room of two humans.
use purecheckers.Base.{ℕ, ◌≡◌, refl, Bool, true, false, [], ◌∷◌}
use purecheckers.Rooms.{
  Member, Room, waiting, some_member, is_user, kept, every, with_host, can_start_room,
  remove_member,
}
use purecheckers.Rooms.Departure.{Left, remove_member-Left}

abbrev ada : Member
ada = record { user_id = 1; username = []; ready = true; is_bot = false; online = true }

abbrev bob : Member
bob = record { user_id = 2; username = []; ready = true; is_bot = false; online = true }

abbrev lobby : Room
lobby = record {
  status = waiting;
  challenge = false;
  auto_ready = false;
  buy_in = 0;
  players = ada ∷ bob ∷ [];
  spectators = [];
  host_id = 1;
  host_name = [];
}

lobby_starts : can_start_room lobby ≡ true
unfolding can_start_room every some_member
lobby_starts = refl

lobby_open : (remove_member lobby 1).1 ≡ false
unfolding remove_member kept some_member with_host
lobby_open = refl

ada_plays : some_member (is_user 1) lobby.players ≡ true
unfolding some_member
ada_plays = refl

no_bots : ℕ → Bool
no_bots _ = false

remove_member-Left_example : Left 1 lobby (remove_member lobby 1).0
remove_member-Left_example = remove_member-Left lobby 1 lobby_open
