-- ===== src/Chat/Lobby.antt =====
-- The handlers of src/game.cpp that create, open and close channels, and the logout of src/player.cpp.
use zenonia.Base.{ℕ, Bool, true, not, ◌||◌, Option, none, some, List, [], ◌∷◌, ◌==◌, if◌then◌else◌}
use zenonia.Chat.{
  Player, Channel, Chat, Place, has, without, lookup, change_at, invite_player, exclude_player,
  get_private_channel, create_channel, add_user_at, add_user_to_channel, remove_user_from_channel,
  remove_user_from_all_channels, change, in_private,
}

-- The chat, and the guids of the players that `getPlayerByID` and `getPlayerByName` find.
pub record Lobby : Type 0 where
  pub chat : Chat
  pub online : List ℕ

abbrev pub created : Player → Option Place × Chat → Chat
created p (none, s) = s
created p (some q, s) = add_user_at true p.guid q s

-- `playerCreatePrivateChannel`
unfoldable pub player_create_private_channel : Bool → Player → Lobby → Lobby
unfolding has lookup change_at create_channel
player_create_private_channel allowed p w =
    if not (has p.guid w.online) || not p.is_premium
    then w
    else record w { chat = created p (create_channel allowed p 65535 w.chat) }

-- What `playerChannelInvite` and `playerChannelExclude` share: the channel of the player, and the other player.
unfoldable pub in_own_channel : (ℕ → Channel → Channel) → Player → ℕ → Lobby → Lobby
unfolding has change_at get_private_channel
in_own_channel f p other w =
    if not (has p.guid w.online)
    then w
    else elim (get_private_channel p.guid w.chat.private_channels) [
      | none ↦ w
      | some k ↦
          if not (has other w.online) || (p.guid == other)
          then w
          else record w { chat = change (in_private k) (f other) w.chat }
    ]

abbrev pub player_channel_invite : Player → ℕ → Lobby → Lobby
player_channel_invite = in_own_channel invite_player

abbrev pub player_channel_exclude : Player → ℕ → Lobby → Lobby
player_channel_exclude = in_own_channel exclude_player

-- `playerOpenChannel`
unfoldable pub player_open_channel : Bool → Bool → Player → ℕ → Lobby → Lobby
unfolding has add_user_to_channel
player_open_channel allowed joins p id w =
    if not (has p.guid w.online)
    then w
    else record w { chat = add_user_to_channel allowed joins p id w.chat }

-- `playerCloseChannel`
unfoldable pub player_close_channel : Bool → Player → ℕ → Lobby → Lobby
unfolding has remove_user_from_channel
player_close_channel allowed p id w =
    if not (has p.guid w.online)
    then w
    else record w { chat = remove_user_from_channel allowed p id w.chat }

-- What a login and a logout do to the two.
abbrev pub login : Player → Lobby → Lobby
login p w = record w { online = p.guid ∷ w.online }

unfoldable pub logout : Player → Lobby → Lobby
unfolding without remove_user_from_all_channels
logout p w = record {
  chat = remove_user_from_all_channels p w.chat;
  online = without p.guid w.online;
}

pub data Event : Type 0 where
  logs_in logs_out : Player → Event
  creates : Bool → Player → Event
  invites excludes : Player → ℕ → Event
  opens : Bool → Bool → Player → ℕ → Event
  closes : Bool → Player → ℕ → Event

abbrev pub handle : Event → Lobby → Lobby
handle (logs_in p) w = login p w
handle (logs_out p) w = logout p w
handle (creates allowed p) w = player_create_private_channel allowed p w
handle (invites p other) w = player_channel_invite p other w
handle (excludes p other) w = player_channel_exclude p other w
handle (opens allowed joins p id) w = player_open_channel allowed joins p id w
handle (closes allowed p id) w = player_close_channel allowed p id w

unfoldable pub handle_all : List Event → Lobby → Lobby
handle_all [] w = w
handle_all (e ∷ es) w = handle_all es (handle e w)
