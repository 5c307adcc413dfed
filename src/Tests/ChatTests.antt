-- ===== src/Tests/ChatTests.antt =====
-- src/chat.cpp with two players.
use zenonia.Base.{◌≡◌, refl, true, false, List, [], ◌∷◌, none, some}
use zenonia.Chat.{Player, has}
use zenonia.Chat.Lobby.{
  Lobby, Event, logs_in, logs_out, creates, invites, opens, handle, handle_all,
  player_create_private_channel, in_own_channel, player_open_channel, logout,
}
use zenonia.Chat.Sound.{IsSound}
use zenonia.Chat.Events.{handle_all-IsSound}
use zenonia.Chat.Departed.{IsForgotten, logout-IsForgotten}

abbrev ann : Player
ann = record { guid = 7; is_premium = true; guild = some 2; party = none }

abbrev bob : Player
bob = record { guid = 8; is_premium = false; guild = none; party = none }

-- Nobody is online, and there is one channel for all.
abbrev quiet : Lobby
quiet = record {
  chat = record {
    normal_channels = (3, record { owner = 0; users = []; invites = [] }) ∷ [];
    guild_channels = [];
    party_channels = [];
    private_channels = [];
  };
  online = [];
}

quiet-IsSound : IsSound quiet.online quiet.chat
unfolding has
quiet-IsSound = record { kept = tt; once = tt; normal = (λ g e. e, tt); guild = tt; party = tt }

-- Ann makes a channel and invites Bob, who opens it and the channel for all.
abbrev meeting : List Event
meeting =
    logs_in ann
    ∷ logs_in bob
    ∷ creates true ann
    ∷ invites ann 8
    ∷ opens true true bob 100
    ∷ opens true true bob 3
    ∷ []

met :
    (handle_all meeting quiet).chat.private_channels
    ≡ (100, record { owner = 7; users = 8 ∷ 7 ∷ []; invites = 8 ∷ [] }) ∷ []
unfolding handle_all player_create_private_channel in_own_channel player_open_channel
met = refl

handle_all-IsSound_example :
    IsSound (handle_all meeting quiet).online (handle_all meeting quiet).chat
handle_all-IsSound_example = handle_all-IsSound meeting quiet quiet-IsSound

logout-IsForgotten_example :
    IsForgotten 8
      (handle_all
        (opens true true ann 3 ∷ [])
        (handle (logs_out bob) (handle_all meeting quiet))).chat
logout-IsForgotten_example =
    logout-IsForgotten bob (opens true true ann 3 ∷ []) (handle_all meeting quiet)
      (handle_all-IsSound meeting quiet quiet-IsSound) (refl, tt)

abbrev emptied : Lobby
emptied = handle (logs_out bob) (handle_all meeting quiet)

left :
    emptied.chat.private_channels ≡ (100, record { owner = 7; users = 7 ∷ []; invites = [] }) ∷ []
unfolding handle_all player_create_private_channel in_own_channel player_open_channel logout
left = refl
