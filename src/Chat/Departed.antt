-- ===== src/Chat/Departed.antt =====
-- A player that has logged out and the channels of src/chat.cpp, which hold pointers to players.
use zenonia.Base.{ℕ, ◌≡◌, refl, Bool, true, false, not, List, [], ◌∷◌, arith, ◌==◌, All}
use zenonia.Chat.{
  Player, Channel, Chat, has, is_invited, get_private_channel, invite_player, exclude_player,
}
use zenonia.Chat.Lobby.{
  Lobby, player_create_private_channel, in_own_channel, player_open_channel, player_close_channel,
  logout, Event, logs_in, logs_out, creates, invites, excludes, opens, closes, handle, handle_all,
}
use zenonia.Chat.Channels.{has-without}
use zenonia.Chat.Kept.{Hold, Hold-map}
use zenonia.Chat.Sound.{IsSound, IsSeated}
use zenonia.Chat.Events.{acting, stopped, by_option, handle-IsSound, handle_all-IsSound}

-- No channel has a pointer to the player, nor is one the player's.
pub record IsForgotten (g : ℕ) (s : Chat) : Type 0 where
  pub private_ones :
      Hold (λ c. (has g c.users ≡ false) × (is_invited g c ≡ false)) s.private_channels
  pub normal_ones : Hold (λ c. has g c.users ≡ false) s.normal_channels
  pub guild_ones : Hold (λ c. has g c.users ≡ false) s.guild_channels
  pub party_ones : Hold (λ c. has g c.users ≡ false) s.party_channels

abbrev pub logs_in_as : ℕ → Event → Bool
logs_in_as g (logs_in p) = p.guid == g
logs_in_as g (logs_out p) = false
logs_in_as g (creates allowed p) = false
logs_in_as g (invites p other) = false
logs_in_as g (excludes p other) = false
logs_in_as g (opens allowed joins p id) = false
logs_in_as g (closes allowed p id) = false

IsAway : ℕ → Lobby → Type 0
IsAway g w = has g w.online ≡ false

absent : (b c : Bool) → (b ≡ true → c ≡ true) → c ≡ false → b ≡ false
absent true c f e = absurd (cc (f refl, e))
absent false c f e = refl

away-IsForgotten :
    (g : ℕ) (on : List ℕ) (s : Chat) → has g on ≡ false → IsSound on s → IsForgotten g s
away-IsForgotten g on s away ok =
    let unseated =
      λ (c : Channel) (seated : IsSeated on c). absent (has g c.users) (has g on) (seated g) away in
    record {
      private_ones =
          Hold-map _ _ s.private_channels
            (λ c kept.
              let uninvited = absent (is_invited g c) (has g on) (kept.present g) away in
              (absent (has g c.users) (is_invited g c) (kept.guests g) uninvited, uninvited))
            ok.kept;
      normal_ones = Hold-map _ _ s.normal_channels unseated ok.normal;
      guild_ones = Hold-map _ _ s.guild_channels unseated ok.guild;
      party_ones = Hold-map _ _ s.party_channels unseated ok.party;
    }

in_own_channel-IsAway :
    (f : ℕ → Channel → Channel) (g : ℕ) (p : Player) (other : ℕ) (w : Lobby)
    → IsAway g w
    → IsAway g (in_own_channel f p other w)
unfolding in_own_channel IsAway
in_own_channel-IsAway f g p other w away = acting (IsAway g) (has p.guid w.online) away (λ there.
    by_option (IsAway g) (get_private_channel p.guid w.chat.private_channels) away
      (λ k. stopped (IsAway g) (has other w.online) (p.guid == other) away (λ met. away)))

handle-IsAway :
    (g : ℕ) (e : Event) (w : Lobby) → logs_in_as g e ≡ false → IsAway g w → IsAway g (handle e w)
unfolding IsAway has player_create_private_channel player_open_channel player_close_channel logout
handle-IsAway g (logs_in p) w other away = ground (arith, other, away)
handle-IsAway g (logs_out p) w other away = ground (arith, has-without g p.guid w.online, away)
handle-IsAway g (creates allowed p) w other away =
    stopped (IsAway g) (has p.guid w.online) (not p.is_premium) away (λ there. away)
handle-IsAway g (invites p o) w other away = in_own_channel-IsAway invite_player g p o w away
handle-IsAway g (excludes p o) w other away = in_own_channel-IsAway exclude_player g p o w away
handle-IsAway g (opens allowed joins p id) w other away =
    acting (IsAway g) (has p.guid w.online) away (λ there. away)
handle-IsAway g (closes allowed p id) w other away =
    acting (IsAway g) (has p.guid w.online) away (λ there. away)

handle_all-IsAway :
    (g : ℕ) (es : List Event) (w : Lobby)
    → All (λ e. logs_in_as g e ≡ false) es
    → IsAway g w
    → IsAway g (handle_all es w)
unfolding handle_all
handle_all-IsAway g [] w others away = away
handle_all-IsAway g (e ∷ es) w others away =
    handle_all-IsAway g es (handle e w) others.1 (handle-IsAway g e w others.0 away)

-- From a state that is as it should be: once a player has logged out, and until that player logs in again, whatever the
-- others do, no channel has the player among its users or its invites, or as its owner.
pub logout-IsForgotten :
    (p : Player) (es : List Event) (w : Lobby)
    → IsSound w.online w.chat
    → All (λ e. logs_in_as p.guid e ≡ false) es
    → IsForgotten p.guid (handle_all es (handle (logs_out p) w)).chat
unfolding has logout IsAway
logout-IsForgotten p es w ok others =
    let out = handle (logs_out p) w in
    away-IsForgotten p.guid _ _
      (handle_all-IsAway p.guid es out others (ground (arith, has-without p.guid p.guid w.online)))
      (handle_all-IsSound es out (handle-IsSound (logs_out p) w ok))
