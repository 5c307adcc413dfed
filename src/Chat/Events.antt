-- ===== src/Chat/Events.antt =====
-- The events of src/game.cpp, in any order.
use zenonia.Base.{
  ℕ, ◌≡◌, refl, subst, Bool, true, false, not, ◌||◌, Option, none, some, List, [], ◌∷◌, arith,
  ==-refl, ◌==◌, if◌then◌else◌,
}
use zenonia.Chat.{
  Player, Channel, Channels, Chat, Place, in_guild, in_party, in_private, has, lookup, is_invited,
  invite_player, exclude_player, new_place, private_for, in_slot, get_channel, get_private_channel,
  create_channel, new_channel,
}
use zenonia.Chat.Lobby.{
  Lobby, created, player_create_private_channel, in_own_channel, player_open_channel,
  player_close_channel, login, logout, Event, logs_in, logs_out, creates, invites, excludes, opens,
  closes, handle, handle_all,
}
use zenonia.Chat.Channels.{
  either, exclude_player-IsKept, invite_player-IsKept, new_channel-IsKept, login-IsKept,
}
use zenonia.Chat.Admission.{Admits, only_if, found_twice}
use zenonia.Chat.Sound.{
  IsSound, IsSeated, Keeps, remove_user-Keeps, guild-IsSound, party-IsSound, private-IsSound,
  change-IsSound, add_user_at-IsSound, remove_user_from_channel-IsSound,
  add_user_to_channel-IsSound, remove_user_from_all_channels-IsSound,
}
use zenonia.Chat.Kept.{Hold-map}

-- What creating a channel gives: the channels are as they should be, and the player may be in the new one.
abbrev Made : List ℕ → ℕ → Option Place × Chat → Type 0
Made on g (o, s) = IsSound on s × Admits g o s

none-Made : (on : List ℕ) (g : ℕ) (s : Chat) → IsSound on s → Made on g (none, s)
unfolding Admits
none-Made on g s ok = (ok, λ k c e. cc)

new_channel-IsSeated : (on : List ℕ) (g : ℕ) → IsSeated on (new_channel g)
unfolding has
new_channel-IsSeated on g h e = cc

guild-Made :
    (on : List ℕ) (g k : ℕ) (s : Chat)
    → IsSound on s
    → Made on g
        (some (in_guild k), record s { guild_channels = (k, new_channel 0) ∷ s.guild_channels })
unfolding Admits
guild-Made on g k s ok =
    (guild-IsSound on s _ (new_channel-IsSeated on 0, ok.guild) ok, λ j c e. cc)

party-Made :
    (on : List ℕ) (g k : ℕ) (s : Chat)
    → IsSound on s
    → Made on g
        (some (in_party k), record s { party_channels = (k, new_channel 0) ∷ s.party_channels })
unfolding Admits
party-Made on g k s ok =
    (party-IsSound on s _ (new_channel-IsSeated on 0, ok.party) ok, λ j c e. cc)

newest :
    (i k g : ℕ) (l : Channels) (c : Channel)
    → i ≡ k
    → lookup k ((i, new_channel g) ∷ l) ≡ some c
    → is_invited g c ≡ true
unfolding has lookup
newest i k g l c here e =
    let e2 =
      subst (λ b. (if b then some (new_channel g) else lookup k l) ≡ some c)
        (subst (λ j. (i == j) ≡ true) here (==-refl i)) e in
    subst (λ d. is_invited g d ≡ true) (found_twice e2) (ground (arith))

private-Made :
    (on : List ℕ) (o : Option ℕ) (g : ℕ) (s : Chat)
    → has g on ≡ true
    → get_private_channel g s.private_channels ≡ none
    → IsSound on s
    → Made on g (in_slot o g s)
unfolding Admits lookup
private-Made on none g s there free ok = none-Made on g s ok
private-Made on (some i) g s there free ok = (
  private-IsSound on s _ (new_channel-IsKept on g there, ok.kept) (free, ok.once) ok,
  λ k c e e2. newest i k g s.private_channels c (only_if true e).1 e2,
)

private_for-Made :
    (on : List ℕ) (o : Option ℕ) (p : Player) (s : Chat)
    → get_private_channel p.guid s.private_channels ≡ o
    → has p.guid on ≡ true
    → IsSound on s
    → Made on p.guid (private_for o p s)
private_for-Made on none p s free there ok = private-Made on _ p.guid s there free ok
private_for-Made on (some k) p s e there ok = none-Made on p.guid s ok

pub by_option :
    {A B : Type 0} (P : B → Type 0) (o : Option A) {r : B} {f : A → B}
    → P r
    → ((a : A) → P (f a))
    → P (elim o [ none ↦ r | some a ↦ f a ])
by_option P none ok all = ok
by_option P (some a) ok all = all a

new_place-Made :
    (on : List ℕ) (o : Option Place) (p : Player) (id : ℕ) (s : Chat)
    → has p.guid on ≡ true
    → IsSound on s
    → Made on p.guid (new_place o p id s)
new_place-Made on (some q) p id s there ok = none-Made on p.guid s ok
new_place-Made on none p id s there ok =
    either (Made on p.guid) (id == 0)
      (by_option (Made on p.guid) p.guild (none-Made on p.guid s ok)
        (λ k. guild-Made on p.guid k s ok))
      (either (Made on p.guid) (id == 1)
        (by_option (Made on p.guid) p.party (none-Made on p.guid s ok)
          (λ k. party-Made on p.guid k s ok))
        (either (Made on p.guid) (id == 65535)
          (either (Made on p.guid) p.is_premium (private_for-Made on _ p s refl there ok)
            (none-Made on p.guid s ok))
          (none-Made on p.guid s ok)))

create_channel-Made :
    (on : List ℕ) (allowed : Bool) (p : Player) (id : ℕ) (s : Chat)
    → has p.guid on ≡ true
    → IsSound on s
    → Made on p.guid (create_channel allowed p id s)
unfolding create_channel
create_channel-Made on allowed p id s there ok =
    new_place-Made on (get_channel allowed p id s) p id s there ok

add_user_at-Made :
    (on : List ℕ) (p : Player) (r : Option Place × Chat)
    → has p.guid on ≡ true
    → Made on p.guid r
    → IsSound on (created p r)
add_user_at-Made on p (none, s) there made = made.0
add_user_at-Made on p (some q, s) there made =
    add_user_at-IsSound on true p.guid q s there made.1 made.0

-- `IsSound` of the chat and the players online.
abbrev pub IsSoundLobby : Lobby → Type 0
IsSoundLobby w = IsSound w.online w.chat

module _ (P : Lobby → Type 0) where
  pub acting : (c : Bool) {w w' : Lobby} → P w → (c ≡ true → P w') → P (if not c then w else w')
  acting true ok next = next refl
  acting false ok next = ok

  pub stopped :
      (c d : Bool) {w w' : Lobby} → P w → (c ≡ true → P w') → P (if not c || d then w else w')
  stopped true true ok next = ok
  stopped true false ok next = next refl
  stopped false d ok next = ok

player_create_private_channel-IsSound :
    (allowed : Bool) (p : Player) (w : Lobby)
    → IsSoundLobby w
    → IsSoundLobby (player_create_private_channel allowed p w)
unfolding player_create_private_channel
player_create_private_channel-IsSound allowed p w ok =
    stopped IsSoundLobby (has p.guid w.online) (not p.is_premium) ok (λ there.
      add_user_at-Made w.online p _ there
        (create_channel-Made w.online allowed p 65535 w.chat there ok))

in_own_channel-IsSound :
    (f : ℕ → Channel → Channel) (p : Player) (other : ℕ) (w : Lobby)
    → ((k : ℕ) → has other w.online ≡ true → Keeps w.online (in_private k) w.chat (f other))
    → IsSoundLobby w
    → IsSoundLobby (in_own_channel f p other w)
unfolding in_own_channel
in_own_channel-IsSound f p other w keeps ok = acting IsSoundLobby (has p.guid w.online) ok (λ there.
    by_option IsSoundLobby (get_private_channel p.guid w.chat.private_channels) ok (λ k.
      stopped IsSoundLobby (has other w.online) (p.guid == other) ok
        (λ met. change-IsSound w.online (in_private k) w.chat (f other) (keeps k met) ok)))

invite_player-Keeps :
    (on : List ℕ) (g : ℕ) (q : Place) (s : Chat) → has g on ≡ true → Keeps on q s (invite_player g)
invite_player-Keeps on g q s there = record {
  owners = λ c. either (λ (d : Channel). d.owner ≡ c.owner) (has g c.invites) refl refl;
  seats = λ c seated. either (IsSeated on) (has g c.invites) seated seated;
  guests = λ k c e e2. invite_player-IsKept on g c there;
}

exclude_player-Keeps :
    (on : List ℕ) (g : ℕ) (q : Place) (s : Chat) → Keeps on q s (exclude_player g)
exclude_player-Keeps on g q s = record {
  owners = λ c. either (λ (d : Channel). d.owner ≡ c.owner) (has g c.invites) refl refl;
  seats = λ c seated.
      either (IsSeated on) (has g c.invites) ((remove_user-Keeps on g q s).seats c seated) seated;
  guests = λ k c e e2. exclude_player-IsKept on g c;
}

login-IsSeated : (on : List ℕ) (g : ℕ) (c : Channel) → IsSeated on c → IsSeated (g ∷ on) c
unfolding has
login-IsSeated on g c seated h e = ground (arith, seated h)

login-IsSound : (p : Player) (w : Lobby) → IsSoundLobby w → IsSoundLobby (login p w)
login-IsSound p w ok = record {
  kept = Hold-map _ _ w.chat.private_channels (login-IsKept w.online p.guid) ok.kept;
  once = ok.once;
  normal = Hold-map _ _ w.chat.normal_channels (login-IsSeated w.online p.guid) ok.normal;
  guild = Hold-map _ _ w.chat.guild_channels (login-IsSeated w.online p.guid) ok.guild;
  party = Hold-map _ _ w.chat.party_channels (login-IsSeated w.online p.guid) ok.party;
}

pub handle-IsSound : (e : Event) (w : Lobby) → IsSoundLobby w → IsSoundLobby (handle e w)
unfolding player_open_channel player_close_channel logout
handle-IsSound (logs_in p) w ok = login-IsSound p w ok
handle-IsSound (logs_out p) w ok = remove_user_from_all_channels-IsSound w.online p w.chat ok
handle-IsSound (creates allowed p) w ok = player_create_private_channel-IsSound allowed p w ok
handle-IsSound (invites p other) w ok =
    in_own_channel-IsSound invite_player p other w
      (λ k. invite_player-Keeps w.online other (in_private k) w.chat) ok
handle-IsSound (excludes p other) w ok =
    in_own_channel-IsSound exclude_player p other w
      (λ k met. exclude_player-Keeps w.online other (in_private k) w.chat) ok
handle-IsSound (opens allowed joins p id) w ok =
    acting IsSoundLobby (has p.guid w.online) ok
      (λ there. add_user_to_channel-IsSound w.online allowed joins p id w.chat there ok)
handle-IsSound (closes allowed p id) w ok =
    acting IsSoundLobby (has p.guid w.online) ok
      (λ there. remove_user_from_channel-IsSound w.online allowed p id w.chat ok)

-- Whatever the players do, and however often they log in and out, in a state that is as it should be: those in a
-- private channel are its owner or invited, no two private channels have one owner, and whoever owns, is invited to
-- or is in a channel is online.
pub handle_all-IsSound :
    (es : List Event) (w : Lobby)
    → IsSound w.online w.chat
    → IsSound (handle_all es w).online (handle_all es w).chat
unfolding handle_all
handle_all-IsSound [] w ok = ok
handle_all-IsSound (e ∷ es) w ok = handle_all-IsSound es (handle e w) (handle-IsSound e w ok)
