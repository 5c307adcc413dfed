-- ===== src/Chat.antt =====
-- The channels of src/chat.cpp and the handlers of src/game.cpp that call them. The id of a player is fixed by its
-- guid, `0x10000000 + guid`, so the guid stands for both and for the pointer. A `std::map` is an association list. What
-- is sent is left out, and the answers of scripts are arguments.
pub mod Lobby
pub mod Channels
pub mod Kept
pub mod Admission
pub mod Sound
pub mod Events
pub mod Departed
use zenonia.Base.{
  ℕ, zero, suc, ◌+◌, Bool, true, false, not, ◌&&◌, ◌||◌, Option, none, some, List, [], ◌∷◌, ◌==◌,
  if◌then◌else◌,
}

-- `Player`, as far as channels look at it.
pub record Player : Type 0 where
  pub guid : ℕ
  pub is_premium : Bool
  pub guild : Option ℕ
  pub party : Option ℕ

-- `ChatChannel` and `PrivateChatChannel`; a channel that is not private has the owner 0 and no invites.
pub record Channel : Type 0 where
  pub owner : ℕ
  pub users : List ℕ
  pub invites : List ℕ

abbrev pub Channels : Type 0
Channels = List (ℕ × Channel)

-- `Chat`
pub record Chat : Type 0 where
  pub normal_channels : Channels
  pub guild_channels : Channels
  pub party_channels : Channels
  pub private_channels : Channels

-- A pointer to a channel: the map that it is in, and its key.
pub data Place : Type 0 where
  in_normal in_guild in_party in_private : ℕ → Place

unfoldable pub has : ℕ → List ℕ → Bool
has g [] = false
has g (u ∷ us) = (u == g) || has g us

unfoldable pub without : ℕ → List ℕ → List ℕ
without g [] = []
without g (u ∷ us) = let rest = without g us in if u == g then rest else u ∷ rest

unfoldable pub lookup : ℕ → Channels → Option Channel
lookup k [] = none
lookup k ((j, c) ∷ l) = let rest = lookup k l in if j == k then some c else rest

unfoldable pub change_at : ℕ → (Channel → Channel) → Channels → Channels
change_at k f [] = []
change_at k f ((j, c) ∷ l) =
    let rest = change_at k f l in if j == k then (j, f c) ∷ l else (j, c) ∷ rest

unfoldable pub erase_key : ℕ → Channels → Channels
erase_key k [] = []
erase_key k ((j, c) ∷ l) = let rest = erase_key k l in if j == k then rest else (j, c) ∷ rest

-- `isInvited`, `removeInvite`, `invitePlayer` and `excludePlayer`
abbrev pub is_invited : ℕ → Channel → Bool
is_invited g c = (g == c.owner) || has g c.invites

abbrev pub remove_invite : ℕ → Channel → Channel
remove_invite g c = record c { invites = without g c.invites }

abbrev pub invite_player : ℕ → Channel → Channel
invite_player g c = if has g c.invites then c else record c { invites = g ∷ c.invites }

-- `removeUser`, which does nothing where there is no such user, and `addUser` past its test.
abbrev pub remove_user : ℕ → Channel → Channel
remove_user g c = record c { users = without g c.users }

abbrev pub add_user : ℕ → Channel → Channel
add_user g c = record c { users = g ∷ c.users }

abbrev pub exclude_player : ℕ → Channel → Channel
exclude_player g c = if has g c.invites then remove_user g (remove_invite g c) else c

abbrev pub channel_at : Place → Chat → Option Channel
channel_at (in_normal k) s = lookup k s.normal_channels
channel_at (in_guild k) s = lookup k s.guild_channels
channel_at (in_party k) s = lookup k s.party_channels
channel_at (in_private k) s = lookup k s.private_channels

abbrev pub change : Place → (Channel → Channel) → Chat → Chat
change (in_normal k) f s = record s { normal_channels = change_at k f s.normal_channels }
change (in_guild k) f s = record s { guild_channels = change_at k f s.guild_channels }
change (in_party k) f s = record s { party_channels = change_at k f s.party_channels }
change (in_private k) f s = record s { private_channels = change_at k f s.private_channels }

abbrev pub found : Place → Option Channel → Option Place
found p none = none
found p (some c) = some p

abbrev pub invited_to : Place → ℕ → Option Channel → Option Place
invited_to p g none = none
invited_to p g (some c) = if is_invited g c then some p else none

abbrev pub keyed : Option ℕ → (ℕ → Option Place) → Option Place
keyed none f = none
keyed (some k) f = f k

abbrev pub allowed_or : Option Place → Bool → Option Place → Option Place
allowed_or none allowed other = other
allowed_or (some p) allowed other = if allowed then some p else none

-- `getChannel`, with the answer of the script of a normal channel.
unfoldable pub get_channel : Bool → Player → ℕ → Chat → Option Place
unfolding lookup
get_channel allowed p id s =
    if id == 0
    then keyed p.guild (λ g. found (in_guild g) (lookup g s.guild_channels))
    else if id == 1
    then keyed p.party (λ g. found (in_party g) (lookup g s.party_channels))
    else allowed_or (found (in_normal id) (lookup id s.normal_channels)) allowed
        (invited_to (in_private id) p.guid (lookup id s.private_channels))

-- `getPrivateChannel`
unfoldable pub get_private_channel : ℕ → Channels → Option ℕ
get_private_channel g [] = none
get_private_channel g ((k, c) ∷ l) =
    let rest = get_private_channel g l in if c.owner == g then some k else rest

-- The loop over the slots from 100 on.
unfoldable pub free_slot : ℕ → ℕ → Channels → Option ℕ
unfolding lookup
free_slot zero i l = none
free_slot (suc n) i l =
    let rest = free_slot n (suc i) l in elim (lookup i l) [ none ↦ some i | some c ↦ rest ]

abbrev pub new_channel : ℕ → Channel
new_channel g = record { owner = g; users = []; invites = [] }

abbrev pub in_slot : Option ℕ → ℕ → Chat → Option Place × Chat
in_slot none g s = (none, s)
in_slot (some i) g s =
    (some (in_private i), record s { private_channels = (i, new_channel g) ∷ s.private_channels })

abbrev pub private_for : Option ℕ → Player → Chat → Option Place × Chat
private_for (some k) p s = (none, s)
private_for none p s = in_slot (free_slot 9900 100 s.private_channels) p.guid s

abbrev pub new_place : Option Place → Player → ℕ → Chat → Option Place × Chat
new_place (some q) p id s = (none, s)
new_place none p id s =
    if id == 0
    then (elim p.guild [
      | none ↦ (none, s)
      | some g ↦
          (some (in_guild g), record s { guild_channels = (g, new_channel 0) ∷ s.guild_channels })
    ])
    else if id == 1
    then (elim p.party [
      | none ↦ (none, s)
      | some g ↦
          (some (in_party g), record s { party_channels = (g, new_channel 0) ∷ s.party_channels })
    ])
    else if id == 65535
    then (if p.is_premium
        then private_for (get_private_channel p.guid s.private_channels) p s
        else (none, s))
    else (none, s)

-- `createChannel`
unfoldable pub create_channel : Bool → Player → ℕ → Chat → Option Place × Chat
unfolding get_channel get_private_channel free_slot
create_channel allowed p id s = new_place (get_channel allowed p id s) p id s

-- `deleteChannel`: the erasure of a key that is not there changes nothing.
unfoldable pub delete_channel : Player → ℕ → Chat → Chat
unfolding erase_key
delete_channel p id s =
    if id == 0
    then (elim p.guild [
      | none ↦ s
      | some g ↦ record s { guild_channels = erase_key g s.guild_channels }
    ])
    else if id == 1
    then (elim p.party [
      | none ↦ s
      | some g ↦ record s { party_channels = erase_key g s.party_channels }
    ])
    else record s { private_channels = erase_key id s.private_channels }

-- Only the channels that are loaded have scripts.
abbrev pub joins_at : Place → Bool → Bool
joins_at (in_normal k) joins = joins
joins_at (in_guild k) joins = true
joins_at (in_party k) joins = true
joins_at (in_private k) joins = true

abbrev pub add_user_at : Bool → ℕ → Place → Chat → Chat
add_user_at joins g q s = elim (channel_at q s) [
  | none ↦ s
  | some c ↦ if has g c.users then s else if joins_at q joins then change q (add_user g) s else s
]

-- `addUserToChannel`
unfoldable pub add_user_to_channel : Bool → Bool → Player → ℕ → Chat → Chat
unfolding get_channel has lookup change_at
add_user_to_channel allowed joins p id s = elim (get_channel allowed p id s) [
  | none ↦ s
  | some q ↦ add_user_at joins p.guid q s
]

-- `removeUserFromChannel`
unfoldable pub remove_user_from_channel : Bool → Player → ℕ → Chat → Chat
unfolding get_channel has without lookup change_at delete_channel
remove_user_from_channel allowed p id s = elim (get_channel allowed p id s) [
  | none ↦ s
  | some q ↦ elim (channel_at q s) [
    | none ↦ s
    | some c ↦
        let s' = change q (remove_user p.guid) s in
        if has p.guid c.users then (if c.owner == p.guid then delete_channel p id s' else s') else s
  ]
]

unfoldable pub remove_from_each : ℕ → Channels → Channels
unfolding without
remove_from_each g [] = []
remove_from_each g ((k, c) ∷ l) = (k, remove_user g c) ∷ remove_from_each g l

unfoldable pub remove_from_private : ℕ → Channels → Channels
unfolding without
remove_from_private g [] = []
remove_from_private g ((k, c) ∷ l) =
    let rest = remove_from_private g l in
    if c.owner == g then rest else (k, remove_user g (remove_invite g c)) ∷ rest

-- `removeUserFromAllChannels`
unfoldable pub remove_user_from_all_channels : Player → Chat → Chat
unfolding remove_from_each remove_from_private
remove_user_from_all_channels p s = record {
  normal_channels = remove_from_each p.guid s.normal_channels;
  guild_channels = remove_from_each p.guid s.guild_channels;
  party_channels = remove_from_each p.guid s.party_channels;
  private_channels = remove_from_private p.guid s.private_channels;
}
