-- ===== src/Chat/Sound.antt =====
-- What a change of one channel, and each operation of src/chat.cpp, leaves true of the channels and of who is online.
use zenonia.Base.{ℕ, ◌≡◌, refl, ap, subst, Bool, true, Option, none, some, List, arith, ◌==◌}
use zenonia.Chat.{
  Player, Channel, Channels, Chat, Place, in_normal, in_guild, in_party, in_private, has, without,
  lookup, joins_at, remove_user, add_user, get_channel, delete_channel, channel_at, change,
  add_user_at, add_user_to_channel, remove_user_from_channel, remove_user_from_all_channels,
}
use zenonia.Chat.Channels.{
  Within, IsKept, either, has-without, remove_user-IsKept, add_user-IsKept, logout-IsKept,
}
use zenonia.Chat.Kept.{
  AreOwnedOnce, Hold, change_at-AreOwnedOnce, erase_key-AreOwnedOnce,
  remove_from_private-AreOwnedOnce, Hold-remove_from_each, Hold-remove_from_private, Hold-erase_key,
  Hold-change_at,
}
use zenonia.Chat.Admission.{Admits, get_channel-Admits}

abbrev pub IsSeated : List ℕ → Channel → Type 0
IsSeated on c = Within (λ g. has g c.users) (λ g. has g on)

-- Of the private channels each has one owner who has no other, only those it has invited are in it, and they and the
-- owner are online, as is whoever is in any other channel.
pub record IsSound (on : List ℕ) (s : Chat) : Type 0 where
  pub kept : Hold (IsKept on) s.private_channels
  pub once : AreOwnedOnce s.private_channels
  pub normal : Hold (IsSeated on) s.normal_channels
  pub guild : Hold (IsSeated on) s.guild_channels
  pub party : Hold (IsSeated on) s.party_channels

-- What a change of a channel has to keep, by where the channel is.
pub record Keeps (on : List ℕ) (q : Place) (s : Chat) (f : Channel → Channel) : Type 0 where
  pub owners : (c : Channel) → (f c).owner ≡ c.owner
  pub seats : (c : Channel) → IsSeated on c → IsSeated on (f c)
  pub guests :
      (k : ℕ) (c : Channel)
      → q ≡ in_private k
      → lookup k s.private_channels ≡ some c
      → IsKept on c
      → IsKept on (f c)

pub change-IsSound :
    (on : List ℕ) (q : Place) (s : Chat) (f : Channel → Channel)
    → Keeps on q s f
    → IsSound on s
    → IsSound on (change q f s)
change-IsSound on (in_normal k) s f h ok = record {
  kept = ok.kept;
  once = ok.once;
  normal = Hold-change_at (IsSeated on) k f s.normal_channels (λ c e. h.seats c) ok.normal;
  guild = ok.guild;
  party = ok.party;
}
change-IsSound on (in_guild k) s f h ok = record {
  kept = ok.kept;
  once = ok.once;
  normal = ok.normal;
  guild = Hold-change_at (IsSeated on) k f s.guild_channels (λ c e. h.seats c) ok.guild;
  party = ok.party;
}
change-IsSound on (in_party k) s f h ok = record {
  kept = ok.kept;
  once = ok.once;
  normal = ok.normal;
  guild = ok.guild;
  party = Hold-change_at (IsSeated on) k f s.party_channels (λ c e. h.seats c) ok.party;
}
change-IsSound on (in_private k) s f h ok = record {
  kept = Hold-change_at (IsKept on) k f s.private_channels (λ c. h.guests k c refl) ok.kept;
  once = change_at-AreOwnedOnce k f s.private_channels h.owners ok.once;
  normal = ok.normal;
  guild = ok.guild;
  party = ok.party;
}

pub remove_user-Keeps : (on : List ℕ) (g : ℕ) (q : Place) (s : Chat) → Keeps on q s (remove_user g)
remove_user-Keeps on g q s = record {
  owners = λ c. refl;
  seats = λ c seated h e. ground (arith, has-without h g c.users, seated h);
  guests = λ k c e e2. remove_user-IsKept on g c;
}

pub guild-IsSound :
    (on : List ℕ) (s : Chat) (l : Channels)
    → Hold (IsSeated on) l
    → IsSound on s
    → IsSound on (record s { guild_channels = l })
guild-IsSound on s l all ok = record {
  kept = ok.kept;
  once = ok.once;
  normal = ok.normal;
  guild = all;
  party = ok.party;
}

pub party-IsSound :
    (on : List ℕ) (s : Chat) (l : Channels)
    → Hold (IsSeated on) l
    → IsSound on s
    → IsSound on (record s { party_channels = l })
party-IsSound on s l all ok = record {
  kept = ok.kept;
  once = ok.once;
  normal = ok.normal;
  guild = ok.guild;
  party = all;
}

pub private-IsSound :
    (on : List ℕ) (s : Chat) (l : Channels)
    → Hold (IsKept on) l
    → AreOwnedOnce l
    → IsSound on s
    → IsSound on (record s { private_channels = l })
private-IsSound on s l all once ok = record {
  kept = all;
  once = once;
  normal = ok.normal;
  guild = ok.guild;
  party = ok.party;
}

-- The cases of a channel that is looked for.
pub by_channel :
    {A : Type 0} (P : Chat → Type 0) (o : Option A) {s : Chat} {f : A → Chat}
    → P s
    → ((a : A) → o ≡ some a → P (f a))
    → P (elim o [ none ↦ s | some a ↦ f a ])
by_channel P none ok all = ok
by_channel P (some a) ok all = all a refl

delete_channel-IsSound :
    (on : List ℕ) (p : Player) (id : ℕ) (s : Chat)
    → IsSound on s
    → IsSound on (delete_channel p id s)
unfolding delete_channel
delete_channel-IsSound on p id s ok =
    either (IsSound on) (id == 0)
      (by_channel (IsSound on) p.guild ok
        (λ g e. guild-IsSound on s _ (Hold-erase_key (IsSeated on) g s.guild_channels ok.guild) ok))
      (either (IsSound on) (id == 1)
        (by_channel (IsSound on) p.party ok (λ g e.
          party-IsSound on s _ (Hold-erase_key (IsSeated on) g s.party_channels ok.party) ok))
        (private-IsSound on s _ (Hold-erase_key (IsKept on) id s.private_channels ok.kept)
          (erase_key-AreOwnedOnce id s.private_channels ok.once) ok))

add_user-Keeps :
    (on : List ℕ) (g : ℕ) (q : Place) (s : Chat)
    → has g on ≡ true
    → Admits g (some q) s
    → Keeps on q s (add_user g)
unfolding has Admits
add_user-Keeps on g q s there admits = record {
  owners = λ c. refl;
  seats = λ c seated h e. ground (arith, seated h);
  guests = λ k c e e2. add_user-IsKept on g c (admits k c (ap some e) e2);
}

logout-IsSeated :
    (on : List ℕ) (g : ℕ) (c : Channel) → IsSeated on c → IsSeated (without g on) (remove_user g c)
unfolding has without
logout-IsSeated on g c seated h e =
    ground (arith, has-without h g c.users, has-without h g on, seated h)

pub add_user_at-IsSound :
    (on : List ℕ) (joins : Bool) (g : ℕ) (q : Place) (s : Chat)
    → has g on ≡ true
    → Admits g (some q) s
    → IsSound on s
    → IsSound on (add_user_at joins g q s)
add_user_at-IsSound on joins g q s there admits ok =
    let added = change-IsSound on q s (add_user g) (add_user-Keeps on g q s there admits) ok in
    by_channel (IsSound on) (channel_at q s) ok (λ c e.
      either (IsSound on) (has g c.users) ok (either (IsSound on) (joins_at q joins) added ok))

pub remove_user_from_channel-IsSound :
    (on : List ℕ) (allowed : Bool) (p : Player) (id : ℕ) (s : Chat)
    → IsSound on s
    → IsSound on (remove_user_from_channel allowed p id s)
unfolding remove_user_from_channel
remove_user_from_channel-IsSound on allowed p id s ok =
    by_channel (IsSound on) (get_channel allowed p id s) ok (λ q e.
      by_channel (IsSound on) (channel_at q s) ok (λ c e2.
        let out = change-IsSound on q s _ (remove_user-Keeps on p.guid q s) ok in
        either (IsSound on) (has p.guid c.users)
          (either (IsSound on) (c.owner == p.guid) (delete_channel-IsSound on p id _ out) out) ok))

pub add_user_to_channel-IsSound :
    (on : List ℕ) (allowed joins : Bool) (p : Player) (id : ℕ) (s : Chat)
    → has p.guid on ≡ true
    → IsSound on s
    → IsSound on (add_user_to_channel allowed joins p id s)
unfolding add_user_to_channel
add_user_to_channel-IsSound on allowed joins p id s there ok =
    by_channel (IsSound on) (get_channel allowed p id s) ok (λ q e.
      add_user_at-IsSound on joins p.guid q s there
        (subst (λ o. Admits p.guid o s) e (get_channel-Admits allowed p id s)) ok)

pub remove_user_from_all_channels-IsSound :
    (on : List ℕ) (p : Player) (s : Chat)
    → IsSound on s
    → IsSound (without p.guid on) (remove_user_from_all_channels p s)
unfolding remove_user_from_all_channels
remove_user_from_all_channels-IsSound on p s ok = record {
  kept = Hold-remove_from_private _ _ p.guid s.private_channels (logout-IsKept on p.guid) ok.kept;
  once = remove_from_private-AreOwnedOnce p.guid s.private_channels ok.once;
  normal = Hold-remove_from_each _ _ p.guid s.normal_channels (logout-IsSeated on p.guid) ok.normal;
  guild = Hold-remove_from_each _ _ p.guid s.guild_channels (logout-IsSeated on p.guid) ok.guild;
  party = Hold-remove_from_each _ _ p.guid s.party_channels (logout-IsSeated on p.guid) ok.party;
}
