-- ===== src/Chat/Channels.antt =====
-- What is kept for each private channel, whatever src/chat.cpp does to it.
use zenonia.Base.{
  ℕ, ◌≡◌, refl, Bool, true, false, not, ◌&&◌, List, [], ◌∷◌, arith, ◌==◌, if◌then◌else◌,
}
use zenonia.Chat.{
  Channel, has, without, is_invited, remove_invite, invite_player, remove_user, add_user,
  exclude_player, new_channel,
}

abbrev pub Within : (ℕ → Bool) → (ℕ → Bool) → Type 0
Within f h = (g : ℕ) → f g ≡ true → h g ≡ true

-- Who is in a private channel is invited, and who is invited is online.
pub record IsKept (on : List ℕ) (c : Channel) : Type 0 where
  pub guests : Within (λ g. has g c.users) (λ g. is_invited g c)
  pub present : Within (λ g. is_invited g c) (λ g. has g on)

pub either : {A : Type 0} (P : A → Type 0) (b : Bool) {x y : A} → P x → P y → P (if b then x else y)
either P true px py = px
either P false px py = py

pub if_false :
    {A : Type 0} (P : A → Type 0) (b : Bool) {x y : A}
    → P x
    → (b ≡ false → P y)
    → P (if b then x else y)
if_false P true px py = px
if_false P false px py = py refl

pub has-without : (h g : ℕ) (us : List ℕ) → has h (without g us) ≡ has h us && not (g == h)
unfolding has without
has-without h g [] = refl
has-without h g (u ∷ us) = ground (arith, has-without h g us)

pub remove_user-IsKept :
    (on : List ℕ) (g : ℕ) (c : Channel) → IsKept on c → IsKept on (remove_user g c)
remove_user-IsKept on g c kept = record {
  guests = λ h e. ground (arith, has-without h g c.users, kept.guests h);
  present = kept.present;
}

pub remove_invite-IsKept :
    (on : List ℕ) (g : ℕ) (c : Channel)
    → IsKept on c
    → IsKept on (remove_user g (remove_invite g c))
unfolding has without
remove_invite-IsKept on g c kept = record {
  guests = λ h e. ground (arith, has-without h g c.users, has-without h g c.invites, kept.guests h);
  present = λ h e. ground (arith, has-without h g c.invites, kept.present h);
}

pub exclude_player-IsKept :
    (on : List ℕ) (g : ℕ) (c : Channel) → IsKept on c → IsKept on (exclude_player g c)
unfolding has without
exclude_player-IsKept on g c kept =
    either (IsKept on) (has g c.invites) (remove_invite-IsKept on g c kept) kept

pub invite_player-IsKept :
    (on : List ℕ) (g : ℕ) (c : Channel)
    → has g on ≡ true
    → IsKept on c
    → IsKept on (invite_player g c)
unfolding has
invite_player-IsKept on g c there kept = either (IsKept on) (has g c.invites) kept record {
  guests = λ h e. ground (arith, kept.guests h);
  present = λ h e. ground (arith, kept.present h);
}

pub add_user-IsKept :
    (on : List ℕ) (g : ℕ) (c : Channel)
    → is_invited g c ≡ true
    → IsKept on c
    → IsKept on (add_user g c)
unfolding has
add_user-IsKept on g c invited kept = record {
  guests = λ h e. ground (arith, kept.guests h);
  present = kept.present;
}

pub new_channel-IsKept : (on : List ℕ) (g : ℕ) → has g on ≡ true → IsKept on (new_channel g)
unfolding has
new_channel-IsKept on g there = record {
  guests = λ h e. ground (arith);
  present = λ h e. ground (arith);
}

pub login-IsKept : (on : List ℕ) (g : ℕ) (c : Channel) → IsKept on c → IsKept (g ∷ on) c
unfolding has
login-IsKept on g c kept = record {
  guests = kept.guests;
  present = λ h e. ground (arith, kept.present h);
}

pub logout-IsKept :
    (on : List ℕ) (g : ℕ) (c : Channel)
    → (c.owner == g) ≡ false
    → IsKept on c
    → IsKept (without g on) (remove_user g (remove_invite g c))
unfolding has without
logout-IsKept on g c apart kept = record {
  guests = (remove_invite-IsKept on g c kept).guests;
  present = λ h e. ground (arith, has-without h g c.invites, has-without h g on, kept.present h);
}
