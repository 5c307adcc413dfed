-- ===== src/Party/Handlers.antt =====
-- The handlers of src/game.cpp and src/player.cpp that change parties. `none` is the use of a pointer to
-- a party that is deleted.
use zenonia.Base.{
  update, ℕ, Bool, true, false, not, ◌&&◌, ◌||◌, Option, none, some, List, [], ◌∷◌, ◌==◌,
  if◌then◌else◌,
}
use zenonia.Party.{
  Party, World, Env, Scripts, same_party, is_player_invited, set_shared_experience,
  update_player_ticks, clear_player_points,
}
use zenonia.Party.Methods.{
  put, founded_by, new_party, pass_party_leadership, leave_party, join_party, remove_invite,
  invite_player,
}

infixl 5 ◌>>=◌
abbrev pub ◌>>=◌ : {A B : Type 0} → Option A → (A → Option B) → Option B
none >>= f = none
some a >>= f = f a

-- What the handlers read of the game besides parties.
pub record Game : Type 0 where
  pub is_online : ℕ → Bool
  pub in_fight : ℕ → Bool
  pub in_protection_zone : ℕ → Bool

-- A null pointer, or the party with its content.
abbrev pub MaybeParty : Type 0
MaybeParty = Option (ℕ × Party)

unfoldable pub deref : World → Option ℕ → Option MaybeParty
deref w none = some none
deref w (some q) = elim (w.parties q) [ none ↦ none | some party ↦ some (some (q, party)) ]

unfoldable pub get_party : World → ℕ → Option MaybeParty
unfolding deref
get_party w p = deref w (w.players p).party

-- `!party || party->getLeader() != player` is false.
abbrev pub led_by : ℕ → MaybeParty → MaybeParty
led_by p none = none
led_by p (some (q, party)) = if party.leader == p then some (q, party) else none

abbrev pub invites : ℕ → MaybeParty → Bool
invites x none = false
invites x (some (q, party)) = is_player_invited party x

unfoldable pub is_inviting : World → ℕ → ℕ → Option Bool
unfolding get_party
is_inviting w p x = do party ← get_party w p; some (invites x (led_by p party))

unfoldable pub has_party : World → ℕ → Bool
has_party w p = elim (w.players p).party [ none ↦ false | some q ↦ true ]

-- `party == player->party`: two null pointers are not compared.
unfoldable pub is_partner : World → ℕ → ℕ → Bool
is_partner w p x = elim (w.players p).party [
  | none ↦ false
  | some q ↦ not (x == p) && same_party (w.players x).party q
]

-- A method of the party that returns the new content.
abbrev pub on_content : World → (Party → Party) → MaybeParty → World
on_content w f none = w
on_content w f (some (q, party)) = put q (f party) w

abbrev pub invite_to : World → ℕ → ℕ → ℕ → MaybeParty → World
invite_to w fresh p x none = (invite_player fresh (founded_by p) x (new_party fresh p w)).1
invite_to w fresh p x (some (q, party)) =
    if party.leader == p then (invite_player q party x w).1 else w

unfoldable pub player_invite_to_party : Game → ℕ → ℕ → ℕ → World → Option World
unfolding is_inviting get_party
player_invite_to_party game fresh p x w =
    if p == x
    then some w
    else if not (game.is_online p)
    then some w
    else if not (game.is_online x)
    then some w
    else (do
      inviting ← is_inviting w x p
      elim (inviting || has_party w x) [
        | true ↦ some w
        | false ↦ get_party w p >>= λ party. some (invite_to w fresh p x party)
      ])

abbrev pub join : Env → Scripts → ℕ → World → MaybeParty → World
join env scripts p w none = w
join env scripts p w (some (q, party)) =
    if has_party w p then w else (join_party env scripts q party p w).1

unfoldable pub player_join_party : Game → Env → Scripts → ℕ → ℕ → World → Option World
unfolding is_inviting get_party
player_join_party game env scripts p leader w =
    if not (game.is_online p) then some w else if not (game.is_online leader) then some w else (do
      inviting ← is_inviting w leader p
      party ← get_party w leader
      some (if inviting then join env scripts p w (led_by leader party) else w))

abbrev pub revoke : Scripts → ℕ → World → MaybeParty → World
revoke scripts x w none = w
revoke scripts x w (some (q, party)) = (remove_invite scripts q party x true w).1

unfoldable pub player_revoke_party_invitation : Game → Scripts → ℕ → ℕ → World → Option World
unfolding is_inviting get_party
player_revoke_party_invitation game scripts p x w = if not (game.is_online p) then some w else (do
  party ← get_party w p
  inviting ← is_inviting w p x
  some (if game.is_online x && inviting then revoke scripts x w (led_by p party) else w))

unfoldable pub player_pass_party_leadership : Game → Env → ℕ → ℕ → World → Option World
unfolding is_partner get_party
player_pass_party_leadership game env p x w = if not (game.is_online p) then some w else (do
  party ← get_party w p
  elim (led_by p party) [
    | none ↦ some w
    | some (q, content) ↦
        if game.is_online x && is_partner w p x
        then some (put q (pass_party_leadership env w q content x).1 w)
        else some w
  ])

abbrev pub leave : Env → Scripts → ℕ → World → MaybeParty → World
leave env scripts p w none = w
leave env scripts p w (some (q, party)) = (leave_party env scripts q party p w).1

unfoldable pub player_leave_party : Game → Env → Scripts → ℕ → World → Option World
unfolding get_party
player_leave_party game env scripts p w =
    if not (game.is_online p)
    then some w
    else if game.in_fight p
    then some w
    else get_party w p >>= λ party. some (leave env scripts p w party)

-- `!player->getTile()` does not occur for a player who is in the game.
unfoldable pub player_enable_shared_party_experience : Game → Env → ℕ → Bool → World → Option World
unfolding get_party
player_enable_shared_party_experience game env p active w =
    if not (game.is_online p)
    then some w
    else if game.in_fight p && not (game.in_protection_zone p)
    then some w
    else (do
      party ← get_party w p
      some (on_content w (λ content. (set_shared_experience env content p active).1) party))

-- The loop of `clearPartyInvitations`, over the list as it was.
unfoldable pub remove_invites : Scripts → ℕ → List ℕ → World → Option World
unfolding deref
remove_invites scripts p [] w = some w
remove_invites scripts p (q ∷ qs) w = elim (w.parties q) [
  | none ↦ none
  | some party ↦ remove_invites scripts p qs (remove_invite scripts q party p false w).1
]

unfoldable pub clear_party_invitations : Scripts → ℕ → World → Option World
unfolding remove_invites
clear_party_invitations scripts p w = do
  w' ← remove_invites scripts p (w.players p).invite_party_list w
  some (record w' {
    players = update p (record (w'.players p) { invite_party_list = [] }) w'.players;
  })

-- The part of `onRemoveCreature` that is about parties.
unfoldable pub on_remove_creature : Env → Scripts → ℕ → World → Option World
unfolding clear_party_invitations get_party
on_remove_creature env scripts p w = do
  w' ← clear_party_invitations scripts p w
  party ← get_party w' p
  some (leave env scripts p w' party)

unfoldable pub on_idle_status : Env → ℕ → World → Option World
unfolding get_party
on_idle_status env p w = do
  party ← get_party w p
  some (on_content w (λ content. clear_player_points env content p) party)

-- `onAttackedCreatureDrainHealth`: a hostile monster loses health.
unfoldable pub on_attacked_creature_drain_health : Env → Bool → ℕ → ℕ → World → Option World
unfolding get_party
on_attacked_creature_drain_health env is_hostile p points w =
    if is_hostile
    then (do
      party ← get_party w p
      some (on_content w (λ content. update_player_ticks env content p points) party))
    else some w

-- The creature that is healed: a player or not, and the player who is its master.
pub record Target : Type 0 where
  pub player : Option ℕ
  pub master : Option ℕ

-- `isPartner` of a pointer that may be null.
abbrev pub is_partner? : World → ℕ → Option ℕ → Bool
is_partner? w p none = false
is_partner? w p (some x) = is_partner w p x

-- `tmpPlayer` is null at the first test, so its branch is never taken.
abbrev pub healed_partner : World → ℕ → Target → Option ℕ
healed_partner w p target = if is_partner? w p none then target.player else target.master

unfoldable pub on_target_creature_gain_health : Env → Target → ℕ → ℕ → World → Option World
unfolding get_party is_partner
on_target_creature_gain_health env target p points w =
    if is_partner? w p (healed_partner w p target)
    then (do
      party ← get_party w p
      some (on_content w (λ content. update_player_ticks env content p points) party))
    else some w
