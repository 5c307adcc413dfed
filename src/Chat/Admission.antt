-- ===== src/Chat/Admission.antt =====
-- Whom `getChannel` of src/chat.cpp lets into a private channel.
use zenonia.Base.{
  ℕ, ◌≡◌, ◌≢◌, refl, sym, ap, ◌∙◌, subst, Bool, true, false, Option, none, some, ◌==◌,
  if◌then◌else◌,
}
use zenonia.Chat.{
  Player, Channel, Chat, Place, in_normal, in_guild, in_party, in_private, lookup, is_invited,
  found, invited_to, keyed, allowed_or, get_channel,
}
use zenonia.Chat.Channels.{either}

-- A private channel is found only for those who are invited.
unfoldable pub Admits : ℕ → Option Place → Chat → Type 0
Admits g o s =
    (k : ℕ) (c : Channel)
    → o ≡ some (in_private k)
    → lookup k s.private_channels ≡ some c
    → is_invited g c ≡ true

pub found_twice : {c d : Channel} → some c ≡ some d → c ≡ d
found_twice e = cc

pub only_if :
    (b : Bool) {j k : ℕ}
    → (if b then some (in_private j) else none) ≡ some (in_private k)
    → (b ≡ true) × (j ≡ k)
only_if true e = (refl, cc)
only_if false e = absurd cc

module _ (g : ℕ) (s : Chat) where
  keyed-Admits :
      (o : Option ℕ) (f : ℕ → Option Place) → ((k : ℕ) → Admits g (f k) s) → Admits g (keyed o f) s
  unfolding Admits
  keyed-Admits none f all = λ k c e e2. cc
  keyed-Admits (some k) f all = all k

  found-Admits :
      (q : Place) (o : Option Channel) → ((k : ℕ) → q ≢ in_private k) → Admits g (found q o) s
  unfolding Admits
  found-Admits q none ne = λ k c e e2. cc
  found-Admits q (some d) ne = λ k c e e2. absurd (ne k cc)

  allowed_or-Admits :
      (o : Option Place) (allowed : Bool) (other : Option Place)
      → Admits g o s
      → Admits g other s
      → Admits g (allowed_or o allowed other) s
  unfolding Admits
  allowed_or-Admits none allowed other h h' = h'
  allowed_or-Admits (some q) true other h h' = h
  allowed_or-Admits (some q) false other h h' = λ k c e e2. cc

  invited_to-Admits :
      (id : ℕ) (o : Option Channel)
      → lookup id s.private_channels ≡ o
      → Admits g (invited_to (in_private id) g o) s
  unfolding Admits
  invited_to-Admits id none e0 = λ k c e e2. cc
  invited_to-Admits id (some d) e0 = λ k c e e2.
      let (invited, here) = only_if (is_invited g d) e in
      subst (λ x. is_invited g x ≡ true)
        (found_twice (sym e0 ∙ ap (λ j. lookup j s.private_channels) here ∙ e2)) invited

pub get_channel-Admits :
    (allowed : Bool) (p : Player) (id : ℕ) (s : Chat) → Admits p.guid (get_channel allowed p id s) s
unfolding get_channel Admits
get_channel-Admits allowed p id s =
    either (λ o. Admits p.guid o s) (id == 0)
      (keyed-Admits p.guid s p.guild _
        (λ g. found-Admits p.guid s (in_guild g) (lookup g s.guild_channels) (λ k e. cc)))
      (either (λ o. Admits p.guid o s) (id == 1)
        (keyed-Admits p.guid s p.party _
          (λ g. found-Admits p.guid s (in_party g) (lookup g s.party_channels) (λ k e. cc)))
        (allowed_or-Admits p.guid s (found (in_normal id) (lookup id s.normal_channels)) allowed _
          (found-Admits p.guid s (in_normal id) (lookup id s.normal_channels) (λ k e. cc))
          (invited_to-Admits p.guid s id (lookup id s.private_channels) refl)))
