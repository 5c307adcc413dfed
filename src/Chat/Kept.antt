-- ===== src/Chat/Kept.antt =====
-- The maps of channels of src/chat.cpp: what is found in them after each change, and that each change keeps what
-- holds of all their channels.
use zenonia.Base.{ℕ, ◌≡◌, refl, true, false, none, some, [], ◌∷◌, arith, ◌==◌, if◌then◌else◌}
use zenonia.Chat.{
  Channel, Channels, lookup, change_at, erase_key, remove_invite, remove_user, get_private_channel,
  remove_from_each, remove_from_private,
}
use zenonia.Chat.Channels.{either, if_false}

-- No two channels have one owner.
abbrev pub AreOwnedOnce : Channels → Type 0
AreOwnedOnce [] = Unit
AreOwnedOnce ((k, c) ∷ l) = (get_private_channel c.owner l ≡ none) × AreOwnedOnce l

abbrev pub Hold : (Channel → Type 0) → Channels → Type 0
Hold P [] = Unit
Hold P ((k, c) ∷ l) = P c × Hold P l

-- An owner that no channel of the one list has is not that of the other either.
abbrev Fewer : Channels → Channels → Type 0
Fewer l' l = (g : ℕ) → get_private_channel g l ≡ none → get_private_channel g l' ≡ none

change_at-Fewer :
    (k : ℕ) (f : Channel → Channel) (l : Channels)
    → ((c : Channel) → (f c).owner ≡ c.owner)
    → Fewer (change_at k f l) l
unfolding change_at get_private_channel
change_at-Fewer k f [] same g e = e
change_at-Fewer k f ((j, c) ∷ l) same g e = ground (arith, same c, change_at-Fewer k f l same g)

erase_key-Fewer : (k : ℕ) (l : Channels) → Fewer (erase_key k l) l
unfolding erase_key get_private_channel
erase_key-Fewer k [] g e = e
erase_key-Fewer k ((j, c) ∷ l) g e = ground (arith, erase_key-Fewer k l g)

remove_from_private-Fewer : (u : ℕ) (l : Channels) → Fewer (remove_from_private u l) l
unfolding remove_from_private get_private_channel
remove_from_private-Fewer u [] g e = e
remove_from_private-Fewer u ((j, c) ∷ l) g e = ground (arith, remove_from_private-Fewer u l g)

pub change_at-AreOwnedOnce :
    (k : ℕ) (f : Channel → Channel) (l : Channels)
    → ((c : Channel) → (f c).owner ≡ c.owner)
    → AreOwnedOnce l
    → AreOwnedOnce (change_at k f l)
unfolding change_at
change_at-AreOwnedOnce k f [] same once = once
change_at-AreOwnedOnce k f ((j, c) ∷ l) same once =
    either AreOwnedOnce (j == k) (rw (same c) once.0, once.1)
      (change_at-Fewer k f l same c.owner once.0, change_at-AreOwnedOnce k f l same once.1)

pub erase_key-AreOwnedOnce : (k : ℕ) (l : Channels) → AreOwnedOnce l → AreOwnedOnce (erase_key k l)
unfolding erase_key
erase_key-AreOwnedOnce k [] once = once
erase_key-AreOwnedOnce k ((j, c) ∷ l) once =
    let rest = erase_key-AreOwnedOnce k l once.1 in
    either AreOwnedOnce (j == k) rest (erase_key-Fewer k l c.owner once.0, rest)

pub remove_from_private-AreOwnedOnce :
    (u : ℕ) (l : Channels) → AreOwnedOnce l → AreOwnedOnce (remove_from_private u l)
unfolding remove_from_private
remove_from_private-AreOwnedOnce u [] once = once
remove_from_private-AreOwnedOnce u ((k, c) ∷ l) once =
    let rest = remove_from_private-AreOwnedOnce u l once.1 in
    either AreOwnedOnce (c.owner == u) rest (remove_from_private-Fewer u l c.owner once.0, rest)

module _ (P Q : Channel → Type 0) where
  pub Hold-map : (l : Channels) → ((c : Channel) → P c → Q c) → Hold P l → Hold Q l
  Hold-map [] f all = all
  Hold-map ((k, c) ∷ l) f all = (f c all.0, Hold-map l f all.1)

  pub Hold-remove_from_each :
      (g : ℕ) (l : Channels)
      → ((c : Channel) → P c → Q (remove_user g c))
      → Hold P l
      → Hold Q (remove_from_each g l)
  unfolding remove_from_each
  Hold-remove_from_each g [] f all = all
  Hold-remove_from_each g ((k, c) ∷ l) f all = (f c all.0, Hold-remove_from_each g l f all.1)

  pub Hold-remove_from_private :
      (g : ℕ) (l : Channels)
      → ((c : Channel) → (c.owner == g) ≡ false → P c → Q (remove_user g (remove_invite g c)))
      → Hold P l
      → Hold Q (remove_from_private g l)
  unfolding remove_from_private
  Hold-remove_from_private g [] f all = all
  Hold-remove_from_private g ((k, c) ∷ l) f all =
      let rest = Hold-remove_from_private g l f all.1 in
      if_false (Hold Q) (c.owner == g) rest (λ apart. (f c apart all.0, rest))

module _ (P : Channel → Type 0) where
  pub Hold-erase_key : (k : ℕ) (l : Channels) → Hold P l → Hold P (erase_key k l)
  unfolding erase_key
  Hold-erase_key k [] all = all
  Hold-erase_key k ((j, c) ∷ l) all =
      let rest = Hold-erase_key k l all.1 in either (Hold P) (j == k) rest (all.0, rest)

  pub Hold-change_at :
      (k : ℕ) (f : Channel → Channel) (l : Channels)
      → ((c : Channel) → lookup k l ≡ some c → P c → P (f c))
      → Hold P l
      → Hold P (change_at k f l)
  unfolding change_at lookup
  Hold-change_at k f [] kept all = all
  Hold-change_at k f ((j, c) ∷ l) kept all =
      elim (j == k)
          as (λ b.
            ((d : Channel) → (if b then some c else lookup k l) ≡ some d → P d → P (f d))
            → Hold P (if b then (j, f c) ∷ l else (j, c) ∷ change_at k f l)) [
              | true ↦ λ here. (here c refl all.0, all.1)
              | false ↦ λ there. (all.0, Hold-change_at k f l there all.1)
            ]
        kept
