-- ===== src/Names/Lookup.antt =====
-- The children of a node of src/wildcardtree.cpp as a map.
use zenonia.Base.{ℕ, ◌≡◌, refl, Bool, ◌||◌, Option, none, some, ◌==◌, if◌then◌else◌, arith}
use zenonia.Names.{Tree, Children, node, nil, cons, get_child, add_child, update, erase}

-- What `add_child` makes of the child that was there.
abbrev pub marked : Bool → Option Tree → Tree
marked b none = node b nil
marked b (some (node b' kids)) = node (b' || b) kids

pub get_child-add_child :
    (k ch : ℕ) (b : Bool) (ts : Children)
    → get_child k (add_child ch b ts)
      ≡ (if ch == k then some (marked b (get_child ch ts)) else get_child k ts)
unfolding get_child add_child
get_child-add_child k ch b nil = refl
get_child-add_child k ch b (cons k' (node b' kids) ts) =
    ground (arith, get_child-add_child k ch b ts)

abbrev pub with_child : (Tree → Tree) → Option Tree → Option Tree
with_child f none = none
with_child f (some t) = some (f t)

pub get_child-update :
    (k ch : ℕ) (f : Tree → Tree) (ts : Children)
    → get_child k (update ch f ts)
      ≡ (if ch == k then with_child f (get_child k ts) else get_child k ts)
unfolding get_child update
get_child-update k ch f nil = ground arith
get_child-update k ch f (cons k' t ts) = ground (arith, get_child-update k ch f ts)

pub get_child-erase :
    (k ch : ℕ) (ts : Children)
    → get_child k (erase ch ts) ≡ (if ch == k then none else get_child k ts)
unfolding get_child erase
get_child-erase k ch nil = ground arith
get_child-erase k ch (cons k' t ts) = ground (arith, get_child-erase k ch ts)
