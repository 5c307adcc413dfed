-- ===== src/Names.antt =====
-- `WildcardTreeNode` of src/wildcardtree.cpp, the tree of the names of the players online.
pub mod Lookup
pub mod Contents
pub mod Find
pub mod Shape
pub mod Listing
pub mod Online
use zenonia.Base.{
  ℕ, zero, suc, Bool, true, false, not, ◌&&◌, ◌||◌, Option, none, some, List, [], ◌∷◌, ◌++◌, ◌==◌,
  if◌then◌else◌,
}

-- A node: whether a name ends here, and the children by the next character.
mutual
  pub data Tree : Type 0 where
    node : Bool → Children → Tree

  pub data Children : Type 0 where
    nil : Children
    cons : ℕ → Tree → Children → Children

unfoldable pub get_child : ℕ → Children → Option Tree
get_child ch nil = none
get_child ch (cons k t ts) = if k == ch then some t else get_child ch ts

-- A child that is there becomes a breakpoint if it is asked for and stays one; else a child is emplaced.
unfoldable pub add_child : ℕ → Bool → Children → Children
add_child ch breakp nil = cons ch (node breakp nil) nil
add_child ch breakp (cons k (node b kids) ts) =
    if k == ch
    then cons k (node (b || breakp) kids) ts
    else cons k (node b kids) (add_child ch breakp ts)

-- A change of the child that a pointer stands for.
unfoldable pub update : ℕ → (Tree → Tree) → Children → Children
update ch f nil = nil
update ch f (cons k t ts) = if k == ch then cons k (f t) ts else cons k t (update ch f ts)

-- `children.erase`; a map has a key once at most.
unfoldable pub erase : ℕ → Children → Children
erase ch nil = nil
erase ch (cons k t ts) = let rest = erase ch ts in if k == ch then rest else cons k t rest

-- `insert` of the name with a first character and others: the length of an empty one minus one is
-- out of range.
unfoldable pub insert : ℕ → List ℕ → Tree → Tree
insert ch [] (node b ts) = node b (add_child ch true ts)
insert ch (c ∷ cs) (node b ts) = node b (update ch (insert c cs) (add_child ch false ts))

-- A node that the way back up takes out.
abbrev pub is_bare : Tree → Bool
is_bare (node true ts) = false
is_bare (node false nil) = true
is_bare (node false (cons k t ts)) = false

unfoldable pub keep_or_erase : ℕ → Tree → Children → Children
keep_or_erase ch t ts = if is_bare t then erase ch ts else update ch (λ _. t) ts

abbrev pub replace_child : Bool → ℕ → Children → Option Tree → Option Tree
replace_child b c ts none = none
replace_child b c ts (some t) = some (node b (keep_or_erase c t ts))

-- `remove` below a node; `none` if the name is not in the tree, which changes nothing. The way back
-- is the recursion's: a node that stays keeps the ones above it.
unfoldable pub remove_from : List ℕ → Tree → Option Tree
remove_from [] (node b ts) = some (node false ts)
remove_from (c ∷ cs) (node b ts) = elim (get_child c ts) [
  | none ↦ none
  | some t ↦ replace_child b c ts (remove_from cs t)
]

unfoldable pub remove : List ℕ → Tree → Tree
remove name t = elim (remove_from name t) [ none ↦ t | some t' ↦ t' ]

pub data Answer : Type 0 where
  not_online ambiguous : Answer
  found : List ℕ → Answer

-- The loop of `findOne` below the node of the query.
unfoldable mutual
  pub extend : List ℕ → Tree → Answer
  extend result (node b ts) = extend_only result b ts

  pub extend_only : List ℕ → Bool → Children → Answer
  extend_only result b nil = Answer.found result
  extend_only result true (cons k t ts) = Answer.ambiguous
  extend_only result false (cons k t (cons k' t' ts)) = Answer.ambiguous
  extend_only result false (cons k t nil) = extend (result ++ (k ∷ [])) t

unfoldable pub find_from : List ℕ → List ℕ → Tree → Answer
find_from query [] t = extend query t
find_from query (c ∷ cs) (node b ts) = elim (get_child c ts) [
  | none ↦ Answer.not_online
  | some t ↦ find_from query cs t
]

unfoldable pub find_one : List ℕ → Tree → Answer
find_one query t = find_from query query t

-- A name is in the tree if its node is a breakpoint.
unfoldable pub contains : List ℕ → Tree → Bool
contains [] (node b ts) = b
contains (c ∷ cs) (node b ts) = elim (get_child c ts) [ none ↦ false | some t ↦ contains cs t ]
