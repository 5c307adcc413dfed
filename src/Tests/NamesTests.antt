-- ===== src/Tests/NamesTests.antt =====
-- src/wildcardtree.cpp on a few names.
use zenonia.Base.{ℕ, ◌≡◌, refl, true, false, List, [], ◌∷◌}
use zenonia.Names.{
  Tree, node, nil, cons, insert, add_child, update, remove, remove_from, get_child, keep_or_erase,
  erase, contains, find_one, find_from, extend, found, ambiguous, not_online,
}
use zenonia.Names.Find.{AreWellFormed, children_of}
use zenonia.Names.Online.{IsRight, find_one-IsRight}
use zenonia.Names.Shape.{replay, login, logout, is_online, contains-replay, Change}

-- "ab" and "ad" are online, and "b".
abbrev ab : List ℕ
ab = 97 ∷ 98 ∷ []

abbrev three : Tree
three = node false (
    cons 97 (node false (cons 98 (node true nil) (cons 100 (node true nil) nil)))
      (cons 98 (node true nil) nil))

abbrev history : List Change
history =
    logout (99 ∷ []) ∷ login 97 (100 ∷ []) ∷ login 98 [] ∷ login 99 [] ∷ login 97 (98 ∷ []) ∷ []

replayed : replay history ≡ three
unfolding insert add_child update remove remove_from get_child keep_or_erase erase
replayed = refl

one_b : find_one (98 ∷ []) three ≡ found (98 ∷ [])
unfolding find_one find_from get_child extend
one_b = refl

two_a : find_one (97 ∷ []) three ≡ ambiguous
unfolding find_one find_from get_child extend
two_a = refl

no_c : find_one (99 ∷ []) three ≡ not_online
unfolding find_one find_from get_child extend
no_c = refl

three-AreWellFormed : AreWellFormed (children_of three)
unfolding get_child
three-AreWellFormed =
    (refl, ((refl, (refl, ((refl, tt), (refl, ((refl, tt), tt))))), (refl, ((refl, tt), tt))))

contains-replay_example : contains ab (replay history) ≡ is_online ab history
contains-replay_example = contains-replay ab history

find_one-IsRight_example : IsRight (97 ∷ []) history (find_one (97 ∷ []) (replay history))
find_one-IsRight_example = find_one-IsRight 97 [] history
