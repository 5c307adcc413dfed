-- ===== src/Party/Counts.antt =====
-- Occurrences in the lists of src/party.cpp and src/player.cpp.
use zenonia.Base.{ℕ, ◌+◌, ◌-◌, ◌≡◌, refl, List, [], ◌∷◌, ◌++◌, ◌==◌, ltb, if◌then◌else◌, arith}
use zenonia.Party.{contains, erase, remove}

unfoldable pub count : ℕ → List ℕ → ℕ
count p [] = 0
count p (x ∷ xs) = (if x == p then 1 else 0) + count p xs

pub count-append_one :
    (p x : ℕ) (xs : List ℕ) → count p (xs ++ (x ∷ [])) ≡ count p xs + (if x == p then 1 else 0)
unfolding count
count-append_one p x [] = ground arith
count-append_one p x (y ∷ xs) = ground (arith, count-append_one p x xs)

pub count-contains : (p : ℕ) (xs : List ℕ) → contains p xs ≡ ltb 0 (count p xs)
unfolding count contains
count-contains p [] = refl
count-contains p (x ∷ xs) = ground (arith, count-contains p xs)

pub count-erase :
    (p x : ℕ) (xs : List ℕ) → count p (erase x xs) ≡ (if x == p then count p xs - 1 else count p xs)
unfolding count erase
count-erase p x [] = ground arith
count-erase p x (y ∷ xs) = ground (arith, count-erase p x xs)

pub count-remove :
    (p x : ℕ) (xs : List ℕ) → count p (remove x xs) ≡ (if x == p then 0 else count p xs)
unfolding count remove
count-remove p x [] = ground arith
count-remove p x (y ∷ xs) = ground (arith, count-remove p x xs)
