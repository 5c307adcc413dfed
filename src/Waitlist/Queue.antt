-- ===== src/Waitlist/Queue.antt =====
-- The lists of src/waitlist.cpp under the changes that a login makes.
use zenonia.Base.{
  ℕ, ◌+◌, ◌-◌, ◌≤◌, ◌<◌, ◌%◌, ◌^◌, ◌≡◌, refl, Bool, true, false, List, [], ◌∷◌, ◌++◌, leb, ◌==◌,
  arith, All, ◌≢◌,
}
use zenonia.Waitlist.{Wait, search, erase, set_timeout, cleanup_list, is_expired}

kept :
    (timeout time : ℕ)
    → time < 2 ^ 64
    → timeout < 2 ^ 64
    → timeout ≢ time
    → leb ((timeout + (2 ^ 64 - time)) % 2 ^ 64) 0 ≡ false
kept timeout time h fits other = ground (arith, h, fits, other)

-- An entry stays unless its timeout is the present millisecond, also when it is long past.
pub cleanup_list-All :
    (time : ℕ) (ws : List Wait)
    → time < 2 ^ 64
    → All (λ w. (w.timeout < 2 ^ 64) × (w.timeout ≢ time)) ws
    → cleanup_list time ws ≡ ws
unfolding cleanup_list is_expired
cleanup_list-All time [] h hs = refl
cleanup_list-All time (w ∷ ws) h ((fits, other), hs) =
    let stays : leb ((w.timeout + (2 ^ 64 - time)) % 2 ^ 64) 0 ≡ false =
      kept w.timeout time h fits other in
    rw (stays, cleanup_list-All time ws h hs)

abbrev pub is_in : ℕ → List Wait → Bool
is_in guid ws = (search guid 1 ws).0

pub search_start : (guid s s' : ℕ) (ws : List Wait) → (search guid s ws).0 ≡ (search guid s' ws).0
unfolding search
search_start guid s s' [] = refl
search_start guid s s' (w ∷ ws) = ground (arith, search_start guid (s + 1) (s' + 1) ws)

pub search-le : (guid s : ℕ) (ws : List Wait) → s ≤ (search guid s ws).1
unfolding search
search-le guid s [] = omega arith
search-le guid s (w ∷ ws) = ground (arith, search-le guid (s + 1) ws)

pub search-set_timeout :
    (guid s g t : ℕ) (ws : List Wait) → search guid s (set_timeout g t ws) ≡ search guid s ws
unfolding search set_timeout
search-set_timeout guid s g t [] = refl
search-set_timeout guid s g t (w ∷ ws) = ground (arith, search-set_timeout guid (s + 1) g t ws)

pub search-append_new :
    (guid s : ℕ) (ws : List Wait) (w : Wait)
    → w.player_guid ≡ guid
    → (search guid s (ws ++ (w ∷ []))).0 ≡ true
unfolding search
search-append_new guid s [] w h = ground (arith, h)
search-append_new guid s (v ∷ ws) w h = ground (arith, search-append_new guid (s + 1) ws w h)

pub search-append :
    (guid s : ℕ) (ws vs : List Wait)
    → (search guid s ws).0 ≡ true
    → search guid s (ws ++ vs) ≡ search guid s ws
unfolding search
search-append guid s [] vs h = ground (arith, h)
search-append guid s (w ∷ ws) vs h = ground (arith, search-append guid (s + 1) ws vs, h)

-- The slots move up together.
search_earlier :
    (guid s s' : ℕ) (ws : List Wait) → s ≤ s' → (search guid s ws).1 ≤ (search guid s' ws).1
unfolding search
search_earlier guid s s' [] h = h
search_earlier guid s s' (w ∷ ws) h = ground (arith, search_earlier guid (s + 1) (s' + 1) ws, h)

-- Another player's entry that goes does not take a player back.
pub search-erase :
    (guid g s s' : ℕ) (ws : List Wait)
    → (g == guid) ≡ false
    → s ≤ s'
    → ((search guid s (erase g ws)).0 ≡ (search guid s' ws).0)
      × ((search guid s (erase g ws)).1 ≤ (search guid s' ws).1)
unfolding search erase
search-erase guid g s s' [] ne h = (refl, h)
search-erase guid g s s' (w ∷ ws) ne h = ground (
  arith,
  ne,
  h,
  search-erase guid g (s + 1) (s' + 1) ws ne,
  search_start guid s (s' + 1) ws,
  search_earlier guid s (s' + 1) ws,
)
