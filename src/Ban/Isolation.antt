-- ===== src/Ban/Isolation.antt =====
-- The limit on connections of src/ban.cpp for one address among others.
use zenonia.Base.{
  ℕ, ◌≡◌, refl, Bool, true, false, Option, none, some, List, [], ◌∷◌, ◌==◌, if◌then◌else◌, arith,
  Bool-cases, inl, inr, ==-refl,
}
use zenonia.Ban.{
  ConnectBlock, IpConnectMap, find, set, attempt, first_attempt, accept_connection, accept_all,
}

find-set :
    (ip other : ℕ) (new : ConnectBlock) (blocks : IpConnectMap)
    → find other (set ip new blocks) ≡ (
        if ip == other
        then elim (find other blocks) [ none ↦ none | some block ↦ some new ]
        else find other blocks)
unfolding find set
find-set ip other new [] = ground arith
find-set ip other new ((k, block) ∷ blocks) = ground (arith, find-set ip other new blocks)

find-cons :
    (ip other : ℕ) (block : ConnectBlock) (blocks : IpConnectMap)
    → find other ((ip, block) ∷ blocks) ≡ (if ip == other then some block else find other blocks)
unfolding find
find-cons ip other block blocks = refl

-- An attempt from one address leaves what is known of the others.
accept_connection-find :
    (ip other time : ℕ) (blocks : IpConnectMap)
    → (ip == other) ≡ false
    → find other (accept_connection ip time blocks).1 ≡ find other blocks
unfolding accept_connection
accept_connection-find ip other time blocks h = by_entry (find ip blocks)
  where
    by_entry :
        (o : Option ConnectBlock)
        → find other
            (elim o as (λ _. Bool × IpConnectMap) [
              | none ↦ (true, (ip, first_attempt time) ∷ blocks)
              | some block ↦
                  let (accepted, block') = attempt time block in (accepted, set ip block' blocks)
            ]).1
          ≡ find other blocks
    by_entry none = rw (find-cons ip other (first_attempt time) blocks, h)
    by_entry (some block) = rw (find-set ip other (attempt time block).1 blocks, h)

-- What an address meets if it is alone.
abbrev pub answer : Option ConnectBlock → ℕ → Bool × ConnectBlock
answer none time = (true, first_attempt time)
answer (some block) time = attempt time block

unfoldable pub alone : Option ConnectBlock → List ℕ → List Bool
alone known [] = []
alone known (time ∷ times) =
    let (accepted, block) = answer known time in accepted ∷ alone (some block) times

accept_connection_own :
    (ip time : ℕ) (blocks : IpConnectMap)
    → ((accept_connection ip time blocks).0 ≡ (answer (find ip blocks) time).0)
      × (find ip (accept_connection ip time blocks).1 ≡ some (answer (find ip blocks) time).1)
unfolding accept_connection
accept_connection_own ip time blocks = by_entry (find ip blocks) refl
  where
    by_entry :
        (o : Option ConnectBlock)
        → find ip blocks ≡ o
        → let (accepted, blocks') = elim o as (λ _. Bool × IpConnectMap) [
          | none ↦ (true, (ip, first_attempt time) ∷ blocks)
          | some block ↦
              let (accepted, block') = attempt time block in (accepted, set ip block' blocks)
        ] in
          (accepted ≡ (answer o time).0) × (find ip blocks' ≡ some (answer o time).1)
    by_entry none h = (refl, rw (find-cons ip ip (first_attempt time) blocks, ==-refl ip))
    by_entry (some block) h =
        (refl, rw (find-set ip ip (attempt time block).1 blocks, ==-refl ip, h))

abbrev pub times_of : ℕ → List (ℕ × ℕ) → List ℕ
times_of ip [] = []
times_of ip ((ip', time) ∷ trace) =
    let rest = times_of ip trace in if ip' == ip then time ∷ rest else rest

abbrev pub answers_of : ℕ → List (ℕ × Bool) → List Bool
answers_of ip [] = []
answers_of ip ((ip', accepted) ∷ answers) =
    let rest = answers_of ip answers in if ip' == ip then accepted ∷ rest else rest

-- In any interleaving of attempts the answers to an address are those it would get alone.
pub accept_all-alone :
    (ip : ℕ) (trace : List (ℕ × ℕ)) (blocks : IpConnectMap)
    → answers_of ip (accept_all trace blocks) ≡ alone (find ip blocks) (times_of ip trace)
unfolding accept_all alone
accept_all-alone ip [] blocks = refl
accept_all-alone ip ((ip', time) ∷ trace) blocks =
    let blocks' = (accept_connection ip' time blocks).1 in
    elim (Bool-cases (ip' == ip)) [
      | inl e ↦
          let eq : ip' ≡ ip = ground (arith, e) in
          let next = (accept_connection ip time blocks).1 in
          let own = accept_connection_own ip time blocks in
          rw (eq, ==-refl ip, accept_all-alone ip trace next, own.0, own.1)
      | inr e ↦
          rw (e, accept_all-alone ip trace blocks', accept_connection-find ip' ip time blocks e)
    ]
