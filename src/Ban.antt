-- ===== src/Ban.antt =====
-- `Ban::acceptConnection` of src/ban.cpp, the limit on connections from one address. Times are
-- milliseconds below 2 ^ 63, so that a difference cut off at 0 passes the same tests `<=` as the signed one.
pub mod Isolation
pub mod Limits
use zenonia.Base.{
  ℕ, suc, ◌+◌, ◌-◌, ◌%◌, ◌^◌, Bool, true, false, Option, none, some, List, [], ◌∷◌, ltb, leb, ◌==◌,
  if◌then◌else◌,
}

pub record ConnectBlock : Type 0 where
  pub last_attempt : ℕ
  pub block_time : ℕ
  pub count : ℕ

abbrev pub IpConnectMap : Type 0
IpConnectMap = List (ℕ × ConnectBlock)

unfoldable pub find : ℕ → IpConnectMap → Option ConnectBlock
find ip [] = none
find ip ((k, block) ∷ blocks) = if k == ip then some block else find ip blocks

-- A change through the reference to what `find` found.
unfoldable pub set : ℕ → ConnectBlock → IpConnectMap → IpConnectMap
set ip new [] = []
set ip new ((k, block) ∷ blocks) =
    if k == ip then (k, new) ∷ blocks else (k, block) ∷ set ip new blocks

-- The body for an address that is known.
unfoldable pub attempt : ℕ → ConnectBlock → Bool × ConnectBlock
attempt current_time block =
    let time_diff = current_time - block.last_attempt in
    let count = (block.count + 1) % 2 ^ 32 in
    if ltb current_time block.block_time
    then (false, record block { block_time = (block.block_time + 250) % 2 ^ 64 })
    else if leb time_diff 5000
    then if ltb 5 count
      then if leb time_diff 500
        then (
          false,
          record {
            last_attempt = current_time;
            block_time = (current_time + 3000) % 2 ^ 64;
            count = 0;
          },
        )
        else (true, record block { last_attempt = current_time; count = 0 })
      else (true, record block { last_attempt = current_time; count = count })
    else (true, record block { last_attempt = current_time; count = 1 })

abbrev pub first_attempt : ℕ → ConnectBlock
first_attempt current_time = record { last_attempt = current_time; block_time = 0; count = 1 }

unfoldable pub accept_connection : ℕ → ℕ → IpConnectMap → Bool × IpConnectMap
accept_connection ip current_time blocks = elim (find ip blocks) [
  | none ↦ (true, (ip, first_attempt current_time) ∷ blocks)
  | some block ↦
      let (accepted, block') = attempt current_time block in (accepted, set ip block' blocks)
]

-- The answers to a sequence of attempts, each by an address at a time.
unfoldable pub accept_all : List (ℕ × ℕ) → IpConnectMap → List (ℕ × Bool)
accept_all [] blocks = []
accept_all ((ip, time) ∷ trace) blocks =
    let (accepted, blocks') = accept_connection ip time blocks in
    (ip, accepted) ∷ accept_all trace blocks'
