-- ===== src/Tests/BanTests.antt =====
-- src/ban.cpp on a few attempts.
use zenonia.Base.{ℕ, ◌≡◌, refl, true, false, List, [], ◌∷◌, none, some, arith}
use zenonia.Ban.{ConnectBlock, find, set, attempt, accept_connection, accept_all}
use zenonia.Ban.Isolation.{alone, times_of, answers_of, accept_all-alone}
use zenonia.Ban.Limits.{alone-Apart, alone-Within}

-- Address 1 tries seven times at once, and address 2 once among them.
abbrev trace : List (ℕ × ℕ)
trace =
    (1, 1000)
    ∷ (1, 1000)
    ∷ (2, 1000)
    ∷ (1, 1000)
    ∷ (1, 1000)
    ∷ (1, 1001)
    ∷ (1, 1002)
    ∷ (1, 1500)
    ∷ []

refused_late :
    answers_of 1 (accept_all trace []) ≡ true ∷ true ∷ true ∷ true ∷ true ∷ false ∷ false ∷ []
unfolding accept_all accept_connection find set attempt
refused_late = refl

accept_all-alone_example : answers_of 1 (accept_all trace []) ≡ alone (find 1 []) (times_of 1 trace)
accept_all-alone_example = accept_all-alone 1 trace []

alone-Apart_example : alone none (0 ∷ 5001 ∷ 11000 ∷ []) ≡ true ∷ true ∷ true ∷ []
alone-Apart_example = alone-Apart 0 (5001 ∷ 11000 ∷ []) (omega arith, (omega arith, tt))

abbrev blocked : ConnectBlock
blocked = record { last_attempt = 1000; block_time = 4000; count = 0 }

alone-Within_example : alone (some blocked) (3999 ∷ 4200 ∷ 4450 ∷ []) ≡ false ∷ false ∷ false ∷ []
alone-Within_example =
    alone-Within blocked 3999 (4200 ∷ 4450 ∷ []) (omega arith)
      ((omega arith, omega arith), ((omega arith, omega arith), tt)) (omega arith)
