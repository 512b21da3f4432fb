-- ===== src/Tests/Waiting.antt =====
-- The theorem about the wait of the master, at a master of three.
use parallel_wrapper.Base.{ℕ, zero, suc, ◌<◌, ◌≡◌, refl, some, List, [], ◌∷◌, arith, All}
use parallel_wrapper.UdpServer.Allowed.{AllowedArrival, Remembers, Anyone}
use parallel_wrapper.Base.Text.{codes}
use parallel_wrapper.Main.Waiting.{wait_rounds, IsEnd}
use parallel_wrapper.Main.Waiting.Rounds.{state_at, table_at, wait_rounds-IsEnd}
use parallel_wrapper.Tests.Sample.{os, master_world, master_world-IsValid, stranger_address}
use parallel_wrapper.UdpServer.Loop.{Arrival}
use parallel_wrapper.Wrapper.Action.{ok}
use parallel_wrapper.Wrapper.Ensures.{Good}

-- Rank 2 registers in the second round.
abbrev arriving : ℕ → List Arrival
arriving zero = []
arriving (suc zero) = (os, (stranger_address, codes "14:2:/work:4:bob")) ∷ []
arriving (suc (suc j)) = []

arriving-allowed : (j : ℕ) → All (AllowedArrival Remembers Anyone) (arriving j)
arriving-allowed zero = tt
arriving-allowed (suc zero) = ((refl, tt), tt)
arriving-allowed (suc (suc j)) = tt

wait_rounds-IsEnd_example :
    (j : ℕ) × (wait_rounds arriving 301 0 master_world
      ≡ (ok (some j), state_at arriving master_world j))
    × (j < 300)
    × IsEnd (table_at arriving master_world) 300 0 j
    × Good master_world (state_at arriving master_world j)
wait_rounds-IsEnd_example =
    wait_rounds-IsEnd arriving master_world master_world-IsValid arriving-allowed refl 60 300 301
      refl refl (omega arith) (omega arith) (omega arith)
