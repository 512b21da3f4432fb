-- ===== src/Wrapper/Machines.antt =====
-- `for (i = …; i < num_procs; i++)` over the machines table, which skips the ranks that have not
-- registered.
pub mod Quiet
use parallel_wrapper.Base.{ℕ, zero, suc, ◌+◌, Option, none, some, List, get_elem?}
use parallel_wrapper.Wrapper.{Machine, Ptr}
use parallel_wrapper.Wrapper.Action.{Action, pure, crash, load, ◌>>=◌, ◌>>◌}

-- A slot outside the table is a crash.
abbrev pub in_slot : Option (Option Ptr) → ℕ → (ℕ → Machine → Action (Unit {0})) → Action (Unit {0})
in_slot none i body = crash
in_slot (some none) i body = pure tt
in_slot (some (some p)) i body = load p >>= body i

-- The body of a round.
unfoldable pub at_slot :
    List (Option Ptr) → ℕ → (ℕ → Machine → Action (Unit {0})) → Action (Unit {0})
at_slot machines i = in_slot (get_elem? machines i) i

-- `rounds` are left, from `i` on.
unfoldable pub for_machines :
    ℕ → ℕ → List (Option Ptr) → (ℕ → Machine → Action (Unit {0})) → Action (Unit {0})
unfolding at_slot
for_machines zero i machines body = pure tt
for_machines (suc rounds) i machines body =
    at_slot machines i body >> for_machines rounds (i + 1) machines body

-- `action(); … action();`
unfoldable pub repeat : ℕ → Action (Unit {0}) → Action (Unit {0})
repeat zero m = pure tt
repeat (suc n) m = m >> repeat n m
