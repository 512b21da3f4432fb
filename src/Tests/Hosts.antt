-- ===== src/Tests/Hosts.antt =====
-- The marking of hosts, at a master with one other machine.
use parallel_wrapper.Base.{ℕ, ◌≡◌, refl, ap, some, not, List, get_elem?, take}
use parallel_wrapper.Main.Hosts.{identify_hosts}
use parallel_wrapper.Main.Hosts.First.{identify_hosts-first}
use parallel_wrapper.Main.Hosts.Flags.{has_host}
use parallel_wrapper.Main.Hosts.Marked.{host}
use parallel_wrapper.Tests.Sample.{
  master_machine, master_world, master_world-IsValid, master_world-IsTable,
}
use parallel_wrapper.Wrapper.{Machine, Ptr, master_rank}
use parallel_wrapper.Wrapper.Action.{ok}

same_rank : (m : Machine) → some master_machine ≡ some m → m.rank ≡ master_rank
same_rank m h = let same : m ≡ master_machine = cc in ap (λ m. m.rank) same

identify_hosts-first_example :
    (h : List Machine) × (identify_hosts master_world ≡ (ok tt, record master_world { heap = h }))
    × ((r : ℕ) (p : Ptr) (m : Machine)
        → get_elem? master_world-IsTable.table r ≡ some (some p)
        → get_elem? master_world.heap p ≡ some m
        → get_elem? h p
          ≡ some (record m {
            unique = not (
                has_host
                  (host master_world)
                  (take r master_world-IsTable.table)
                  (host master_world p));
          }))
identify_hosts-first_example =
    identify_hosts-first master_world master_world-IsValid master_world-IsTable
      (same_rank _ master_world-IsValid.is_me) (refl, (refl, tt))
