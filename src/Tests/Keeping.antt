-- ===== src/Tests/Keeping.antt =====
-- The theorems about the keep-alive check at the state of the master.
use parallel_wrapper.Base.{ℕ, ◌<◌, ◌≡◌, refl, true, length, ◌⊎◌}
use parallel_wrapper.Base.Int.{pos}
use parallel_wrapper.System.{timersub_sec}
use parallel_wrapper.Tests.Sample.{
  os, slave_machine, master_world, master_world-IsValid, master_world-IsTable,
}
use parallel_wrapper.UdpServer.Dispatch.{check_all}
use parallel_wrapper.UdpServer.KeepAlive.{is_silent, Aborts, SomeSilent, Heard, check_all_cases}
use parallel_wrapper.Wrapper.Action.{ok}

check_all_cases_example :
    (Aborts master_world (check_all os master_world)
      × SomeSilent os (pos 300) master_world master_world-IsTable.table)
    ⊎ ((check_all os master_world ≡ (ok tt, master_world))
        × ((r : ℕ)
            → r < length master_world-IsTable.table
            → Heard os (pos 300) master_world master_world-IsTable.table r))
check_all_cases_example = check_all_cases os master_world master_world-IsValid master_world-IsTable

slave_is_late : is_silent os (pos 300) slave_machine ≡ true
unfolding timersub_sec
slave_is_late = refl
