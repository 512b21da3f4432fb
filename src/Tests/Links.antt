-- ===== src/Tests/Links.antt =====
-- The theorems about the links of a server.
use parallel_wrapper.Base.{List, refl, true, [], ◌∷◌}
use parallel_wrapper.Base.Text.{codes}
use parallel_wrapper.Tests.Sample.{
  os, master_world, slave_world, slave_world-IsValid, master_address,
}
use parallel_wrapper.UdpServer.Kept.Rounds.{Reaches}
use parallel_wrapper.UdpServer.Links.{made, gone}
use parallel_wrapper.UdpServer.Links.Removed.{IsGenerous, IsRecorded, IsCleared, udp_server-removes}
use parallel_wrapper.UdpServer.Loop.{Wake, ready, udp_server}

-- A link is made, and the master ends the process.
abbrev pub link_then_term : List Wake
link_then_term =
    ready true true (os, (master_address, codes "15:/work:/tmp/condor_hydra_17_5"))
    ∷ ready true true (os, (master_address, codes "10:0"))
    ∷ []

pub sample-IsGenerous : IsGenerous os
sample-IsGenerous = record {
  has_malloc = refl;
  has_calloc = refl;
  has_strdup = refl;
  unlinks = λ filename. refl;
}

slave_world-IsRecorded : IsRecorded slave_world
unfolding made gone
slave_world-IsRecorded = record {
  list = record { elements = []; num_elements = 0 };
  is_list = refl;
  names = refl;
  none_gone = refl;
}

pub master_world-IsRecorded : IsRecorded master_world
unfolding made gone
master_world-IsRecorded = record {
  list = record { elements = []; num_elements = 0 };
  is_list = refl;
  names = refl;
  none_gone = refl;
}

udp_server-removes_example : Reaches IsRecorded IsCleared (udp_server os link_then_term slave_world)
udp_server-removes_example =
    udp_server-removes os link_then_term slave_world sample-IsGenerous
      ((sample-IsGenerous, tt), ((sample-IsGenerous, tt), tt)) slave_world-IsValid
      slave_world-IsRecorded
