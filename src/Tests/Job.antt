-- ===== src/Tests/Job.antt =====
-- The theorems about the loops of main that wait for an answer, and about the end of the master.
use parallel_wrapper.Base.{◌⊎◌, ◌≡◌, refl, arith, true, false, some, none, List, [], ◌∷◌}
use parallel_wrapper.Base.Int.{pos}
use parallel_wrapper.Base.Text.{codes}
use parallel_wrapper.Main.Answers.{Round, has_changed, register_loop, link_loop}
use parallel_wrapper.Main.Answers.Heard.{
  ack_of, IsAnswered, register_loop-heard, registering, IsConfirmed, linking, link_loop-heard,
}
use parallel_wrapper.Main.Job.{start, in_parent}
use parallel_wrapper.Main.Job.Ending.{Ends, parent, ExitsWith, start-Ends}
use parallel_wrapper.NetworkUtil.{
  ip_str_from_sockaddr, port_from_sockaddr, send_string_to_ip_port, send_loop,
}
use parallel_wrapper.StringUtil.Integer.RoundTrip.{parse_integer-format_int}
use parallel_wrapper.System.{Timeval}
use parallel_wrapper.UdpClient.{ack_message, snprintf, register_cmd, create_link}
use parallel_wrapper.Tests.Links.{sample-IsGenerous, master_world-IsRecorded}
use parallel_wrapper.Tests.Sample.{
  os, master_world, master_world-IsValid, slave_world, master_machine, slave_machine,
  master_address, slave_address,
}
use parallel_wrapper.Tests.Start.{chirp}
use parallel_wrapper.UdpServer.Authority.{FromMaster}
use parallel_wrapper.UdpServer.Loop.{Arrival, Wake, ready, expired, udp_server}
use parallel_wrapper.Wrapper.Action.{ok}

-- A round in which the acknowledgement of rank 0 arrives, which has not been heard of before.
abbrev round : Round
round = record {
  os = os;
  during = (os, (master_address, snprintf (ack_message (pos 0)))) ∷ [];
  chirp = chirp;
  chirp_rounds = 1;
}

abbrev never : Timeval
never = record { sec = 0; usec = 0 }

source : FromMaster os (ack_of (pos 0) master_address) slave_world
unfolding ip_str_from_sockaddr port_from_sockaddr
source = record {
  me = slave_machine;
  is_me = refl;
  other_rank = refl;
  ptr = 0;
  is_ptr = refl;
  machine = master_machine;
  is_machine = refl;
  ip = codes "10.0.0.1";
  known = refl;
  same_ip = refl;
  same_port = refl;
}

answer : IsAnswered round never slave_world
unfolding has_changed
answer = record {
  os = os;
  from = master_address;
  during = refl;
  source = source;
  malloc_ok = refl;
  memory = λ n. refl;
  behind = [];
  terminated = refl;
  later = refl;
  in_job = refl;
}

sent : (registering round slave_world slave_machine master_machine).0 ≡ 0
unfolding register_cmd send_string_to_ip_port send_loop
sent = refl

register_loop-heard_example : register_loop (round ∷ []) never slave_world ≡ (
  ok true,
  record slave_world {
    heap = record master_machine { last_alive = os.now } ∷ slave_machine ∷ [];
    trace = (registering round slave_world slave_machine master_machine).1;
  },
)
unfolding answer source
register_loop-heard_example = register_loop-heard round [] never slave_world answer sent

-- Rank 1 confirms its link.
abbrev confirming : List Arrival
confirming = (os, (slave_address, snprintf (ack_message (pos 1)))) ∷ []

confirmed : IsConfirmed confirming 1 never master_world
unfolding ip_str_from_sockaddr port_from_sockaddr has_changed
confirmed = record {
  os = os;
  from = slave_address;
  is_during = refl;
  about = record {
    me = master_machine;
    is_me = refl;
    master = refl;
    table = some 0 ∷ some 1 ∷ none ∷ [];
    is_table = refl;
    num_procs = refl;
    rank = 1;
    is_rank = parse_integer-format_int (pos 1) (omega arith);
    in_table = omega arith;
    ip = codes "10.0.0.2";
    is_ip = refl;
  };
  same_rank = refl;
  int = omega arith;
  ptr = 1;
  machine = slave_machine;
  is_ptr = refl;
  is_machine = refl;
  known = refl;
  same_port = refl;
  malloc_ok = refl;
  memory = λ n. refl;
  behind = [];
  terminated = refl;
  later = refl;
}

link_sent : (linking os (codes "/tmp/condor_hydra_17_5") master_world slave_machine).0 ≡ 0
unfolding create_link send_string_to_ip_port send_loop
link_sent = refl

link_loop-heard_example :
    link_loop ((os, confirming) ∷ []) (codes "/tmp/condor_hydra_17_5") 1 never master_world ≡ (
      ok true,
      record master_world {
        heap = master_machine ∷ record slave_machine { last_alive = os.now } ∷ [];
        trace = (linking os (codes "/tmp/condor_hydra_17_5") master_world slave_machine).1;
      },
    )
unfolding confirmed
link_loop-heard_example =
    link_loop-heard os confirming [] (codes "/tmp/condor_hydra_17_5") 1 never master_world confirmed
      link_sent

-- The child of the master ends with 256, while a link is made and the interval passes.
abbrev during : List Wake
during =
    ready true true (os, (master_address, codes "15:/work:/tmp/condor_hydra_17_5"))
    ∷ expired true os os []
    ∷ []

start-Ends_example :
    Ends
      (λ c.
        (c ≡ pos 256) ⊎ ExitsWith (udp_server os during (parent (pos 77) (pos 0) master_world)) c)
      (start os false (in_parent (pos 77) (pos 0) os during (pos 256)) master_world)
start-Ends_example =
    start-Ends os sample-IsGenerous (pos 256) false (pos 77) (pos 0) os during master_world
      sample-IsGenerous ((sample-IsGenerous, tt), ((sample-IsGenerous, tt), tt))
      master_world-IsValid refl master_world-IsRecorded
