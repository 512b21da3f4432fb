-- ===== src/Tests/Network.antt =====
-- The theorems about interfaces and ports at a host with three interfaces and one free port.
use parallel_wrapper.Base.{◌==◌, refl, some, true, false, [], ◌∷◌, List}
use parallel_wrapper.Base.Int.{pos}
use parallel_wrapper.Base.Text.{codes}
use parallel_wrapper.NetworkUtil.Interfaces.{Interface, get_ip_addr}
use parallel_wrapper.NetworkUtil.Interfaces.Answer.{IsAnswer, get_ip_addr-IsAnswer}
use parallel_wrapper.NetworkUtil.Sockets.{SocketOs, get_bound_dgram_socket_by_range}
use parallel_wrapper.NetworkUtil.Sockets.First.{IsFirst, get_bound_dgram_socket_by_range-IsFirst}
use parallel_wrapper.System.{inet}
use parallel_wrapper.Tests.Sample.{os}

-- The loopback, one interface that is down, and one in use.
abbrev pub interfaces : List Interface
interfaces =
    record {
      name = codes "lo";
      addr = some (inet 127 0);
      is_up = true;
      is_loopback = true;
      is_point_to_point = false;
    }
    ∷ record {
      name = codes "eth0";
      addr = some (inet 0 0);
      is_up = false;
      is_loopback = false;
      is_point_to_point = false;
    }
    ∷ record {
      name = codes "eth1";
      addr = some (inet 1 0);
      is_up = true;
      is_loopback = false;
      is_point_to_point = false;
    }
    ∷ []

get_ip_addr-IsAnswer_example : IsAnswer os interfaces (get_ip_addr os (some interfaces))
get_ip_addr-IsAnswer_example = get_ip_addr-IsAnswer os interfaces refl refl

-- Port 51002 alone can be bound, on the one address that each port has.
abbrev pub sockets : SocketOs
sockets = record {
  passive = λ port. some (1 ∷ []);
  socket = λ port info. pos 5;
  bind_ok = λ port info. port == 51002;
}

get_bound_dgram_socket_by_range-IsFirst_example :
    IsFirst sockets 51000 61000 [] (get_bound_dgram_socket_by_range sockets 51000 61000 [])
get_bound_dgram_socket_by_range-IsFirst_example =
    get_bound_dgram_socket_by_range-IsFirst sockets (λ port info h. absurd cc) 51000 61000 []
