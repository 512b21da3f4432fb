-- ===== src/UdpServer/Allowed.antt =====
-- What is assumed of the answers and of the senders that the server of src/udp_server.c meets.
use parallel_wrapper.Base.{◌≡◌, true, List, [], ◌∷◌, All}
use parallel_wrapper.System.{Os, Sockaddr}
use parallel_wrapper.UdpServer.Loop.{Arrival, Wake, select_failed, ready, expired, signalled}

-- The answers and the sender of a datagram, and of all that a wait in `select` can end with.
abbrev pub AllowedArrival : (Os → Type 0) → (Sockaddr → Type 0) → Arrival → Type 0
AllowedArrival Allowed From (os, (from, datagram)) = Allowed os × From from

abbrev pub AllowedWake : (Os → Type 0) → (Sockaddr → Type 0) → Wake → Type 0
AllowedWake Allowed From select_failed = Unit {0}
AllowedWake Allowed From (ready allocated created arrival) = AllowedArrival Allowed From arrival
AllowedWake Allowed From (expired created os os' others) =
    Allowed os' × All (AllowedArrival Allowed From) others
AllowedWake Allowed From signalled = Unit {0}

-- The copy of the address of a machine that registers is made: a REGISTER that finds memory for all but
-- that leaves a machine without an address, and the next message of its rank follows the NULL.
abbrev pub Remembers : Os → Type 0
Remembers os = os.strdup_ok 0 ≡ true

abbrev pub Anyone : Sockaddr → Type 0
Anyone from = Unit {0}

module _ (Allowed Weaker : Os → Type 0) (From From' : Sockaddr → Type 0)
    (weakens : (os : Os) → Allowed os → Weaker os)
    (f : (from : Sockaddr) → From from → From' from) where
  pub AllowedArrival-map :
      (arrivals : List Arrival)
      → All (AllowedArrival Allowed From) arrivals
      → All (AllowedArrival Weaker From') arrivals
  AllowedArrival-map [] k = tt
  AllowedArrival-map ((os, (from, datagram)) ∷ arrivals) k =
      ((weakens os k.0.0, f from k.0.1), AllowedArrival-map arrivals k.1)

  pub AllowedWake-map :
      (wakes : List Wake)
      → All (AllowedWake Allowed From) wakes
      → All (AllowedWake Weaker From') wakes
  AllowedWake-map [] k = tt
  AllowedWake-map (select_failed ∷ wakes) k = (tt, AllowedWake-map wakes k.1)
  AllowedWake-map (ready allocated created (os, (from, datagram)) ∷ wakes) k =
      ((weakens os k.0.0, f from k.0.1), AllowedWake-map wakes k.1)
  AllowedWake-map (expired created os os' others ∷ wakes) k =
      ((weakens os' k.0.0, AllowedArrival-map others k.0.1), AllowedWake-map wakes k.1)
  AllowedWake-map (signalled ∷ wakes) k = (tt, AllowedWake-map wakes k.1)
