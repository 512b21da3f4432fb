-- ===== src/UdpServer/Kept/Loops.antt =====
-- The loops over the table of machines, and the calls that only talk to the outside, keep what their
-- steps keep.
use parallel_wrapper.Base.{ℕ, zero, suc, ◌+◌, Option, none, some, List, get_elem?}
use parallel_wrapper.System.{Os, Sockaddr, Trace}
use parallel_wrapper.UdpServer.Kept.{Kept, IsKept, Kept-bind, Kept-load}
use parallel_wrapper.UdpServer.Links.{IsLinkless}
use parallel_wrapper.Wrapper.{Machine, Ptr, World}
use parallel_wrapper.Wrapper.Action.{Action, on_trace}
use parallel_wrapper.Wrapper.Machines.{in_slot, at_slot, for_machines, repeat}

module _ (P E : World → Type 0) where
  -- In every state in which it holds.
  abbrev pub AllKept : {A : Type 0} → Action A → Type 0
  AllKept m = (w : World) → P w → Kept P E (m w)

  pub at_slot-AllKept :
      (machines : List (Option Ptr)) (body : ℕ → Machine → Action (Unit {0}))
      → ((i : ℕ) (m : Machine) → AllKept (body i m))
      → (i : ℕ) → AllKept (at_slot machines i body)
  unfolding at_slot
  at_slot-AllKept machines body k i w h = go (get_elem? machines i)
    where
      go : (slot : Option (Option Ptr)) → Kept P E (in_slot slot i body w)
      go none = h
      go (some none) = h
      go (some (some p)) = Kept-load P E w h p (body i) λ m _. k i m w h

  pub for_machines-AllKept :
      (machines : List (Option Ptr)) (body : ℕ → Machine → Action (Unit {0}))
      → ((i : ℕ) (m : Machine) → AllKept (body i m))
      → (rounds i : ℕ) → AllKept (for_machines rounds i machines body)
  unfolding for_machines
  for_machines-AllKept machines body k zero i w h = h
  for_machines-AllKept machines body k (suc rounds) i w h =
      Kept-bind P E (at_slot machines i body w) _ (at_slot-AllKept machines body k i w h)
        λ _ w' h'. for_machines-AllKept machines body k rounds (i + 1) w' h'

  pub repeat-AllKept : (n : ℕ) (m : Action (Unit {0})) → AllKept m → AllKept (repeat n m)
  unfolding repeat
  repeat-AllKept zero m k w h = h
  repeat-AllKept (suc n) m k w h =
      Kept-bind P E (m w) _ (k w h) λ _ w' h'. repeat-AllKept n m k w' h'

module _ (P E : World → Type 0) (Allowed : Os → Type 0) (From : Sockaddr → Type 0)
    (law : IsKept P E Allowed From) where
  pub on_trace-AllKept :
      {A : Type 0} (f : Trace → A × Trace)
      → ((t : Trace) → IsLinkless t ((f t).1))
      → AllKept P E (on_trace f)
  on_trace-AllKept f k w h = law.traced w _ (k w.trace).same_made (k w.trace).same_gone h
