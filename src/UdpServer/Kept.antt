-- ===== src/UdpServer/Kept.antt =====
-- A predicate on the state that every step of the server keeps, and another one that holds when a
-- step ends the process: rules for the steps that the handlers are made of.
pub mod Loops
pub mod Handlers
pub mod Register
pub mod Term
pub mod Messages
pub mod Rounds
use parallel_wrapper.Base.{
  ℕ, ◌≡◌, refl, sym, subst, Option, none, some, Bool, true, false, not, List, ◌∷◌, ◌++◌, [], length,
  get_elem?, set,
}
use parallel_wrapper.Base.Int.{ℤ, pos_part, IsInt}
use parallel_wrapper.Base.Text.{Bytes}
use parallel_wrapper.Cleanup.{unlink_all}
use parallel_wrapper.NetworkUtil.{
  IpText, ip_error, ip_text, ip_str_from_sockaddr, inet6_addrstrlen, port_from_sockaddr,
}
use parallel_wrapper.Sll.{SlList}
use parallel_wrapper.StringUtil.Integer.{Parsed, failed, parsed, parse_integer}
use parallel_wrapper.StringUtil.Integer.RoundTrip.{parse_integer-IsInt}
use parallel_wrapper.StringUtil.Tokens.{StrArray}
use parallel_wrapper.System.{Os, Sockaddr, Timeval, Trace, symlinked}
use parallel_wrapper.UdpServer.Links.{made, gone}
use parallel_wrapper.UdpServer.CreateLink.{save_link}
use parallel_wrapper.UdpServer.Message.{
  Message, string_at, number_or, parse_arg, text_or, unless_null, source_ip, require_master,
}
use parallel_wrapper.UdpServer.Register.{new_machine, add_machine}
use parallel_wrapper.Wrapper.{Machine, Ptr, World}
use parallel_wrapper.Wrapper.Action.{
  Result, ok, returned, exited, fault, Action, deref, load, return_if, crash_if, then_do, ◌>>=◌,
  ◌>>◌,
}

-- `P` holds afterwards, also after a crash, or `E` if the process has exited.
abbrev pub Kept : {A : Type 0} → (P E : World → Type 0) → Result A × World → Type 0
Kept P E (ok a, w) = P w
Kept P E (returned rc, w) = P w
Kept P E (exited code, w) = E w
Kept P E (fault, w) = P w

-- What the two predicates need, for answers that are `Allowed` and senders that are in `From`: the
-- changes of the state that the server is made of.
pub record IsKept (P E : World → Type 0) (Allowed : Os → Type 0) (From : Sockaddr → Type 0)
    : Type 0 where
  -- Something that is no link has been done to the outside.
  pub traced :
      (w : World) (t : Trace)
      → made t ≡ made w.trace
      → gone t ≡ gone w.trace
      → P w
      → P (record w { trace = t })
  pub flagged :
      (w : World) (locked exit : Bool)
      → P w
      → P (record w { keep_alive_locked = locked; exit_flag = exit })
  pub touched :
      (w : World) (p : Ptr) (m : Machine) (now : Timeval)
      → get_elem? w.heap p ≡ some m
      → P w
      → P (record w { heap = set w.heap p (record m { last_alive = now }) })
  pub entered :
      (w : World) (machines : List (Option Ptr)) (rank cpus : ℤ) (iwd user ip : Option Bytes)
      (from : Sockaddr)
      → From from
      → IsInt rank
      → IsInt cpus
      → P w
      → P (
          (add_machine machines rank
            (new_machine rank cpus iwd user ip (port_from_sockaddr (some from)))
            w).1)
  pub linked :
      (os : Os)
      → Allowed os
      → (w : World) (src dest : Bytes) (list : SlList) → w.par_wrapper.symlinks ≡ some list
      → P w
      → P ((save_link os dest (record w { trace = symlinked src dest ∷ w.trace })).1)
  pub ended :
      (os : Os)
      → Allowed os
      → (w : World) → P w
      → E (record w { trace = unlink_all os w.par_wrapper.symlinks w.trace })

module _ (P E : World → Type 0) where
  pub Kept-bind :
      {A B : Type 0} (r : Result A × World) (f : A → Action B)
      → Kept P E r
      → ((a : A) (w : World) → P w → Kept P E (f a w))
      → Kept P E (then_do r f)
  Kept-bind (ok a, w) f h k = k a w h
  Kept-bind (returned rc, w) f h k = h
  Kept-bind (exited code, w) f h k = h
  Kept-bind (fault, w) f h k = h

module _ (P E : World → Type 0) (w : World) (h : P w) where
  pub Kept-return_if :
      {B : Type 0} (c : Bool) (rc : ℕ) (k : Action B)
      → (c ≡ false → Kept P E (k w))
      → Kept P E ((return_if c rc >> k) w)
  Kept-return_if true rc k s = h
  Kept-return_if false rc k s = s refl

  pub Kept-crash_if :
      {B : Type 0} (c : Bool) (k : Action B)
      → (c ≡ false → Kept P E (k w))
      → Kept P E ((crash_if c >> k) w)
  Kept-crash_if true k s = h
  Kept-crash_if false k s = s refl

  pub Kept-deref :
      {A B : Type 0} (o : Option A) (f : A → Action B)
      → ((a : A) → o ≡ some a → Kept P E (f a w))
      → Kept P E ((deref o >>= f) w)
  Kept-deref none f s = h
  Kept-deref (some a) f s = s a refl

  pub Kept-unless_null :
      {A B : Type 0} (o : Option A) (rc : ℕ) (f : A → Action B)
      → ((a : A) → o ≡ some a → Kept P E (f a w))
      → Kept P E ((unless_null rc o >>= f) w)
  Kept-unless_null none rc f s = h
  Kept-unless_null (some a) rc f s = s a refl

  pub Kept-load :
      {B : Type 0} (p : Ptr) (f : Machine → Action B)
      → ((m : Machine) → get_elem? w.heap p ≡ some m → Kept P E (f m w))
      → Kept P E ((load p >>= f) w)
  Kept-load {B} p f s = by_slot (get_elem? w.heap p) (λ m e. s m e)
    where
      by_slot :
          (o : Option Machine)
          → ((m : Machine) → o ≡ some m → Kept P E (f m w))
          → Kept P E (
              then_do
                (elim o as (λ _. Result Machine × World) [ none ↦ (fault, w) | some m ↦ (ok m, w) ])
                f)
      by_slot none k = h
      by_slot (some m) k = k m refl

  pub Kept-parse_arg :
      {B : Type 0} (args : StrArray) (n rc : ℕ) (f : ℤ → Action B)
      → ((v : ℤ) → IsInt v → Kept P E (f v w))
      → Kept P E ((parse_arg args n rc >>= f) w)
  Kept-parse_arg {B} args n rc f s =
      by_result (parse_integer (string_at args n) true)
        (λ v e. parse_integer-IsInt (string_at args n) true e)
    where
      by_result :
          (r : Parsed)
          → ((v : ℤ) → r ≡ parsed v → IsInt v)
          → Kept P E (then_do (number_or rc r w) f)
      by_result (failed _) k = h
      by_result (parsed v) k = s v (k v refl)

  pub Kept-source_ip :
      {B : Type 0} (os : Os) (msg : Message) (f : Bytes → Action B)
      → ((ip : Bytes) → Kept P E (f ip w))
      → Kept P E ((source_ip os msg >>= f) w)
  unfolding source_ip
  Kept-source_ip {B} os msg f s =
      by_result os.malloc_ok (ip_str_from_sockaddr os (some msg.from) true inet6_addrstrlen)
    where
      by_result :
          (b : Bool) (r : IpText)
          → Kept P E (then_do (then_do (return_if (not b) 3 w) (λ _. text_or 4 r)) f)
      by_result false r = h
      by_result true (ip_error _) = h
      by_result true (ip_text ip) = s ip
