-- ===== src/UdpServer/Safety/Parts.antt =====
-- The parts that the handlers share.
use parallel_wrapper.Base.{
  zero, suc, [], ◌∷◌, ℕ, ◌<◌, ◌≡◌, refl, sym, Option, none, some, Bool, true, false, not, subst,
  List, map, length, get_elem?, arith,
}
use parallel_wrapper.Base.Int.{ℤ, pos, eqb_ℤ}
use parallel_wrapper.Base.Text.{Bytes}
use parallel_wrapper.StringUtil.Integer.{Parsed, failed, parsed, parse_integer}
use parallel_wrapper.StringUtil.Tokens.{StrArray}
use parallel_wrapper.System.{Os, Trace}
use parallel_wrapper.NetworkUtil.{IpText, ip_error, ip_text, ip_str_from_sockaddr, inet6_addrstrlen}
use parallel_wrapper.UdpServer.Message.{
  Message, string_at, number_or, parse_arg, text_or, unless_null, clean, source_ip, send_ack,
}
use parallel_wrapper.UdpClient.{ack}
use parallel_wrapper.Wrapper.{Machine, World}
use parallel_wrapper.Wrapper.Action.{Action, on_trace, return_if, then_do, ◌>>=◌}
use parallel_wrapper.Wrapper.Ensures.{Good, Ensures, load_lem}

-- The arguments of a message as `strsplit` makes them: every slot is filled.
abbrev pub array_of : List Bytes → StrArray
array_of ps = record { dim = pos (length ps); strings = map some ps }

-- An argument that the array has, after `remove_quotes` and `trim`.
pub clean-array_of :
    (ps : List Bytes) (n : ℕ)
    → n < length ps
    → (s : Bytes) × (clean (string_at (array_of ps) n) ≡ some s)
unfolding clean
clean-array_of [] n h = elim h [ ]
clean-array_of (p ∷ ps) zero h = (_, refl)
clean-array_of (p ∷ ps) (suc n) h = clean-array_of ps n (omega arith)

-- A test for the number of arguments that has gone through.
pub dim_ok :
    (ps : List Bytes) (n : ℕ) → not (eqb_ℤ (array_of ps).dim (pos n)) ≡ false → length ps ≡ n
dim_ok ps n h = ground arith

-- The machine at `this_machine`.
abbrev pub me_of :
    {w w' : World}
    → Good w w'
    → (m : Machine) × (get_elem? w'.heap w'.par_wrapper.this_machine ≡ some m)
me_of g = (g.valid.me, g.valid.is_me)

module _ {B : Type 0} (w : World) (Q : B → World → Type 0) (w' : World) (g : Good w w') where
  -- An argument that is read as a number, or the handler ends.
  pub Ensures-parse_arg :
      (args : StrArray) (n rc : ℕ) (f : ℤ → Action B)
      → ((v : ℤ) → parse_integer (string_at args n) true ≡ parsed v → Ensures w Q (f v w'))
      → Ensures w Q ((parse_arg args n rc >>= f) w')
  Ensures-parse_arg args n rc f h = by_result (parse_integer (string_at args n) true) (λ v. h v)
    where
      by_result :
          (r : Parsed)
          → ((v : ℤ) → r ≡ parsed v → Ensures w Q (f v w'))
          → Ensures w Q (then_do (number_or rc r w') f)
      by_result (failed _) k = g
      by_result (parsed v) k = k v refl

  pub Ensures-source_ip :
      (os : Os) (msg : Message) (f : Bytes → Action B)
      → ((ip : Bytes) → Ensures w Q (f ip w'))
      → Ensures w Q ((source_ip os msg >>= f) w')
  unfolding source_ip
  Ensures-source_ip os msg f h =
      by_result os.malloc_ok (ip_str_from_sockaddr os (some msg.from) true inet6_addrstrlen)
    where
      by_result :
          (b : Bool) (r : IpText)
          → Ensures w Q (then_do (then_do (return_if (not b) 3 w') (λ _. text_or 4 r)) f)
      by_result false r = g
      by_result true (ip_error _) = g
      by_result true (ip_text ip) = h ip

  pub Ensures-unless_null :
      {A : Type 0} (o : Option A) (rc : ℕ) (f : A → Action B)
      → ((a : A) → o ≡ some a → Ensures w Q (f a w'))
      → Ensures w Q ((unless_null rc o >>= f) w')
  Ensures-unless_null none rc f h = g
  Ensures-unless_null (some a) rc f h = h a refl

  -- The acknowledgement changes the trace alone.
  pub Ensures-send_ack :
      (os : Os) (msg : Message) (f : ℕ → Action B)
      → ((rc : ℕ) (t : Trace) → Ensures w Q (f rc (record w' { trace = t })))
      → Ensures w Q ((send_ack os msg >>= f) w')
  unfolding send_ack
  Ensures-send_ack os msg f h =
      subst
        (λ r. Ensures w Q (
          then_do
            (then_do r
              (λ me. on_trace (ack os w'.par_wrapper.command_socket me.rank (some msg.from))))
            f))
        (sym (load_lem w'.par_wrapper.this_machine g.valid.me w' g.valid.is_me)) (h _ _)
