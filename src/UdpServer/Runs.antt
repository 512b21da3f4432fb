-- ===== src/UdpServer/Runs.antt =====
-- Rules for a run of a handler whose steps are known.
use parallel_wrapper.Base.{
  if◌then◌else◌, ℕ, ◌≡◌, ap, ◌∙◌, Option, some, Bool, true, false, not, get_elem?,
}
use parallel_wrapper.Base.Int.{ℤ}
use parallel_wrapper.Base.Text.{Bytes}
use parallel_wrapper.StringUtil.Integer.{parsed, parse_integer}
use parallel_wrapper.StringUtil.Tokens.{StrArray}
use parallel_wrapper.System.{Os, Trace}
use parallel_wrapper.NetworkUtil.{ip_text, ip_str_from_sockaddr, inet6_addrstrlen}
use parallel_wrapper.UdpClient.{ack}
use parallel_wrapper.UdpServer.Message.{
  Message, string_at, number_or, parse_arg, text_or, unless_null, source_ip, require_master,
  send_ack,
}
use parallel_wrapper.Wrapper.{Machine, Ptr, World}
use parallel_wrapper.Wrapper.Action.{
  Result, Action, deref, load, pure, on_trace, return_if, crash_if, returned, then_do, ◌>>=◌, ◌>>◌,
}
use parallel_wrapper.Wrapper.Ensures.{load_lem}

module _ {B : Type 0} (w : World) (r : Result B × World) where
  pub run-return_if :
      (c : Bool) (rc : ℕ) (k : Action B) → c ≡ false → k w ≡ r → (return_if c rc >> k) w ≡ r
  run-return_if c rc k e h = rw e h

  pub run-crash_if : (c : Bool) (k : Action B) → c ≡ false → k w ≡ r → (crash_if c >> k) w ≡ r
  run-crash_if c k e h = rw e h

  -- Without memory for the text of the address the handler returns 3.
  pub run-source_ip_if :
      (os : Os) (msg : Message) (ip : Bytes) (f : Bytes → Action B)
      → ip_str_from_sockaddr os (some msg.from) true inet6_addrstrlen ≡ ip_text ip
      → f ip w ≡ r
      → (source_ip os msg >>= f) w ≡ (if os.malloc_ok then r else (returned 3, w))
  unfolding source_ip
  run-source_ip_if os msg ip f e h = go os.malloc_ok
    where
      go :
          (b : Bool)
          → then_do
              (then_do
                (return_if (not b) 3 w)
                λ _. text_or 4 (ip_str_from_sockaddr os (some msg.from) true inet6_addrstrlen))
              f
            ≡ (if b then r else (returned 3, w))
      go true = ap (λ q. then_do (text_or 4 q w) f) e ∙ h
      go false = λ i. (returned 3, w)

  pub run-deref :
      {A : Type 0} (o : Option A) (a : A) (f : A → Action B)
      → o ≡ some a
      → f a w ≡ r
      → (deref o >>= f) w ≡ r
  run-deref o a f e h = rw e h

  pub run-load :
      (p : Ptr) (m : Machine) (f : Machine → Action B)
      → get_elem? w.heap p ≡ some m
      → f m w ≡ r
      → (load p >>= f) w ≡ r
  run-load p m f e h = ap (λ q. then_do q f) (load_lem p m w e) ∙ h

  pub run-parse_arg :
      (args : StrArray) (n rc : ℕ) (v : ℤ) (f : ℤ → Action B)
      → parse_integer (string_at args n) true ≡ parsed v
      → f v w ≡ r
      → (parse_arg args n rc >>= f) w ≡ r
  run-parse_arg args n rc v f e h = ap (λ q. then_do (number_or rc q w) f) e ∙ h

  pub run-source_ip :
      (os : Os) (msg : Message) (ip : Bytes) (f : Bytes → Action B)
      → os.malloc_ok ≡ true
      → ip_str_from_sockaddr os (some msg.from) true inet6_addrstrlen ≡ ip_text ip
      → f ip w ≡ r
      → (source_ip os msg >>= f) w ≡ r
  unfolding source_ip
  run-source_ip os msg ip f memory e h =
      ap
        (λ b.
          then_do
            (then_do (return_if (not b) 3 w)
              λ _. text_or 4 (ip_str_from_sockaddr os (some msg.from) true inet6_addrstrlen))
            f)
        memory
      ∙ ap (λ q. then_do (text_or 4 q w) f) e
      ∙ h

  pub run-require_master :
      (rc : ℕ) (p : Ptr) (m : Machine) (ip : Bytes) (f : Unit {0} → Action B)
      → w.par_wrapper.master ≡ some p
      → get_elem? w.heap p ≡ some m
      → m.ip_addr ≡ some ip
      → f tt w ≡ r
      → (require_master rc >>= f) w ≡ r
  unfolding require_master
  run-require_master rc p m ip f is_p here known h =
      ap (λ q. then_do q f)
        (ap
            (λ o.
              then_do (unless_null rc o w)
                λ p. load p >>= λ m. unless_null rc m.ip_addr >>= λ _. pure tt)
            is_p
          ∙ ap (λ q. then_do q λ m. unless_null rc m.ip_addr >>= λ _. pure tt) (load_lem p m w here)
          ∙ ap (λ o. then_do (unless_null rc o w) λ _. pure tt) known)
      ∙ h

-- The acknowledgement goes through and changes the trace alone.
pub run-send_ack :
    {B : Type 0} (os : Os) (msg : Message) (w : World) (me : Machine) (f : ℕ → Action B)
    → get_elem? w.heap w.par_wrapper.this_machine ≡ some me
    → (rc : ℕ) × (t : Trace) × ((send_ack os msg >>= f) w ≡ f rc (record w { trace = t }))
unfolding send_ack
run-send_ack os msg w me f is_me = (
  _,
  _,
  ap
      (λ q.
        then_do
          (then_do q λ m. on_trace (ack os w.par_wrapper.command_socket m.rank (some msg.from))) f)
      (load_lem w.par_wrapper.this_machine me w is_me),
)
