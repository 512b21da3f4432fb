-- ===== src/UdpServer/Authority.antt =====
-- Who may end a process.
pub mod Obeys
pub mod Master
use parallel_wrapper.Base.{
  ℕ, ◌≡◌, ◌≢◌, refl, sym, ap, ◌∙◌, subst, Option, none, some, Bool, true, false, not, ◌&&◌, List,
  [], ◌∷◌, map, length, get_elem?, arith, ◌==◌, All, if◌then◌else◌,
}
use parallel_wrapper.Base.Int.{ℤ, pos, eqb_ℤ}
use parallel_wrapper.Base.Text.{Bytes, str_eq, str_eq→eq}
use parallel_wrapper.System.{Os}
use parallel_wrapper.NetworkUtil.{
  ip_text, ip_str_from_sockaddr, inet6_addrstrlen, port_from_sockaddr,
}
use parallel_wrapper.StringUtil.Integer.{parsed, parse_integer}
use parallel_wrapper.StringUtil.Tokens.{StrArray}
use parallel_wrapper.UdpServer.Message.{Message, string_at, is_master, require_master}
use parallel_wrapper.UdpServer.Term.{obey_term, obey_if, handle_term}
use parallel_wrapper.StringUtil.Integer.{Parsed, failed}
use parallel_wrapper.StringUtil.Tokens.{is_valid_strarray}
use parallel_wrapper.UdpServer.Dispatch.{
  UdpHandler, handlers, end_thread, run_handler, dispatch, process_command, process_message,
}
use parallel_wrapper.UdpServer.NoExit.{
  NoExit, handle_query-NoExit, handle_ack-NoExit, handle_create_link-NoExit,
  handle_send_file-NoExit, handle_register-NoExit,
}
use parallel_wrapper.UdpServer.OnExit.{
  OnExit, OnExit-always, OnExit-return_if, OnExit-deref, OnExit-unless_null, OnExit-load,
  OnExit-parse_arg, OnExit-source_ip, OnExit-require_master,
}
use parallel_wrapper.Wrapper.{Machine, Ptr, World, master_rank}
use parallel_wrapper.Wrapper.Action.{
  Result, ok, exited, returned, fault, Action, pure, then_do, ◌>>=◌, ◌>>◌,
}

-- The message comes from the address and the port that this process knows for the master, and this
-- process is another rank.
pub record FromMaster (os : Os) (msg : Message) (w : World) : Type 0 where
  pub me : Machine
  pub is_me : get_elem? w.heap w.par_wrapper.this_machine ≡ some me
  pub other_rank : is_master me ≡ false
  pub ptr : Ptr
  pub is_ptr : w.par_wrapper.master ≡ some ptr
  pub machine : Machine
  pub is_machine : get_elem? w.heap ptr ≡ some machine
  pub ip : Bytes
  pub known : machine.ip_addr ≡ some ip
  pub same_ip : ip_str_from_sockaddr os (some msg.from) true inet6_addrstrlen ≡ ip_text ip
  pub same_port : machine.port ≡ port_from_sockaddr (some msg.from)

module _ (os : Os) (msg : Message) (w : World) where
  both : (a b : Bool) → a && b ≡ true → (a ≡ true) × (b ≡ true)
  both true true h = (refl, refl)
  both true false h = cc
  both false b h = cc

  obey_if-OnExit :
      (b : Bool) (rc : ℤ)
      → (b ≡ true → FromMaster os msg w)
      → OnExit (FromMaster os msg w) (obey_if b os msg rc w)
  obey_if-OnExit true rc h = OnExit-always (FromMaster os msg w) (h refl) (obey_term os msg rc w)
  obey_if-OnExit false rc h = tt

  from_master :
      (me : Machine)
      → get_elem? w.heap w.par_wrapper.this_machine ≡ some me
      → is_master me ≡ false
      → (p : Ptr) → w.par_wrapper.master ≡ some p
      → (m : Machine) → get_elem? w.heap p ≡ some m
      → (addr : Bytes) → m.ip_addr ≡ some addr
      → (ip : Bytes) → ip_str_from_sockaddr os (some msg.from) true inet6_addrstrlen ≡ ip_text ip
      → str_eq addr ip && m.port == port_from_sockaddr (some msg.from) ≡ true
      → FromMaster os msg w
  from_master me is_me other_rank p is_ptr m is_machine addr known ip same_ip h =
      let (same, port) = both (str_eq addr ip) (m.port == port_from_sockaddr (some msg.from)) h in
      record {
        me = me;
        is_me = is_me;
        other_rank = other_rank;
        ptr = p;
        is_ptr = is_ptr;
        machine = m;
        is_machine = is_machine;
        ip = addr;
        known = known;
        same_ip = same_ip ∙ ap ip_text (sym (str_eq→eq addr ip same));
        same_port = ground arith;
      }

  handle_term-OnExit : OnExit (FromMaster os msg w) (handle_term os msg w)
  unfolding handle_term
  handle_term-OnExit =
      let E = FromMaster os msg w in
      OnExit-deref {B = Unit {0}} E w msg.args _ λ args _.
        OnExit-return_if {B = Unit {0}} E w (not (eqb_ℤ args.dim (pos 2))) 1 _ λ _.
          OnExit-load {B = Unit {0}} E w w.par_wrapper.this_machine _ λ me is_me.
            OnExit-return_if {B = Unit {0}} E w (is_master me) 1 _ λ other_rank.
              OnExit-require_master w {B = Unit {0}} E 1 _ (
                OnExit-parse_arg {B = Unit {0}} E w args 1 2 _ λ rc _.
                  OnExit-source_ip {B = Unit {0}} E w os msg _ λ ip same_ip.
                    OnExit-deref {B = Unit {0}} E w w.par_wrapper.master _ λ p is_ptr.
                      OnExit-load {B = Unit {0}} E w p _ λ m is_machine.
                        OnExit-deref {B = Unit {0}} E w m.ip_addr _ λ addr known.
                          obey_if-OnExit
                            (str_eq addr ip && m.port == port_from_sockaddr (some msg.from)) rc
                            λ h.
                              from_master me is_me other_rank p is_ptr m is_machine addr known ip
                                same_ip h)

module _ (os : Os) (msg : Message) (w : World) where
  -- An exit in one handler is an exit for `E`.
  MayExit : UdpHandler → Type 0
  MayExit (c, handler) = OnExit (FromMaster os msg w) (handler os msg w)

  from_never : {A : Type 0} {m : Action A} → NoExit m → OnExit (FromMaster os msg w) (m w)
  from_never {A} {m} h = by_result (m w) (h.run w)
    where
      by_result : (r : Result A × World) → OnExit ⊥ r → OnExit (FromMaster os msg w) r
      by_result (ok a, w') k = tt
      by_result (returned rc, w') k = tt
      by_result (exited code, w') k = elim k [ ]
      by_result (fault, w') k = tt

  handlers-MayExit : All MayExit handlers
  unfolding handlers MayExit
  handlers-MayExit = (
    from_never (handle_query-NoExit os msg),
    (
      from_never (handle_ack-NoExit os msg),
      (
        handle_term-OnExit os msg w,
        (
          from_never (handle_create_link-NoExit os msg),
          (
            from_never (handle_send_file-NoExit os msg),
            (from_never (handle_register-NoExit os msg), tt),
          ),
        ),
      ),
    ),
  )

  end_thread-OnExit :
      (E : Type 0) (r : Result (Unit {0}) × World) → OnExit E r → OnExit E (end_thread r)
  end_thread-OnExit E (ok a, w') h = tt
  end_thread-OnExit E (returned rc, w') h = tt
  end_thread-OnExit E (exited code, w') h = h
  end_thread-OnExit E (fault, w') h = tt

  if-OnExit :
      (E : Type 0) (b : Bool) (m k : Action (Unit {0}))
      → OnExit E (m w)
      → OnExit E (k w)
      → OnExit E ((if b then m else k) w)
  if-OnExit E true m k hm hk = hm
  if-OnExit E false m k hm hk = hk

  dispatch-OnExit :
      (command : ℤ) (table : List UdpHandler)
      → All MayExit table
      → OnExit (FromMaster os msg w) (dispatch os msg command table w)
  unfolding dispatch MayExit
  dispatch-OnExit command [] h = tt
  dispatch-OnExit command ((c, handler) ∷ rest) h =
      if-OnExit (FromMaster os msg w) (eqb_ℤ command c) (run_handler (handler os msg))
        (dispatch os msg command rest) (end_thread-OnExit _ (handler os msg w) h.0)
        (dispatch-OnExit command rest h.1)

  process_command-OnExit : (r : Parsed) → OnExit (FromMaster os msg w) (process_command os msg r w)
  process_command-OnExit (failed _) = tt
  process_command-OnExit (parsed command) = dispatch-OnExit command handlers handlers-MayExit

  process_message-OnExit : OnExit (FromMaster os msg w) (process_message os msg w)
  unfolding process_message
  process_message-OnExit =
      if-OnExit (FromMaster os msg w) (not (is_valid_strarray msg.args)) (pure tt) _ tt (
        OnExit-deref {B = Unit {0}} (FromMaster os msg w) w msg.args _
          λ args _. process_command-OnExit (parse_integer (string_at args 0) true))

-- Whatever the state and the message: if a message of any command ends the process, then this
-- process is not the master, and the message came from the address and the port of the master.
pub process_message-FromMaster :
    (os : Os) (msg : Message) (w : World) {code : ℤ} {w' : World}
    → process_message os msg w ≡ (exited code, w')
    → FromMaster os msg w
process_message-FromMaster os msg w e =
    subst (OnExit (FromMaster os msg w)) e (process_message-OnExit os msg w)
