-- ===== src/UdpServer/Ack/Effect.antt =====
-- What `handle_ack` does on the master.
use parallel_wrapper.Base.{
  ℕ, ◌<◌, ◌≡◌, refl, ap, ◌∙◌, if◌then◌else◌, Option, some, Bool, true, false, not, ◌&&◌, ◌||◌, List,
  [], ◌∷◌, length, get_elem?, set, arith, ◌==◌,
}
use parallel_wrapper.Base.Int.{ℤ, pos, ltb_ℤ, leb_ℤ, eqb_ℤ}
use parallel_wrapper.Base.Text.{Bytes, str_eq, str_eq_refl, str_eq→eq}
use parallel_wrapper.System.{Os}
use parallel_wrapper.NetworkUtil.{
  ip_text, ip_str_from_sockaddr, port_from_sockaddr, inet6_addrstrlen,
}
use parallel_wrapper.StringUtil.Integer.{parsed, parse_integer}
use parallel_wrapper.UdpServer.Ack.{
  touch, ack_from_rank, ack_slot, ack_by, require_master_if, handle_ack,
}
use parallel_wrapper.UdpServer.Message.{Message, is_master, source_ip}
use parallel_wrapper.UdpServer.Runs.{
  run-return_if, run-deref, run-load, run-parse_arg, run-source_ip_if,
}
use parallel_wrapper.UdpServer.Safety.Parts.{array_of}
use parallel_wrapper.Wrapper.{Machine, Ptr, World}
use parallel_wrapper.Wrapper.Action.{
  Result, returned, leave, store, return_if, then_do, ◌>>=◌, ◌>>◌,
}
use parallel_wrapper.Wrapper.Ensures.{load_lem}

-- A message to the master about a rank of the table, from a source whose address can be told.
pub record AboutRank (os : Os) (msg : Message) (w : World) (arg : Bytes) : Type 0 where
  pub me : Machine
  pub is_me : get_elem? w.heap w.par_wrapper.this_machine ≡ some me
  pub master : is_master me ≡ true
  pub table : List (Option Ptr)
  pub is_table : w.par_wrapper.machines ≡ some table
  pub num_procs : w.par_wrapper.num_procs ≡ pos (length table)
  pub rank : ℕ
  pub is_rank : parse_integer (some arg) true ≡ parsed (pos rank)
  pub in_table : rank < length table
  pub ip : Bytes
  pub is_ip : ip_str_from_sockaddr os (some msg.from) true inet6_addrstrlen ≡ ip_text ip

pub in_range :
    (r n : ℕ) (num : ℤ) → r < n → num ≡ pos n → ltb_ℤ (pos r) (pos 0) || leb_ℤ num (pos r) ≡ false
in_range r n num h e = ground arith

pub differs :
    (known ip : Bytes) (a b : ℕ)
    → ((known ≡ ip) × (a ≡ b) → ⊥)
    → not (str_eq known ip) || not (a == b) ≡ true
differs known ip a b h = ground (arith, str_eq→eq known ip)

pub agrees : (ip : Bytes) (a b : ℕ) → a ≡ b → not (str_eq ip ip) || not (a == b) ≡ false
agrees ip a b e = ground (arith, str_eq_refl ip)

-- The result, or that of a handler which finds no memory for the text of the source's address.
abbrev pub unless_full : Os → World → Result (Unit {0}) × World → Result (Unit {0}) × World
unless_full os w R = if os.malloc_ok then R else (returned 3, w)

module _ (os : Os) (msg : Message) (w : World) (command arg : Bytes)
    (a : AboutRank os msg w arg) where
  ack_tail :
      (b : Bool)
      → b ≡ true
      → (R : Result (Unit {0}) × World)
      → ack_from_rank os (pos a.rank) a.ip (port_from_sockaddr (some msg.from)) w ≡ R
      → (return_if (not b && not (eqb_ℤ (pos a.rank) (pos 0))) 3
            >> (require_master_if (not b) 4
                >> (source_ip os msg >>= λ ip.
                    ack_by b os (pos a.rank) ip (port_from_sockaddr (some msg.from)))))
          w
        ≡ unless_full os w R
  ack_tail true e R h = run-source_ip_if w R os msg a.ip _ a.is_ip h
  ack_tail false e R h = cc

  ack_known :
      (R : Result (Unit {0}) × World)
      → msg.args ≡ some (array_of (command ∷ arg ∷ []))
      → ack_from_rank os (pos a.rank) a.ip (port_from_sockaddr (some msg.from)) w ≡ R
      → handle_ack os msg w ≡ unless_full os w R
  unfolding handle_ack
  ack_known R is_args h =
      let S = unless_full os w R in
      run-deref w S msg.args (array_of (command ∷ arg ∷ [])) _ is_args (
        run-parse_arg w S (array_of (command ∷ arg ∷ [])) 1 2 (pos a.rank) _ a.is_rank (
          run-return_if w S
            (ltb_ℤ (pos a.rank) (pos 0) || leb_ℤ w.par_wrapper.num_procs (pos a.rank)) 3 _
            (in_range a.rank (length a.table) w.par_wrapper.num_procs a.in_table a.num_procs)
            (run-load w S w.par_wrapper.this_machine a.me _ a.is_me
              (ack_tail (is_master a.me) a.master R h))))

  -- From the slot of the rank on, when a machine has registered there.
  ack_slot_known :
      (p : Ptr) (m : Machine) (known : Bytes) (R : Result (Unit {0}) × World)
      → msg.args ≡ some (array_of (command ∷ arg ∷ []))
      → get_elem? a.table a.rank ≡ some (some p)
      → get_elem? w.heap p ≡ some m
      → m.ip_addr ≡ some known
      → (return_if (not (str_eq known a.ip) || not (m.port == port_from_sockaddr (some msg.from))) 5
            >> (touch os p >> leave 0))
          w
        ≡ R
      → handle_ack os msg w ≡ unless_full os w R
  unfolding ack_from_rank ack_slot
  ack_slot_known p m known R is_args slot here is_known h = ack_known R is_args (
      run-deref w R w.par_wrapper.machines a.table _ a.is_table (
        run-deref w R (get_elem? a.table a.rank) (some p) _ slot
          (run-load w R p m _ here (run-deref w R m.ip_addr known _ is_known h))))

pub touched :
    (os : Os) (p : Ptr) (m : Machine) (w : World)
    → get_elem? w.heap p ≡ some m
    → ◌≡◌ {A = Result (Unit {0}) × World}
        ((touch os p >> leave 0) w)
        (returned 0, record w { heap = set w.heap p (record m { last_alive = os.now }) })
unfolding touch
touched os p m w here =
    ap (λ q. then_do (then_do q λ m. store p (record m { last_alive = os.now })) λ _. leave 0)
      (load_lem p m w here)

-- On the master, an ACK from the address and the port that its rank has registered with takes the
-- present time as the time the machine was last heard of, if there is memory for the text of the
-- source's address; without it the handler returns 3. Nothing else changes.
pub handle_ack-heard :
    (os : Os) (msg : Message) (w : World) (command arg : Bytes) (a : AboutRank os msg w arg)
    (p : Ptr) (m : Machine)
    → msg.args ≡ some (array_of (command ∷ arg ∷ []))
    → get_elem? a.table a.rank ≡ some (some p)
    → get_elem? w.heap p ≡ some m
    → m.ip_addr ≡ some a.ip
    → m.port ≡ port_from_sockaddr (some msg.from)
    → handle_ack os msg w ≡ (
        if os.malloc_ok
        then (returned 0, record w { heap = set w.heap p (record m { last_alive = os.now }) })
        else (returned 3, w))
handle_ack-heard os msg w command arg a p m is_args slot here known port =
    let R : Result (Unit {0}) × World =
      (returned 0, record w { heap = set w.heap p (record m { last_alive = os.now }) }) in
    ack_slot_known os msg w command arg a p m a.ip R is_args slot here known (
      run-return_if w R _ 5 _ (agrees a.ip m.port (port_from_sockaddr (some msg.from)) port)
        (touched os p m w here))

-- On the master, an ACK that names a rank but comes from another address or port than the rank's is
-- refused with 5, or with 3 if there is no memory for the text of the source's address, and changes
-- nothing either way: nobody else can keep a machine alive.
pub handle_ack-other :
    (os : Os) (msg : Message) (w : World) (command arg : Bytes) (a : AboutRank os msg w arg)
    (p : Ptr) (m : Machine) (known : Bytes)
    → msg.args ≡ some (array_of (command ∷ arg ∷ []))
    → get_elem? a.table a.rank ≡ some (some p)
    → get_elem? w.heap p ≡ some m
    → m.ip_addr ≡ some known
    → ((known ≡ a.ip) × (m.port ≡ port_from_sockaddr (some msg.from)) → ⊥)
    → handle_ack os msg w ≡ (returned (if os.malloc_ok then 5 else 3), w)
handle_ack-other os msg w command arg a p m known is_args slot here is_known other =
    ack_slot_known os msg w command arg a p m known (returned 5, w) is_args slot here is_known
      (rw (differs known a.ip m.port (port_from_sockaddr (some msg.from)) other) refl)
    ∙ code_if os.malloc_ok
  where
    code_if :
        (b : Bool)
        → ◌≡◌ {A = Result (Unit {0}) × World}
            (if b then (returned 5, w) else (returned 3, w))
            (returned (if b then 5 else 3), w)
    code_if true = refl
    code_if false = refl
