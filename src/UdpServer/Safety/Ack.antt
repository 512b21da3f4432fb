-- ===== src/UdpServer/Safety/Ack.antt =====
-- `handle_ack` and `handle_query` are safe.
use parallel_wrapper.Base.{
  ℕ, ◌<◌, ◌≡◌, ◌≢◌, refl, sym, ap, ◌∙◌, subst, Option, none, some, Bool, true, false, not, ◌&&◌,
  ◌||◌, List, length, get_elem?, arith, ◌==◌, get_elem?-some,
}
use parallel_wrapper.Base.Int.{ℤ, pos, negsuc, pos_part, leb_ℤ, ltb_ℤ, eqb_ℤ, eqb_ℤ→eq}
use parallel_wrapper.Base.Text.{Bytes, str_eq}
use parallel_wrapper.System.{Os}
use parallel_wrapper.NetworkUtil.{port_from_sockaddr}
use parallel_wrapper.UdpServer.Message.{Message, is_master, require_master, source_ip}
use parallel_wrapper.UdpServer.Ack.{
  touch, ack_from_master, ack_slot, ack_from_rank, require_master_if, ack_by, handle_ack,
  handle_query,
}
use parallel_wrapper.UdpServer.Safety.Parts.{
  me_of, array_of, Ensures-parse_arg, Ensures-source_ip, Ensures-unless_null, Ensures-send_ack,
}
use parallel_wrapper.Wrapper.{Machine, Ptr, master_rank, World}
use parallel_wrapper.Wrapper.Action.{Action, leave, store, ◌>>=◌, ◌>>◌}
use parallel_wrapper.Wrapper.Invariant.{IsTable, IsKnown, SameMachine}
use parallel_wrapper.Wrapper.Invariant.Laws.{set-Keeps, set-IsValid}
use parallel_wrapper.Wrapper.Ensures.{
  Good, Ensures, Any, Good-trans, Good-trace, Ensures-load, Ensures-bind, Ensures-return_if,
  Ensures-crash_if, IsSlave, Ensures-deref,
}

module _ (w w' : World) (g : Good w w') where
  pub touch-Good :
      (os : Os) (p : Ptr) (m : Machine)
      → get_elem? w'.heap p ≡ some m
      → Ensures {A = Unit {0}} w Any ((touch os p >> leave 0) w')
  unfolding touch
  touch-Good os p m e =
      let same : SameMachine m (record m { last_alive = os.now }) = record {
        port = refl;
        rank = refl;
        cpus = refl;
        iwd = refl;
        ip_addr = refl;
        user = refl;
      } in
      Ensures-bind {A = Unit {0}} {B = Unit {0}} w Any Any (touch os p) (λ _. leave 0) w'
        (Ensures-load {B = Unit {0}} w Any w' p m (λ a. store p (record a { last_alive = os.now }))
          e
          (
            Good-trans g (record {
              valid = set-IsValid w'.heap p m _ e same w'.par_wrapper g.valid;
              keeps = set-Keeps w'.heap p m _ e same w'.par_wrapper;
            }),
            tt,
          ))
        (λ a w'' g'' _. g'')

  ack_slot-Good :
      (os : Os) (ip : Bytes) (port : ℕ) (slot : Option Ptr)
      → ((p : Ptr) → slot ≡ some p → IsKnown w'.heap p)
      → Ensures {A = Unit {0}} w Any (ack_slot os ip port slot w')
  unfolding ack_slot
  ack_slot-Good os ip port none known = g
  ack_slot-Good os ip port (some p) known =
      let (m, addr, here, has_addr) = known p refl in
      Ensures-load {B = Unit {0}} w Any w' p m _ here (
        Ensures-deref {B = Unit {0}} w Any w' m.ip_addr addr _ has_addr (
          Ensures-return_if {B = Unit {0}} w Any w' (not (str_eq addr ip) || not (m.port == port)) 5
            _ g (λ _. touch-Good os p m here)))

  -- The table and its slot are there when the rank is in range.
  ack_from_rank-Good :
      (os : Os) (rank : ℤ) (ip : Bytes) (port : ℕ)
      → (t : IsTable w'.par_wrapper w'.heap) → pos_part rank < length t.table
      → Ensures {A = Unit {0}} w Any (ack_from_rank os rank ip port w')
  unfolding ack_from_rank
  ack_from_rank-Good os rank ip port t h =
      let (slot, at) = get_elem?-some t.table (pos_part rank) h in
      Ensures-deref {B = Unit {0}} w Any w' w'.par_wrapper.machines t.table _ t.is_table (
        Ensures-deref {B = Unit {0}} w Any w' (get_elem? t.table (pos_part rank)) slot _ at
          (ack_slot-Good os ip port slot λ p e. t.known (pos_part rank) p (at ∙ ap some e)))

  ack_from_master-Good :
      (os : Os) (ip : Bytes) (port : ℕ) (p : Ptr) (m : Machine) (addr : Bytes)
      → w'.par_wrapper.master ≡ some p
      → get_elem? w'.heap p ≡ some m
      → m.ip_addr ≡ some addr
      → IsSlave w'
      → Ensures {A = Unit {0}} w Any (ack_from_master os ip port w')
  unfolding ack_from_master
  ack_from_master-Good os ip port p m addr is_p here has_addr slave =
      Ensures-deref {B = Unit {0}} w Any w' w'.par_wrapper.master p _ is_p (
        Ensures-load {B = Unit {0}} w Any w' p m _ here (
          Ensures-deref {B = Unit {0}} w Any w' m.ip_addr addr _ has_addr (
            Ensures-crash_if {B = Unit {0}} w Any w' (not (str_eq addr ip) || not (m.port == port))
              _ g slave (λ _. touch-Good os p m here))))

  -- The master and its address, for a pointer that `require_master` has let through.
  Knows : Unit {0} → World → Type 0
  Knows a w'' =
      (w'' ≡ w')
      × ((p : Ptr) × (m : Machine) × (addr : Bytes) × (w'.par_wrapper.master ≡ some p)
          × (get_elem? w'.heap p ≡ some m)
          × (m.ip_addr ≡ some addr))

  require_master-Knows : (rc : ℕ) → Ensures w Knows (require_master rc w')
  unfolding require_master Knows
  require_master-Knows rc = Ensures-unless_null w Knows w' g w'.par_wrapper.master rc _ λ p is_p.
      let (m, here) = g.valid.master p is_p in
      Ensures-load w Knows w' p m _ here (
        Ensures-unless_null w Knows w' g m.ip_addr rc _
          λ addr e. (g, (refl, (p, m, addr, is_p, here, e))))

  -- After the check the master is known, and nothing has changed.
  pub Ensures-require_master :
      {B : Type 0} (Q : B → World → Type 0) (rc : ℕ) (f : Unit {0} → Action B)
      → ((p : Ptr) (m : Machine) (addr : Bytes)
          → w'.par_wrapper.master ≡ some p
          → get_elem? w'.heap p ≡ some m
          → m.ip_addr ≡ some addr
          → Ensures w Q (f tt w'))
      → Ensures w Q ((require_master rc >>= f) w')
  unfolding Knows
  Ensures-require_master Q rc f h =
      Ensures-bind w Q Knows (require_master rc) f w' (require_master-Knows rc)
        λ a w'' g'' (same, (p, m, addr, is_p, here, e)).
          subst (λ v. Ensures w Q (f a v)) (sym same) (h p m addr is_p here e)

pub rank_bound :
    (n : ℕ) (num rank : ℤ)
    → num ≡ pos n
    → ltb_ℤ rank (pos 0) || leb_ℤ num rank ≡ false
    → pos_part rank < n
rank_bound n num (pos r) e h = ground arith
rank_bound n num (negsuc r) e h = ground arith

not_master : (m : Machine) → is_master m ≡ false → m.rank ≢ master_rank
not_master m f e =
    let no : is_master m ≡ true = ap (λ r. eqb_ℤ r master_rank) e in
    let c : true ≡ false = sym no ∙ f in cc

module _ (w w' : World) (g : Good w w') (os : Os) (msg : Message) where
  -- From the look at the master on; `b` is whether this process is the master.
  ack_rest-Good :
      (b : Bool) (rank : ℤ)
      → ((t : b ≡ true) → IsTable w'.par_wrapper w'.heap)
      → (b ≡ false → IsSlave w')
      → ltb_ℤ rank (pos 0) || leb_ℤ w'.par_wrapper.num_procs rank ≡ false
      → Ensures w Any (
          (require_master_if (not b) 4
              >> (source_ip os msg >>= λ ip.
                  ack_by b os rank ip (port_from_sockaddr (some msg.from))))
            w')
  ack_rest-Good true rank t slave in_range =
      Ensures-source_ip {B = Unit {0}} w Any w' g os msg _ λ ip.
        ack_from_rank-Good w w' g os rank ip _ (t refl)
          (rank_bound (length (t refl).table) w'.par_wrapper.num_procs rank (t refl).size in_range)
  ack_rest-Good false rank t slave in_range =
      Ensures-require_master w w' g {B = Unit {0}} Any 4 _ λ p m addr is_p here has_addr.
        Ensures-source_ip {B = Unit {0}} w Any w' g os msg _
          λ ip. ack_from_master-Good w w' g os ip _ p m addr is_p here has_addr (slave refl)

  pub handle_ack-Good :
      (ps : List Bytes) → msg.args ≡ some (array_of ps) → Ensures w Any (handle_ack os msg w')
  unfolding handle_ack
  handle_ack-Good ps is_args =
      let (me, is_me) = me_of g in
      Ensures-deref {B = Unit {0}} w Any w' msg.args (array_of ps) _ is_args (
        Ensures-return_if {B = Unit {0}} w Any w' (not (eqb_ℤ (array_of ps).dim (pos 2))) 1 _ g λ _.
          Ensures-parse_arg {B = Unit {0}} w Any w' g (array_of ps) 1 2 _ λ rank _.
            Ensures-return_if {B = Unit {0}} w Any w'
              (ltb_ℤ rank (pos 0) || leb_ℤ w'.par_wrapper.num_procs rank) 3 _ g
              λ in_range.
                Ensures-load {B = Unit {0}} w Any w' w'.par_wrapper.this_machine me _ is_me (
                  Ensures-return_if {B = Unit {0}} w Any w'
                    (not (is_master me) && not (eqb_ℤ rank (pos 0))) 3 _ g
                    λ _.
                      ack_rest-Good (is_master me) rank
                        (λ t. g.valid.has_table (eqb_ℤ→eq me.rank master_rank t))
                        (λ f. (me, is_me, not_master me f)) in_range))

  pub handle_query-Good :
      (ps : List Bytes) → msg.args ≡ some (array_of ps) → Ensures w Any (handle_query os msg w')
  unfolding handle_query
  handle_query-Good ps is_args =
      Ensures-deref {B = Unit {0}} w Any w' msg.args (array_of ps) _ is_args (
        Ensures-return_if {B = Unit {0}} w Any w' (not (eqb_ℤ (array_of ps).dim (pos 1))) 1 _ g
          λ _. Ensures-send_ack {B = Unit {0}} w Any w' g os msg _ λ rc t. Good-trace t g)
