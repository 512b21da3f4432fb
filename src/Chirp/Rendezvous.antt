-- ===== src/Chirp/Rendezvous.antt =====
-- src/chirp.c: the attributes that the master publishes, and what the other processes make of them.
use parallel_wrapper.Base.{
  ℕ, zero, suc, ◌%◌, ◌^◌, ◌≤◌, ◌<◌, ◌≡◌, refl, ap, ◌∙◌, none, some, true, List, [], ◌∷◌, ◌++◌,
  length, length-append, get_elem?, set, get_elem?-set_self, get_elem?-lt, if◌then◌else◌, arith,
  All,
}
use parallel_wrapper.Base.Int.{pos}
use parallel_wrapper.Base.Text.{Bytes, codes, str_eq, str_eq_refl}
use parallel_wrapper.Chirp.{
  ChirpOs, ip_name, port_name, quoted, publish, take_random, take_ip, take_port, to_port,
  fetch_round,
}
use parallel_wrapper.Chirp.Attributes.{GetAttr, get_chirp_integer}
use parallel_wrapper.Chirp.Cleaned.{
  IsPlain, get_chirp_string_quoted, get_chirp_integer-digits, take_short, digits_short,
}
use parallel_wrapper.StringUtil.Integer.{parsed, digits, format_int}
use parallel_wrapper.System.{Trace, set_attribute}
use parallel_wrapper.UdpClient.{snprintf}
use parallel_wrapper.Wrapper.{Machine, Ptr, World}
use parallel_wrapper.Wrapper.Action.{Action, ok, pure, deref, load, store, then_do, ◌>>=◌, ◌>>◌}
use parallel_wrapper.Wrapper.Ensures.{load_lem}
use native.Mathlib.Nat.{mod-lt, mod-eq_of_lt}

-- The job attributes after what was done: the newest value of each name.
abbrev pub attr_of : Trace → GetAttr
attr_of [] key = none
attr_of (set_attribute name value ∷ t) key = if str_eq name key then some value else attr_of t key
attr_of (_ ∷ t) key = attr_of t key

-- The attributes that tell of the master at `ip` and `port`, under the number `random`.
pub record IsPublished (get : GetAttr) (random : ℕ) (ip : Bytes) (port : ℕ) : Type 0 where
  pub bound : random < 32767
  pub rand_int : get (codes "RandInt") ≡ some (digits random)
  pub ip_attr : get (ip_name (pos random)) ≡ some (b'"' ∷ (ip ++ b'"' ∷ []))
  pub port_attr : get (port_name (pos random)) ≡ some (digits port)

short_digits : (n : ℕ) → n < 2 ^ 31 → snprintf (digits n) ≡ digits n
short_digits n h = take_short 1023 (digits n) (omega (arith, digits_short n h))

-- What the master has done then, the newest attribute first.
abbrev published : ℕ → Bytes → ℕ → Trace → Trace
published random ip port t =
    set_attribute (port_name (pos random)) (snprintf (format_int (pos port)))
    ∷ set_attribute (ip_name (pos random)) (quoted ip)
    ∷ set_attribute (codes "RandInt") (snprintf (format_int (pos random)))
    ∷ t

publish_lem :
    (c : ChirpOs) (me : Machine) (ip : Bytes) (w : World)
    → ((name value : Bytes) → c.set_ok name value ≡ true)
    → me.ip_addr ≡ some ip
    → publish c me w ≡ (ok tt, record w { trace = published (c.rand % 32767) ip me.port w.trace })
unfolding publish
publish_lem c me ip w set_ok is_ip = simp (set_ok, is_ip) refl

attr_of_same :
    (name value : Bytes) (t : Trace) → attr_of (set_attribute name value ∷ t) name ≡ some value
attr_of_same name value t = rw (str_eq_refl name) refl

ip_attr_lem :
    (random : ℕ) (ip : Bytes) (port : ℕ) (t : Trace)
    → attr_of (published random ip port t) (ip_name (pos random)) ≡ some (quoted ip)
ip_attr_lem random ip port t =
    attr_of_same (ip_name (pos random)) (quoted ip)
      (set_attribute (codes "RandInt") (snprintf (format_int (pos random))) ∷ t)

published-IsPublished :
    (random : ℕ) (ip : Bytes) (port : ℕ) (t : Trace)
    → random < 32767
    → length ip ≤ 1021
    → port < 65536
    → IsPublished (attr_of (published random ip port t)) random ip port
unfolding format_int
published-IsPublished random ip port t random_bound short port_bound = record {
  bound = random_bound;
  rand_int = ap some (short_digits random (omega arith));
  ip_attr =
      ip_attr_lem random ip port t
      ∙ ap some (
          take_short 1023 (b'"' ∷ (ip ++ b'"' ∷ [])) (omega (arith, length-append ip (b'"' ∷ []))));
  port_attr =
      attr_of_same (port_name (pos random)) (snprintf (format_int (pos port))) (
        set_attribute (ip_name (pos random)) (quoted ip)
        ∷ set_attribute (codes "RandInt") (snprintf (format_int (pos random)))
        ∷ t)
      ∙ ap some (short_digits port (omega arith));
}

set_twice : (xs : List Machine) (p : ℕ) (a b : Machine) → set (set xs p a) p b ≡ set xs p b
set_twice [] p a b = refl
set_twice (x ∷ xs) zero a b = refl
set_twice (x ∷ xs) (suc p) a b = ap (λ l. x ∷ l) (set_twice xs p a b)

-- A state in which the master is known at `ip` and `port`.
abbrev pub with_master : World → Ptr → Machine → Bytes → ℕ → World
with_master w p m ip port = record w {
  heap = set w.heap p (record m { ip_addr = some ip; port = port });
}

load_then :
    {A : Type 0} (p : Ptr) (m : Machine) (f : Machine → Action A) (w : World)
    → get_elem? w.heap p ≡ some m
    → (load p >>= f) w ≡ f m w
load_then p m f w here = ap (λ r. then_do r f) (load_lem p m w here)

take_port_lem :
    (w : World) (p : Ptr) (m : Machine) (ip : Bytes) (port : ℕ)
    → get_elem? w.heap p ≡ some m
    → port < 65536
    → take_port p
        (parsed (pos port))
        (record w { heap = set w.heap p (record m { ip_addr = some ip }) })
      ≡ (ok true, with_master w p m ip port)
take_port_lem w p m ip port here bound =
    let m' : Machine = record m { ip_addr = some ip } in
    let there = get_elem?-set_self w.heap p m' (get_elem?-lt w.heap p here) in
    load_then p m' (λ m. store p (record m { port = to_port (pos port) }) >> pure true)
      (record w { heap = set w.heap p m' }) there
    ∙ ap (λ n. (ok true, record w { heap = set (set w.heap p m') p (record m' { port = n }) }))
        (mod-eq_of_lt bound)
    ∙ ap (λ h. (ok true, record w { heap = h })) (set_twice w.heap p m' (record m' { port = port }))

-- A round of the loop finds the master that the attributes tell of.
fetch_round-IsPublished :
    (get : GetAttr) (random : ℕ) (c : ℕ) (s : Bytes) (port : ℕ) (w : World) (p : Ptr) (m : Machine)
    → IsPublished get random (c ∷ s) port
    → All IsPlain (c ∷ s)
    → port < 65536
    → w.par_wrapper.master ≡ some p
    → get_elem? w.heap p ≡ some m
    → fetch_round true get w ≡ (ok true, with_master w p m (c ∷ s) port)
unfolding fetch_round
fetch_round-IsPublished get random c s port w p m is plain bound is_master here =
    ap
      (λ o.
        (deref o >>= λ p. take_random true get p (get_chirp_integer true get (codes "RandInt"))) w)
      is_master
    ∙ ap (λ r. take_random true get p r w)
        (get_chirp_integer-digits get (codes "RandInt") random (omega (arith, is.bound))
          is.rand_int)
    ∙ ap (λ o. take_ip true get p (pos random) o w)
        (get_chirp_string_quoted get (ip_name (pos random)) c s plain is.ip_attr)
    ∙ load_then p m
        (λ m.
          store p (record m { ip_addr = some (c ∷ s) })
          >> take_port p (get_chirp_integer true get (port_name (pos random))))
        w here
    ∙ ap
        (λ r.
          take_port p r (record w { heap = set w.heap p (record m { ip_addr = some (c ∷ s) }) }))
        (get_chirp_integer-digits get (port_name (pos random)) port (omega arith) is.port_attr)
    ∙ take_port_lem w p m (c ∷ s) port here bound

-- The attributes that the master sets tell every process, in the first round that sees them, the
-- master's own address and port, and change nothing else of its state: for a dotted address of at
-- most 1021 bytes, when the schedd takes every attribute.
pub publish-fetch_round :
    (c : ChirpOs) (me : Machine) (b : ℕ) (s : Bytes) (w slave : World) (p : Ptr) (m : Machine)
    → ((name value : Bytes) → c.set_ok name value ≡ true)
    → me.ip_addr ≡ some (b ∷ s)
    → All IsPlain (b ∷ s)
    → length (b ∷ s) ≤ 1021
    → me.port < 65536
    → slave.par_wrapper.master ≡ some p
    → get_elem? slave.heap p ≡ some m
    → (w' : World) × (publish c me w ≡ (ok tt, w'))
      × (fetch_round true (attr_of w'.trace) slave
          ≡ (ok true, with_master slave p m (b ∷ s) me.port))
publish-fetch_round c me b s w slave p m set_ok is_ip plain short bound is_master here =
    let random = c.rand % 32767 in
    (
      record w { trace = published random (b ∷ s) me.port w.trace },
      publish_lem c me (b ∷ s) w set_ok is_ip,
      fetch_round-IsPublished _ random b s me.port slave p m
          (published-IsPublished random (b ∷ s) me.port w.trace (mod-lt c.rand (omega arith)) short
            bound)
          plain bound is_master here,
    )
