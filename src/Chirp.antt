-- ===== src/Chirp.antt =====
-- src/chirp.c: how the processes of a job find their master, through attributes of the job.
pub mod Attributes
pub mod Cleaned
pub mod Rendezvous
use parallel_wrapper.Base.{
  ℕ, zero, suc, ◌-◌, ◌%◌, Option, none, some, Bool, true, false, not, [], ◌∷◌, ◌++◌, if◌then◌else◌,
}
use parallel_wrapper.Base.Int.{ℤ, pos, negsuc, eqb_ℤ}
use parallel_wrapper.Base.Text.{Bytes, codes}
use parallel_wrapper.Chirp.Attributes.{GetAttr, get_chirp_integer, get_chirp_string}
use parallel_wrapper.StringUtil.Integer.{Parsed, failed, parsed, format_int}
use parallel_wrapper.System.{Os, set_attribute}
use parallel_wrapper.UdpClient.{snprintf}
use parallel_wrapper.Wrapper.{Machine, Ptr, master_rank}
use parallel_wrapper.Wrapper.Action.{
  Action, pure, leave, deref, load, store, wrapper, put_wrapper, return_if, emit, ◌>>=◌, ◌>>◌,
}

-- The answers of the chirp library and of the calls that only this file makes.
pub record ChirpOs : Type 0 where
  pub connects : Bool
  pub get : GetAttr
  -- Whether `chirp_client_set_job_attr` of a name and a value returns 0.
  pub set_ok : Bytes → Bytes → Bool
  -- The first result of `rand`, which names the cluster, and the one after `srand`.
  pub cluster_rand : ℕ
  pub rand : ℕ
  pub getcwd : Bytes
  -- What `chirp_client_get_job_attr` gives in each round of the loop.
  pub in_round : ℕ → GetAttr

-- `chirp_client_set_job_attr`, and the return code if it fails.
abbrev pub set_attr : ChirpOs → ℕ → Bytes → Bytes → Action (Unit {0})
set_attr c rc name value = if c.set_ok name value then emit (set_attribute name value) else leave rc

abbrev pub ip_name : ℤ → Bytes
ip_name random = snprintf (codes "MasterIpAddr_" ++ format_int random)

abbrev pub port_name : ℤ → Bytes
port_name random = snprintf (codes "MasterPort_" ++ format_int random)

abbrev pub quoted : Bytes → Bytes
quoted s = snprintf (b'"' ∷ (s ++ b'"' ∷ []))

-- The master's part: a random number, and its address and port under that number. `SHRT_MAX` is 32767.
unfoldable pub publish : ChirpOs → Machine → Action (Unit {0})
publish c me = do
  set_attr c 3 (codes "RandInt") (snprintf (format_int (pos (c.rand % 32767))))
  ip ← deref me.ip_addr
  set_attr c 3 (ip_name (pos (c.rand % 32767))) (quoted ip)
  set_attr c 4 (port_name (pos (c.rand % 32767))) (snprintf (format_int (pos me.port)))

-- `(uint16_t) port`.
abbrev pub to_port : ℤ → ℕ
to_port (pos n) = n % 65536
to_port (negsuc n) = 65535 - n % 65536

-- A round of the loop in every other process; `false` is `continue`.
abbrev pub take_port : Ptr → Parsed → Action Bool
take_port p (failed rc) = pure false
take_port p (parsed port) = do m ← load p; store p (record m { port = to_port port }); pure true

abbrev pub take_ip : Bool → GetAttr → Ptr → ℤ → Option Bytes → Action Bool
take_ip calloc_ok get p random none = do
  m ← load p
  store p (record m { ip_addr = none })
  pure false
take_ip calloc_ok get p random (some ip) = do
  m ← load p
  store p (record m { ip_addr = some ip })
  take_port p (get_chirp_integer calloc_ok get (port_name random))

abbrev pub take_random : Bool → GetAttr → Ptr → Parsed → Action Bool
take_random calloc_ok get p (failed rc) = pure false
take_random calloc_ok get p (parsed random) =
    take_ip calloc_ok get p random (get_chirp_string calloc_ok get (ip_name random))

unfoldable pub fetch_round : Bool → GetAttr → Action Bool
fetch_round calloc_ok get = do
  pw ← wrapper
  p ← deref pw.master
  take_random calloc_ok get p (get_chirp_integer calloc_ok get (codes "RandInt"))

-- The loop, from round `i` on: `false` when the rounds have run out.
unfoldable pub fetch : Bool → (ℕ → GetAttr) → ℕ → Action Bool
unfolding fetch_round
fetch calloc_ok in_round zero = pure false
fetch calloc_ok in_round (suc rounds) = fetch_round calloc_ok (in_round 0) >>= λ found.
    if found then pure true else fetch calloc_ok (λ i. in_round (suc i)) rounds

abbrev pub or_else : Parsed → ℤ → ℤ
or_else (failed rc) v = v
or_else (parsed v) v' = v

abbrev pub take_status : Parsed → Action (Unit {0})
take_status (failed rc) = leave 2
take_status (parsed v) = wrapper >>= λ pw. put_wrapper (record pw { entered_current_status = v })

-- `get_chirp_string` of `IWD`, or the current directory.
abbrev pub iwd_or_cwd : Os → Bytes → Option Bytes → Option Bytes
iwd_or_cwd os cwd none = if os.malloc_ok then some cwd else none
iwd_or_cwd os cwd (some iwd) = some iwd

-- What differs between the master and the others; `rounds` is the fuel of the loop.
abbrev pub find_master : Bool → Bool → ChirpOs → ℕ → Machine → Action Bool
find_master true calloc_ok c rounds me = publish c me >> pure true
find_master false calloc_ok c rounds me = fetch calloc_ok c.in_round rounds

-- `true` when the source returns 0, `false` when the rounds have run out.
unfoldable pub chirp_info : Os → ChirpOs → ℕ → Action Bool
unfolding publish fetch
chirp_info os c rounds = do
  return_if (not c.connects) 1
  pw ← wrapper
  me ← load pw.this_machine
  store pw.this_machine (record me {
    cpus = or_else (get_chirp_integer os.calloc_ok c.get (codes "RequestCpus")) (pos 1);
  })
  put_wrapper (record pw {
    cluster_id =
        or_else (get_chirp_integer os.calloc_ok c.get (codes "ClusterId")) (pos c.cluster_rand);
  })
  take_status (get_chirp_integer os.calloc_ok c.get (codes "EnteredCurrentStatus"))
  me ← load pw.this_machine
  store pw.this_machine (record me {
    schedd_iwd = iwd_or_cwd os c.getcwd (get_chirp_string os.calloc_ok c.get (codes "IWD"));
  })
  me ← load pw.this_machine
  find_master (eqb_ℤ me.rank master_rank) os.calloc_ok c rounds me
