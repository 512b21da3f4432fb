-- ===== src/Main/Answers.antt =====
-- src/main.c: the loops in which a process repeats a message until it has been acknowledged. A slave
-- registers with the master, and the master has links made.

pub mod Heard
use parallel_wrapper.Base.{
  ℕ, zero, suc, ◌+◌, Option, none, some, Bool, true, false, not, ◌&&◌, ◌||◌, List, [], ◌∷◌, ◌==◌,
  get_elem?, if◌then◌else◌,
}
use parallel_wrapper.Base.Int.{ℤ}
use parallel_wrapper.Base.Text.{Bytes}
use parallel_wrapper.Chirp.{ChirpOs, chirp_info}
use parallel_wrapper.System.{Os, Timeval}
use parallel_wrapper.UdpClient.{register_cmd, create_link}
use parallel_wrapper.UdpServer.Loop.{Arrival, serve_all}
use parallel_wrapper.Wrapper.{Machine, Ptr, World}
use parallel_wrapper.Wrapper.Action.{
  Result, ok, returned, exited, fault, Action, pure, deref, load, wrapper, on_trace, ◌>>=◌, ◌>>◌,
}

-- A round: the answers that the message gets, what the listener serves while the process sleeps, and
-- the answers of the job's attributes, with the fuel for their loop.
pub record Round : Type 0 where
  pub os : Os
  pub during : List Arrival
  pub chirp : ChirpOs
  pub chirp_rounds : ℕ

unfoldable pub has_changed : Timeval → Timeval → Bool
has_changed old now = not (old.sec == now.sec) || not (old.usec == now.usec)

-- A message, a sleep, and whether the machine at `target` has been heard of since `old`.
unfoldable pub answered : Action ℕ → Action Machine → List Arrival → Timeval → Action Bool
unfolding has_changed
answered send target during old = do
  rc ← send
  serve_all during
  m ← target
  pure (rc == 0 && has_changed old m.last_alive)

-- `par_wrapper -> master`.
unfoldable pub load_master : Action Machine
load_master = do pw ← wrapper; p ← deref pw.master; load p

unfoldable pub send_register : Os → Action ℕ
unfolding load_master
send_register os = do
  pw ← wrapper
  me ← load pw.this_machine
  m ← load_master
  on_trace (register_cmd os pw.command_socket me.rank me.cpus me.iwd me.user m.ip_addr m.port)

-- The code of `chirp_info` is not looked at; `false` when the fuel of its loop has run out.
abbrev pub unchecked : Result Bool × World → Result Bool × World
unchecked (ok b, w) = (ok b, w)
unchecked (returned rc, w) = (ok true, w)
unchecked (exited code, w) = (exited code, w)
unchecked (fault, w) = (fault, w)

abbrev pub next_round : Bool → Round → Action Bool → Action Bool
next_round true r again = pure true
next_round false r again = (λ w. unchecked (chirp_info r.os r.chirp r.chirp_rounds w)) >>= λ found.
    if found then again else pure false

-- `false` when the rounds have run out: the loop of the source has no bound.
unfoldable pub register_loop : List Round → Timeval → Action Bool
unfolding answered send_register
register_loop [] old = pure false
register_loop (r ∷ rounds) old = answered (send_register r.os) load_master r.during old >>= λ heard.
    next_round heard r (register_loop rounds old)

unfoldable pub register : List Round → Action Bool
unfolding register_loop
register rounds = do m ← load_master; register_loop rounds m.last_alive

-- `par_wrapper -> machines[i]`, which is not NULL.
unfoldable pub load_rank : ℕ → Action Machine
load_rank i = do
  pw ← wrapper
  machines ← deref pw.machines
  slot ← deref (get_elem? machines i)
  p ← deref slot
  load p

unfoldable pub send_link : Os → Bytes → ℕ → Action ℕ
unfolding load_rank
send_link os fake_fs i = do
  pw ← wrapper
  m ← load_rank i
  on_trace (create_link os pw.command_socket m.iwd (some fake_fs) m.ip_addr m.port)

-- What a round of this loop gets: the answers, and what the listener serves.
abbrev pub LinkRound : Type 0
LinkRound = Os × List Arrival

unfoldable pub link_loop : List LinkRound → Bytes → ℕ → Timeval → Action Bool
unfolding answered send_link
link_loop [] fake_fs i old = pure false
link_loop ((os, during) ∷ rounds) fake_fs i old =
    answered (send_link os fake_fs i) (load_rank i) during old >>= λ heard.
    if heard then pure true else link_loop rounds fake_fs i old

-- A rank that has not registered, or that shares its host with an earlier one, is skipped.
abbrev pub link_if : Bool → List LinkRound → Bytes → ℕ → Machine → Action Bool
link_if true rounds fake_fs i m = link_loop rounds fake_fs i m.last_alive
link_if false rounds fake_fs i m = pure true

abbrev pub link_slot : List LinkRound → Bytes → ℕ → Option Ptr → Action Bool
link_slot rounds fake_fs i none = pure true
link_slot rounds fake_fs i (some p) = load p >>= λ m. link_if m.unique rounds fake_fs i m

-- The loop over the ranks, `n` of them from `i` on; `rounds i` is the fuel for rank `i`.
unfoldable pub link_hosts : (ℕ → List LinkRound) → Bytes → ℕ → ℕ → Action Bool
unfolding link_loop
link_hosts rounds fake_fs zero i = pure true
link_hosts rounds fake_fs (suc n) i = do
  pw ← wrapper
  machines ← deref pw.machines
  slot ← deref (get_elem? machines i)
  done ← link_slot (rounds i) fake_fs i slot
  if done then link_hosts rounds fake_fs n (i + 1) else pure false
