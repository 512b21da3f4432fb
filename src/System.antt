-- ===== src/System.antt =====
-- What the program asks of the operating system and of the C library, as parameters: every answer
-- that a call can get is a field of `Os`, and what a call does to the outside is an `Event`.
-- (include/wrapper.h and the system headers it includes.)
use parallel_wrapper.Base.{ℕ, zero, suc, ◌+◌, Bool, Option, List, [], ◌∷◌, ltb, if◌then◌else◌}
use parallel_wrapper.Base.Int.{ℤ, pos, sub_ℕ, ◌-ℤ◌}
use parallel_wrapper.Base.Text.{Bytes}

-- `struct timeval`, as `gettimeofday` fills it.
pub record Timeval : Type 0 where
  pub sec : ℕ
  pub usec : ℕ

-- `timersub` of two clock readings: the seconds of the difference, after the borrow.
unfoldable pub timersub_sec : Timeval → Timeval → ℤ
unfolding ◌-ℤ◌
timersub_sec a b = if ltb a.usec b.usec then sub_ℕ a.sec b.sec -ℤ pos 1 else sub_ℕ a.sec b.sec

-- `struct sockaddr`: the family with its address and its port in host order.
pub data Sockaddr : Type 0 where
  inet : ℕ → ℕ → Sockaddr
  inet6 : ℕ → ℕ → Sockaddr
  other_family : Sockaddr

-- `getenv`.
abbrev pub Environment : Type 0
Environment = Bytes → Option Bytes

-- An address that `getaddrinfo` lists.
abbrev pub Endpoint : Type 0
Endpoint = ℕ

pub data Event : Type 0 where
  -- A datagram that `sendto` took whole.
  sent : Endpoint → Bytes → Event
  symlinked : Bytes → Bytes → Event
  unlinked : Bytes → Event
  removed : Bytes → Event
  removed_dir : Bytes → Event
  killed_group : ℤ → Event
  cancelled_listener : Event
  -- A job attribute that the schedd took: its name and its value.
  set_attribute : Bytes → Bytes → Event
  -- A file that was opened for writing, which empties it, and what was printed to a file.
  opened : Bytes → Event
  printed : Bytes → Bytes → Event

-- The newest event comes first.
abbrev pub Trace : Type 0
Trace = List Event

-- One set of answers. Each handler and each loop round gets its own.
pub record Os : Type 0 where
  -- Whether `malloc` and `calloc` find memory.
  pub malloc_ok : Bool
  pub calloc_ok : Bool
  -- Whether the n-th `strdup` of `handle_register` finds memory.
  pub strdup_ok : ℕ → Bool
  -- Whether the n-th allocation of a call of `strsplit` succeeds.
  pub alloc : ℕ → Bool
  -- What fresh memory from `malloc` holds, what stands behind the receive buffer, and what stands
  -- behind the array `delim` of `udp_server`.
  pub garbage : ℕ → ℕ
  pub after_buffer : Bytes
  pub after_delim : Bytes
  pub now : Timeval
  -- `inet_ntop` for the two families.
  pub ntop4 : ℕ → Bytes
  pub ntop6 : ℕ → Bytes
  -- `getaddrinfo` of a host and a port, and whether `sendto` takes all bytes.
  pub getaddrinfo : Bytes → Bytes → Option (List Endpoint)
  pub sendto : Endpoint → Bytes → Bool
  -- Whether `stat`, `symlink` and `unlink` return 0, and the `errno` that `remove` and `rmdir` leave.
  pub stat_ok : Bytes → Bool
  pub symlink_ok : Bytes → Bytes → Bool
  pub unlink_ok : Bytes → Bool
  pub remove_errno : Bytes → ℕ
  pub rmdir_errno : Bytes → ℕ

-- The first `n` bytes of fresh memory.
unfoldable pub fresh : (ℕ → ℕ) → ℕ → ℕ → Bytes
fresh garbage i zero = []
fresh garbage i (suc n) = garbage i ∷ fresh garbage (i + 1) n
