-- ===== src/NetworkUtil/Sockets.antt =====
-- The binding of the command socket, in src/network_util.c.
pub mod Range
pub mod First
use parallel_wrapper.Base.{
  ℕ, zero, suc, ◌+◌, ◌-◌, Option, none, some, Bool, List, [], ◌∷◌, ltb, if◌then◌else◌,
}
use parallel_wrapper.Base.Int.{ℤ, pos, negsuc, ltb_ℤ}

-- What the system answers: the addresses that `getaddrinfo(NULL, port, …)` lists, the descriptor that
-- `socket` gives for one of them, and whether `bind` takes it.
pub record SocketOs : Type 0 where
  pub passive : ℕ → Option (List ℕ)
  pub socket : ℕ → ℕ → ℤ
  pub bind_ok : ℕ → ℕ → Bool

-- The loop over the addresses, with the descriptors that are open: `socket` adds one, and `close`
-- takes it away again.
unfoldable pub bind_loop : SocketOs → ℕ → List ℕ → List ℤ → ℤ × List ℤ
bind_loop os port [] open_fds = (negsuc 1, open_fds)
bind_loop os port (curr ∷ info) open_fds =
    let rest = bind_loop os port info open_fds in
    let socketfd = os.socket port curr in
    if ltb_ℤ socketfd (pos 0)
    then rest
    else if os.bind_ok port curr
    then (socketfd, socketfd ∷ open_fds)
    else rest

unfoldable pub get_bound_dgram_socket : SocketOs → ℕ → List ℤ → ℤ × List ℤ
get_bound_dgram_socket os port open_fds = elim (os.passive port) [
  | none ↦ (negsuc 0, open_fds)
  | some info ↦ bind_loop os port info open_fds
]

-- `*port` and `*socketfd` with return code 0, or return code 1 with the last `*socketfd`, if any.
pub data RangeResult : Type 0 where
  bound : ℕ → ℤ → RangeResult
  not_bound : RangeResult

-- `for (i = start; i < end; i++)`, with the rounds left. `i` stays below `end`, so it does not wrap.
unfoldable pub range_loop : SocketOs → ℕ → ℕ → List ℤ → RangeResult × List ℤ
range_loop os zero i open_fds = (not_bound, open_fds)
range_loop os (suc rounds) i open_fds =
    let (socketfd, open_fds') = get_bound_dgram_socket os i open_fds in
    let rest = range_loop os rounds (i + 1) open_fds' in
    if ltb_ℤ (pos 0) socketfd then (bound i socketfd, open_fds') else rest

-- The bounds are swapped if they are in the wrong order. `port` and `socketfd` are never NULL here.
unfoldable pub get_bound_dgram_socket_by_range : SocketOs → ℕ → ℕ → List ℤ → RangeResult × List ℤ
get_bound_dgram_socket_by_range os start end_port open_fds =
    if ltb end_port start
    then range_loop os (start - end_port) end_port open_fds
    else range_loop os (end_port - start) start open_fds
