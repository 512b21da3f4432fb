-- ===== src/NetworkUtil/Sockets/First.antt =====
-- Which port out of a range src/network_util.c binds, by the answers of the system alone.
use parallel_wrapper.Base.{
  ℕ, zero, suc, ◌≤◌, ◌<◌, ◌≡◌, refl, sym, ap, ◌∙◌, subst, ◌⊎◌, inl, inr, Option, none, some,
  some-injective, Bool, true, false, if◌then◌else◌, List, [], ◌∷◌, ◌++◌, All, arith,
}
use Prim.Native.Nat.{min, max}
use parallel_wrapper.Base.Int.{ℤ, pos, negsuc, ltb_ℤ}
use parallel_wrapper.NetworkUtil.Sockets.{
  SocketOs, bind_loop, get_bound_dgram_socket, RangeResult, bound, not_bound,
  get_bound_dgram_socket_by_range,
}
use parallel_wrapper.NetworkUtil.Sockets.Range.{Binds, Tries, get_bound_dgram_socket_by_range-Tries}

-- No socket is made for the address, or `bind` refuses it.
abbrev pub Refuses : SocketOs → ℕ → ℕ → Type 0
Refuses os port c = (ltb_ℤ (os.socket port c) (pos 0) ≡ true) ⊎ (os.bind_ok port c ≡ false)

-- The descriptor is that of the first address of the port for which a socket is made and bound.
pub record IsBound (os : SocketOs) (port : ℕ) (fd : ℤ) : Type 0 where
  pub before : List ℕ
  pub c : ℕ
  pub after : List ℕ
  pub listed : os.passive port ≡ some (before ++ c ∷ after)
  pub refused : All (Refuses os port) before
  pub made : os.socket port c ≡ fd
  pub not_negative : ltb_ℤ fd (pos 0) ≡ false
  pub taken : os.bind_ok port c ≡ true

-- Every address of the port refuses.
abbrev pub IsRefused : SocketOs → ℕ → Type 0
IsRefused os port = (info : List ℕ) → os.passive port ≡ some info → All (Refuses os port) info

-- The port is the first from `lo` on that is not refused, and stays below `hi`; one descriptor more
-- is open, that of the socket bound to it. Without a port, all from `lo` to below `hi` are refused, and
-- no descriptor is left open.
abbrev pub IsFirst : SocketOs → ℕ → ℕ → List ℤ → RangeResult × List ℤ → Type 0
IsFirst os lo hi fds (bound port fd, fds') =
    (lo ≤ port)
    × (port < hi)
    × IsBound os port fd
    × (fds' ≡ fd ∷ fds)
    × ((q : ℕ) → lo ≤ q → q < port → IsRefused os q)
IsFirst os lo hi fds (not_bound, fds') = (fds' ≡ fds) × ((q : ℕ) → lo ≤ q → q < hi → IsRefused os q)

-- What the loop over the addresses of a port finds.
abbrev Found : SocketOs → ℕ → List ℕ → ℤ → Type 0
Found os port info fd =
    (before : List ℕ) × (c : ℕ) × (after : List ℕ) × (info ≡ before ++ c ∷ after)
    × All (Refuses os port) before
    × (os.socket port c ≡ fd)
    × (ltb_ℤ fd (pos 0) ≡ false)
    × (os.bind_ok port c ≡ true)

later :
    (os : SocketOs) (port x : ℕ) (info : List ℕ) (fd : ℤ)
    → Refuses os port x
    → Found os port info fd
    → Found os port (x ∷ info) fd
later os port x info fd r (before, c, after, e, refused, made, good, taken) =
    (x ∷ before, c, after, ap (λ l. x ∷ l) e, (r, refused), made, good, taken)

module _ (os : SocketOs) (used : (port c : ℕ) → os.socket port c ≡ pos 0 → ⊥) where
  positive : (a : ℤ) → (a ≡ pos 0 → ⊥) → ltb_ℤ a (pos 0) ≡ false → ltb_ℤ (pos 0) a ≡ true
  positive (pos zero) h e = absurd (h refl)
  positive (pos (suc n)) h e = ground arith
  positive (negsuc n) h e = ground arith

  -- A positive result is found, and without one every address refuses.
  abbrev Settles : ℕ → List ℕ → ℤ → Type 0
  Settles port info fd =
      (ltb_ℤ (pos 0) fd ≡ true → Found os port info fd)
      × ((ltb_ℤ (pos 0) fd ≡ true → ⊥) → All (Refuses os port) info)

  bind_loop-Settles : (port : ℕ) (info : List ℕ) → Settles port info (bind_loop os port info []).0
  unfolding bind_loop
  bind_loop-Settles port [] = ((λ h. absurd cc), (λ h. tt))
  bind_loop-Settles port (x ∷ info) =
      by_answers (ltb_ℤ (os.socket port x) (pos 0)) (os.bind_ok port x) refl refl
        (bind_loop-Settles port info)
    where
      by_answers :
          (no_socket bind_ok : Bool)
          → ltb_ℤ (os.socket port x) (pos 0) ≡ no_socket
          → os.bind_ok port x ≡ bind_ok
          → Settles port info (bind_loop os port info []).0
          → Settles port (x ∷ info) (
              (if no_socket
                then bind_loop os port info []
                else if bind_ok
                then (os.socket port x, os.socket port x ∷ [])
                else bind_loop os port info []).0)
      by_answers true b e f (finds, refuses) =
          ((λ h. later os port x info _ (inl e) (finds h)), (λ h. (inl e, refuses h)))
      by_answers false true e f (finds, refuses) = (
        (λ h. ([], x, info, refl, tt, refl, e, f)),
        (λ h. absurd (h (positive (os.socket port x) (used port x) e))),
      )
      by_answers false false e f (finds, refuses) =
          ((λ h. later os port x info _ (inr f) (finds h)), (λ h. (inr f, refuses h)))

  attempt_cases :
      (port : ℕ)
      → (Binds os port → IsBound os port (get_bound_dgram_socket os port []).0)
        × ((Binds os port → ⊥) → IsRefused os port)
  unfolding get_bound_dgram_socket
  attempt_cases port = by_answer (os.passive port) refl
    where
      by_answer :
          (o : Option (List ℕ))
          → os.passive port ≡ o
          → let r = elim o as (λ _. ℤ × List ℤ) [
            | none ↦ (negsuc 0, [])
            | some info ↦ bind_loop os port info []
          ] in
            (ltb_ℤ (pos 0) r.0 ≡ true → IsBound os port r.0)
            × ((ltb_ℤ (pos 0) r.0 ≡ true → ⊥) → IsRefused os port)
      by_answer none e =
          ((λ h. absurd cc), (λ h info k. absurd (let c : none ≡ some info = sym e ∙ k in cc)))
      by_answer (some info) e =
          let (finds, refuses) = bind_loop-Settles port info in
          (
            (λ h.
                let (before, c, after, split, refused, made, good, taken) = finds h in
                record {
                  before = before;
                  c = c;
                  after = after;
                  listed = e ∙ ap some split;
                  refused = refused;
                  made = made;
                  not_negative = good;
                  taken = taken;
                }),
            (λ h info' k.
                subst (All (Refuses os port)) (some-injective _ _ (sym e ∙ k)) (refuses h)),
          )

  -- If the descriptor 0 is in use, the function binds the first port of which an address is not
  -- refused, by `socket` or by `bind`, from the lower of its two bounds up to but not with the higher
  -- one, on the first such address, and that one descriptor more is open; or every address of all
  -- these ports is refused, and none is left open.
  pub get_bound_dgram_socket_by_range-IsFirst :
      (start end_port : ℕ) (fds : List ℤ)
      → IsFirst os
          (min start end_port)
          (max start end_port)
          fds
          (get_bound_dgram_socket_by_range os start end_port fds)
  get_bound_dgram_socket_by_range-IsFirst start end_port fds =
      by_result (get_bound_dgram_socket_by_range os start end_port fds)
        (get_bound_dgram_socket_by_range-Tries os used start end_port fds)
    where
      by_result :
          (r : RangeResult × List ℤ)
          → Tries os (min start end_port) (max start end_port) fds r
          → IsFirst os (min start end_port) (max start end_port) fds r
      by_result (bound port fd, fds') (a, b, same, binds, opened, before) = (
        a,
        b,
        subst (IsBound os port) (sym same) ((attempt_cases port).0 binds),
        opened,
        (λ q x y. (attempt_cases q).1 (before q x y)),
      )
      by_result (not_bound, fds') (closed, before) =
          (closed, (λ q x y. (attempt_cases q).1 (before q x y)))
