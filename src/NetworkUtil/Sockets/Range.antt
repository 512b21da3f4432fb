-- ===== src/NetworkUtil/Sockets/Range.antt =====
-- The binding of a port out of a range, in src/network_util.c.
use parallel_wrapper.Base.{
  ℕ, zero, suc, ◌+◌, ◌-◌, ◌≤◌, ◌<◌, ◌≡◌, refl, sym, ap, subst, ◌∙◌, Option, none, some, true, false,
  List, [], ◌∷◌, arith, ltb, Bool-cases, ltb→lt, inl, inr,
}
use native.Mathlib.Decide.{ℕ_discrete}
use Prim.Native.Nat.{min, max}
use parallel_wrapper.Base.Int.{ℤ, pos, negsuc, ltb_ℤ}
use parallel_wrapper.NetworkUtil.Sockets.{
  SocketOs, bind_loop, get_bound_dgram_socket, RangeResult, bound, not_bound, range_loop,
  get_bound_dgram_socket_by_range,
}

-- A positive descriptor is what the port's attempt gives, whatever is open.
abbrev pub Binds : SocketOs → ℕ → Type 0
Binds os port = ltb_ℤ (pos 0) (get_bound_dgram_socket os port []).0 ≡ true

-- The port is the first from `lo` on whose attempt succeeds, and stays below `hi`; the only descriptor
-- more is its own. Without a port, no attempt from `lo` to below `hi` succeeds, and none is left open.
abbrev pub Tries : SocketOs → ℕ → ℕ → List ℤ → RangeResult × List ℤ → Type 0
Tries os lo hi fds (bound port fd, fds') =
    (lo ≤ port)
    × (port < hi)
    × (fd ≡ (get_bound_dgram_socket os port []).0)
    × Binds os port
    × (fds' ≡ fd ∷ fds)
    × ((q : ℕ) → lo ≤ q → q < port → Binds os q → ⊥)
Tries os lo hi fds (not_bound, fds') = (fds' ≡ fds) × ((q : ℕ) → lo ≤ q → q < hi → Binds os q → ⊥)

bind_loop-fds :
    (os : SocketOs) (port : ℕ) (info : List ℕ) (fds : List ℤ)
    → ((bind_loop os port info fds).0 ≡ (bind_loop os port info []).0)
      × (ltb_ℤ (pos 0) (bind_loop os port info []).0 ≡ true
          → (bind_loop os port info fds).1 ≡ (bind_loop os port info []).0 ∷ fds)
      × (ltb_ℤ (bind_loop os port info []).0 (pos 0) ≡ true → (bind_loop os port info fds).1 ≡ fds)
unfolding bind_loop
bind_loop-fds os port [] fds = (refl, (λ h. cc), (λ h. refl))
bind_loop-fds os port (curr ∷ info) fds = ground (arith, bind_loop-fds os port info fds)

Tries-at :
    (os : SocketOs) (lo hi lo' hi' : ℕ) (fds : List ℤ) (r : RangeResult × List ℤ)
    → lo ≡ lo'
    → hi ≡ hi'
    → Tries os lo hi fds r
    → Tries os lo' hi' fds r
Tries-at os lo hi lo' hi' fds r e e' h =
    subst (λ a. Tries os a hi' fds r) e (subst (λ b. Tries os lo b fds r) e' h)

-- A port that could not be bound may stand in front of the range.
Tries-later :
    (os : SocketOs) (lo hi : ℕ) (fds : List ℤ) (r : RangeResult × List ℤ)
    → (Binds os lo → ⊥)
    → Tries os (lo + 1) hi fds r
    → Tries os lo hi fds r
Tries-later os lo hi fds (bound port fd, fds') skip (a, b, c, d, e, f) =
    (omega arith, b, c, d, e, before)
  where
    before : (q : ℕ) → lo ≤ q → q < port → Binds os q → ⊥
    before q x y h = elim (ℕ_discrete lo q) [
      | yes same ↦ skip (subst (Binds os) (sym same) h)
      | no differs ↦ f q (let n = differs in ground arith) y h
    ]
Tries-later os lo hi fds (not_bound, fds') skip (e, f) = (e, before)
  where
    before : (q : ℕ) → lo ≤ q → q < hi → Binds os q → ⊥
    before q x y h = elim (ℕ_discrete lo q) [
      | yes same ↦ skip (subst (Binds os) (sym same) h)
      | no differs ↦ f q (let n = differs in ground arith) y h
    ]

-- With the descriptor 0 in use, an attempt that is not taken leaves nothing open.
module _ (os : SocketOs) (used : (port c : ℕ) → os.socket port c ≡ pos 0 → ⊥) where
  nonzero : (a : ℤ) → (a ≡ pos 0 → ⊥) → ltb_ℤ a (pos 0) ≡ false → ltb_ℤ (pos 0) a ≡ true
  nonzero (pos zero) h e = absurd (h refl)
  nonzero (pos (suc n)) h e = ground arith
  nonzero (negsuc n) h e = ground arith

  bind_loop-closed :
      (port : ℕ) (info : List ℕ)
      → ltb_ℤ (pos 0) (bind_loop os port info []).0 ≡ false
      → ltb_ℤ (bind_loop os port info []).0 (pos 0) ≡ true
  unfolding bind_loop
  bind_loop-closed port [] h = refl
  bind_loop-closed port (curr ∷ info) h =
      ground (arith, bind_loop-closed port info, nonzero (os.socket port curr) (used port curr))

  attempt :
      (port : ℕ) (fds : List ℤ)
      → ((get_bound_dgram_socket os port fds).0 ≡ (get_bound_dgram_socket os port []).0)
        × (Binds os port
            → (get_bound_dgram_socket os port fds).1 ≡ (get_bound_dgram_socket os port []).0 ∷ fds)
        × (ltb_ℤ (pos 0) (get_bound_dgram_socket os port []).0 ≡ false
            → (get_bound_dgram_socket os port fds).1 ≡ fds)
  unfolding get_bound_dgram_socket
  attempt port fds = by_answer (os.passive port)
    where
      by_answer :
          (o : Option (List ℕ))
          → let r = λ (fds : List ℤ). elim o as (λ _. ℤ × List ℤ) [
            | none ↦ (negsuc 0, fds)
            | some info ↦ bind_loop os port info fds
          ] in
            ((r fds).0 ≡ (r []).0)
            × (ltb_ℤ (pos 0) (r []).0 ≡ true → (r fds).1 ≡ (r []).0 ∷ fds)
            × (ltb_ℤ (pos 0) (r []).0 ≡ false → (r fds).1 ≡ fds)
      by_answer none = (refl, (λ h. cc), (λ h. refl))
      by_answer (some info) =
          let (same, taken, closed) = bind_loop-fds os port info fds in
          (same, taken, λ h. closed (bind_loop-closed port info h))

  range_loop-Tries :
      (rounds i : ℕ) (fds : List ℤ) → Tries os i (i + rounds) fds (range_loop os rounds i fds)
  unfolding range_loop
  range_loop-Tries zero i fds = (refl, λ q a b h. omega arith)
  range_loop-Tries (suc rounds) i fds =
      let (same, taken, closed) = attempt i fds in
      elim (Bool-cases (ltb_ℤ (pos 0) (get_bound_dgram_socket os i []).0)) [
        | inl good ↦
            let positive : ltb_ℤ (pos 0) (get_bound_dgram_socket os i fds).0 ≡ true =
              ap (ltb_ℤ (pos 0)) same ∙ good in
            rw positive (
              omega arith,
              omega arith,
              same,
              good,
              taken good ∙ ap (λ a. a ∷ fds) (sym same),
              λ q a b h. omega arith,
            )
        | inr bad ↦
            let failed : ltb_ℤ (pos 0) (get_bound_dgram_socket os i fds).0 ≡ false =
              ap (ltb_ℤ (pos 0)) same ∙ bad in
            rw (failed, closed bad)
              (Tries-later os i (i + suc rounds) fds (range_loop os rounds (i + 1) fds) (λ h. cc)
                (Tries-at os (i + 1) (i + 1 + rounds) (i + 1) (i + suc rounds) fds _ refl
                  (omega arith) (range_loop-Tries rounds (i + 1) fds)))
      ]

  -- The outcome of the attempts, in the order of the ports.
  pub get_bound_dgram_socket_by_range-Tries :
      (start end_port : ℕ) (fds : List ℤ)
      → Tries os
          (min start end_port)
          (max start end_port)
          fds
          (get_bound_dgram_socket_by_range os start end_port fds)
  unfolding get_bound_dgram_socket_by_range
  get_bound_dgram_socket_by_range-Tries start end_port fds =
      elim (Bool-cases (ltb end_port start)) [
        | inl e ↦ rw e (
            Tries-at os end_port (end_port + (start - end_port)) (min start end_port)
              (max start end_port) fds _ (omega (arith, ltb→lt end_port start e))
              (omega (arith, ltb→lt end_port start e))
              (range_loop-Tries (start - end_port) end_port fds))
        | inr e ↦ rw e (
            Tries-at os start (start + (end_port - start)) (min start end_port) (max start end_port)
              fds _ (ground arith) (ground arith) (range_loop-Tries (end_port - start) start fds))
      ]
