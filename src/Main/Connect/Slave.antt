-- ===== src/Main/Connect/Slave.antt =====
-- A slave that looks for its master in src/chirp.c stays ready for the server.
use parallel_wrapper.Base.{
  ℕ, zero, suc, ◌≡◌, ◌≢◌, refl, sym, ◌∙◌, Option, none, some, Bool, true, false, get_elem?, set,
  if◌then◌else◌,
}
use parallel_wrapper.Base.Int.{ℤ}
use parallel_wrapper.Base.Text.{Bytes, codes}
use parallel_wrapper.Chirp.{ip_name, port_name, take_port, take_ip, take_random, fetch_round, fetch}
use parallel_wrapper.Chirp.Attributes.{GetAttr, get_chirp_integer, get_chirp_string}
use parallel_wrapper.StringUtil.Integer.{Parsed, failed, parsed}
use parallel_wrapper.Wrapper.Action.{pure}
use parallel_wrapper.Wrapper.Completes.{OnOk, OnOk-bind, OnOk-load, OnOk-deref}
use parallel_wrapper.Main.Connect.{IsReady, same_rank, stored-IsReady}
use parallel_wrapper.Wrapper.{Machine, Ptr, World, master_rank}

-- This process is not the master.
abbrev NotMaster : World → Type 0
NotMaster w =
    (m : Machine) → get_elem? w.heap w.par_wrapper.this_machine ≡ some m → m.rank ≢ master_rank

-- A slave that the server can start on.
abbrev pub IsSlave : World → Type 0
IsSlave w = IsReady w × NotMaster w

-- On a slave any machine may get another address.
stored-IsSlave :
    (w : World) (p : Ptr) (m m' : Machine)
    → get_elem? w.heap p ≡ some m
    → m'.rank ≡ m.rank
    → IsSlave w
    → IsSlave (record w { heap = set w.heap p m' })
stored-IsSlave w p m m' here rank (h, other) =
    let v = h.valid in
    let no : v.me.rank ≢ master_rank = other v.me v.is_me in
    (
      stored-IsReady w p m m' h here rank (λ r. absurd (no r)),
      λ n at e.
          no
            (sym (same_rank w.par_wrapper w.heap p m m' here rank v (λ r. absurd (no r)) n at) ∙ e),
    )

take_port-IsSlave :
    (w : World) (p : Ptr) (r : Parsed) → IsSlave w → OnOk (λ _ w. IsSlave w) (take_port p r w)
take_port-IsSlave w p (failed rc) h = h
take_port-IsSlave w p (parsed port) h =
    OnOk-load (λ _ w. IsSlave w) w p _ λ m here. stored-IsSlave w p m _ here refl h

take_ip-IsSlave :
    (calloc_ok : Bool) (get : GetAttr) (p : Ptr) (random : ℤ) (ip : Option Bytes) (w : World)
    → IsSlave w
    → OnOk (λ _ w. IsSlave w) (take_ip calloc_ok get p random ip w)
take_ip-IsSlave calloc_ok get p random none w h =
    OnOk-load (λ _ w. IsSlave w) w p _ λ m here. stored-IsSlave w p m _ here refl h
take_ip-IsSlave calloc_ok get p random (some ip) w h =
    OnOk-load (λ _ w. IsSlave w) w p _
      λ m here.
        take_port-IsSlave _ p (get_chirp_integer calloc_ok get (port_name random))
          (stored-IsSlave w p m _ here refl h)

fetch_round-IsSlave :
    (calloc_ok : Bool) (get : GetAttr) (w : World)
    → IsSlave w
    → OnOk (λ _ w. IsSlave w) (fetch_round calloc_ok get w)
unfolding fetch_round
fetch_round-IsSlave calloc_ok get w h =
    OnOk-deref (λ _ w. IsSlave w) w w.par_wrapper.master _
      λ p _. go p (get_chirp_integer calloc_ok get (codes "RandInt"))
  where
    go : (p : Ptr) (r : Parsed) → OnOk (λ _ w. IsSlave w) (take_random calloc_ok get p r w)
    go p (failed rc) = h
    go p (parsed random) =
        take_ip-IsSlave calloc_ok get p random (get_chirp_string calloc_ok get (ip_name random)) w h

pub fetch-IsSlave :
    (calloc_ok : Bool) (in_round : ℕ → GetAttr) (rounds : ℕ) (w : World)
    → IsSlave w
    → OnOk (λ _ w. IsSlave w) (fetch calloc_ok in_round rounds w)
unfolding fetch
fetch-IsSlave calloc_ok in_round zero w h = h
fetch-IsSlave calloc_ok in_round (suc rounds) w h =
    OnOk-bind (λ _ w. IsSlave w) (λ _ w. IsSlave w) (fetch_round calloc_ok (in_round 0) w) _
      (fetch_round-IsSlave calloc_ok (in_round 0) w h)
      (λ found w h. go found w h (fetch-IsSlave calloc_ok (λ i. in_round (suc i)) rounds w h))
  where
    go :
        (b : Bool) (w : World)
        → IsSlave w
        → OnOk (λ _ w. IsSlave w) (fetch calloc_ok (λ i. in_round (suc i)) rounds w)
        → OnOk
            (λ _ w. IsSlave w)
            ((if b then pure true else fetch calloc_ok (λ i. in_round (suc i)) rounds) w)
    go true w h k = h
    go false w h k = k
