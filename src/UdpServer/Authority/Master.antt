-- ===== src/UdpServer/Authority/Master.antt =====
-- No message ends the master.
use parallel_wrapper.Base.{◌≡◌, sym, ap, ◌∙◌, Option, some, true, false, none, List, [], ◌∷◌, All}
use parallel_wrapper.Base.Int.{eqb_ℤ}
use parallel_wrapper.Base.Text.{Bytes}
use parallel_wrapper.StringUtil.Tokens.{StrArray, Split, strsplit}
use parallel_wrapper.System.{Os, Sockaddr}
use parallel_wrapper.UdpServer.Allowed.{AllowedArrival, Remembers, Anyone}
use parallel_wrapper.UdpServer.Authority.{FromMaster, process_message-OnExit}
use parallel_wrapper.UdpServer.Dispatch.{
  process_message, serve_split, serve_datagram, receive, delim_of,
}
use parallel_wrapper.UdpServer.Loop.{Arrival, serve_all}
use parallel_wrapper.UdpServer.Message.{Message, is_master}
use parallel_wrapper.UdpServer.OnExit.{OnExit}
use parallel_wrapper.UdpServer.Safety.Rounds.{later_rank}
use parallel_wrapper.UdpServer.Safety.Serve.{serve_datagram-Good}
use parallel_wrapper.Wrapper.{Machine, World, master_rank}
use parallel_wrapper.Wrapper.Action.{Result, ok, returned, exited, fault, then_do}
use parallel_wrapper.Wrapper.Ensures.{Ensures, Any}
use parallel_wrapper.Wrapper.Invariant.{IsValid}

module _ (os : Os) (w : World) (v : IsValid w.par_wrapper w.heap)
    (rank : v.me.rank ≡ master_rank) where
  other_rank : (msg : Message) → FromMaster os msg w → ⊥
  other_rank msg f = differs f.me v.me f.is_me v.is_me f.other_rank rank
    where
      differs :
          (m m' : Machine) {o : Option Machine}
          → o ≡ some m
          → o ≡ some m'
          → is_master m ≡ false
          → m'.rank ≡ master_rank
          → ⊥
      differs m m' h k e r =
          let same : m ≡ m' = cc in
          let no : true ≡ false =
            sym (ap (λ z. eqb_ℤ z master_rank) (ap (λ (m : Machine). m.rank) same ∙ r)) ∙ e in
          cc

  never :
      (msg : Message) (r : Result (Unit {0}) × World) → OnExit (FromMaster os msg w) r → OnExit ⊥ r
  never msg (ok a, w') h = tt
  never msg (returned rc, w') h = tt
  never msg (exited code, w') h = other_rank msg h
  never msg (fault, w') h = tt

  serve_split-OnExit : (from : Sockaddr) (r : Split StrArray) → OnExit ⊥ (serve_split os from r w)
  serve_split-OnExit from (Split.ok args) =
      let msg : Message = record { args = some args; from = from } in
      never msg (process_message os msg w) (process_message-OnExit os msg w)
  serve_split-OnExit from Split.null =
      let msg : Message = record { args = none; from = from } in
      never msg (process_message os msg w) (process_message-OnExit os msg w)
  serve_split-OnExit from Split.fault = tt

  serve_datagram-OnExit :
      (from : Sockaddr) (datagram : Bytes) → OnExit ⊥ (serve_datagram os from datagram w)
  unfolding serve_datagram
  serve_datagram-OnExit from datagram =
      serve_split-OnExit from (strsplit os.alloc (some (delim_of os)) (some (receive os datagram)))

-- In a valid state of the master, no sequence of datagrams ends the process.
pub serve_all-master :
    (arrivals : List Arrival) (w : World)
    → All (AllowedArrival Remembers Anyone) arrivals
    → (v : IsValid w.par_wrapper w.heap) → v.me.rank ≡ master_rank
    → OnExit ⊥ (serve_all arrivals w)
unfolding serve_all
serve_all-master [] w k v rank = tt
serve_all-master ((os, (from, datagram)) ∷ arrivals) w k v rank =
    go (serve_datagram os from datagram w) (serve_datagram-Good os from datagram w k.0.0 v)
      (serve_datagram-OnExit os w v rank from datagram)
      (λ w' v' r. serve_all-master arrivals w' k.1 v' r)
  where
    go :
        (r : Result (Unit {0}) × World)
        → Ensures {A = Unit {0}} w Any r
        → OnExit ⊥ r
        → ((w' : World) (v' : IsValid w'.par_wrapper w'.heap)
            → v'.me.rank ≡ master_rank
            → OnExit ⊥ (serve_all arrivals w'))
        → OnExit ⊥ (then_do r (λ _. serve_all arrivals))
    go (ok a, w') good h again =
        let g = good.0 in again w' g.valid (later_rank w v w' g.valid.me g g.valid.is_me ∙ rank)
    go (returned rc, w') good h again = tt
    go (exited code, w') good h again = h
    go (fault, w') good h again = tt
