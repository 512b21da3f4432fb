-- ===== src/Main/Job/Ending.antt =====
-- How the master of src/main.c ends, once it has started its child or has failed to.
use parallel_wrapper.Base.{◌≡◌, refl, sym, subst, Bool, List, All, ◌⊎◌, inl, inr}
use parallel_wrapper.Base.Int.{ℤ}
use parallel_wrapper.Cleanup.{cleanup}
use parallel_wrapper.Cleanup.Exits.{cleanup-exits}
use parallel_wrapper.Main.Job.{start, in_parent}
use parallel_wrapper.System.{Os}
use parallel_wrapper.UdpServer.Allowed.{AllowedWake, Remembers, Anyone, AllowedWake-map}
use parallel_wrapper.UdpServer.Dispatch.{end_thread}
use parallel_wrapper.UdpServer.Kept.{Kept}
use parallel_wrapper.UdpServer.Kept.Rounds.{udp_server-AllKept}
use parallel_wrapper.UdpServer.Kept.Term.{cleanup-AllKept}
use parallel_wrapper.UdpServer.Links.Removed.{IsGenerous, IsRecorded, IsCleared, IsRecorded-IsKept}
use parallel_wrapper.UdpServer.Loop.{Wake, udp_server}
use parallel_wrapper.UdpServer.Safety.Rounds.{udp_server-Good, master-IsSlave}
use parallel_wrapper.Wrapper.{World, master_rank}
use parallel_wrapper.Wrapper.Action.{Result, ok, returned, exited, fault, then_do}
use parallel_wrapper.Wrapper.Ensures.{Ensures, Any}
use parallel_wrapper.Wrapper.Invariant.{IsValid}

-- The process has ended with a code that satisfies `C`, and with no link left.
abbrev pub Ends : (C : ℤ → Type 0) → Result (Unit {0}) × World → Type 0
Ends C (ok a, w) = ⊥
Ends C (returned rc, w) = ⊥
Ends C (exited code, w) = C code × IsCleared w
Ends C (fault, w) = ⊥

module _ (os : Os) (g : IsGenerous os) where
  cleanup-Ends :
      (code : ℤ) (w : World)
      → IsValid w.par_wrapper w.heap
      → IsRecorded w
      → Ends (λ c. c ≡ code) (cleanup os code w)
  cleanup-Ends code w v h =
      let (t, e) = cleanup-exits os code w v in
      let kept =
        cleanup-AllKept IsRecorded IsCleared IsGenerous Anyone IsRecorded-IsKept os g code w h in
      subst (Ends (λ c. c ≡ code)) (sym e) (refl, subst (Kept IsRecorded IsCleared) e kept)

-- The state when the child has been started.
abbrev pub parent : ℤ → ℤ → World → World
parent child_pid group w = record w {
  par_wrapper = record w.par_wrapper { child_pid = child_pid; pgid = group };
}

-- The run has called `exit` with this code.
abbrev pub ExitsWith : Result (Unit {0}) × World → ℤ → Type 0
ExitsWith (ok a, w) code = ⊥
ExitsWith (returned rc, w) code = ⊥
ExitsWith (exited c, w) code = c ≡ code
ExitsWith (fault, w) code = ⊥

module _ (os : Os) (g : IsGenerous os) (status : ℤ) where
  weaker :
      (q : Result (Unit {0}) × World) → Ends (λ c. c ≡ status) q → Ends (λ c. (c ≡ status) ⊎ ⊥) q
  weaker (ok a, w) h = h
  weaker (returned rc, w) h = h
  weaker (exited code, w) h = (inl h.0, h.1)
  weaker (fault, w) h = h

  then_Ends :
      (w1 : World) (v : IsValid w1.par_wrapper w1.heap)
      → v.me.rank ≡ master_rank
      → (r : Result (Unit {0}) × World) → Ensures {A = Unit {0}} w1 Any r
      → Kept IsRecorded IsCleared r
      → Ends (λ c. (c ≡ status) ⊎ ExitsWith r c) (then_do (end_thread r) (λ _. cleanup os status))
  then_Ends w1 v rank (ok a, w2) good kept =
      weaker (cleanup os status w2) (cleanup-Ends os g status w2 good.0.valid kept)
  then_Ends w1 v rank (returned rc, w2) good kept =
      weaker (cleanup os status w2) (cleanup-Ends os g status w2 good.valid kept)
  then_Ends w1 v rank (exited code, w2) good kept = (inr refl, kept)
  then_Ends w1 v rank (fault, w2) good kept = master-IsSlave w1 v w2 rank good.0 good.1

  -- In a valid state of the master whose list of links is right, with memory for the handlers and an
  -- `unlink` that succeeds: after a child that was started, whatever `setpgid` has returned, and
  -- whatever datagrams, silent machines and signals came meanwhile, the process calls `exit`, and
  -- every link that it has made is removed, each one once. The code is the status that `waitpid` has
  -- stored, unless the listener has called `exit` while the child ran; then it is that code.
  pub start-Ends :
      (shared : Bool) (child_pid group : ℤ) (listener : Os) (during : List Wake) (w : World)
      → IsGenerous listener
      → All (AllowedWake IsGenerous Anyone) during
      → (v : IsValid w.par_wrapper w.heap) → v.me.rank ≡ master_rank
      → IsRecorded w
      → Ends
          (λ c. (c ≡ status) ⊎ ExitsWith (udp_server listener during (parent child_pid group w)) c)
          (start os shared (in_parent child_pid group listener during status) w)
  unfolding start
  start-Ends shared child_pid group listener during w gl allowed v rank h =
      let w1 : World = parent child_pid group w in
      let v1 : IsValid w1.par_wrapper w1.heap = record {
        me = v.me;
        is_me = v.is_me;
        master = v.master;
        has_table = λ e.
            let t = v.has_table e in
            record { table = t.table; is_table = t.is_table; size = t.size; known = t.known };
      } in
      let h1 : IsRecorded w1 = record {
        list = h.list;
        is_list = h.is_list;
        names = h.names;
        none_gone = h.none_gone;
      } in
      then_Ends w1 v1 rank (udp_server listener during w1)
        (udp_server-Good listener during w1
          (AllowedWake-map IsGenerous Remembers Anyone Anyone (λ _ g. g.has_strdup) (λ _ _. tt)
            during allowed)
          v1)
        (udp_server-AllKept IsRecorded IsCleared IsGenerous Anyone IsRecorded-IsKept listener gl
          during allowed w1 h1)
