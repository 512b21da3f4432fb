-- ===== src/Main/Connect/Joins.antt =====
-- src/chirp.c leaves the state ready for the server, whatever the attributes of the job are.
use parallel_wrapper.Base.{
  ℕ, ◌≡◌, refl, ap, ◌∙◌, some, Bool, true, false, not, ◌∷◌, get_elem?, set, if◌then◌else◌,
}
use parallel_wrapper.Base.Int.{ℤ, pos, eqb_ℤ}
use parallel_wrapper.Base.Text.{Bytes, codes}
use parallel_wrapper.Main.Fresh.{IsFresh, prepare-IsFresh}
use parallel_wrapper.Chirp.{
  ChirpOs, set_attr, publish, fetch, take_status, iwd_or_cwd, or_else, find_master, chirp_info,
}
use parallel_wrapper.Chirp.Attributes.{get_chirp_integer, get_chirp_string}
use parallel_wrapper.Scratch.Create.{create_scratch}
use parallel_wrapper.StringUtil.Integer.{Parsed, failed, parsed}
use parallel_wrapper.System.{Os, set_attribute}
use parallel_wrapper.UdpServer.Links.{unchanged, made, gone}
use parallel_wrapper.Wrapper.Action.{
  Action, Result, ok, returned, exited, fault, pure, emit, leave, load, store, then_do, ◌>>=◌, ◌>>◌,
}
use parallel_wrapper.Wrapper.Completes.{
  OnOk, OnOk-bind, OnOk-load, OnOk-deref, OnOk-return_if, OnOk-map,
}
use parallel_wrapper.Main.Connect.{
  IsReady, Readies, one_machine, then_Readies, rewrapped, stored-IsReady, create_scratch-Readies,
}
use parallel_wrapper.Main.Connect.Slave.{IsSlave, fetch-IsSlave}
use parallel_wrapper.Main.Prepare.{StartOs, prepare, as_two, connect}
use parallel_wrapper.Main.Prepare.Valid.{IsPrepared, prepare-IsPrepared}
use parallel_wrapper.Wrapper.{Machine, Ptr, World, master_rank}

attribute_set :
    (w : World) (name value : Bytes)
    → IsReady w
    → IsReady (record w { trace = set_attribute name value ∷ w.trace })
unfolding made gone
attribute_set w name value h =
    rewrapped w w.par_wrapper (set_attribute name value ∷ w.trace) refl refl refl refl refl
      (record { same_made = refl; same_gone = refl }) h

set_attr-Readies : (c : ChirpOs) (rc : ℕ) (name value : Bytes) → Readies (set_attr c rc name value)
set_attr-Readies c rc name value w h = go (c.set_ok name value)
  where
    go :
        (b : Bool)
        → OnOk (λ _ w. IsReady w) ((if b then emit (set_attribute name value) else leave rc) w)
    go true = attribute_set w name value h
    go false = tt

publish-Readies : (c : ChirpOs) (me : Machine) → Readies (publish c me)
unfolding publish
publish-Readies c me w h =
    then_Readies (set_attr c 3 _ _) _ (set_attr-Readies c 3 _ _)
      (λ _ w h.
        OnOk-deref (λ _ w. IsReady w) w me.ip_addr _
          λ ip _.
            then_Readies (set_attr c 3 _ _) _ (set_attr-Readies c 3 _ _)
              (λ _. set_attr-Readies c 4 _ _) w h)
      w h

take_status-Readies : (r : Parsed) → Readies (take_status r)
take_status-Readies (failed rc) w h = tt
take_status-Readies (parsed v) w h =
    rewrapped w (record w.par_wrapper { entered_current_status = v }) w.trace refl refl refl refl
      refl (unchanged w.trace) h

module _ (os : Os) (c : ChirpOs) (rounds : ℕ) where
  find_master-IsReady :
      (w : World) (me : Machine)
      → get_elem? w.heap w.par_wrapper.this_machine ≡ some me
      → IsReady w
      → (b : Bool) → eqb_ℤ me.rank master_rank ≡ b
      → OnOk (λ _ w. IsReady w) (find_master b os.calloc_ok c rounds me w)
  find_master-IsReady w me here h true e =
      then_Readies (publish c me) (λ _. pure true) (publish-Readies c me) (λ _ w h. h) w h
  find_master-IsReady w me here h false e =
      OnOk-map (λ _ w. IsSlave w) (λ _ w. IsReady w) (fetch os.calloc_ok c.in_round rounds w)
        (λ _ w s. s.0)
        (fetch-IsSlave os.calloc_ok c.in_round rounds w
          (h, λ n at r. differs (ap (λ (m : Machine). m.rank) (one_machine here at) ∙ r) e))
    where
      differs : {v : ℤ} → v ≡ master_rank → eqb_ℤ v master_rank ≡ false → ⊥
      differs r e = cc

  -- The last part, on the machine of the process.
  located :
      (w : World)
      → IsReady w
      → OnOk
          (λ _ w. IsReady w)
          ((load w.par_wrapper.this_machine >>= λ me.
              find_master (eqb_ℤ me.rank master_rank) os.calloc_ok c rounds me)
            w)
  located w h =
      OnOk-load (λ _ w. IsReady w) w w.par_wrapper.this_machine _
        λ me here. find_master-IsReady w me here h (eqb_ℤ me.rank master_rank) refl

  chirp_info-Readies : Readies (chirp_info os c rounds)
  unfolding chirp_info
  chirp_info-Readies w h =
      OnOk-return_if (λ _ w. IsReady w) w (not c.connects) 1 _
        λ _.
          OnOk-load (λ _ w. IsReady w) w w.par_wrapper.this_machine _
            λ me here.
              let cpus =
                or_else (get_chirp_integer os.calloc_ok c.get (codes "RequestCpus")) (pos 1) in
              let cluster =
                or_else (get_chirp_integer os.calloc_ok c.get (codes "ClusterId"))
                  (pos c.cluster_rand) in
              let w1 : World = record w {
                heap = set w.heap w.par_wrapper.this_machine (record me { cpus = cpus });
              } in
              let h1 : IsReady w1 =
                stored-IsReady w w.par_wrapper.this_machine me (record me { cpus = cpus }) h here
                  refl (λ _. refl) in
              let pw2 = record w.par_wrapper { cluster_id = cluster } in
              let h2 = rewrapped w1 pw2 w1.trace refl refl refl refl refl (unchanged w1.trace) h1 in
              after (record w1 { par_wrapper = pw2 }) h2
                (get_chirp_integer os.calloc_ok c.get (codes "EnteredCurrentStatus"))
    where
      rest : Ptr → Action Bool
      rest this = do
        me ← load this
        store this (record me {
          schedd_iwd = iwd_or_cwd os c.getcwd (get_chirp_string os.calloc_ok c.get (codes "IWD"));
        })
        me ← load this
        find_master (eqb_ℤ me.rank master_rank) os.calloc_ok c rounds me

      after :
          (w : World)
          → IsReady w
          → (r : Parsed)
          → OnOk (λ _ w. IsReady w) ((take_status r >> rest w.par_wrapper.this_machine) w)
      after w h (failed rc) = tt
      after w h (parsed v) =
          let w' : World = record w {
            par_wrapper = record w.par_wrapper { entered_current_status = v };
          } in
          let h' : IsReady w' = take_status-Readies (parsed v) w h in
          OnOk-load (λ _ w. IsReady w) w' w.par_wrapper.this_machine _
            λ me here. located _ (
              stored-IsReady w' w.par_wrapper.this_machine me
                (record me {
                  schedd_iwd =
                      iwd_or_cwd os c.getcwd (get_chirp_string os.calloc_ok c.get (codes "IWD"));
                })
                h' here refl (λ _. refl))

connect-Readies : (s : StartOs) (rounds : ℕ) → Readies (connect s rounds)
unfolding connect
connect-Readies s rounds =
    then_Readies (create_scratch s.os s.scratch) _ (create_scratch-Readies s.os s.scratch)
      (λ _ w h. two (chirp_info s.os s.chirp rounds w) (chirp_info-Readies s.os s.chirp rounds w h))
  where
    two : (r : Result Bool × World) → OnOk (λ _ w. IsReady w) r → OnOk (λ _ w. IsReady w) (as_two r)
    two (ok b, w) h = h
    two (returned rc, w) h = tt
    two (exited code, w) h = tt
    two (fault, w) h = tt

-- `main` up to the start of its listener.
abbrev pub begin : StartOs → ℕ → Result Bool × World
begin s rounds = then_do (prepare s) (λ _. connect s rounds)

-- When `main` gets to the start of its listener, whatever the environment, the command line, the
-- interfaces, the ports and the attributes of the job were, the server can start on the state.
pub begin-IsReady : (s : StartOs) (rounds : ℕ) → OnOk (λ _ w. IsReady w) (begin s rounds)
begin-IsReady s rounds =
    OnOk-bind (λ _ w. IsReady w) (λ _ w. IsReady w) (prepare s) (λ _. connect s rounds)
      (both (prepare s) (prepare-IsPrepared s) (prepare-IsFresh s))
      (λ _ w h. connect-Readies s rounds w h)
  where
    both :
        (r : Result (Unit {0}) × World)
        → OnOk (λ _ w. IsPrepared w) r
        → OnOk (λ _ w. IsFresh w) r
        → OnOk (λ _ w. IsReady w) r
    both (ok a, w) p f = record { valid = p.valid; fresh = f }
    both (returned rc, w) p f = tt
    both (exited code, w) p f = tt
    both (fault, w) p f = tt
