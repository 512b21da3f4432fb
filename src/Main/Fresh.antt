-- ===== src/Main/Fresh.antt =====
-- src/main.c up to the scratch directory makes and removes no link.
use parallel_wrapper.Base.{
  ℕ, zero, suc, ◌≡◌, refl, ap, ◌∙◌, some, Bool, true, false, not, List, [], ◌∷◌, if◌then◌else◌,
}
use parallel_wrapper.Args.{
  Opt, verbose, no_timeout, help, num_procs, rank, ports, timeout, ka_interval, unknown, set_rank,
  set_num_procs, parse_environment_vars, number, parse_opt, parse_opts, take_executable, parse_args,
  PathResult, path_kept, path_set, overflow, set_environment_vars,
}
use parallel_wrapper.Base.Int.{ℤ, pos, pos_part, ltb_ℤ, eqb_ℤ}
use parallel_wrapper.Base.Text.{Bytes}
use parallel_wrapper.Main.Prepare.{
  StartOs, low_port, high_port, initial, take_path, too_close, space_intervals, take_address,
  store_port, new_table, new_master, set_master, check_required, configure, prepare,
}
use parallel_wrapper.NetworkUtil.Interfaces.{Address, no_address, address, fault, get_ip_addr}
use parallel_wrapper.NetworkUtil.Sockets.{
  RangeResult, bound, not_bound, get_bound_dgram_socket_by_range,
}
use parallel_wrapper.Sll.{SlList, sll_get_list}
use parallel_wrapper.StringUtil.Integer.{Parsed, failed, parsed, parse_integer}
use parallel_wrapper.System.{Os, Environment}
use parallel_wrapper.UdpServer.Links.{made, gone}
use parallel_wrapper.Wrapper.{World, master_rank}
use parallel_wrapper.Wrapper.Action.{Action, returned, return_if, ◌>>=◌, ◌>>◌}
use parallel_wrapper.Wrapper.Completes.{OnOk, OnOk-bind, OnOk-load, OnOk-return_if}

-- The list of links is there and empty, and no link has been made or removed.
pub record IsFresh (w : World) : Type 0 where
  pub list : SlList
  pub is_list : w.par_wrapper.symlinks ≡ some list
  pub no_names : list.elements ≡ []
  pub none_made : made w.trace ≡ []
  pub none_gone : gone w.trace ≡ []

-- The same list and the same trace.
pub same-IsFresh :
    {w w' : World}
    → w'.par_wrapper.symlinks ≡ w.par_wrapper.symlinks
    → w'.trace ≡ w.trace
    → IsFresh w
    → IsFresh w'
same-IsFresh s t h = record {
  list = h.list;
  is_list = s ∙ h.is_list;
  no_names = h.no_names;
  none_made = ap made t ∙ h.none_made;
  none_gone = ap gone t ∙ h.none_gone;
}

-- When the action completes.
abbrev pub Freshens : {A : Type 0} → Action A → Type 0
Freshens m = (w : World) → IsFresh w → OnOk (λ _ w. IsFresh w) (m w)

then_Freshens :
    {A B : Type 0} (m : Action A) (k : Action B) → Freshens m → Freshens k → Freshens (m >> k)
then_Freshens m k hm hk w h =
    OnOk-bind (λ _ w. IsFresh w) (λ _ w. IsFresh w) (m w) (λ _. k) (hm w h) (λ _ w h. hk w h)

set_rank-Freshens : (p : Parsed) → Freshens (set_rank p)
set_rank-Freshens (failed rc) w h = h
set_rank-Freshens (parsed v) w h =
    OnOk-load (λ _ w. IsFresh w) w w.par_wrapper.this_machine _ λ m _. same-IsFresh refl refl h

set_num_procs-Freshens : (p : Parsed) → Freshens (set_num_procs p)
set_num_procs-Freshens (failed rc) w h = h
set_num_procs-Freshens (parsed v) w h = same-IsFresh refl refl h

parse_environment_vars-Freshens : (getenv : Environment) → Freshens (parse_environment_vars getenv)
unfolding parse_environment_vars
parse_environment_vars-Freshens getenv =
    then_Freshens (set_rank _) (set_num_procs _) (set_rank-Freshens _) (set_num_procs-Freshens _)

number-Freshens :
    (p : Parsed) (f : ℤ → Action (Unit {0}))
    → ((v : ℤ) → Freshens (f v))
    → Freshens (number p >>= f)
number-Freshens (failed rc) f k w h = tt
number-Freshens (parsed v) f k w h = k v w h

parse_opt-Freshens : (opt : Opt) → Freshens (parse_opt opt)
unfolding parse_opt
parse_opt-Freshens verbose w h = h
parse_opt-Freshens no_timeout w h = same-IsFresh refl refl h
parse_opt-Freshens help w h = tt
parse_opt-Freshens (num_procs optarg) w h =
    number-Freshens (parse_integer (some optarg) true) _ (λ v. set_num_procs-Freshens (parsed v)) w
      h
parse_opt-Freshens (rank optarg) w h =
    number-Freshens (parse_integer (some optarg) true) _ (λ v. set_rank-Freshens (parsed v)) w h
parse_opt-Freshens (ports optarg) w h = h
parse_opt-Freshens (timeout optarg) w h =
    number-Freshens (parse_integer (some optarg) true) _ (λ v w h. same-IsFresh refl refl h) w h
parse_opt-Freshens (ka_interval optarg) w h =
    number-Freshens (parse_integer (some optarg) true) _ (λ v w h. same-IsFresh refl refl h) w h
parse_opt-Freshens unknown w h = tt

parse_opts-Freshens : (opts : List Opt) → Freshens (parse_opts opts)
unfolding parse_opts
parse_opts-Freshens [] w h = h
parse_opts-Freshens (opt ∷ opts) w h =
    then_Freshens (parse_opt opt) (parse_opts opts) (parse_opt-Freshens opt)
      (parse_opts-Freshens opts) w h

parse_args-Freshens :
    (calloc_ok : Bool) (opts : List Opt) (words : List Bytes)
    → Freshens (parse_args calloc_ok opts words)
unfolding parse_args
parse_args-Freshens calloc_ok opts words =
    then_Freshens (parse_opts opts) (take_executable calloc_ok words) (parse_opts-Freshens opts)
      (go calloc_ok words)
  where
    go : (calloc_ok : Bool) (words : List Bytes) → Freshens (take_executable calloc_ok words)
    go calloc_ok [] w h = tt
    go true (word ∷ words) w h = same-IsFresh refl refl h
    go false (word ∷ words) w h = tt

take_path-Freshens : (r : PathResult) → Freshens (take_path r)
take_path-Freshens path_kept w h = h
take_path-Freshens (path_set path) w h = h
take_path-Freshens overflow w h = tt

return_if-Freshens : (b : Bool) (rc : ℕ) → Freshens (return_if b rc)
return_if-Freshens true rc w h = tt
return_if-Freshens false rc w h = h

check_required-Freshens : Freshens check_required
unfolding check_required
check_required-Freshens w h =
    OnOk-load (λ _ w. IsFresh w) w w.par_wrapper.this_machine _
      λ m _.
        then_Freshens (return_if (ltb_ℤ m.rank (pos 0)) 2) _ (return_if-Freshens _ 2)
          (return_if-Freshens (ltb_ℤ w.par_wrapper.num_procs (pos 0)) 2) w h

space_intervals-Freshens : Freshens space_intervals
unfolding space_intervals
space_intervals-Freshens w h = same-IsFresh (go (too_close w.par_wrapper)) refl h
  where
    go :
        (b : Bool)
        → (if b
            then record w.par_wrapper { timeout = pos 300; ka_interval = pos 30 }
            else w.par_wrapper).symlinks
          ≡ w.par_wrapper.symlinks
    go true = refl
    go false = refl

take_address-Freshens : (a : Address) → Freshens (take_address a)
take_address-Freshens no_address w h = tt
take_address-Freshens (address ip) w h =
    OnOk-load (λ _ w. IsFresh w) w w.par_wrapper.this_machine _ λ m _. same-IsFresh refl refl h
take_address-Freshens fault w h = tt

store_port-Freshens : (r : RangeResult) → Freshens (store_port r)
store_port-Freshens not_bound w h = tt
store_port-Freshens (bound port socketfd) w h =
    OnOk-load (λ _ w. IsFresh w) w w.par_wrapper.this_machine _ λ m _. same-IsFresh refl refl h

set_master-Freshens : (os : Os) → Freshens (set_master os)
unfolding set_master
set_master-Freshens os w h =
    OnOk-load (λ _ w. IsFresh w) w w.par_wrapper.this_machine _ λ m _. go (eqb_ℤ m.rank master_rank)
  where
    table : (n : ℕ) → OnOk (λ _ w. IsFresh w) (new_table w.par_wrapper n w)
    table zero = tt
    table (suc n) = same-IsFresh refl refl h

    go :
        (b : Bool)
        → OnOk
            (λ _ w. IsFresh w)
            ((if b
                then return_if (not os.calloc_ok) 3
                  >> new_table w.par_wrapper (pos_part w.par_wrapper.num_procs)
                else return_if (not os.calloc_ok) 2 >> new_master w.par_wrapper)
              w)
    go true =
        OnOk-return_if (λ _ w. IsFresh w) w (not os.calloc_ok) 3 _
          (λ _. table (pos_part w.par_wrapper.num_procs))
    go false =
        OnOk-return_if (λ _ w. IsFresh w) w (not os.calloc_ok) 2 _ (λ _. same-IsFresh refl refl h)

configure-Freshens : (s : StartOs) → Freshens (configure s)
unfolding configure
configure-Freshens s =
    let port = (get_bound_dgram_socket_by_range s.sockets low_port high_port s.open_fds).0 in
    then_Freshens (parse_environment_vars s.scratch.getenv) _
      (parse_environment_vars-Freshens s.scratch.getenv)
      (then_Freshens (parse_args s.os.calloc_ok s.opts s.words) _
        (parse_args-Freshens s.os.calloc_ok s.opts s.words)
        (then_Freshens (take_path (set_environment_vars s.os.calloc_ok s.scratch.getenv)) _
          (take_path-Freshens (set_environment_vars s.os.calloc_ok s.scratch.getenv))
          (then_Freshens check_required _ check_required-Freshens (
            then_Freshens space_intervals _ space_intervals-Freshens (
              then_Freshens (take_address (get_ip_addr s.os s.ifaddrs)) _
                (take_address-Freshens (get_ip_addr s.os s.ifaddrs))
                (then_Freshens (store_port port) (set_master s.os) (store_port-Freshens port)
                  (set_master-Freshens s.os)))))))

-- When `main` gets to the scratch directory, its list of links is there and empty, and it has made and
-- removed no link.
pub prepare-IsFresh : (s : StartOs) → OnOk (λ _ w. IsFresh w) (prepare s)
unfolding prepare initial configure made gone sll_get_list
prepare-IsFresh s = go s.os.calloc_ok refl
  where
    go :
        (b : Bool)
        → s.os.calloc_ok ≡ b
        → OnOk
            (λ _ w. IsFresh w)
            (if not b then (returned 1, initial s) else configure s (initial s))
    go false e = tt
    go true e = configure-Freshens s (initial s) (record {
      list = record { elements = []; num_elements = 0 };
      is_list = ap (λ b. sll_get_list b b) e;
      no_names = refl;
      none_made = refl;
      none_gone = refl;
    })
