-- ===== src/Main/Prepare/Stages.antt =====
-- src/main.c: what holds between the steps of the set-up.
use parallel_wrapper.Base.{
  ℕ, ◌≡◌, refl, ap, ◌∙◌, Option, some, Bool, true, false, [], ◌∷◌, get_elem?, set, if◌then◌else◌,
  arith,
}
use parallel_wrapper.Args.Bounds.{IsConfigured}
use parallel_wrapper.Base.Int.{ℤ, pos, negsuc, ◌+ℤ◌, ◌≤ℤ◌, to_int, ltb_ℤ}
use parallel_wrapper.Base.Text.{Bytes}
use parallel_wrapper.Main.Prepare.{
  too_close, space_intervals, take_address, store_port, check_required,
}
use parallel_wrapper.NetworkUtil.Interfaces.{Address, no_address, address, fault}
use parallel_wrapper.NetworkUtil.Sockets.{RangeResult, bound, not_bound}
use parallel_wrapper.Wrapper.{Machine, Ptr, ParallelWrapper, World}
use parallel_wrapper.Wrapper.Action.{put_wrapper, store, return_if, ◌>>◌}
use parallel_wrapper.Wrapper.Completes.{OnOk, OnOk-load, OnOk-return_if}

-- The keep-alive interval is positive, and twice the interval, as an `int` that may have wrapped, is less
-- than the timeout; so two intervals pass before the timeout if the interval is below 2^30.
abbrev pub IsSpaced : ParallelWrapper → Type 0
IsSpaced pw =
    (pos 1 ≤ℤ pw.ka_interval)
    × (ltb_ℤ (to_int (pw.ka_interval +ℤ pw.ka_interval)) pw.timeout ≡ true)

-- Behind the checks: the one machine has a rank, and the number of processes is not negative.
pub record IsChecked (w : World) : Type 0 where
  pub me : Machine
  pub is_heap : w.heap ≡ me ∷ []
  pub is_this : w.par_wrapper.this_machine ≡ 0
  pub count : ℕ
  pub is_count : w.par_wrapper.num_procs ≡ pos count
  pub interval_bound : pos 1 ≤ℤ w.par_wrapper.ka_interval

pub record IsAddressed (w : World) : Type 0 where
  pub checked : IsChecked w
  pub spaced : IsSpaced w.par_wrapper
  pub ip : Bytes
  pub is_ip : checked.me.ip_addr ≡ some ip

not_negative : (v : ℤ) → ltb_ℤ v (pos 0) ≡ false → (n : ℕ) × (v ≡ pos n)
not_negative (pos n) h = (n, refl)
not_negative (negsuc n) h = absurd (ground arith)

pub check_required-IsChecked :
    (w : World) → IsConfigured w → OnOk (λ _ w. IsChecked w) (check_required w)
unfolding check_required
check_required-IsChecked w c =
    OnOk-load (λ _ w. IsChecked w) w w.par_wrapper.this_machine
      (λ me.
        return_if (ltb_ℤ me.rank (pos 0)) 2 >> return_if (ltb_ℤ w.par_wrapper.num_procs (pos 0)) 2)
      (λ m here.
        OnOk-return_if (λ _ w. IsChecked w) w (ltb_ℤ m.rank (pos 0)) 2
          (return_if (ltb_ℤ w.par_wrapper.num_procs (pos 0)) 2)
          (λ _. last (ltb_ℤ w.par_wrapper.num_procs (pos 0)) refl))
  where
    last :
        (b : Bool)
        → ltb_ℤ w.par_wrapper.num_procs (pos 0) ≡ b
        → OnOk (λ _ w. IsChecked w) (return_if b 2 w)
    last true e = tt
    last false e =
        let (n, is_n) = not_negative w.par_wrapper.num_procs e in
        record {
          me = c.me;
          is_heap = c.is_heap;
          is_this = c.is_this;
          count = n;
          is_count = is_n;
          interval_bound = c.interval_bound;
        }

-- The same machine and the same count, in another state.
rechecked :
    (w w' : World) (c : IsChecked w) (me : Machine)
    → w'.heap ≡ me ∷ []
    → w'.par_wrapper.this_machine ≡ w.par_wrapper.this_machine
    → w'.par_wrapper.num_procs ≡ w.par_wrapper.num_procs
    → pos 1 ≤ℤ w'.par_wrapper.ka_interval
    → IsChecked w'
rechecked w w' c me heap this n k = record {
  me = me;
  is_heap = heap;
  is_this = this ∙ c.is_this;
  count = c.count;
  is_count = n ∙ c.is_count;
  interval_bound = k;
}

pub Spaced : World → Type 0
Spaced w = IsChecked w × IsSpaced w.par_wrapper

pub space_intervals-Spaced : (w : World) → IsChecked w → OnOk (λ _ w. Spaced w) (space_intervals w)
unfolding space_intervals Spaced ◌+ℤ◌ to_int
space_intervals-Spaced w c = go (too_close w.par_wrapper) refl
  where
    go :
        (b : Bool)
        → too_close w.par_wrapper ≡ b
        → OnOk
            (λ _ w. Spaced w)
            (put_wrapper
              (if b
                then record w.par_wrapper { timeout = pos 300; ka_interval = pos 30 }
                else w.par_wrapper)
              w)
    go true e = (rechecked w _ c c.me c.is_heap refl refl (omega arith), (omega arith, refl))
    go false e = (
      rechecked w _ c c.me c.is_heap refl refl c.interval_bound,
      (c.interval_bound, ground (arith, e)),
    )

-- The store of a new version of the one machine.
changed :
    (w : World) (c : IsChecked w) (m : Machine) → set w.heap w.par_wrapper.this_machine m ≡ m ∷ []
changed w c m = ap (λ p. set w.heap p m) c.is_this ∙ ap (λ h. set h 0 m) c.is_heap

pub take_address-IsAddressed :
    (a : Address) (w : World) → Spaced w → OnOk (λ _ w. IsAddressed w) (take_address a w)
unfolding Spaced rechecked
take_address-IsAddressed no_address w s = tt
take_address-IsAddressed (address ip) w (c, spaced) =
    OnOk-load (λ _ w. IsAddressed w) w w.par_wrapper.this_machine
      (λ me. store w.par_wrapper.this_machine (record me { ip_addr = some ip }))
      (λ m here. record {
        checked =
            rechecked w _ c (record m { ip_addr = some ip })
              (changed w c (record m { ip_addr = some ip })) refl refl c.interval_bound;
        spaced = spaced;
        ip = ip;
        is_ip = refl;
      })
take_address-IsAddressed fault w s = tt

pub this_is_me :
    (w : World) (a : IsAddressed w)
    → get_elem? w.heap w.par_wrapper.this_machine ≡ some a.checked.me
this_is_me w a = ap (get_elem? w.heap) a.checked.is_this ∙ ap (λ h. get_elem? h 0) a.checked.is_heap

pub same_machine : (m m' : Machine) {o : Option Machine} → o ≡ some m → o ≡ some m' → m ≡ m'
same_machine m m' h k = cc

pub same_pointer : {p q : Ptr} → some p ≡ some q → p ≡ q
same_pointer h = cc

pub store_port-IsAddressed :
    (r : RangeResult) (w : World) → IsAddressed w → OnOk (λ _ w. IsAddressed w) (store_port r w)
unfolding rechecked
store_port-IsAddressed not_bound w a = tt
store_port-IsAddressed (bound port socketfd) w a =
    OnOk-load (λ _ w. IsAddressed w) w w.par_wrapper.this_machine
      (λ me.
        store w.par_wrapper.this_machine (record me { port = port })
        >> put_wrapper (record w.par_wrapper { command_socket = socketfd }))
      (λ m here. record {
        checked =
            rechecked w _ a.checked (record m { port = port })
              (changed w a.checked (record m { port = port })) refl refl a.checked.interval_bound;
        spaced = a.spaced;
        ip = a.ip;
        is_ip = ap (λ m. m.ip_addr) (same_machine m a.checked.me here (this_is_me w a)) ∙ a.is_ip;
      })
