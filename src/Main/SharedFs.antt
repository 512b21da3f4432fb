-- ===== src/Main/SharedFs.antt =====
-- src/main.c: whether the processes of a job share the directory they were started in.
use parallel_wrapper.Base.{
  ◌++◌, ◌≡◌, ap, Option, none, some, Bool, true, false, List, [], ◌∷◌, if◌then◌else◌, get_elem?,
  Bool-cases, inl, inr, arith,
}
use parallel_wrapper.Base.Int.{ℤ}
use parallel_wrapper.Base.Text.{Bytes, codes, str_eq, str_eq→eq}
use parallel_wrapper.StringUtil.Integer.{format_int}
use parallel_wrapper.UdpClient.{snprintf}
use parallel_wrapper.Wrapper.{Machine, Ptr}

-- The directory of the machine at a pointer; NULL and a wild pointer are a crash.
abbrev pub iwd_of : Option Machine → Option Bytes
iwd_of none = none
iwd_of (some m) = m.iwd

abbrev pub same_iwd : Bytes → Option Bytes → Option Bool → Option Bool
same_iwd iwd none rest = none
same_iwd iwd (some other) none = none
same_iwd iwd (some other) (some rest) = some (if str_eq other iwd then rest else false)

-- The flag `shared_fs` after the loop over the slots; `none` is a crash.
unfoldable pub shared_fs : List Machine → Bytes → List (Option Ptr) → Option Bool
shared_fs heap iwd [] = some true
shared_fs heap iwd (none ∷ slots) = shared_fs heap iwd slots
shared_fs heap iwd (some p ∷ slots) =
    same_iwd iwd (iwd_of (get_elem? heap p)) (shared_fs heap iwd slots)

-- Every rank that has registered was started in the directory.
abbrev pub AllIn : List Machine → Bytes → List (Option Ptr) → Type 0
AllIn heap iwd [] = Unit {0}
AllIn heap iwd (none ∷ slots) = AllIn heap iwd slots
AllIn heap iwd (some p ∷ slots) = (iwd_of (get_elem? heap p) ≡ some iwd) × AllIn heap iwd slots

-- The flag is set only if all registered ranks were started in the directory.
pub shared_fs-AllIn :
    (heap : List Machine) (iwd : Bytes) (slots : List (Option Ptr))
    → shared_fs heap iwd slots ≡ some true
    → AllIn heap iwd slots
unfolding shared_fs
shared_fs-AllIn heap iwd [] h = tt
shared_fs-AllIn heap iwd (none ∷ slots) h = shared_fs-AllIn heap iwd slots h
shared_fs-AllIn heap iwd (some p ∷ slots) h =
    go (iwd_of (get_elem? heap p)) (shared_fs heap iwd slots) h (shared_fs-AllIn heap iwd slots)
  where
    go :
        (o : Option Bytes) (rest : Option Bool)
        → same_iwd iwd o rest ≡ some true
        → (rest ≡ some true → AllIn heap iwd slots)
        → (o ≡ some iwd) × AllIn heap iwd slots
    go none rest h k = absurd cc
    go (some other) none h k = absurd cc
    go (some other) (some rest) h k = elim (Bool-cases (str_eq other iwd)) [
      | inl e ↦ (ap some (str_eq→eq other iwd e), k (ap some (ground (arith, h, e))))
      | inr e ↦ absurd (ground (arith, h, e))
    ]

-- The name of the directory of links, for a cluster and a time.
unfoldable pub fake_fs : ℤ → ℤ → Bytes
fake_fs cluster_id curr_time =
    snprintf (codes "/tmp/condor_hydra_" ++ (format_int cluster_id ++ b'_' ∷ format_int curr_time))
