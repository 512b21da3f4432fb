-- ===== src/Main/Hosts/Flags.antt =====
-- The marking of src/main.c on the flags alone: `host p` is the address of the machine at `p`.
use parallel_wrapper.Base.{
  ℕ, zero, suc, ◌≡◌, refl, ap, subst, ◌∙◌, Option, none, some, Bool, true, false, not, ◌&&◌, ◌||◌,
  List, [], ◌∷◌, ◌==◌, if◌then◌else◌, get_elem?, take, Bool-cases, inl, inr, arith,
}
use parallel_wrapper.Base.Text.{Bytes, str_eq, str_eq→eq}
use parallel_wrapper.Wrapper.{Ptr}

abbrev pub Flags : Type 0
Flags = Ptr → Bool

abbrev pub update : Flags → Ptr → Bool → Flags
update u q b r = if q == r then b else u r

-- Whether a slot holds the pointer, and whether a slot holds a pointer to a machine with the address.
abbrev pub holds : List (Option Ptr) → Ptr → Bool
holds [] r = false
holds (none ∷ slots) r = holds slots r
holds (some p ∷ slots) r = (p == r) || holds slots r

-- No pointer stands in two slots.
abbrev pub IsDistinct : List (Option Ptr) → Type 0
IsDistinct [] = Unit {0}
IsDistinct (none ∷ slots) = IsDistinct slots
IsDistinct (some p ∷ slots) = (holds slots p ≡ false) × IsDistinct slots

abbrev pub has_host : (Ptr → Bytes) → List (Option Ptr) → Bytes → Bool
has_host host [] ip = false
has_host host (none ∷ slots) ip = has_host host slots ip
has_host host (some p ∷ slots) ip = str_eq (host p) ip || has_host host slots ip

module _ (host : Ptr → Bytes) where
  unfoldable pub later_flags : Ptr → List (Option Ptr) → Flags → Flags
  later_flags p [] u = u
  later_flags p (none ∷ slots) u = later_flags p slots u
  later_flags p (some q ∷ slots) u =
      later_flags p slots (if u q && str_eq (host p) (host q) then update u q false else u)

  unfoldable pub unique_flags : List (Option Ptr) → Flags → Flags
  unfolding later_flags
  unique_flags [] u = u
  unique_flags (none ∷ slots) u = unique_flags slots u
  unique_flags (some p ∷ slots) u = unique_flags slots (if u p then later_flags p slots u else u)

  step_lem :
      (p q r : Ptr) (u : Flags)
      → (if u q && str_eq (host p) (host q) then update u q false else u) r
        ≡ (u r && not ((q == r) && str_eq (host p) (host r)))
  step_lem p q r u = elim (Bool-cases (q == r)) [
    | inl e ↦
        subst
          (λ r.
            (if u q && str_eq (host p) (host q) then update u q false else u) r
            ≡ (u r && not ((q == r) && str_eq (host p) (host r))))
          (same q r e) (ground arith)
    | inr e ↦ ground arith
  ]
    where
      same : (q r : Ptr) → (q == r) ≡ true → q ≡ r
      same q r e = ground arith

  later_flags_lem :
      (p : Ptr) (slots : List (Option Ptr)) (u : Flags) (r : Ptr)
      → later_flags p slots u r ≡ (u r && not (holds slots r && str_eq (host p) (host r)))
  unfolding later_flags
  later_flags_lem p [] u r = ground arith
  later_flags_lem p (none ∷ slots) u r = later_flags_lem p slots u r
  later_flags_lem p (some q ∷ slots) u r =
      later_flags_lem p slots (if u q && str_eq (host p) (host q) then update u q false else u) r
      ∙ ap (λ b. b && not (holds slots r && str_eq (host p) (host r))) (step_lem p q r u)
      ∙ together (u r) (q == r) (holds slots r) (str_eq (host p) (host r))
    where
      together :
          (u a b c : Bool) → ((u && not (a && c)) && not (b && c)) ≡ (u && not ((a || b) && c))
      together u a b c = ground arith

  -- A pointer that is in no slot keeps its flag.
  unique_flags_other :
      (slots : List (Option Ptr)) (u : Flags) (r : Ptr)
      → holds slots r ≡ false
      → unique_flags slots u r ≡ u r
  unfolding unique_flags
  unique_flags_other [] u r h = refl
  unique_flags_other (none ∷ slots) u r h = unique_flags_other slots u r h
  unique_flags_other (some p ∷ slots) u r h =
      let out : holds slots r ≡ false = ground arith in
      unique_flags_other slots (if u p then later_flags p slots u else u) r out ∙ kept (u p) out
    where
      kept : (b : Bool) → holds slots r ≡ false → (if b then later_flags p slots u else u) r ≡ u r
      kept true out = later_flags_lem p slots u r ∙ ground (arith, out)
      kept false out = refl

  -- What the flags are while the loop runs, for the pointers of the slots that are left.
  abbrev IsCurrent : List (Option Ptr) → List (Option Ptr) → Flags → Type 0
  IsCurrent pre slots u = (r : Ptr) → holds slots r ≡ true → u r ≡ not (has_host host pre (host r))

  marked-IsCurrent :
      (pre slots : List (Option Ptr)) (p : Ptr) (u : Flags)
      → IsCurrent pre (some p ∷ slots) u
      → IsCurrent (some p ∷ pre) slots (if u p then later_flags p slots u else u)
  marked-IsCurrent pre slots p u h r held =
      go (u p) (h p (ground arith)) (h r (ground (arith, held)))
    where
      go :
          (b : Bool)
          → b ≡ not (has_host host pre (host p))
          → u r ≡ not (has_host host pre (host r))
          → (if b then later_flags p slots u else u) r
            ≡ not (str_eq (host p) (host r) || has_host host pre (host r))
      go true e now = later_flags_lem p slots u r ∙ ground (arith, now, held)
      go false e now = elim (Bool-cases (str_eq (host p) (host r))) [
        | inl same ↦
            let here : has_host host pre (host r) ≡ true =
              subst (λ ip. has_host host pre ip ≡ true) (str_eq→eq (host p) (host r) same)
                (ground (arith, e)) in
            ground (arith, now, here, same)
        | inr other ↦ ground (arith, now, other)
      ]

  -- In the end a machine is unique if and only if no slot before its own has its address.
  pub unique_flags_first :
      (slots pre : List (Option Ptr)) (u : Flags)
      → IsDistinct slots
      → IsCurrent pre slots u
      → (i : ℕ) (r : Ptr) → get_elem? slots i ≡ some (some r)
      → unique_flags slots u r
        ≡ not (has_host host (take i slots) (host r) || has_host host pre (host r))
  unfolding unique_flags
  unique_flags_first [] pre u distinct h i r at = absurd cc
  unique_flags_first (none ∷ slots) pre u distinct h zero r at = absurd cc
  unique_flags_first (none ∷ slots) pre u distinct h (suc i) r at =
      unique_flags_first slots pre u distinct h i r at
  unique_flags_first (some p ∷ slots) pre u (out, distinct) h zero r at =
      let same : p ≡ r = cc in
      subst
        (λ r.
          unique_flags slots (if u p then later_flags p slots u else u) r
          ≡ not (has_host host pre (host r)))
        same
        (unique_flags_other slots (if u p then later_flags p slots u else u) p out
          ∙ kept (u p)
          ∙ h p (ground arith))
    where
      kept : (b : Bool) → (if b then later_flags p slots u else u) p ≡ u p
      kept true = later_flags_lem p slots u p ∙ ground (arith, out)
      kept false = refl
  unique_flags_first (some p ∷ slots) pre u (out, distinct) h (suc i) r at =
      unique_flags_first slots (some p ∷ pre) (if u p then later_flags p slots u else u) distinct
        (marked-IsCurrent pre slots p u h) i r at
      ∙ ap not (
          turned (has_host host (take i slots) (host r)) (str_eq (host p) (host r))
            (has_host host pre (host r)))
    where
      turned : (a b c : Bool) → (a || (b || c)) ≡ ((b || a) || c)
      turned a b c = ground arith
