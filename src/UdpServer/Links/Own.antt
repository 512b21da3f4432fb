-- ===== src/UdpServer/Links/Own.antt =====
-- cleanup of src/cleanup.c removes no file that handle_create_link has not made.
use parallel_wrapper.Base.{
  ◌≡◌, refl, sym, ap, subst, Option, none, some, some-injective, Bool, true, false, List, [], ◌∷◌,
  All, inl, inr, if◌then◌else◌,
}
use mathlib.Core.List.{Memᴰ}
use mathlib.Core.List.Memᴰ
use parallel_wrapper.Base.Text.{Bytes}
use parallel_wrapper.Cleanup.{unlink_loop, unlink_all}
use parallel_wrapper.Sll.{SlList, sll_add_element}
use parallel_wrapper.System.{Os, Trace, unlinked}
use parallel_wrapper.UdpServer.CreateLink.{save_link}
use parallel_wrapper.UdpServer.Kept.{IsKept}
use parallel_wrapper.UdpServer.Allowed.{AllowedWake, Remembers, Anyone}
use parallel_wrapper.UdpServer.Kept.Rounds.{Reaches, udp_server-Reaches}
use parallel_wrapper.UdpServer.Links.{made, gone}
use parallel_wrapper.UdpServer.Links.Removed.{unlink_loop-made}
use parallel_wrapper.UdpServer.Loop.{Wake, udp_server}
use parallel_wrapper.UdpServer.Register.{add_machine}
use parallel_wrapper.Wrapper.Invariant.{IsValid}
use parallel_wrapper.Wrapper.{World}

-- The names of the list are among those of the links that were made.
abbrev pub Lists : Option SlList → List Bytes → Type 0
Lists o names =
    (list : SlList) → o ≡ some list → (d : Bytes) → Memᴰ (some d) list.elements → Memᴰ d names

-- Whatever was removed is a link that was made.
abbrev pub RemovesOwn : Trace → Type 0
RemovesOwn t = (d : Bytes) → Memᴰ d (gone t) → Memᴰ d (made t)

pub record IsOwn (w : World) : Type 0 where
  pub listed : Lists w.par_wrapper.symlinks (made w.trace)
  pub own : RemovesOwn w.trace

abbrev pub OnlyOwn : World → Type 0
OnlyOwn w = RemovesOwn w.trace

module _ (names : List Bytes) (dest : Bytes) where
  saved :
      (o : Option SlList) (allocated copied : Bool)
      → Lists o names
      → Lists ((sll_add_element allocated o (if copied then some dest else none)).1) (dest ∷ names)
  unfolding sll_add_element
  saved none allocated copied h list e d m = absurd cc
  saved (some l) false copied h list e d m = Memᴰ.tail (h list e d m)
  saved (some l) true true h list e d m = elim (Memᴰ.cases_cons (after m)) [
    | inl same ↦ Memᴰ.head (some-injective _ _ same)
    | inr m' ↦ Memᴰ.tail (h l refl d m')
  ]
    where
      after : Memᴰ (some d) list.elements → Memᴰ (some d) (some dest ∷ l.elements)
      after = subst (λ (s : SlList). Memᴰ (some d) s.elements) (sym (some-injective _ _ e))
  saved (some l) true false h list e d m = elim (Memᴰ.cases_cons (after m)) [
    | inl same ↦ absurd cc
    | inr m' ↦ Memᴰ.tail (h l refl d m')
  ]
    where
      after : Memᴰ (some d) list.elements → Memᴰ (some d) (none ∷ l.elements)
      after = subst (λ (s : SlList). Memᴰ (some d) s.elements) (sym (some-injective _ _ e))

unlink_loop-Own :
    (os : Os) (elements : List (Option Bytes)) (names : List Bytes) (t : Trace)
    → ((d : Bytes) → Memᴰ (some d) elements → Memᴰ d names)
    → ((d : Bytes) → Memᴰ d (gone t) → Memᴰ d names)
    → (d : Bytes) → Memᴰ d (gone (unlink_loop os elements t))
    → Memᴰ d names
unfolding unlink_loop gone
unlink_loop-Own os [] names t h k = k
unlink_loop-Own os (none ∷ elements) names t h k =
    unlink_loop-Own os elements names t (λ d m. h d (Memᴰ.tail m)) k
unlink_loop-Own os (some x ∷ elements) names t h k =
    unlink_loop-Own os elements names _ (λ d m. h d (Memᴰ.tail m)) (go (os.unlink_ok x))
  where
    go : (b : Bool) (d : Bytes) → Memᴰ d (gone (if b then unlinked x ∷ t else t)) → Memᴰ d names
    go false d m = k d m
    go true d m = elim (Memᴰ.cases_cons m) [ inl e ↦ h d (Memᴰ.head (ap some e)) | inr m' ↦ k d m' ]

unlink_all-Own :
    (os : Os) (o : Option SlList) (t : Trace)
    → Lists o (made t)
    → RemovesOwn t
    → RemovesOwn (unlink_all os o t)
unfolding unlink_all
unlink_all-Own os none t h k d m = k d m
unlink_all-Own os (some list) t h k d m =
    subst (Memᴰ d) (sym (unlink_loop-made os list.elements t))
      (unlink_loop-Own os list.elements (made t) t (h list refl) k d m)

IsOwn-IsKept : IsKept IsOwn OnlyOwn Remembers Anyone
unfolding save_link made gone add_machine
IsOwn-IsKept = record {
  traced = λ w t m n h. record {
    listed = λ list e d i. subst (Memᴰ d) (sym m) (h.listed list e d i);
    own = λ d i. subst (Memᴰ d) (sym m) (h.own d (subst (Memᴰ d) n i));
  };
  flagged = λ w locked exit h. record { listed = h.listed; own = h.own };
  touched = λ w p m now here h. record { listed = h.listed; own = h.own };
  entered =
      λ w machines rank cpus iwd user ip from f r c h. record { listed = h.listed; own = h.own };
  linked = λ os _ w src dest list e h. record {
    listed = saved (made w.trace) dest w.par_wrapper.symlinks os.calloc_ok os.malloc_ok h.listed;
    own = λ d i. Memᴰ.tail (h.own d i);
  };
  ended = λ os _ w h. unlink_all-Own os w.par_wrapper.symlinks w.trace h.listed h.own;
}

-- The server starts in a valid state, in which its list names links that it has made, and in which it
-- has removed nothing else. Whatever datagrams arrive, and whatever memory or system call fails except
-- the copy of the address of a machine that registers: it crashes on a slave at most, and always,
-- also after a crash or an exit, every file that it has unlinked is a link that it has made.
pub udp_server-owns :
    (os : Os) (wakes : List Wake) (w : World)
    → Remembers os
    → All (AllowedWake Remembers Anyone) wakes
    → IsValid w.par_wrapper w.heap
    → IsOwn w
    → Reaches IsOwn OnlyOwn (udp_server os wakes w)
udp_server-owns os wakes w remembers allowed v h =
    udp_server-Reaches IsOwn OnlyOwn w Remembers Anyone IsOwn-IsKept (λ _ r. r) os remembers wakes
      allowed v h
