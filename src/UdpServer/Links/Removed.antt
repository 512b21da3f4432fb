-- ===== src/UdpServer/Links/Removed.antt =====
-- The links that handle_create_link of src/udp_server.c makes are the ones that cleanup removes.
use parallel_wrapper.Base.{
  ◌≡◌, refl, sym, ap, ◌∙◌, Option, none, some, Bool, true, List, [], ◌∷◌, map, All, false,
  if◌then◌else◌,
}
use mathlib.Core.List.{reverse, reverse_aux}
use parallel_wrapper.Base.Text.{Bytes}
use parallel_wrapper.Cleanup.{unlink_loop, unlink_all}
use parallel_wrapper.Sll.{SlList, sll_add_element}
use parallel_wrapper.System.{Os, Trace, unlinked}
use parallel_wrapper.UdpServer.CreateLink.{save_link}
use parallel_wrapper.UdpServer.Kept.{IsKept}
use parallel_wrapper.UdpServer.Allowed.{Remembers, Anyone, AllowedWake}
use parallel_wrapper.UdpServer.Kept.Rounds.{Reaches, udp_server-Reaches}
use parallel_wrapper.UdpServer.Links.{made, gone}
use parallel_wrapper.UdpServer.Loop.{Wake, udp_server}
use parallel_wrapper.UdpServer.Register.{add_machine}
use parallel_wrapper.Wrapper.Invariant.{IsValid}
use parallel_wrapper.Wrapper.{World}

-- Memory is found, and `unlink` succeeds.
pub record IsGenerous (os : Os) : Type 0 where
  pub has_malloc : os.malloc_ok ≡ true
  pub has_calloc : os.calloc_ok ≡ true
  pub has_strdup : Remembers os
  pub unlinks : (filename : Bytes) → os.unlink_ok filename ≡ true

-- The list has the links that were made, and none has been removed.
pub record IsRecorded (w : World) : Type 0 where
  pub list : SlList
  pub is_list : w.par_wrapper.symlinks ≡ some list
  pub names : list.elements ≡ map some (made w.trace)
  pub none_gone : gone w.trace ≡ []

-- Every link that was made has been removed, each one once, the newest first.
pub record IsCleared (w : World) : Type 0 where
  pub all_gone : gone w.trace ≡ reverse (made w.trace)

module _ (os : Os) (g : IsGenerous os) where
  unlink_loop-gone :
      (names : List Bytes) (t : Trace)
      → gone (unlink_loop os (map some names) t) ≡ reverse_aux names (gone t)
  unfolding unlink_loop gone
  unlink_loop-gone [] t = refl
  unlink_loop-gone (x ∷ names) t =
      ap (λ b. gone (unlink_loop os (map some names) (if b then unlinked x ∷ t else t)))
        (g.unlinks x)
      ∙ unlink_loop-gone names (unlinked x ∷ t)

pub unlink_loop-made :
    (os : Os) (elements : List (Option Bytes)) (t : Trace)
    → made (unlink_loop os elements t) ≡ made t
unfolding unlink_loop made
unlink_loop-made os [] t = refl
unlink_loop-made os (none ∷ elements) t = unlink_loop-made os elements t
unlink_loop-made os (some x ∷ elements) t = unlink_loop-made os elements _ ∙ go (os.unlink_ok x)
  where
    go : (b : Bool) → made (if b then unlinked x ∷ t else t) ≡ made t
    go true = refl
    go false = refl

-- The list with one more name.
added :
    (os : Os)
    → IsGenerous os
    → (o : Option SlList) (list : SlList) (dest : Bytes) → o ≡ some list
    → (sll_add_element os.calloc_ok o (if os.malloc_ok then some dest else none)).1
      ≡ some (record list { elements = some dest ∷ list.elements })
unfolding sll_add_element
added os g none list dest e = absurd cc
added os g (some l) list dest e =
    let same : l ≡ list = cc in
    ap (λ c. (sll_add_element c (some l) (if os.malloc_ok then some dest else none)).1) g.has_calloc
    ∙ ap (λ m. some (record l { elements = (if m then some dest else none) ∷ l.elements }))
        g.has_malloc
    ∙ ap (λ (l : SlList). some (record l { elements = some dest ∷ l.elements })) same

pub IsRecorded-IsKept : IsKept IsRecorded IsCleared IsGenerous Anyone
unfolding save_link made gone add_machine unlink_all
IsRecorded-IsKept = record {
  traced = λ w t m n h. record {
    list = h.list;
    is_list = h.is_list;
    names = h.names ∙ ap (map some) (sym m);
    none_gone = n ∙ h.none_gone;
  };
  flagged = λ w locked exit h. record {
    list = h.list;
    is_list = h.is_list;
    names = h.names;
    none_gone = h.none_gone;
  };
  touched = λ w p m now here h. record {
    list = h.list;
    is_list = h.is_list;
    names = h.names;
    none_gone = h.none_gone;
  };
  entered = λ w machines rank cpus iwd user ip from f r c h. record {
    list = h.list;
    is_list = h.is_list;
    names = h.names;
    none_gone = h.none_gone;
  };
  linked = λ os g w src dest list e h. record {
    list = record h.list { elements = some dest ∷ h.list.elements };
    is_list = added os g w.par_wrapper.symlinks h.list dest h.is_list;
    names = ap (λ l. some dest ∷ l) h.names;
    none_gone = h.none_gone;
  };
  ended = λ os g w h.
      let step : (t : Trace)
          → unlink_all os w.par_wrapper.symlinks t ≡ unlink_loop os (map some (made w.trace)) t =
        λ t. ap (λ o. unlink_all os o t) h.is_list ∙ ap (λ l. unlink_loop os l t) h.names in
      record {
        all_gone =
            ap gone (step w.trace)
            ∙ unlink_loop-gone os g (made w.trace) w.trace
            ∙ ap (reverse_aux (made w.trace)) h.none_gone
            ∙ sym (
                ap reverse
                  (ap made (step w.trace) ∙ unlink_loop-made os (map some (made w.trace)) w.trace));
      };
}

-- The server starts in a valid state, with its list of links and with none made, and its handlers find
-- memory and `unlink` succeeds. As long as it runs its list has the links that it has made, in their
-- order; when it has exited, by a TERM, a signal or a silent machine, it has removed each of them
-- once; and it crashes on a slave at most, where the links then stay as the list names them.
pub udp_server-removes :
    (os : Os) (wakes : List Wake) (w : World)
    → IsGenerous os
    → All (AllowedWake IsGenerous Anyone) wakes
    → IsValid w.par_wrapper w.heap
    → IsRecorded w
    → Reaches IsRecorded IsCleared (udp_server os wakes w)
udp_server-removes os wakes w g allowed v h =
    udp_server-Reaches IsRecorded IsCleared w IsGenerous Anyone IsRecorded-IsKept
      (λ _ g. g.has_strdup) os g wakes allowed v h
