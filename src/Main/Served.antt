-- ===== src/Main/Served.antt =====
-- src/main.c from its start, with the server that runs on what it has set up.
use parallel_wrapper.Base.{ℕ, ◌≡◌, sym, ap, ◌∙◌, subst, some, some-injective, List, map, All}
use mathlib.Core.List.{Memᴰ}
use mathlib.Core.List.Memᴰ
use parallel_wrapper.Main.Connect.{IsReady}
use parallel_wrapper.Main.Connect.Joins.{begin, begin-IsReady}
use parallel_wrapper.Main.Fresh.{IsFresh}
use parallel_wrapper.Main.Prepare.{StartOs}
use parallel_wrapper.Sll.{SlList}
use parallel_wrapper.System.{Os}
use parallel_wrapper.UdpServer.Allowed.{Remembers, Anyone, AllowedWake}
use parallel_wrapper.UdpServer.Kept.Rounds.{Reaches}
use parallel_wrapper.UdpServer.Links.Own.{IsOwn, OnlyOwn, udp_server-owns}
use parallel_wrapper.UdpServer.Links.Removed.{IsGenerous, IsRecorded, IsCleared, udp_server-removes}
use parallel_wrapper.UdpServer.Loop.{Wake, udp_server}
use parallel_wrapper.Wrapper.{World}
use parallel_wrapper.Wrapper.Completes.{OnOk, OnOk-map}

fresh-IsRecorded : (w : World) → IsFresh w → IsRecorded w
fresh-IsRecorded w h = record {
  list = h.list;
  is_list = h.is_list;
  names = h.no_names ∙ sym (ap (map some) h.none_made);
  none_gone = h.none_gone;
}

fresh-IsOwn : (w : World) → IsFresh w → IsOwn w
fresh-IsOwn w h = record {
  listed = λ list e d m.
      let same : h.list ≡ list = some-injective _ _ (sym h.is_list ∙ e) in
      absurd (
        Memᴰ.not-nil (
          subst (Memᴰ (some d)) h.no_names
            (subst (λ (l : SlList). Memᴰ (some d) l.elements) (sym same) m)));
  own = λ d m. absurd (Memᴰ.not-nil (subst (Memᴰ d) h.none_gone m));
}

-- Whatever the environment, the command line, the interfaces, the ports and the attributes of the job
-- are: if main gets to the start of its server, then whatever datagrams arrive, and whatever memory or
-- system call fails except the copy of the address of a machine that registers, the server unlinks no
-- file but links that it has made, and it crashes on a slave at most.
pub begin-owns :
    (s : StartOs) (rounds : ℕ) (os : Os) (wakes : List Wake)
    → Remembers os
    → All (AllowedWake Remembers Anyone) wakes
    → OnOk (λ _ w. Reaches IsOwn OnlyOwn (udp_server os wakes w)) (begin s rounds)
begin-owns s rounds os wakes r k =
    OnOk-map (λ _ w. IsReady w) (λ _ w. Reaches IsOwn OnlyOwn (udp_server os wakes w))
      (begin s rounds) (λ _ w h. udp_server-owns os wakes w r k h.valid (fresh-IsOwn w h.fresh))
      (begin-IsReady s rounds)

-- The same start, when the handlers find memory and `unlink` succeeds: when the server has exited it has
-- removed each link that it has made, each one once; it crashes on a slave at most, where its list then
-- still names the links, none of which is removed.
pub begin-removes :
    (s : StartOs) (rounds : ℕ) (os : Os) (wakes : List Wake)
    → IsGenerous os
    → All (AllowedWake IsGenerous Anyone) wakes
    → OnOk (λ _ w. Reaches IsRecorded IsCleared (udp_server os wakes w)) (begin s rounds)
begin-removes s rounds os wakes g k =
    OnOk-map (λ _ w. IsReady w) (λ _ w. Reaches IsRecorded IsCleared (udp_server os wakes w))
      (begin s rounds)
      (λ _ w h. udp_server-removes os wakes w g k h.valid (fresh-IsRecorded w h.fresh))
      (begin-IsReady s rounds)
