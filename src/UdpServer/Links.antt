-- ===== src/UdpServer/Links.antt =====
-- The links that a process has made and those that it has removed, as its trace tells them, and the
-- parts of the server that do neither (src/udp_client.c, src/network_util.c, src/scratch.c).
pub mod Removed
pub mod Own
use parallel_wrapper.Base.{
  ℕ, ◌≡◌, refl, Option, none, some, Bool, true, false, not, ◌∙◌, List, [], ◌∷◌, ◌==◌, if◌then◌else◌,
}
use parallel_wrapper.Base.Int.{ℤ, pos, ltb_ℤ, leb_ℤ}
use parallel_wrapper.Base.Text.{Bytes}
use parallel_wrapper.NetworkUtil.{
  IpText, ip_error, ip_text, ip_str_from_sockaddr, port_from_sockaddr, inet6_addrstrlen, send_loop,
  send_string_to_ip_port, send_string_reply,
}
use parallel_wrapper.Scratch.{
  remove_file, remove_in, cleanup_scratch, machine_file, ssh_wrapper, ssh_config, sshd_log,
}
use parallel_wrapper.StringUtil.Integer.{digits}
use parallel_wrapper.StringUtil.Paths.{join_paths}
use parallel_wrapper.System.{
  Event, sent, symlinked, unlinked, removed, removed_dir, killed_group, cancelled_listener,
  set_attribute, opened, printed, Endpoint, Os, Sockaddr, Trace,
}
use parallel_wrapper.UdpClient.{
  ack, query, term, ack_message, query_message, term_message, snprintf,
}

-- The names of the links that were made, the newest first.
unfoldable pub made : Trace → List Bytes
made [] = []
made (symlinked src dest ∷ t) = dest ∷ made t
made (sent _ _ ∷ t) = made t
made (unlinked _ ∷ t) = made t
made (removed _ ∷ t) = made t
made (removed_dir _ ∷ t) = made t
made (killed_group _ ∷ t) = made t
made (cancelled_listener ∷ t) = made t
made (set_attribute _ _ ∷ t) = made t
made (opened _ ∷ t) = made t
made (printed _ _ ∷ t) = made t

-- What was unlinked, the newest first.
unfoldable pub gone : Trace → List Bytes
gone [] = []
gone (unlinked filename ∷ t) = filename ∷ gone t
gone (sent _ _ ∷ t) = gone t
gone (symlinked _ _ ∷ t) = gone t
gone (removed _ ∷ t) = gone t
gone (removed_dir _ ∷ t) = gone t
gone (killed_group _ ∷ t) = gone t
gone (cancelled_listener ∷ t) = gone t
gone (set_attribute _ _ ∷ t) = gone t
gone (opened _ ∷ t) = gone t
gone (printed _ _ ∷ t) = gone t

-- From `t` to `t'` no link was made or unlinked.
pub record IsLinkless (t t' : Trace) : Type 0 where
  pub same_made : made t' ≡ made t
  pub same_gone : gone t' ≡ gone t

pub unchanged : (t : Trace) → IsLinkless t t
unchanged t = record { same_made = refl; same_gone = refl }

pub IsLinkless-trans : {a b c : Trace} → IsLinkless a b → IsLinkless b c → IsLinkless a c
IsLinkless-trans x y = record {
  same_made = y.same_made ∙ x.same_made;
  same_gone = y.same_gone ∙ x.same_gone;
}

if-IsLinkless :
    {A : Type 0} (c : Bool) (t : Trace) (x y : A × Trace)
    → IsLinkless t x.1
    → IsLinkless t y.1
    → IsLinkless t ((if c then x else y).1)
if-IsLinkless true t x y hx hy = hx
if-IsLinkless false t x y hx hy = hy

module _ (os : Os) (t : Trace) where
  send_loop-IsLinkless :
      (string : Bytes) (info : List Endpoint) → IsLinkless t ((send_loop os string info t).1)
  unfolding send_loop made gone
  send_loop-IsLinkless string [] = unchanged t
  send_loop-IsLinkless string (e ∷ info) =
      if-IsLinkless (os.sendto e string) t (0, sent e string ∷ t) (send_loop os string info t)
        (record { same_made = refl; same_gone = refl }) (send_loop-IsLinkless string info)

  send-IsLinkless :
      (ip : Option Bytes) (port : ℕ) (string : Option Bytes) (fd : ℤ)
      → IsLinkless t ((send_string_to_ip_port os ip port string fd t).1)
  unfolding send_string_to_ip_port
  send-IsLinkless none port string fd = unchanged t
  send-IsLinkless (some ip) port none fd = unchanged t
  send-IsLinkless (some ip) port (some string) fd =
      if-IsLinkless (leb_ℤ fd (pos 0)) t (2, t) _ (unchanged t)
        (by_info (os.getaddrinfo ip (digits port)))
    where
      by_info :
          (o : Option (List Endpoint))
          → IsLinkless t (
              (elim o as (λ _. ℕ × Trace) [
                | none ↦ (3, t)
                | some info ↦ send_loop os string info t
              ]).1)
      by_info none = unchanged t
      by_info (some info) = send_loop-IsLinkless string info

  reply-IsLinkless :
      (addr : Sockaddr) (string : Bytes) (fd : ℤ)
      → IsLinkless t ((send_string_reply os (some addr) (some string) fd t).1)
  unfolding send_string_reply
  reply-IsLinkless addr string fd =
      by_text (ip_str_from_sockaddr os (some addr) os.malloc_ok inet6_addrstrlen)
    where
      by_text :
          (r : IpText)
          → IsLinkless t (
              (elim r as (λ _. ℕ × Trace) [
                | ip_error rc ↦ (2, t)
                | ip_text ip ↦
                    if port_from_sockaddr (some addr) == 0
                    then (3, t)
                    else send_string_to_ip_port os
                        (some ip)
                        (port_from_sockaddr (some addr))
                        (some string)
                        fd
                        t
              ]).1)
      by_text (ip_error rc) = unchanged t
      by_text (ip_text ip) =
          if-IsLinkless (port_from_sockaddr (some addr) == 0) t (3, t) _ (unchanged t)
            (send-IsLinkless (some ip) (port_from_sockaddr (some addr)) (some string) fd)

  pub ack-IsLinkless :
      (fd rank : ℤ) (addr : Option Sockaddr) → IsLinkless t ((ack os fd rank addr t).1)
  unfolding ack
  ack-IsLinkless fd rank none = unchanged t
  ack-IsLinkless fd rank (some addr) =
      if-IsLinkless (ltb_ℤ rank (pos 0)) t (2, t) _ (unchanged t)
        (if-IsLinkless (ltb_ℤ fd (pos 0)) t (3, t) _ (unchanged t)
          (reply-IsLinkless addr (snprintf (ack_message rank)) fd))

  pub query-IsLinkless :
      (fd : ℤ) (ip : Option Bytes) (port : ℕ) → IsLinkless t ((query os fd ip port t).1)
  unfolding query
  query-IsLinkless fd none port = unchanged t
  query-IsLinkless fd (some ip) port =
      if-IsLinkless (ltb_ℤ fd (pos 0)) t (3, t) _ (unchanged t)
        (send-IsLinkless (some ip) port (some (snprintf query_message)) fd)

  pub term-IsLinkless :
      (fd rc : ℤ) (ip : Option Bytes) (port : ℕ) → IsLinkless t ((term os fd rc ip port t).1)
  unfolding term
  term-IsLinkless fd rc none port = unchanged t
  term-IsLinkless fd rc (some ip) port =
      send-IsLinkless (some ip) port (some (snprintf (term_message rc))) fd

remove_file-IsLinkless :
    (os : Os) (filename : Option Bytes) (t : Trace) → IsLinkless t ((remove_file os filename t).1)
unfolding remove_file made gone
remove_file-IsLinkless os none t = unchanged t
remove_file-IsLinkless os (some filename) t =
    if-IsLinkless (not (os.stat_ok filename)) t (0, t) _ (unchanged t)
      (if-IsLinkless (os.remove_errno filename == 0) t (0, removed filename ∷ t) _
        (record { same_made = refl; same_gone = refl }) (unchanged t))

remove_in-IsLinkless :
    (os : Os) (scratch name : Bytes) (t : Trace) → IsLinkless t (remove_in os scratch name t)
unfolding remove_in
remove_in-IsLinkless os scratch name t =
    remove_file-IsLinkless os (join_paths os.malloc_ok os.garbage (some scratch) (some name)) t

pub cleanup_scratch-IsLinkless :
    (os : Os) (scratch : Option Bytes) (t : Trace) → IsLinkless t ((cleanup_scratch os scratch t).1)
unfolding cleanup_scratch made gone
cleanup_scratch-IsLinkless os none t = unchanged t
cleanup_scratch-IsLinkless os (some scratch) t =
    let a = remove_in-IsLinkless os scratch sshd_log t in
    let b = IsLinkless-trans a (remove_in-IsLinkless os scratch ssh_config _) in
    let c = IsLinkless-trans b (remove_in-IsLinkless os scratch ssh_wrapper _) in
    let d = IsLinkless-trans c (remove_in-IsLinkless os scratch machine_file _) in
    if-IsLinkless (os.rmdir_errno scratch == 0) t _ _
      (record { same_made = d.same_made; same_gone = d.same_gone }) d
