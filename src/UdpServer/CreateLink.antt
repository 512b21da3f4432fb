-- ===== src/UdpServer/CreateLink.antt =====
-- `handle_create_link` of src/udp_server.c, and `handle_send_file`, which does nothing yet.
use parallel_wrapper.Base.{
  true, Option, none, some, Bool, false, not, ◌||◌, List, [], ◌∷◌, if◌then◌else◌,
}
use parallel_wrapper.Base.Int.{pos, eqb_ℤ}
use parallel_wrapper.Base.Text.{Bytes, str_eq}
use parallel_wrapper.System.{symlinked, Os}
use parallel_wrapper.Sll.{SlList, sll_add_element}
use parallel_wrapper.UdpServer.Message.{Message, string_at, unless_null, clean, send_ack}
use parallel_wrapper.Wrapper.Action.{
  Action, Handler, leave, deref, wrapper, put_wrapper, return_if, emit, ◌>>=◌, ◌>>◌,
}

-- The loop over the links: whether one has the name `dest`.
unfoldable pub has_link : Bytes → List (Option Bytes) → Bool
has_link dest [] = false
has_link dest (none ∷ elements) = has_link dest elements
has_link dest (some link_name ∷ elements) = str_eq link_name dest || has_link dest elements

-- `strdup` and `sll_add_element` on the wrapper's list; no return code is looked at.
unfoldable pub save_link : Os → Bytes → Action (Unit {0})
save_link os dest = do
  pw ← wrapper
  put_wrapper (record pw {
    symlinks =
        (sll_add_element os.calloc_ok pw.symlinks (if os.malloc_ok then some dest else none)).1;
  })

-- A name that the list has is only acknowledged.
unfoldable pub link_unless : Bool → Os → Message → Bytes → Bytes → Handler
link_unless true os msg src dest = do send_ack os msg; leave 0
link_unless false os msg src dest = do
  return_if (not (os.symlink_ok src dest)) 4
  emit (symlinked src dest)
  save_link os dest
  send_ack os msg
  leave 0

-- From the search in the list on.
unfoldable pub make_link : Os → Message → Bytes → Bytes → SlList → Handler
make_link os msg src dest list = link_unless (has_link dest list.elements) os msg src dest

-- An argument cannot be NULL here: `strsplit` fills every slot.
unfoldable pub handle_create_link : Os → Message → Handler
handle_create_link os msg = do
  args ← deref msg.args
  return_if (not (eqb_ℤ args.dim (pos 3))) 1
  pw ← wrapper
  list ← unless_null 2 pw.symlinks
  src ← deref (clean (string_at args 1))
  dest ← deref (clean (string_at args 2))
  return_if (not (os.stat_ok src)) 3
  make_link os msg src dest list

unfoldable pub handle_send_file : Os → Message → Handler
handle_send_file os msg = leave 0
