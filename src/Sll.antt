-- ===== src/Sll.antt =====
-- src/sll.c and include/sll.h: the list of the links that were made. The head element of the source
-- holds no pointer; what hangs behind it is `elements`. A list that `sll_get_list` returned is valid.
use parallel_wrapper.Base.{ℕ, Bool, Option, none, some, List, [], ◌∷◌, not, if◌then◌else◌}
use parallel_wrapper.Base.Text.{Bytes}

pub record SlList : Type 0 where
  -- The pointers, NULL or a string.
  pub elements : List (Option Bytes)
  pub num_elements : ℕ

-- Both `calloc` calls: the list and its head.
unfoldable pub sll_get_list : Bool → Bool → Option SlList
sll_get_list list_ok head_ok =
    if not list_ok
    then none
    else if not head_ok
    then none
    else some (record { elements = []; num_elements = 0 })

-- The return code and the list after the call; `num_elements` is left as it was.
unfoldable pub sll_add_element : Bool → Option SlList → Option Bytes → ℕ × Option SlList
sll_add_element alloc_ok none ptr = (1, none)
sll_add_element alloc_ok (some list) ptr =
    if not alloc_ok
    then (2, some list)
    else (0, some (record list { elements = ptr ∷ list.elements }))
