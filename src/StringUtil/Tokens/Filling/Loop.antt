-- ===== src/StringUtil/Tokens/Filling/Loop.antt =====
-- The loop of `strsplit` over the string writes the pieces one by one.
use parallel_wrapper.Base.{
  ℕ, suc, ◌+◌, ◌≡◌, refl, sym, ◌∙◌, inl, inr, Option, Bool, true, false, List, [], ◌∷◌, ◌++◌, arith,
  append-nil, append_assoc, Bool-cases, length, length-append, ap,
}
use parallel_wrapper.Base.Text.{Bytes}
use parallel_wrapper.StringUtil.Tokens.{
  ok, null, Scan, found_delim, store_token, split_step, split_loop, split_last,
}
use parallel_wrapper.StringUtil.Tokens.Pieces.{pieces}
use parallel_wrapper.StringUtil.Tokens.Filling.Slots.{
  Yields, filled, store_token-filled, finish, Reading, drop-later,
}

module _ (alloc : ℕ → Bool) (delim string : Bytes) where
  -- The claim for the rest `s`, at any state that reads it.
  abbrev pub Finishes : Bool → Bytes → Type 0
  Finishes last s =
      (cur : Bytes) (done : List Bytes) (i : ℕ) (st : Scan)
      → st.last_was_delim ≡ last
      → Reading string cur s done (length (pieces delim cur last s)) i st
      → Yields alloc (finish alloc string (split_loop alloc delim string s i st))
          (filled (done ++ pieces delim cur last s) 0)

  finish-nil : (last : Bool) → Finishes last []
  unfolding finish split_loop split_last pieces
  finish-nil true cur done i st e r =
      inl (rw e (ap ok (r.stored ∙ ap (λ l. filled l 0) (sym (append-nil done)))))
  finish-nil false cur done i st e r = rw e (
      store_token-filled alloc string cur [] done 0 (length string) st r.stored r.current r.unread
        (omega (arith, r.index, r.total)))

  pieces-read :
      (c : ℕ) (s cur : Bytes) (last : Bool)
      → found_delim delim c ≡ false
      → pieces delim cur last (c ∷ s) ≡ pieces delim (cur ++ c ∷ []) false s
  unfolding pieces
  pieces-read c s cur last e = ground arith

  pieces-skip :
      (c : ℕ) (s cur : Bytes)
      → found_delim delim c ≡ true
      → pieces delim cur true (c ∷ s) ≡ pieces delim [] true s
  unfolding pieces
  pieces-skip c s cur e = ground arith

  pieces-end :
      (c : ℕ) (s cur : Bytes)
      → found_delim delim c ≡ true
      → pieces delim cur false (c ∷ s) ≡ cur ∷ pieces delim [] true s
  unfolding pieces
  pieces-end c s cur e = ground arith

  -- A byte that is no delimiter only clears the flag.
  loop-read :
      (c i : ℕ) (s : Bytes) (st : Scan)
      → found_delim delim c ≡ false
      → split_loop alloc delim string (c ∷ s) i st
        ≡ split_loop alloc delim string s (i + 1) (record st { last_was_delim = false })
  unfolding split_loop split_step
  loop-read c i s st e = ground arith

  -- A delimiter after a delimiter moves the start on.
  loop-skip :
      (c i : ℕ) (s : Bytes) (st : Scan)
      → found_delim delim c ≡ true
      → st.last_was_delim ≡ true
      → split_loop alloc delim string (c ∷ s) i st
        ≡ split_loop alloc delim string s
            (i + 1)
            (record st { start_index = i + 1; last_was_delim = true })
  unfolding split_loop split_step
  loop-skip c i s st e l = ground arith

  loop-end :
      (c i : ℕ) (s : Bytes) (st : Scan) {v : List (Option Bytes)}
      → found_delim delim c ≡ true
      → st.last_was_delim ≡ false
      → store_token alloc string i st ≡ ok v
      → split_loop alloc delim string (c ∷ s) i st
        ≡ split_loop alloc delim string s (i + 1) (record {
          strings = v;
          current_token = st.current_token + 1;
          start_index = i + 1;
          last_was_delim = true;
        })
  unfolding split_loop split_step
  loop-end c i s st e l h = ground arith

  loop-end_null :
      (c i : ℕ) (s : Bytes) (st : Scan)
      → found_delim delim c ≡ true
      → st.last_was_delim ≡ false
      → store_token alloc string i st ≡ null
      → split_loop alloc delim string (c ∷ s) i st ≡ null
  unfolding split_loop split_step
  loop-end_null c i s st e l h = ground arith

  finish-read :
      (c : ℕ) (s : Bytes)
      → ((last : Bool) → Finishes last s)
      → found_delim delim c ≡ false
      → (last : Bool) → Finishes last (c ∷ s)
  finish-read c s ih quiet last cur done i st e r =
      rw (loop-read c i s st quiet, pieces-read c s cur last quiet)
        (ih false (cur ++ c ∷ []) done (i + 1) (record st { last_was_delim = false }) refl
          (record {
            stored = rw (pieces-read c s cur last quiet) at r.stored;
            current = r.current;
            unread = rw append_assoc r.unread;
            index = omega (arith, r.index, length-append cur (c ∷ []));
            total = omega (arith, r.total);
          }))

  finish-skip :
      (c : ℕ) (s : Bytes)
      → ((last : Bool) → Finishes last s)
      → found_delim delim c ≡ true
      → Finishes true (c ∷ s)
  finish-skip c s ih found cur done i st e r =
      rw (loop-skip c i s st found e, pieces-skip c s cur found)
        (ih true [] done (i + 1) (record st { start_index = i + 1; last_was_delim = true }) refl
          (record {
            stored = rw (pieces-skip c s cur found) at r.stored;
            current = r.current;
            unread =
                drop-later st.start_index (i + 1) string cur s c r.unread (omega (arith, r.index));
            index = omega arith;
            total = omega (arith, r.total);
          }))

  finish-end :
      (c : ℕ) (s : Bytes)
      → ((last : Bool) → Finishes last s)
      → found_delim delim c ≡ true
      → Finishes false (c ∷ s)
  unfolding finish
  finish-end c s ih found cur done i st e r =
      let rest : ℕ = length (pieces delim [] true s) in
      let slots : st.strings ≡ filled done (suc rest) = rw (pieces-end c s cur found) at r.stored in
      elim (store_token-filled alloc string cur (c ∷ s) done rest i st slots r.current r.unread
        r.index) [
          | inl h ↦
              rw (loop-end c i s st found e h, pieces-end c s cur found)
                (rw (append_assoc done (cur ∷ []) (pieces delim [] true s)) at (
                  ih true [] (done ++ cur ∷ []) (i + 1)
                    (record {
                      strings = filled (done ++ cur ∷ []) rest;
                      current_token = st.current_token + 1;
                      start_index = i + 1;
                      last_was_delim = true;
                    })
                    refl
                    (record {
                      stored = refl;
                      current = omega (arith, r.current, length-append done (cur ∷ []));
                      unread =
                          drop-later st.start_index (i + 1) string cur s c r.unread
                            (omega (arith, r.index));
                      index = omega arith;
                      total = omega (arith, r.total);
                    })))
          | inr (h, why) ↦ inr (rw (loop-end_null c i s st found e h), why)
        ]

  finish-delim :
      (c : ℕ) (s : Bytes)
      → ((last : Bool) → Finishes last s)
      → found_delim delim c ≡ true
      → (last : Bool) → Finishes last (c ∷ s)
  finish-delim c s ih found true = finish-skip c s ih found
  finish-delim c s ih found false = finish-end c s ih found

  pub finishes : (s : Bytes) (last : Bool) → Finishes last s
  finishes [] last = finish-nil last
  finishes (c ∷ s) last = elim (Bool-cases (found_delim delim c)) [
    | inr quiet ↦ finish-read c s (finishes s) quiet last
    | inl found ↦ finish-delim c s (finishes s) found last
  ]
