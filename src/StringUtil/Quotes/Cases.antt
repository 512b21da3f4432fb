-- ===== src/StringUtil/Quotes/Cases.antt =====
-- `remove_quotes` on the strings that the program meets: quoted on both sides, not quoted, and with
-- a quote that is never closed.
use parallel_wrapper.Base.{
  ℕ, ◌≡◌, ◌≢◌, refl, ap, ◌∙◌, sym, true, false, [], ◌∷◌, ◌++◌, append-nil, arith, All-append,
}
use parallel_wrapper.Base.Text.{Bytes, IsText}
use parallel_wrapper.StringUtil.Quotes.{is_quote, remove_quotes}
use parallel_wrapper.StringUtil.Quotes.Meaning.{
  drop_last, unquoted, IsUnquoted, remove_quotes-unquoted, unquoted-append, unquoted-quote,
}

is_quote-ne-zero : (q : ℕ) → is_quote q ≡ true → q ≢ 0
unfolding is_quote
is_quote-ne-zero q h = ground arith

unquoted_all : (s : Bytes) → IsUnquoted s → unquoted false [] s ≡ s
unfolding unquoted
unquoted_all s h = ap (unquoted false []) (sym (append-nil s)) ∙ unquoted-append false s [] [] h

-- A string without quotes is left as it is.
pub remove_quotes-IsUnquoted : (s : Bytes) → IsText s → IsUnquoted s → remove_quotes s ≡ s
remove_quotes-IsUnquoted s t h = remove_quotes-unquoted s t ∙ unquoted_all s h

unquoted_quoted :
    (q r : ℕ) (s : Bytes)
    → is_quote q ≡ true
    → IsUnquoted s
    → unquoted false [] (q ∷ (s ++ r ∷ [])) ≡ s
unquoted_quoted q r [] hq h = sym (unquoted-quote false [] q r [] hq) ∙ unfold unquoted in refl
unquoted_quoted q r (c ∷ s) hq h =
    sym (unquoted-quote false [] q c (s ++ r ∷ []) hq)
    ∙ unquoted-append true s (c ∷ []) (r ∷ []) h.1
    ∙ unfold unquoted in refl

-- A quoted string loses its two quotes, single or double, and nothing else.
pub remove_quotes_quoted :
    (q r : ℕ) (s : Bytes)
    → is_quote q ≡ true
    → is_quote r ≡ true
    → IsText s
    → IsUnquoted s
    → remove_quotes (q ∷ (s ++ r ∷ [])) ≡ s
remove_quotes_quoted q r s hq hr t h =
    remove_quotes-unquoted (q ∷ (s ++ r ∷ []))
      (is_quote-ne-zero q hq, All-append (λ c. c ≢ 0) s (r ∷ []) t (is_quote-ne-zero r hr, tt))
    ∙ unquoted_quoted q r s hq h

-- A quote at the front that is never closed costs the last byte of the string too.
pub remove_quotes_unclosed :
    (q c : ℕ) (s : Bytes)
    → is_quote q ≡ true
    → IsText (c ∷ s)
    → IsUnquoted s
    → remove_quotes (q ∷ c ∷ s) ≡ drop_last (c ∷ s)
remove_quotes_unclosed q c s hq t h =
    remove_quotes-unquoted (q ∷ c ∷ s) (is_quote-ne-zero q hq, t)
    ∙ sym (unquoted-quote false [] q c s hq)
    ∙ ap (unquoted true (c ∷ [])) (sym (append-nil s))
    ∙ unquoted-append true s (c ∷ []) [] h
    ∙ unfold unquoted in refl
