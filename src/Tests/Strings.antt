-- ===== src/Tests/Strings.antt =====
-- The theorems about the string routines at concrete strings.
use parallel_wrapper.Base.{◌≡◌, refl, some, true, false, List, [], ◌∷◌, length, map, arith, All}
use parallel_wrapper.Base.Int.{pos, negsuc}
use parallel_wrapper.Base.Text.{Bytes, codes, IsText}
use parallel_wrapper.StringUtil.Integer.{parsed, parse_integer, format_int}
use parallel_wrapper.StringUtil.Integer.RoundTrip.{parse_integer-format_int}
use parallel_wrapper.StringUtil.Quotes.{is_quote, remove_quotes}
use parallel_wrapper.StringUtil.Quotes.Meaning.{unquoted, IsUnquoted, remove_quotes-unquoted}
use parallel_wrapper.StringUtil.Tokens.{found_delim, strsplit}
use parallel_wrapper.StringUtil.Tokens.Pieces.{pieces, join, IsPart, pieces-join}
use parallel_wrapper.StringUtil.Tokens.Filling.{Yields, strsplit-pieces}
use parallel_wrapper.StringUtil.Trim.{trim}
use parallel_wrapper.StringUtil.Trim.Meaning.{strip_front, strip_back}
use parallel_wrapper.StringUtil.Trim.Stripped.{trim-strip}

abbrev delims : Bytes
delims = codes ":|"

abbrev message : Bytes
message = codes "14:1|/work:4:alice:"

strsplit-pieces_example :
    let ps : List Bytes = pieces delims [] false message in
    Yields
      (λ _. true)
      (strsplit (λ _. true) (some delims) (some message))
      (record { dim = pos (length ps); strings = map some ps })
strsplit-pieces_example = strsplit-pieces (λ _. true) delims message

message_parts : All (IsPart delims) (codes "12" ∷ codes "3" ∷ [])
unfolding found_delim
message_parts = ((ground arith, (refl, (refl, tt))), ((ground arith, (refl, tt)), tt))

colon_delimits : found_delim delims b':' ≡ true
unfolding found_delim
colon_delimits = refl

is_quote_double : is_quote b'"' ≡ true
unfolding is_quote
is_quote_double = refl

work-IsText : IsText (codes "/work")
work-IsText = ground arith

work-IsUnquoted : IsUnquoted (codes "/work")
unfolding is_quote
work-IsUnquoted = (refl, (refl, (refl, (refl, (refl, tt)))))

quoted-IsText : IsText (codes "\"/work\"")
quoted-IsText = ground arith

spaced-IsText : IsText (codes "  a b \n")
spaced-IsText = ground arith

pieces-join_example :
    pieces delims [] false (join b':' (codes "12" ∷ codes "3" ∷ [])) ≡ codes "12" ∷ codes "3" ∷ []
pieces-join_example =
    pieces-join delims b':' (codes "12") (codes "3" ∷ []) false colon_delimits message_parts

parse_integer-format_int_example :
    parse_integer (some (format_int (negsuc 41))) true ≡ parsed (negsuc 41)
parse_integer-format_int_example = parse_integer-format_int (negsuc 41) (omega arith)

remove_quotes-unquoted_example :
    remove_quotes (codes "\"/work\"") ≡ unquoted false [] (codes "\"/work\"")
remove_quotes-unquoted_example = remove_quotes-unquoted (codes "\"/work\"") quoted-IsText

trim-strip_example : trim (codes "  a b \n") ≡ strip_back (strip_front (codes "  a b \n"))
trim-strip_example = trim-strip (codes "  a b \n") spaced-IsText
