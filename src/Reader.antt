-- ===== src/Reader.antt =====
-- The reader of requests of skel/main.c. A file is the bytes that are left of it, none of them zero,
-- and a buffer the string in it; -1 in an index is `none`.
pub mod Fuel
pub mod Quotes
pub mod RoundTrip
pub mod Requests
mod Tests
use hashring_load_balancer.Base.{
  ℕ, zero, suc, ◌+◌, ◌-◌, ◌*◌, ◌==◌, Bool, true, false, ◌&&◌, ◌||◌, leb, if◌then◌else◌, Option,
  none, some, [], ◌∷◌, ◌++◌, length, Run, ok, fault, null_pointer, out_of_bounds, uninitialised,
  aborted, out_of_fuel, ◌>>=◌,
}
use hashring_load_balancer.Base.Int.{ℤ, pos, negsuc}
use hashring_load_balancer.Request.{
  RequestType, edit_document, get_document, add_server, remove_server, get_request_type,
}
use hashring_load_balancer.Server.{Text}

abbrev pub doc_name_length : ℕ
doc_name_length = 64

abbrev pub doc_content_length : ℕ
doc_content_length = 4096

abbrev pub request_length : ℕ
request_length = 64 + doc_name_length + doc_content_length

abbrev pub quote : ℕ
quote = 34

abbrev pub newline : ℕ
newline = 10

-- at most `n` bytes, up to a line's end, and the rest
unfoldable pub take_line : ℕ → Text → Text × Text
take_line zero s = ([], s)
take_line (suc n) [] = ([], [])
take_line (suc n) (c ∷ s) = elim (c == newline) [
  | true ↦ (c ∷ [], s)
  | false ↦ let rest = take_line n s in (c ∷ rest.0, rest.1)
]

-- `fgets(buffer, n + 1, file)`, where `none` is NULL
unfoldable pub fgets : ℕ → Text → Option (Text × Text)
fgets n [] = none
fgets n (c ∷ s) = some (take_line n (c ∷ s))

-- The loop of `read_quoted_string` at the index `i`, with `left` bytes of the buffer left: the
-- indices of the first two quotes, or the start that was given and the first one.
unfoldable pub quotes_from : ℕ → ℕ → Text → Option ℕ → Option ℕ × Option ℕ
quotes_from zero i s start = (start, none)
quotes_from (suc left) i [] start = (start, none)
quotes_from (suc left) i (c ∷ s) start = elim (c == quote) [
  | false ↦ quotes_from left (suc i) s start
  | true ↦ elim start [
    | none ↦ quotes_from left (suc i) s (some i)
    | some first ↦ (some first, some i)
  ]
]

unfoldable pub read_quoted_string : Text → ℕ → Option ℕ → Option ℕ × Option ℕ
read_quoted_string buffer buffer_len start = quotes_from buffer_len 0 buffer start

abbrev pub take : ℕ → Text → Text
take zero s = []
take (suc n) [] = []
take (suc n) (c ∷ s) = c ∷ take n s

abbrev pub drop : ℕ → Text → Text
drop zero s = s
drop (suc n) [] = []
drop (suc n) (c ∷ s) = drop n s

-- the string at `buffer + n`
unfoldable pub string_at : ℕ → Text → Run Text
string_at n s = if leb n (length s) then ok (drop n s) else fault uninitialised

abbrev pub is_digit : ℕ → Bool
is_digit c = leb 48 c && leb c 57

abbrev pub is_space : ℕ → Bool
is_space c = c == 32 || leb 9 c && leb c 13

abbrev pub digits : Text → ℕ → ℕ
digits [] n = n
digits (c ∷ s) n = if is_digit c then digits s (10 * n + (c - 48)) else n

abbrev pub negated : ℕ → ℤ
negated zero = pos 0
negated (suc n) = negsuc n

-- `atoi`, where the number fits an `int`
unfoldable pub atoi : Text → ℤ
atoi [] = pos 0
atoi (c ∷ s) =
    if is_space c
    then atoi s
    else if c == 45
    then negated (digits s 0)
    else if c == 43
    then pos (digits s 0)
    else pos (digits (c ∷ s) 0)

-- `strchr(s, ' ')`, where a null pointer is passed on to `atoi`
unfoldable pub find_space : Text → Run Text
find_space [] = fault null_pointer
find_space (c ∷ s) = if c == 32 then ok (c ∷ s) else find_space s

-- What a request asks for, with what `read_request_arguments` writes for its type.
pub data Arguments : Type 0 where
  add : ℤ → ℤ → Arguments
  remove : ℤ → Arguments
  get : Text → Arguments
  edit : Text → Text → Arguments

-- A copy of bytes to a zeroed block of `room` bytes and one for the end.
unfoldable pub copied : ℕ → Text → Run Text
copied room s = if leb (length s) room then ok s else fault out_of_bounds

-- The bytes between two quotes. A missing one makes the length negative, a size that no block has.
unfoldable pub between : Text → Option ℕ × Option ℕ → Run Text
between buffer (some first, some last) = ok (take (last - first - 1) (drop (first + 1) buffer))
between buffer (first, none) = fault out_of_bounds
between buffer (none, some last) = fault out_of_bounds

-- The body of the `while` that reads the further lines of a content, for the indices of the quotes in
-- a line; `next` is the rest of the loop.
unfoldable pub append_line :
    (Option ℕ → Text → Run (Text × Text))
    → Text × Text
    → Text
    → Option ℕ × Option ℕ
    → Run (Text × Text)
append_line next line content (start, none) =
    copied doc_content_length (content ++ line.0) >>= λ more. next start more
append_line next line content (start, some last) =
    copied doc_content_length (content ++ take last line.0) >>= λ more. ok (more, line.1)

-- the `while`
unfoldable pub read_lines : ℕ → Text → Option ℕ → Text → Run (Text × Text)
read_lines zero input start content = fault out_of_fuel
read_lines (suc fuel) input start content = elim (fgets doc_content_length input) [
  | none ↦ fault aborted
  | some line ↦
      append_line (read_lines fuel line.1) line content
        (read_quoted_string line.0 doc_content_length start)
]

-- where the content begins
abbrev pub behind : Option ℕ → Text → Text
behind none s = s
behind (some first) s = drop (first + 1) s

-- The content of an edit, from `tmp_buffer` with the indices of its quotes, and the further lines.
unfoldable pub quoted_content : Text → Text → Option ℕ × Option ℕ → Run (Text × Text)
quoted_content tmp_buffer input (start, none) =
    copied doc_content_length (behind start tmp_buffer) >>= λ content.
    read_lines (length input + 1) input start content
quoted_content tmp_buffer input (start, some last) =
    between tmp_buffer (start, some last) >>= λ content.
    copied doc_content_length content >>= λ content'. ok (content', input)

unfoldable pub read_content : Text → Text → Run (Text × Text)
read_content tmp_buffer input =
    quoted_content tmp_buffer input (read_quoted_string tmp_buffer doc_content_length none)

-- What follows the name, which ends at the second index.
unfoldable pub after_name : Bool → Text → Text → Text → Option ℕ → Run (Arguments × Text)
after_name false buffer input doc_name end = ok (get doc_name, input)
after_name true buffer input doc_name none = fault out_of_bounds
after_name true buffer input doc_name (some last) = string_at (last + 1) buffer >>= λ tmp_buffer.
    read_content tmp_buffer input >>= λ r. ok (edit doc_name r.0, r.1)

-- the branch of a document's request, for the indices of the quotes of its name
unfoldable pub named_document : Bool → Text → Text → Option ℕ × Option ℕ → Run (Arguments × Text)
named_document is_edit buffer input found = between buffer found >>= λ name.
    copied doc_name_length name >>= λ doc_name. after_name is_edit buffer input doc_name found.1

unfoldable pub read_document : Bool → Text → Text → Run (Arguments × Text)
read_document is_edit buffer input =
    named_document is_edit buffer input (read_quoted_string buffer request_length none)

unfoldable pub read_arguments : RequestType → Text → Text → Run (Arguments × Text)
read_arguments add_server buffer input = string_at 11 buffer >>= λ args.
    find_space args >>= λ size. ok (add (atoi args) (atoi size), input)
read_arguments remove_server buffer input =
    string_at 14 buffer >>= λ args. ok (remove (atoi args), input)
read_arguments edit_document buffer input = read_document true buffer input
read_arguments get_document buffer input = read_document false buffer input

unfoldable pub read_request_arguments : Text → Run (Arguments × Text)
read_request_arguments input = elim (fgets request_length input) [
  | none ↦ fault aborted
  | some line ↦ get_request_type line.0 >>= λ req_type. read_arguments req_type line.0 line.1
]
