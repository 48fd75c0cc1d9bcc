-- ===== src/Reader/Requests.antt =====
-- Whole requests on documents, as `read_request_arguments` of skel/main.c reads them back.
use mathlib.Core.Path.{subst}
use hashring_load_balancer.Base.{
  ℕ, suc, ◌+◌, ◌-◌, ◌≤◌, ◌<◌, ◌≡◌, refl, sym, ap, ◌∙◌, true, false, leb, inl, inr, some, [], ◌∷◌,
  ◌++◌, length, length-append, ok, fault, uninitialised, if◌then◌else◌, ◌>>=◌, arith,
}
use hashring_load_balancer.Request.{
  RequestType, codes, edit_document, get_document, get_request_type, starts_with,
}
use hashring_load_balancer.Server.{Text}
use hashring_load_balancer.Reader.{
  get, edit, newline, quote, doc_content_length, doc_name_length, request_length, fgets,
  quotes_from, read_quoted_string, take, drop, copied, between, string_at, read_lines,
  quoted_content, read_content, after_name, named_document, read_document, read_arguments,
  read_request_arguments,
}
use hashring_load_balancer.Reader.Quotes.{
  Clear, take-append, drop-append, append_assoc, quotes_from-Clear, quotes_from-closed, copied-fits,
  lines_cases, Clear-append, append-Clear,
}
use hashring_load_balancer.Reader.RoundTrip.{fgets-line, read_lines-closed}

-- The content of an edit, in one line,
content_line :
    (s input : Text)
    → Clear quote s
    → length s < 4094
    → read_content (32 ∷ quote ∷ (s ++ quote ∷ newline ∷ [])) input ≡ ok (s, input)
unfolding read_content quoted_content read_quoted_string quotes_from between
content_line s input quotes room =
    let buffer = 32 ∷ quote ∷ (s ++ quote ∷ newline ∷ []) in
    let found = quotes_from-closed 4094 2 s (newline ∷ []) 1 quotes room in
    let taken : take (2 + length s - 1 - 1) (s ++ quote ∷ newline ∷ []) ≡ s =
      ap (λ n. take n (s ++ quote ∷ newline ∷ [])) (omega arith)
      ∙ take-append s (quote ∷ newline ∷ []) in
    ap (quoted_content buffer input) found
    ∙ ap (λ x. copied doc_content_length x >>= λ content'. ok (content', input)) taken
    ∙ ap (λ r. r >>= λ content'. ok (content', input))
        (copied-fits doc_content_length s (omega (arith, room)))

-- and in several.
content_lines :
    (line more rest : Text)
    → Clear quote line
    → Clear quote more
    → length line + length more < 4093
    → read_content (32 ∷ quote ∷ (line ++ newline ∷ [])) (more ++ quote ∷ newline ∷ rest)
      ≡ ok (line ++ newline ∷ more, rest)
unfolding read_content quoted_content read_quoted_string quotes_from
content_lines line more rest line_quotes more_quotes room =
    let buffer = 32 ∷ quote ∷ (line ++ newline ∷ []) in
    let input = more ++ quote ∷ newline ∷ rest in
    let found =
      quotes_from-Clear 4094 2 (line ++ newline ∷ []) (some 1)
        (append-Clear quote line (newline ∷ []) line_quotes (refl, tt)) in
    let long = length-append line (newline ∷ []) in
    ap (quoted_content buffer input) found
    ∙ ap (λ r. r >>= λ content. read_lines (length input + 1) input (some 1) content)
        (copied-fits doc_content_length (line ++ newline ∷ []) (omega (arith, long, room)))
    ∙ read_lines-closed (length input + 1) 1 (line ++ newline ∷ []) more rest more_quotes
        (omega (arith, long, room)) (omega (arith, length-append more (quote ∷ newline ∷ rest)))
    ∙ ap (λ x. ok (x, rest)) (append_assoc line (newline ∷ []) more)

request_step :
    (input : Text) (line : Text × Text) (req_type : RequestType)
    → fgets request_length input ≡ some line
    → get_request_type line.0 ≡ ok req_type
    → read_request_arguments input ≡ read_arguments req_type line.0 line.1
unfolding read_request_arguments
request_step input line req_type e f = rw (read_request_arguments, e, f) refl

le→leb : (a b : ℕ) → a ≤ b → leb a b ≡ true
le→leb a b e = ground (arith, e)

module _ (name : Text) (quotes : Clear quote name) (lines : Clear newline name)
    (room : length name ≤ doc_name_length) where
  named_edit :
      (u input : Text)
      → read_document true (codes "EDIT \"" ++ (name ++ quote ∷ u)) input
        ≡ (read_content u input >>= λ r. ok (edit name r.0, r.1))
  unfolding read_document read_quoted_string quotes_from named_document between after_name string_at
  named_edit u input =
      let buffer = codes "EDIT \"" ++ (name ++ quote ∷ u) in
      let found = quotes_from-closed 4218 6 name u 5 quotes (omega (arith, room)) in
      let named : take (6 + length name - 5 - 1) (name ++ quote ∷ u) ≡ name =
        ap (λ n. take n (name ++ quote ∷ u)) (omega arith) ∙ take-append name (quote ∷ u) in
      let inside : leb (6 + length name + 1) (length buffer) ≡ true =
        le→leb _ _ (omega (arith, length-append name (quote ∷ u))) in
      let six : 6 + length name + 1
          ≡ suc (suc (suc (suc (suc (suc (length (name ++ quote ∷ []))))))) =
        omega (arith, length-append name (quote ∷ [])) in
      let rest : drop (6 + length name + 1) buffer ≡ u =
        ap (λ n. drop n buffer) six
        ∙ ap (drop (length (name ++ quote ∷ []))) (sym (append_assoc name (quote ∷ []) u))
        ∙ drop-append (name ++ quote ∷ []) u in
      ap (named_document true buffer input) found
      ∙ ap
          (λ x. copied doc_name_length x >>= λ doc_name.
            after_name true buffer input doc_name (some (6 + length name)))
          named
      ∙ ap (λ r. r >>= λ doc_name. after_name true buffer input doc_name (some (6 + length name)))
          (copied-fits doc_name_length name room)
      ∙ ap
          (λ t.
            (if t then ok (drop (6 + length name + 1) buffer) else fault uninitialised)
            >>= λ tmp_buffer. read_content tmp_buffer input >>= λ r. ok (edit name r.0, r.1))
          inside
      ∙ ap (λ x. read_content x input >>= λ r. ok (edit name r.0, r.1)) rest

  named_get :
      (u input : Text)
      → read_document false (codes "GET \"" ++ (name ++ quote ∷ u)) input ≡ ok (get name, input)
  unfolding read_document read_quoted_string quotes_from named_document between after_name
  named_get u input =
      let buffer = codes "GET \"" ++ (name ++ quote ∷ u) in
      let found = quotes_from-closed 4219 5 name u 4 quotes (omega (arith, room)) in
      let named : take (5 + length name - 4 - 1) (name ++ quote ∷ u) ≡ name =
        ap (λ n. take n (name ++ quote ∷ u)) (omega arith) ∙ take-append name (quote ∷ u) in
      ap (named_document false buffer input) found
      ∙ ap
          (λ x. copied doc_name_length x >>= λ doc_name.
            after_name false buffer input doc_name (some (5 + length name)))
          named
      ∙ ap (λ r. r >>= λ doc_name. after_name false buffer input doc_name (some (5 + length name)))
          (copied-fits doc_name_length name room)

  -- the first line of an edit
  edit_line :
      (v input : Text)
      → Clear newline v
      → length v < 4096
      → read_request_arguments
          (codes "EDIT \"" ++ (name ++ quote ∷ 32 ∷ quote ∷ (v ++ newline ∷ input)))
        ≡ (read_content (32 ∷ quote ∷ (v ++ newline ∷ [])) input >>= λ r. ok (edit name r.0, r.1))
  unfolding get_request_type starts_with read_arguments
  edit_line v input clear short =
      let start = codes "EDIT \"" ++ (name ++ quote ∷ 32 ∷ quote ∷ v) in
      let joined : (t : Text)
          → start ++ newline ∷ t
            ≡ codes "EDIT \"" ++ (name ++ quote ∷ 32 ∷ quote ∷ (v ++ newline ∷ t)) =
        λ t.
          ap (λ x. codes "EDIT \"" ++ x)
            (append_assoc name (quote ∷ 32 ∷ quote ∷ v) (newline ∷ t)) in
      let got =
        fgets-line request_length start input
          (
            refl,
            (
              refl,
              (
                refl,
                (
                  refl,
                  (
                    refl,
                    (
                      refl,
                      append-Clear newline name (quote ∷ 32 ∷ quote ∷ v) lines
                          (refl, (refl, (refl, clear))),
                    ),
                  ),
                ),
              ),
            ),
          )
          (omega (arith, room, short, length-append name (quote ∷ 32 ∷ quote ∷ v))) in
      ap read_request_arguments (sym (joined input))
      ∙ request_step (start ++ newline ∷ input) (start ++ newline ∷ [], input) edit_document got
          refl
      ∙ ap (λ x. read_document true x input) (joined [])
      ∙ named_edit (32 ∷ quote ∷ (v ++ newline ∷ [])) input

-- how a file asks for an edit and for a lookup, before the line's end
abbrev pub edit_request : Text → Text → Text → Text
edit_request name content rest =
    codes "EDIT \"" ++ (name ++ quote ∷ 32 ∷ quote ∷ (content ++ quote ∷ newline ∷ rest))

abbrev pub get_request : Text → Text → Text
get_request name rest = codes "GET \"" ++ (name ++ quote ∷ newline ∷ rest)

edit_read :
    (name content rest : Text)
    → Clear quote name
    → Clear newline name
    → length name ≤ doc_name_length
    → Clear quote content
    → length content < 4094
    → read_request_arguments (edit_request name content rest) ≡ ok (edit name content, rest)
edit_read name content rest quotes lines room content_quotes short = elim (lines_cases content) [
  | inl one ↦
      let v = content ++ quote ∷ [] in
      let joined : (t : Text) → v ++ newline ∷ t ≡ content ++ quote ∷ newline ∷ t =
        λ t. append_assoc content (quote ∷ []) (newline ∷ t) in
      ap (λ x. read_request_arguments (codes "EDIT \"" ++ (name ++ quote ∷ 32 ∷ quote ∷ x)))
        (sym (joined rest))
      ∙ edit_line name quotes lines room v rest
          (append-Clear newline content (quote ∷ []) one (refl, tt))
          (omega (arith, short, length-append content (quote ∷ [])))
      ∙ ap (λ x. read_content (32 ∷ quote ∷ x) rest >>= λ r. ok (edit name r.0, r.1)) (joined [])
      ∙ ap (λ run. run >>= λ r. ok (edit name r.0, r.1))
          (content_line content rest content_quotes short)
  | inr (line, more, e, clear) ↦
      let (line_quotes, more_quotes) =
        Clear-append quote line (newline ∷ more) (subst (Clear quote) e content_quotes) in
      let long : length content ≡ length line + suc (length more) =
        ap length e ∙ length-append line (newline ∷ more) in
      let input = more ++ quote ∷ newline ∷ rest in
      ap (λ x. read_request_arguments (edit_request name x rest)) e
      ∙ ap (λ x. read_request_arguments (codes "EDIT \"" ++ (name ++ quote ∷ 32 ∷ quote ∷ x)))
          (append_assoc line (newline ∷ more) (quote ∷ newline ∷ rest))
      ∙ edit_line name quotes lines room line input clear (omega (arith, long, short))
      ∙ ap (λ run. run >>= λ r. ok (edit name r.0, r.1))
          (content_lines line more rest line_quotes more_quotes.1 (omega (arith, long, short)))
      ∙ ap (λ x. ok (edit name x, rest)) (sym e)
]

get_read :
    (name rest : Text)
    → Clear quote name
    → Clear newline name
    → length name ≤ doc_name_length
    → read_request_arguments (get_request name rest) ≡ ok (get name, rest)
unfolding get_request_type starts_with read_arguments
get_read name rest quotes lines room =
    let start = codes "GET \"" ++ (name ++ quote ∷ []) in
    let joined : (t : Text) → start ++ newline ∷ t ≡ get_request name t =
      λ t. ap (λ x. codes "GET \"" ++ x) (append_assoc name (quote ∷ []) (newline ∷ t)) in
    let got =
      fgets-line request_length start rest
        (
          refl,
          (refl, (refl, (refl, (refl, append-Clear newline name (quote ∷ []) lines (refl, tt))))),
        )
        (omega (arith, room, length-append name (quote ∷ []))) in
    ap read_request_arguments (sym (joined rest))
    ∙ request_step (start ++ newline ∷ rest) (start ++ newline ∷ [], rest) get_document got refl
    ∙ ap (λ x. read_document false x rest) (joined [])
    ∙ named_get name quotes lines room (newline ∷ []) rest

-- An edit or a lookup that is written to a file, with a name of at most 64 bytes without quotes
-- and newlines, and a content of fewer than 4094 bytes without quotes but with any newlines, is
-- read back as it is, and what follows in the file is left.
pub read_request_arguments-written :
    (name content rest : Text)
    → Clear quote name
    → Clear newline name
    → length name ≤ doc_name_length
    → Clear quote content
    → length content < 4094
    → (read_request_arguments (edit_request name content rest) ≡ ok (edit name content, rest))
      × (read_request_arguments (get_request name rest) ≡ ok (get name, rest))
read_request_arguments-written name content rest quotes lines room content_quotes short = (
  edit_read name content rest quotes lines room content_quotes short,
  get_read name rest quotes lines room,
)
