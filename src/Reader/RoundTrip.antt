-- ===== src/Reader/RoundTrip.antt =====
-- Requests that are written to a file, with a content of one or more lines, are read back by
-- `read_request_arguments` of skel/main.c.
use mathlib.Core.Path.{subst}
use hashring_load_balancer.Base.{
  ℕ, zero, suc, ◌+◌, ◌≤◌, ◌<◌, ◌≡◌, refl, sym, ap, ◌∙◌, inl, inr, none, some, [], ◌∷◌, ◌++◌, length,
  length-append, ok, arith,
}
use hashring_load_balancer.Server.{Text}
use hashring_load_balancer.Reader.{
  newline, quote, doc_content_length, fgets, quotes_from, read_quoted_string, take, append_line,
  read_lines,
}
use hashring_load_balancer.Reader.Quotes.{
  Clear, take-append, append_assoc, take_line-whole, quotes_from-Clear, quotes_from-closed,
  copied-fits, lines_cases, Clear-append, append-Clear,
}

pub fgets-line :
    (n : ℕ) (s t : Text)
    → Clear newline s
    → length s < n
    → fgets n (s ++ newline ∷ t) ≡ some (s ++ newline ∷ [], t)
unfolding fgets
fgets-line n [] t clear room = ap some (take_line-whole n [] t clear room)
fgets-line n (c ∷ s) t clear room = ap some (take_line-whole n (c ∷ s) t clear room)

read_lines-line :
    (fuel : ℕ) (input : Text) (first : ℕ) (content : Text) (line : Text × Text)
    → fgets doc_content_length input ≡ some line
    → read_lines (suc fuel) input (some first) content
      ≡ append_line
          (read_lines fuel line.1)
          line
          content
          (read_quoted_string line.0 doc_content_length (some first))
unfolding read_lines
read_lines-line fuel input first content line e = rw (read_lines, e) refl

append_more :
    (fuel first : ℕ) (line : Text × Text) (content : Text)
    → length (content ++ line.0) ≤ doc_content_length
    → append_line (read_lines fuel line.1) line content (some first, none)
      ≡ read_lines fuel line.1 (some first) (content ++ line.0)
unfolding append_line
append_more fuel first line content room =
    rw (copied-fits doc_content_length (content ++ line.0) room) refl

append_last :
    (fuel first last : ℕ) (line : Text × Text) (content : Text)
    → length (content ++ take last line.0) ≤ doc_content_length
    → append_line (read_lines fuel line.1) line content (some first, some last)
      ≡ ok (content ++ take last line.0, line.1)
unfolding append_line
append_last fuel first last line content room =
    rw (copied-fits doc_content_length (content ++ take last line.0) room) refl

-- the last line
read_lines-last :
    (fuel first : ℕ) (content s rest : Text)
    → Clear quote s
    → Clear newline s
    → length content + length s + 2 ≤ doc_content_length
    → read_lines (suc fuel) (s ++ quote ∷ newline ∷ rest) (some first) content
      ≡ ok (content ++ s, rest)
unfolding read_quoted_string
read_lines-last fuel first content s rest quotes lines room =
    let ended : (s ++ quote ∷ []) ++ newline ∷ rest ≡ s ++ quote ∷ newline ∷ rest =
      append_assoc s (quote ∷ []) (newline ∷ rest) in
    let line = (s ++ quote ∷ []) ++ newline ∷ [] in
    let got : fgets doc_content_length (s ++ quote ∷ newline ∷ rest) ≡ some (line, rest) =
      ap (fgets doc_content_length) (sym ended)
      ∙ fgets-line doc_content_length (s ++ quote ∷ []) rest
          (append-Clear newline s (quote ∷ []) lines (refl, tt))
          (omega (arith, length-append s (quote ∷ []))) in
    let whole : line ≡ s ++ quote ∷ newline ∷ [] = append_assoc s (quote ∷ []) (newline ∷ []) in
    let found : quotes_from doc_content_length 0 line (some first) ≡ (some first, some (length s)) =
      ap (λ l. quotes_from doc_content_length 0 l (some first)) whole
      ∙ quotes_from-closed doc_content_length 0 s (newline ∷ []) first quotes (omega arith)
      ∙ ap (λ j. (some first, some j)) (omega arith) in
    let taken : take (length s) line ≡ s =
      ap (take (length s)) whole ∙ take-append s (quote ∷ newline ∷ []) in
    read_lines-line fuel (s ++ quote ∷ newline ∷ rest) first content (line, rest) got
    ∙ ap (append_line (read_lines fuel rest) (line, rest) content) found
    ∙ append_last fuel first (length s) (line, rest) content
        (rw taken (omega (arith, length-append content s)))
    ∙ ap (λ x. ok (content ++ x, rest)) taken

-- a line before the last one
read_lines-first :
    (fuel first : ℕ) (content s input : Text)
    → Clear quote s
    → Clear newline s
    → length content + length s + 2 ≤ doc_content_length
    → read_lines (suc fuel) (s ++ newline ∷ input) (some first) content
      ≡ read_lines fuel input (some first) (content ++ (s ++ newline ∷ []))
unfolding read_quoted_string
read_lines-first fuel first content s input quotes lines room =
    let line = s ++ newline ∷ [] in
    let found : quotes_from doc_content_length 0 line (some first) ≡ (some first, none) =
      quotes_from-Clear doc_content_length 0 line (some first)
        (append-Clear quote s (newline ∷ []) quotes (refl, tt)) in
    read_lines-line fuel (s ++ newline ∷ input) first content (line, input)
      (fgets-line doc_content_length s input lines (omega arith))
    ∙ ap (append_line (read_lines fuel input) (line, input) content) found
    ∙ append_more fuel first (line, input) content
        (omega (arith, length-append content line, length-append s (newline ∷ [])))

-- The further lines of a content, up to its quote.
pub read_lines-closed :
    (fuel first : ℕ) (content s rest : Text)
    → Clear quote s
    → length content + length s + 2 ≤ doc_content_length
    → length s < fuel
    → read_lines fuel (s ++ quote ∷ newline ∷ rest) (some first) content ≡ ok (content ++ s, rest)
read_lines-closed zero first content s rest quotes room enough = absurd (omega arith)
read_lines-closed (suc fuel) first content s rest quotes room enough = elim (lines_cases s) [
  | inl lines ↦ read_lines-last fuel first content s rest quotes lines room
  | inr (line, more, e, lines) ↦
      let (line_quotes, more_quotes) =
        Clear-append quote line (newline ∷ more) (subst (Clear quote) e quotes) in
      let long : length s ≡ length line + suc (length more) =
        ap length e ∙ length-append line (newline ∷ more) in
      ap (λ x. read_lines (suc fuel) (x ++ quote ∷ newline ∷ rest) (some first) content) e
      ∙ ap (λ x. read_lines (suc fuel) x (some first) content)
          (append_assoc line (newline ∷ more) (quote ∷ newline ∷ rest))
      ∙ read_lines-first fuel first content line (more ++ quote ∷ newline ∷ rest) line_quotes lines
          (omega (arith, long, room))
      ∙ read_lines-closed fuel first (content ++ (line ++ newline ∷ [])) more rest more_quotes.1
          (omega (
            arith,
            long,
            room,
            length-append content (line ++ newline ∷ []),
            length-append line (newline ∷ []),
          ))
          (omega (arith, long, enough))
      ∙ ap (λ x. ok (x, rest))
          (append_assoc content (line ++ newline ∷ []) more
            ∙ ap (λ x. content ++ x) (append_assoc line (newline ∷ []) more ∙ sym e))
]
