-- ===== src/Reader/Fuel.antt =====
-- The loops of the reader of skel/main.c end: the fuel that they are given is enough.
use mathlib.Core.Path.{subst}
use mathlib.Core.Option.{some-injective}
use hashring_load_balancer.Base.{
  ℕ, zero, suc, ◌+◌, ◌≤◌, ◌<◌, ◌≡◌, refl, Bool, Bool-cases, Option-cases, leb, true, false, ◌==◌,
  inl, inr, Option, none, some, [], ◌∷◌, ◌++◌, length, Run, ok, fault, null_pointer, out_of_bounds,
  uninitialised, division_by_zero, int_overflow, aborted, out_of_fuel, ◌>>=◌, arith,
}
use hashring_load_balancer.Request.{
  RequestType, edit_document, get_document, add_server, remove_server, get_request_type,
  starts_with, codes,
}
use hashring_load_balancer.Server.{Text}
use hashring_load_balancer.Reader.{
  take_line, fgets, newline, doc_content_length, read_quoted_string, string_at, find_space, copied,
  between, take, append_line, quoted_content, after_name, named_document, behind, request_length,
  doc_name_length, read_lines, read_content, read_document, read_arguments, read_request_arguments,
}

-- whether a run used up its fuel
abbrev pub exhausted : {A : Type 0} → Run A → Bool
exhausted (ok a) = false
exhausted (fault null_pointer) = false
exhausted (fault out_of_bounds) = false
exhausted (fault uninitialised) = false
exhausted (fault division_by_zero) = false
exhausted (fault int_overflow) = false
exhausted (fault aborted) = false
exhausted (fault out_of_fuel) = true

then_exhausted :
    {A B : Type 0} (run : Run A) (next : A → Run B)
    → exhausted run ≡ false
    → ((a : A) → exhausted (next a) ≡ false)
    → exhausted (run >>= next) ≡ false
then_exhausted (ok a) next e f = f a
then_exhausted (fault null_pointer) next e f = refl
then_exhausted (fault out_of_bounds) next e f = refl
then_exhausted (fault uninitialised) next e f = refl
then_exhausted (fault division_by_zero) next e f = refl
then_exhausted (fault int_overflow) next e f = refl
then_exhausted (fault aborted) next e f = refl
then_exhausted (fault out_of_fuel) next e f = e

pub take_line_end :
    (n c : ℕ) (s : Text) → (c == newline) ≡ true → take_line (suc n) (c ∷ s) ≡ (c ∷ [], s)
unfolding take_line
take_line_end n c s e = rw (take_line, e) refl

pub take_line_more :
    (n c : ℕ) (s : Text)
    → (c == newline) ≡ false
    → take_line (suc n) (c ∷ s) ≡ (c ∷ (take_line n s).0, (take_line n s).1)
unfolding take_line
take_line_more n c s e = rw (take_line, e) refl

take_line-shorter : (n : ℕ) (s : Text) → length (take_line n s).1 ≤ length s
unfolding take_line
take_line-shorter zero s = omega arith
take_line-shorter (suc n) [] = omega arith
take_line-shorter (suc n) (c ∷ s) = elim (Bool-cases (c == newline)) [
  | inl end ↦ rw (take_line_end n c s end) (omega arith)
  | inr inner ↦
      let shorter = take_line-shorter n s in
      rw (take_line_more n c s inner) (omega (arith, shorter))
]

one_byte : (n c : ℕ) (s : Text) → length (take_line (suc n) (c ∷ s)).1 < length (c ∷ s)
one_byte n c s = elim (Bool-cases (c == newline)) [
  | inl end ↦ rw (take_line_end n c s end) (omega arith)
  | inr inner ↦
      let shorter = take_line-shorter n s in
      rw (take_line_more n c s inner) (omega (arith, shorter))
]

-- A line has at least one byte.
fgets-shorter :
    (n : ℕ) (input : Text) (line : Text × Text)
    → fgets (suc n) input ≡ some line
    → length line.1 < length input
unfolding fgets
fgets-shorter n [] line e = cc
fgets-shorter n (c ∷ s) line e =
    let same : take_line (suc n) (c ∷ s) ≡ line = some-injective _ _ e in
    subst (λ (l : Text × Text). length l.1 < length (c ∷ s)) same (one_byte n c s)

copied-ends : (room : ℕ) (s : Text) → exhausted (copied room s) ≡ false
unfolding copied
copied-ends room s = elim (Bool-cases (leb (length s) room)) [
  | inl fits ↦ rw fits refl
  | inr long ↦ rw long refl
]

string_at-ends : (n : ℕ) (s : Text) → exhausted (string_at n s) ≡ false
unfolding string_at
string_at-ends n s = elim (Bool-cases (leb n (length s))) [
  | inl fits ↦ rw fits refl
  | inr short ↦ rw short refl
]

find_space-ends : (s : Text) → exhausted (find_space s) ≡ false
unfolding find_space
find_space-ends [] = refl
find_space-ends (c ∷ s) = elim (Bool-cases (c == 32)) [
  | inl here ↦ rw here refl
  | inr there ↦ rw there (find_space-ends s)
]

between-ends : (s : Text) (found : Option ℕ × Option ℕ) → exhausted (between s found) ≡ false
unfolding between
between-ends s (some first, some last) = refl
between-ends s (some first, none) = refl
between-ends s (none, none) = refl
between-ends s (none, some last) = refl

get_request_type-ends : (s : Text) → exhausted (get_request_type s) ≡ false
unfolding get_request_type
get_request_type-ends s = elim (Bool-cases (starts_with (codes "ADD_SERVER") s)) [
  | inl yes' ↦ rw yes' refl
  | inr no1 ↦ elim (Bool-cases (starts_with (codes "REMOVE_SERVER") s)) [
    | inl yes' ↦ rw (no1, yes') refl
    | inr no2 ↦ elim (Bool-cases (starts_with (codes "EDIT") s)) [
      | inl yes' ↦ rw (no1, no2, yes') refl
      | inr no3 ↦ elim (Bool-cases (starts_with (codes "GET") s)) [
        | inl yes' ↦ rw (no1, no2, no3, yes') refl
        | inr no4 ↦ rw (no1, no2, no3, no4) refl
      ]
    ]
  ]
]

append_line-ends :
    (next : Option ℕ → Text → Run (Text × Text)) (line : Text × Text) (content : Text)
    (found : Option ℕ × Option ℕ)
    → ((start : Option ℕ) (more : Text) → exhausted (next start more) ≡ false)
    → exhausted (append_line next line content found) ≡ false
unfolding append_line
append_line-ends next line content (start, none) ends =
    then_exhausted (copied doc_content_length (content ++ line.0)) (next start)
      (copied-ends doc_content_length (content ++ line.0)) (ends start)
append_line-ends next line content (start, some last) ends =
    then_exhausted (copied doc_content_length (content ++ take last line.0))
      (λ more. ok (more, line.1)) (copied-ends doc_content_length (content ++ take last line.0))
      (λ more. refl)

-- The loop over the lines, on more fuel than there are bytes left.
read_lines-ends :
    (fuel : ℕ) (input : Text) (start : Option ℕ) (content : Text)
    → length input < fuel
    → exhausted (read_lines fuel input start content) ≡ false
unfolding read_lines
read_lines-ends zero input start content less = absurd (omega arith)
read_lines-ends (suc fuel) input start content less =
    elim (Option-cases (fgets doc_content_length input)) [
      | inl absent ↦ rw (read_lines, absent) refl
      | inr (line, e) ↦
          rw (read_lines, e)
            (append_line-ends (read_lines fuel line.1) line content
              (read_quoted_string line.0 doc_content_length start)
              (λ start' more.
                read_lines-ends fuel line.1 start' more
                  (omega (arith, less, fgets-shorter 4095 input line e))))
    ]

quoted_content-ends :
    (tmp_buffer input : Text) (found : Option ℕ × Option ℕ)
    → exhausted (quoted_content tmp_buffer input found) ≡ false
unfolding quoted_content
quoted_content-ends tmp_buffer input (start, none) =
    then_exhausted (copied doc_content_length (behind start tmp_buffer)) _
      (copied-ends doc_content_length (behind start tmp_buffer))
      (λ content. read_lines-ends (length input + 1) input start content (omega arith))
quoted_content-ends tmp_buffer input (start, some last) =
    then_exhausted (between tmp_buffer (start, some last)) _
      (between-ends tmp_buffer (start, some last))
      (λ content.
        then_exhausted (copied doc_content_length content) _
          (copied-ends doc_content_length content) (λ content'. refl))

after_name-ends :
    (is_edit : Bool) (buffer input doc_name : Text) (end : Option ℕ)
    → exhausted (after_name is_edit buffer input doc_name end) ≡ false
unfolding after_name read_content
after_name-ends false buffer input doc_name end = refl
after_name-ends true buffer input doc_name none = refl
after_name-ends true buffer input doc_name (some last) =
    then_exhausted (string_at (last + 1) buffer) _ (string_at-ends (last + 1) buffer) (λ tmp_buffer.
      then_exhausted (read_content tmp_buffer input) _
        (quoted_content-ends tmp_buffer input
          (read_quoted_string tmp_buffer doc_content_length none))
        (λ r. refl))

read_document-ends :
    (is_edit : Bool) (buffer input : Text) → exhausted (read_document is_edit buffer input) ≡ false
unfolding read_document named_document
read_document-ends is_edit buffer input =
    let found = read_quoted_string buffer request_length none in
    then_exhausted (between buffer found) _ (between-ends buffer found) (λ name.
      then_exhausted (copied doc_name_length name) _ (copied-ends doc_name_length name)
        (λ doc_name. after_name-ends is_edit buffer input doc_name found.1))

read_arguments-ends :
    (req_type : RequestType) (buffer input : Text)
    → exhausted (read_arguments req_type buffer input) ≡ false
unfolding read_arguments
read_arguments-ends add_server buffer input =
    then_exhausted (string_at 11 buffer) _ (string_at-ends 11 buffer)
      (λ args. then_exhausted (find_space args) _ (find_space-ends args) (λ size. refl))
read_arguments-ends remove_server buffer input =
    then_exhausted (string_at 14 buffer) _ (string_at-ends 14 buffer) (λ args. refl)
read_arguments-ends edit_document buffer input = read_document-ends true buffer input
read_arguments-ends get_document buffer input = read_document-ends false buffer input

-- On every file read_request_arguments ends: its loop over the lines of a content never runs out
-- of the fuel that it is given.
pub read_request_arguments-ends : (input : Text) → exhausted (read_request_arguments input) ≡ false
unfolding read_request_arguments
read_request_arguments-ends input = elim (Option-cases (fgets request_length input)) [
  | inl absent ↦ rw (read_request_arguments, absent) refl
  | inr (line, e) ↦
      rw (read_request_arguments, e)
        (then_exhausted (get_request_type line.0) _ (get_request_type-ends line.0)
          (λ req_type. read_arguments-ends req_type line.0 line.1))
]
