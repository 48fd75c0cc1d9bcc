-- ===== src/Reader/Quotes.antt =====
-- What the reader of skel/main.c makes of lines and of quoted text.
use hashring_load_balancer.Base.{
  ℕ, zero, suc, ◌+◌, ◌≤◌, ◌<◌, ◌≡◌, refl, ap, ◌∙◌, Bool-cases, leb, true, false, ◌==◌, inl, inr,
  ◌⊎◌, Option, none, some, [], ◌∷◌, ◌++◌, length, ok, arith,
}
use hashring_load_balancer.Server.{Text}
use hashring_load_balancer.Reader.{newline, quote, take_line, quotes_from, take, drop, copied}
use hashring_load_balancer.Reader.Fuel.{take_line_end, take_line_more}

-- The text does not have the byte.
abbrev pub Clear : ℕ → Text → Type 0
Clear byte [] = Unit
Clear byte (c ∷ s) = ((c == byte) ≡ false) × Clear byte s

pub take-append : (s t : Text) → take (length s) (s ++ t) ≡ s
take-append [] t = refl
take-append (c ∷ s) t = ap (◌∷◌ c) (take-append s t)

pub drop-append : (s t : Text) → drop (length s) (s ++ t) ≡ t
drop-append [] t = refl
drop-append (c ∷ s) t = drop-append s t

pub append_assoc : (s t u : Text) → (s ++ t) ++ u ≡ s ++ (t ++ u)
append_assoc [] t u = refl
append_assoc (c ∷ s) t u = ap (◌∷◌ c) (append_assoc s t u)

pub append_nil : (s : Text) → s ++ [] ≡ s
append_nil [] = refl
append_nil (c ∷ s) = ap (◌∷◌ c) (append_nil s)

-- A line that ends within the room is taken whole.
pub take_line-whole :
    (n : ℕ) (s t : Text)
    → Clear newline s
    → length s < n
    → take_line n (s ++ newline ∷ t) ≡ (s ++ newline ∷ [], t)
take_line-whole zero s t clear room = absurd (omega arith)
take_line-whole (suc n) [] t clear room = take_line_end n newline t refl
take_line-whole (suc n) (c ∷ s) t clear room =
    take_line_more n c (s ++ newline ∷ t) clear.0
    ∙ ap (λ (r : Text × Text). (c ∷ r.0, r.1)) (take_line-whole n s t clear.1 (omega arith))

quotes_pass :
    (left i c : ℕ) (s : Text) (start : Option ℕ)
    → (c == quote) ≡ false
    → quotes_from (suc left) i (c ∷ s) start ≡ quotes_from left (suc i) s start
unfolding quotes_from
quotes_pass left i c s start e = rw (quotes_from, e) refl

pub quotes_last :
    (left i first : ℕ) (s : Text)
    → quotes_from (suc left) i (quote ∷ s) (some first) ≡ (some first, some i)
unfolding quotes_from
quotes_last left i first s = refl

-- Without a quote there is no index more.
pub quotes_from-Clear :
    (left i : ℕ) (s : Text) (start : Option ℕ)
    → Clear quote s
    → quotes_from left i s start ≡ (start, none)
unfolding quotes_from
quotes_from-Clear zero i s start clear = refl
quotes_from-Clear (suc left) i [] start clear = refl
quotes_from-Clear (suc left) i (c ∷ s) start clear =
    quotes_pass left i c s start clear.0 ∙ quotes_from-Clear left (suc i) s start clear.1

-- The quote behind a text without one.
pub quotes_from-closed :
    (left i : ℕ) (s t : Text) (first : ℕ)
    → Clear quote s
    → length s < left
    → quotes_from left i (s ++ quote ∷ t) (some first) ≡ (some first, some (i + length s))
quotes_from-closed zero i s t first clear room = absurd (omega arith)
quotes_from-closed (suc left) i [] t first clear room =
    quotes_last left i first t ∙ ap (λ j. (some first, some j)) (omega arith)
quotes_from-closed (suc left) i (c ∷ s) t first clear room =
    quotes_pass left i c (s ++ quote ∷ t) (some first) clear.0
    ∙ quotes_from-closed left (suc i) s t first clear.1 (omega arith)
    ∙ ap (λ j. (some first, some j)) (omega arith)

pub copied-fits : (room : ℕ) (s : Text) → length s ≤ room → copied room s ≡ ok s
unfolding copied
copied-fits room s fits =
    let test : leb (length s) room ≡ true = ground (arith, fits) in rw test refl

-- A text is without newlines, or has a first line.
pub lines_cases :
    (s : Text)
    → Clear newline s
      ⊎ ((line : Text) × (rest : Text) × (s ≡ line ++ newline ∷ rest) × Clear newline line)
lines_cases [] = inl tt
lines_cases (c ∷ s) = elim (Bool-cases (c == newline)) [
  | inl here ↦ inr ([], s, ap (λ b. b ∷ s) (equal_lem c newline here), tt)
  | inr there ↦ elim (lines_cases s) [
    | inl clear ↦ inl (there, clear)
    | inr (line, rest, e, clear) ↦ inr (c ∷ line, rest, ap (◌∷◌ c) e, (there, clear))
  ]
]
  where
    equal_lem : (a b : ℕ) → (a == b) ≡ true → a ≡ b
    equal_lem a b e = ground arith

pub Clear-append : (byte : ℕ) (s t : Text) → Clear byte (s ++ t) → Clear byte s × Clear byte t
Clear-append byte [] t clear = (tt, clear)
Clear-append byte (c ∷ s) t clear =
    let (front, back) = Clear-append byte s t clear.1 in ((clear.0, front), back)

pub append-Clear : (byte : ℕ) (s t : Text) → Clear byte s → Clear byte t → Clear byte (s ++ t)
append-Clear byte [] t front back = back
append-Clear byte (c ∷ s) t front back = (front.0, append-Clear byte s t front.1 back)
