-- ===== src/Command/Include/Plain.antt =====
-- A command is split into its statements without loss, and one without INPUT stays as it is.
use famepy.Prelude.{
  ℕ, suc, zero, ◌≡◌, sym, ap, ◌∙◌, Bytes, Bool, true, false, Option, none, some, List, [], ◌∷◌,
  ◌++◌, All, reverse-step, if◌then◌else◌,
}
use mathlib.Core.List.{reverse, append-nil}
use famepy.Errors.{Result, ok, err}
use famepy.Command.Include.{
  Files, Nested, input_of, replace, expand_statement, statements, join, next_quote, is_quote,
  is_delimiter, expand_all, expand_command, expand, expand_input,
}

-- The statements of a command, joined with their delimiters, are the command: with what was read
-- of the current statement before it.
pub join-statements :
    (current : Bytes) (quote : Option ℕ) (bs : Bytes)
    → join (statements current quote bs).0 (statements current quote bs).1 ≡ reverse current ++ bs
unfolding statements join
join-statements current quote [] = sym (append-nil (reverse current))
join-statements current quote (b ∷ bs) =
    pick (is_delimiter b quote) (join-statements [] q bs) (join-statements (b ∷ current) q bs)
  where
    q : Option ℕ
    q = if is_quote b then next_quote b quote else quote

    pick :
        (ends : Bool)
        → join (statements [] q bs).0 (statements [] q bs).1 ≡ bs
        → join (statements (b ∷ current) q bs).0 (statements (b ∷ current) q bs).1
          ≡ reverse (b ∷ current) ++ bs
        → (let rest = statements (if ends then [] else b ∷ current) q bs in
            let p : List (Bytes × ℕ) × Bytes =
              if ends then ((reverse current, b) ∷ rest.0, rest.1) else rest in
            join p.0 p.1 ≡ reverse current ++ (b ∷ bs))
    pick true h k = ap (λ x. reverse current ++ (b ∷ x)) h
    pick false h k = k ∙ reverse-step b current bs

-- no statement is an INPUT
abbrev pub NoInput : List (Bytes × ℕ) × Bytes → Type 0
NoInput p = All (λ s. input_of s.0 ≡ none) p.0 × (input_of p.1 ≡ none)

module _ (files : Files) (m : ℕ) (n : Nested) (stack : List ℕ) where
  expand_statement-plain :
      (s : Bytes) (t : ℕ) → input_of s ≡ none → expand_statement files m n stack s t ≡ ok (s, t)
  unfolding expand_statement
  expand_statement-plain s t h =
      ap
        (λ (o : Option (Bool × Bytes)). elim o [
          | none ↦ ok (s, t)
          | some (has_file, value) ↦ replace files m n stack has_file value t
        ])
        h

  expand_all-plain :
      (found : List (Bytes × ℕ)) (last : Bytes) (t : ℕ)
      → NoInput (found, last)
      → expand_all (expand_statement files m n stack) found last t ≡ ok (join found last, t)
  unfolding expand_all join
  expand_all-plain [] last t h = expand_statement-plain last t h.1
  expand_all-plain ((s, d) ∷ found) last t h =
      ap
        (λ (r : Result (Bytes × ℕ)). elim r [
          | err e ↦ err e
          | ok (body, total') ↦ elim (expand_all f found last total') [
            | err e ↦ err e
            | ok (others, total'') ↦ ok (body ++ (d ∷ others), total'')
          ]
        ])
        (expand_statement-plain s t h.0.0)
      ∙ ap
          (λ (r : Result (Bytes × ℕ)). elim r [
            | err e ↦ err e
            | ok (others, total'') ↦ ok (s ++ (d ∷ others), total'')
          ])
          (expand_all-plain found last t (h.0.1, h.1))
    where
      f : Bytes → ℕ → Result (Bytes × ℕ)
      f = expand_statement files m n stack

  expand_command-plain :
      (command : Bytes) (t : ℕ)
      → NoInput (statements [] none command)
      → expand_command (expand_statement files m n stack) command t ≡ ok (command, t)
  unfolding expand_command
  expand_command-plain command t h =
      expand_all-plain (statements [] none command).0 (statements [] none command).1 t h
      ∙ ap (λ x. ok (x, t)) (join-statements [] none command)

expand-plain :
    (files : Files) (m depth : ℕ) (stack : List ℕ) (command : Bytes) (t : ℕ)
    → NoInput (statements [] none command)
    → expand files m depth stack command t ≡ ok (command, t)
unfolding expand
expand-plain files m zero stack command t h = expand_command-plain files m none stack command t h
expand-plain files m (suc depth) stack command t h =
    expand_command-plain files m (some (expand files m depth)) stack command t h

-- A command none of whose statements is an INPUT comes out of the expansion as it went in, at any
-- depth and any size allowed, and whatever the files are.
pub expand_input-plain :
    (files : Files) (depth m : ℕ) (command : Bytes)
    → NoInput (statements [] none command)
    → expand_input files depth m command ≡ ok command
unfolding expand_input
expand_input-plain files depth m command h =
    ap (λ (r : Result (Bytes × ℕ)). elim r [ err e ↦ err e | ok (text, total) ↦ ok text ])
      (expand-plain files m depth [] command 0 h)
