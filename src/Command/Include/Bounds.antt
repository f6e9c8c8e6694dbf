-- ===== src/Command/Include/Bounds.antt =====
-- The expansion of includes counts the bytes of the files that it includes.
use famepy.Prelude.{
  ℕ, suc, zero, ◌+◌, ◌≤◌, ◌≡◌, subst, Bytes, Bool, true, false, not, ◌&&◌, ◌||◌, Option, none, some,
  List, [], ◌∷◌, ◌++◌, contains_byte, ltb, arith, Bool-cases, inl, inr, if◌then◌else◌,
}
use famepy.Errors.{Result, ok, err, include_error}
use famepy.Command.Include.{
  Files, Nested, input_of, unquoted, include_name, in_stack, line_feeds, drop_last_feed, read_file,
  include_file, replace, statements, expand_statement, expand_all, expand_command, expand,
}

-- the size of what a command includes, below one more file; `none` where the depth is used up
abbrev pub Sizing : Type 0
Sizing = Option (Bytes → ℕ)

module _ (files : Files) where
  -- the size of what the content of a file includes
  abbrev pub content_size : (Bytes → ℕ) → Option Bytes → ℕ
  content_size below none = 0
  content_size below (some content) = below (drop_last_feed (line_feeds false content))

  -- the size of a file, and of what it includes
  abbrev pub file_size : (Bytes → ℕ) → Option (Bool × ℕ) → Option Bytes → ℕ
  file_size below none content = 0
  file_size below (some p) content = p.1 + content_size below content

  abbrev pub resolved_size : Sizing → Option ℕ → ℕ
  resolved_size (some below) (some f) = file_size below (files.inspect f) (files.read f)
  resolved_size below f = 0

  abbrev pub named_size : Sizing → Result Bytes → ℕ
  named_size below (ok name) = resolved_size below (files.resolve name)
  named_size below (err e) = 0

  -- what a statement includes: the file that it names, if it is an INPUT
  abbrev pub input_size : Sizing → Option (Bool × Bytes) → ℕ
  input_size below none = 0
  input_size below (some p) = named_size below (include_name p.1)

  abbrev pub sizes : Sizing → List (Bytes × ℕ) → Bytes → ℕ
  sizes below [] last = input_size below (input_of last)
  sizes below (s ∷ found) last = input_size below (input_of s.0) + sizes below found last

  abbrev pub command_size : Sizing → Bytes → ℕ
  command_size below command =
      sizes below (statements [] none command).0 (statements [] none command).1

-- The sizes of all files that a command includes, directly or through a file down to a depth, each
-- counted as often as it is included.
unfoldable pub included_size : Files → ℕ → Bytes → ℕ
included_size files zero command = command_size files none command
included_size files (suc depth) command =
    command_size files (some (included_size files depth)) command

-- The count of a result, where there is one, is larger than before by the size, and within the
-- bound.
abbrev pub Counts : ℕ → ℕ → ℕ → Result (Bytes × ℕ) → Type 0
Counts m t size (ok p) = (p.1 ≡ t + size) × (p.1 ≤ m)
Counts m t size (err e) = Unit

abbrev NestedCounts : ℕ → Nested → Sizing → Type 0
NestedCounts m none h = Unit
NestedCounts m (some f) none = ⊥
NestedCounts m (some f) (some h) =
    (stack : List ℕ) (body : Bytes) (t : ℕ) → t ≤ m → Counts m t (h body) (f stack body t)

Counts-later : (m t a b : ℕ) (r : Result (Bytes × ℕ)) → Counts m (t + a) b r → Counts m t (a + b) r
Counts-later m t a b (ok p) (e, h) = (omega arith, h)
Counts-later m t a b (err e) h = tt

module _ (files : Files) (m : ℕ) (f : List ℕ → Bytes → ℕ → Result (Bytes × ℕ)) (h : Bytes → ℕ)
    (k : NestedCounts m (some f) (some h)) (stack : List ℕ) (g : ℕ) where
  read_file-Counts :
      (t : ℕ)
      → t ≤ m
      → Counts m t (content_size files h (files.read g)) (read_file files m f stack g t)
  unfolding read_file
  read_file-Counts t w = go (files.read g)
    where
      last :
          (c : ℕ) (r : Result (Bytes × ℕ))
          → Counts m t c r
          → Counts m t c
              (elim r [ err e ↦ err e | ok (body, total') ↦ ok ((10 ∷ body) ++ (10 ∷ []), total') ])
      last c (ok (b, n)) w = w
      last c (err e) w = tt

      pick :
          (c : Bytes) (b : Bool)
          → Counts m t (h (drop_last_feed (line_feeds false c))) (
              if b
              then err include_error
              else elim (f (g ∷ stack) (drop_last_feed (line_feeds false c)) t) [
                | err e ↦ err e
                | ok (body, total') ↦ ok ((10 ∷ body) ++ (10 ∷ []), total')
              ])
      pick c true = tt
      pick c false = last _ (f (g ∷ stack) (drop_last_feed (line_feeds false c)) t) (k _ _ t w)

      go :
          (o : Option Bytes)
          → Counts m t (content_size files h o) (elim o [
            | none ↦ err include_error
            | some content ↦
                if contains_byte 0 content
                then err include_error
                else elim (f (g ∷ stack) (drop_last_feed (line_feeds false content)) t) [
                  | err e ↦ err e
                  | ok (body, total') ↦ ok ((10 ∷ body) ++ (10 ∷ []), total')
                ]
          ])
      go none = tt
      go (some c) = pick c (contains_byte 0 c)

  checked-Counts :
      (t : ℕ) (regular : Bool) (size : ℕ)
      → Counts m t (size + content_size files h (files.read g)) (
          if not regular || ltb m size || ltb m (t + size)
          then err include_error
          else read_file files m f stack g (t + size))
  checked-Counts t regular size =
      elim (Bool-cases (not regular || ltb m size || ltb m (t + size))) [
        | inl yes' ↦ rw yes' tt
        | inr no' ↦ rw no' (
            Counts-later m t size (content_size files h (files.read g)) _
              (read_file-Counts (t + size) (ground arith)))
      ]

  include_file-Counts :
      (t : ℕ)
      → Counts m t
          (file_size files h (files.inspect g) (files.read g))
          (include_file files m (some f) stack g t)
  unfolding include_file
  include_file-Counts t = pick (in_stack g stack)
    where
      inspect :
          (o : Option (Bool × ℕ))
          → Counts m t (file_size files h o (files.read g)) (elim o [
            | none ↦ err include_error
            | some (regular, size) ↦
                if not regular || ltb m size || ltb m (t + size)
                then err include_error
                else read_file files m f stack g (t + size)
          ])
      inspect none = tt
      inspect (some (regular, size)) = checked-Counts t regular size

      pick :
          (b : Bool)
          → Counts m t (file_size files h (files.inspect g) (files.read g)) (
              if b then err include_error else elim (files.inspect g) [
                | none ↦ err include_error
                | some (regular, size) ↦
                    if not regular || ltb m size || ltb m (t + size)
                    then err include_error
                    else read_file files m f stack g (t + size)
              ])
      pick true = tt
      pick false = inspect (files.inspect g)

module _ (files : Files) (m : ℕ) (n : Nested) (h : Sizing) (k : NestedCounts m n h) (stack : List ℕ)
    (t : ℕ) where
  found-Counts :
      (g : ℕ) → Counts m t (resolved_size files h (some g)) (include_file files m n stack g t)
  found-Counts g = go n h k
    where
      go :
          (n' : Nested) (h' : Sizing)
          → NestedCounts m n' h'
          → Counts m t (resolved_size files h' (some g)) (include_file files m n' stack g t)
      go none h' q = unfold include_file in tt
      go (some f) none q = absurd q
      go (some f) (some h') q = include_file-Counts files m f h' q stack g t

  replace-Counts :
      (has_file : Bool) (value : Bytes)
      → Counts m t
          (named_size files h (include_name value))
          (replace files m n stack has_file value t)
  unfolding replace
  replace-Counts has_file value =
      pick (has_file && elim (unquoted value) [ none ↦ true | some _ ↦ false ])
    where
      resolved :
          (o : Option ℕ)
          → Counts m t
              (resolved_size files h o)
              (elim o [ none ↦ err include_error | some f ↦ include_file files m n stack f t ])
      resolved none = tt
      resolved (some f) = found-Counts f

      named :
          (r : Result Bytes)
          → Counts m t (named_size files h r) (elim r [
            | err e ↦ err e
            | ok name ↦ elim (files.resolve name) [
              | none ↦ err include_error
              | some f ↦ include_file files m n stack f t
            ]
          ])
      named (err e) = tt
      named (ok name) = resolved (files.resolve name)

      pick :
          (b : Bool)
          → Counts m t (named_size files h (include_name value)) (
              if b then err include_error else elim (include_name value) [
                | err e ↦ err e
                | ok name ↦ elim (files.resolve name) [
                  | none ↦ err include_error
                  | some f ↦ include_file files m n stack f t
                ]
              ])
      pick true = tt
      pick false = named (include_name value)

  expand_statement-Counts :
      (s : Bytes)
      → t ≤ m
      → Counts m t (input_size files h (input_of s)) (expand_statement files m n stack s t)
  unfolding expand_statement
  expand_statement-Counts s w = go (input_of s)
    where
      go :
          (o : Option (Bool × Bytes))
          → Counts m t (input_size files h o) (elim o [
            | none ↦ ok (s, t)
            | some (has_file, value) ↦ replace files m n stack has_file value t
          ])
      go none = (omega arith, w)
      go (some (b, v)) = replace-Counts b v

module _ (files : Files) (m : ℕ) (h : Sizing) (f : Bytes → ℕ → Result (Bytes × ℕ))
    (k : (s : Bytes) (t : ℕ) → t ≤ m → Counts m t (input_size files h (input_of s)) (f s t)) where
  rest-Counts :
      (t c : ℕ) (body : Bytes) (d : ℕ) (r : Result (Bytes × ℕ))
      → Counts m t c r
      → Counts m t c
          (elim r [ err e ↦ err e | ok (others, total'') ↦ ok (body ++ (d ∷ others), total'') ])
  rest-Counts t c body d (ok p) h = h
  rest-Counts t c body d (err e) h = tt

  expand_all-Counts :
      (found : List (Bytes × ℕ)) (last : Bytes) (t : ℕ)
      → t ≤ m
      → Counts m t (sizes files h found last) (expand_all f found last t)
  unfolding expand_all
  expand_all-Counts [] last t w = k last t w
  expand_all-Counts ((s, d) ∷ found) last t w =
      first (f s t) (k s t w) (λ n q. expand_all-Counts found last n q)
    where
      first :
          (r : Result (Bytes × ℕ))
          → Counts m t (input_size files h (input_of s)) r
          → ((n : ℕ) → n ≤ m → Counts m n (sizes files h found last) (expand_all f found last n))
          → Counts m t (input_size files h (input_of s) + sizes files h found last) (elim r [
            | err e ↦ err e
            | ok (body, total') ↦ elim (expand_all f found last total') [
              | err e ↦ err e
              | ok (others, total'') ↦ ok (body ++ (d ∷ others), total'')
            ]
          ])
      first (err e) w g = tt
      first (ok (body, n)) (e, w) g = Counts-later m t _ (sizes files h found last) _ (
          rest-Counts (t + input_size files h (input_of s)) (sizes files h found last) body d
            (expand_all f found last n)
            (subst (λ x. Counts m x (sizes files h found last) (expand_all f found last n)) e
              (g n w)))

-- Where the count so far is within the size that is allowed, an expansion that succeeds makes the
-- count larger by the sizes of the files that the command includes, directly or through a file, each
-- counted as often as it is included; and the count is within the size that is allowed.
pub expand-Counts :
    (files : Files) (m depth : ℕ) (stack : List ℕ) (command : Bytes) (t : ℕ)
    → t ≤ m
    → Counts m t (included_size files depth command) (expand files m depth stack command t)
unfolding expand expand_command included_size
expand-Counts files m zero stack command t h =
    expand_all-Counts files m none _
      (λ s n q. expand_statement-Counts files m none none tt stack n s q) _ _ t h
expand-Counts files m (suc depth) stack command t h =
    expand_all-Counts files m (some (included_size files depth)) _
      (λ s n q.
        expand_statement-Counts files m (some (expand files m depth))
          (some (included_size files depth)) (λ st b u p. expand-Counts files m depth st b u p)
          stack n s q)
      _ _ t h
