-- ===== src/Data/Reading/Replies.antt =====
-- The observations of a read are what the library replied to the call for them.
use famepy.Prelude.{
  ℕ, ◌^◌, ◌%◌, ℤ, pos, ◌≡◌, refl, subst, Bytes, not, ◌||◌, leb, ◌==ℤ◌, List, ◌∷◌, map, Option, some,
  contains_byte,
}
use famepy.Errors.{Result, ok, err, data_validation, other, check_status}
use famepy.Native.{
  Native, Range, Call, Reply, Outcome, returned, raised, fame_get_precisions, fame_get_numerics,
  fame_get_booleans, fame_get_dates, fame_len_strings, fame_get_strings,
}
use famepy.World.{World}
use famepy.Exec.{Exec, pure, lift, raise_if, ◌>>◌, answer, checked, call, call_status, ◌>>=◌}
use famepy.Exec.Ends.{Ends, Ends-pure, Ends-lift, Ends-raise, Ends-raise_if}
use famepy.Runtime.{int32}
use famepy.Runtime.Returns.{called}
use famepy.Data.{
  Kind, precision, numeric, boolean, date, string, Buffer, array, items, precisions, numerics,
  booleans, dates,
}
use famepy.Data.Buffers.{
  max_string_bytes, tabulate, signed_word, bulk, bulk_length, range_argument, native_name,
  any_negative, total, strings_of, get_strings, read_values,
}
use famepy.Data.Results.{guard-ok, refuse-ok, ok-injective}

module _ (native : Native) where
  -- the library's reply to a call after the calls that were made
  abbrev pub Replies : List Call → (c : Call) → Reply c → Type 0
  Replies calls c reply = (status : ℤ) × (native.respond calls c ≡ returned status reply)

  -- The values are the library's reply, after the calls that were made, to the call that gets
  -- so many observations of a kind in a range: words of 64 and of 32 bits, signed words of 32 and of 64
  -- bits, and strings, whose lengths are asked for before.
  abbrev pub IsReply : List Call → ℤ → Bytes → Kind → Option Range → ℕ → Buffer → Type 0
  IsReply calls key n precision range count values =
      (words : ℕ → ℕ) × Replies calls (fame_get_precisions key n range) words
      × (values ≡ array (precisions (tabulate count (λ i. words i % 2 ^ 64))))
  IsReply calls key n numeric range count values =
      (words : ℕ → ℕ) × Replies calls (fame_get_numerics key n range) words
      × (values ≡ array (numerics (tabulate count (λ i. words i % 2 ^ 32))))
  IsReply calls key n boolean range count values =
      (words : ℕ → ℕ) × Replies calls (fame_get_booleans key n range) words
      × (values ≡ array (booleans (tabulate count (λ i. signed_word (2 ^ 31) (words i)))))
  IsReply calls key n date range count values =
      (words : ℕ → ℕ) × Replies calls (fame_get_dates key n range) words
      × (values ≡ array (dates (tabulate count (λ i. signed_word (2 ^ 63) (words i)))))
  IsReply calls key n string range count values =
      (words : ℕ → ℕ) × Replies calls (fame_len_strings key n range) words
      × (reply : ℕ → (ℕ → ℕ) × ℕ) × (strings : List Bytes) × Replies
          (fame_len_strings key n range ∷ calls)
          (fame_get_strings key n range (tabulate count (λ i. signed_word (2 ^ 31) (words i))))
          reply
      × (strings_of (tabulate count (λ i. signed_word (2 ^ 31) (words i))) reply ≡ ok strings)
      × (values ≡ items (map some strings))
  IsReply calls key n _ range count values = ⊥

  -- a call that returned
  Ends-call :
      {A : Type 0} (Q : A → World → Type 0) (c : Call) (f : Reply c → Exec A) (w : World)
      → ((reply : Reply c) → Replies w.calls c reply → Ends Q (f reply (called c w)))
      → Ends Q ((call native c >>= f) w)
  unfolding call call_status lift ◌>>=◌
  Ends-call Q c f w h = go (native.respond w.calls c) refl
    where
      status_of :
          (status : ℤ) (reply : Reply c) (r : Result (Unit {0}))
          → native.respond w.calls c ≡ returned status reply
          → Ends Q (((lift (elim r [ ok _ ↦ ok reply | err e ↦ err e ])) >>= f) (called c w))
      status_of status reply (ok u) q = h reply (status, q)
      status_of status reply (err e) q = tt

      go :
          (o : Outcome (Reply c))
          → native.respond w.calls c ≡ o
          → Ends Q ((((λ (v : World). (answer o, called c w)) >>= λ r. lift (checked r)) >>= f) w)
      go (returned status reply) q = status_of status reply (check_status status) q
      go (raised e) q = tt

  same_range :
      (range pointer : Option Range) (count : ℕ)
      → range_argument range count ≡ ok pointer
      → range ≡ pointer
  unfolding range_argument
  same_range range pointer count e =
      (guard-ok (pos count ==ℤ bulk_length range) data_validation e).1

  same_name : (n m : Bytes) → native_name n ≡ ok m → n ≡ m
  unfolding native_name
  same_name n m e = ok-injective (refuse-ok (contains_byte 0 n) data_validation e).1

  same_key : (key k : ℤ) → int32 key ≡ ok k → key ≡ k
  unfolding int32
  same_key key k e = (guard-ok _ data_validation e).1

  module _ (key : ℤ) (n : Bytes) (range : Option Range) (count : ℕ) (w : World) where
    Ends-bulk :
        (Q : Buffer → World → Type 0) (body : ℤ → Bytes → Exec Buffer)
        → Ends Q (body key n w)
        → Ends Q (bulk native key n range count body w)
    unfolding bulk
    Ends-bulk Q body h = Ends-raise_if Q _ data_validation _ w λ _.
        Ends-lift Q (range_argument range count) _ w λ r er. Ends-lift Q (int32 key) _ w λ k ek.
          Ends-lift Q (native_name n) _ w λ m em.
            subst (λ x. Ends Q (body x m w)) (same_key key k ek)
              (subst (λ y. Ends Q (body key y w)) (same_name n m em) h)

    abbrev Replied : Kind → Buffer → World → Type 0
    Replied kind values v = IsReply w.calls key n kind range count values

    -- the rest of `get_strings`, after its arguments are checked
    abbrev strings_from : ℤ → Bytes → Option Range → Exec Buffer
    strings_from k m r = do
      words ← call native (fame_len_strings k m r)
      let lengths = tabulate count (λ i. signed_word (2 ^ 31) (words i))
      raise_if (any_negative lengths || not (leb (total lengths) max_string_bytes)) data_validation
      reply ← call native (fame_get_strings k m r lengths)
      strings ← lift (strings_of lengths reply)
      pure (items (map some strings))

    strings_from-Replied : Ends (Replied string) (strings_from key n range w)
    strings_from-Replied = Ends-call (Replied string) (fame_len_strings key n range) _ w λ words h.
        Ends-raise_if (Replied string) _ data_validation _ _ λ _.
          Ends-call (Replied string)
            (fame_get_strings key n range (tabulate count (λ i. signed_word (2 ^ 31) (words i)))) _
            _
            λ reply g.
              Ends-lift (Replied string)
                (strings_of (tabulate count (λ i. signed_word (2 ^ 31) (words i))) reply) _ _
                λ strings e. Ends-pure (Replied string) _ _ (words, h, reply, strings, g, e, refl)

    strings-Replied : Ends (Replied string) (get_strings native key n range count w)
    unfolding get_strings
    strings-Replied = Ends-lift (Replied string) (int32 (pos count)) _ w λ c ec.
        Ends-raise_if (Replied string) _ data_validation _ w λ _.
          Ends-lift (Replied string) (range_argument range count) _ w λ r er.
            Ends-lift (Replied string) (int32 key) _ w λ k ek.
              Ends-lift (Replied string) (native_name n) _ w λ m em.
                subst (λ x. Ends (Replied string) (strings_from x m r w)) (same_key key k ek)
                  (subst (λ y. Ends (Replied string) (strings_from key y r w)) (same_name n m em)
                    (subst (λ z. Ends (Replied string) (strings_from key n z w))
                      (same_range range r count er) strings_from-Replied))

    pub read_values-Replied :
        (kind : Kind) → Ends (Replied kind) (read_values native key n kind range count w)
    unfolding read_values
    read_values-Replied precision =
        Ends-bulk (Replied precision)
          (λ k m. call native (fame_get_precisions k m range) >>= λ words.
            pure (array (precisions (tabulate count (λ i. words i % 2 ^ 64)))))
          (Ends-call (Replied precision) (fame_get_precisions key n range)
            (λ words. pure (array (precisions (tabulate count (λ i. words i % 2 ^ 64))))) w
            λ words h.
              Ends-pure (Replied precision)
                (array (precisions (tabulate count (λ i. words i % 2 ^ 64))))
                (called (fame_get_precisions key n range) w) (words, h, refl))
    read_values-Replied numeric =
        Ends-bulk (Replied numeric)
          (λ k m. call native (fame_get_numerics k m range) >>= λ words.
            pure (array (numerics (tabulate count (λ i. words i % 2 ^ 32)))))
          (Ends-call (Replied numeric) (fame_get_numerics key n range)
            (λ words. pure (array (numerics (tabulate count (λ i. words i % 2 ^ 32))))) w
            λ words h.
              Ends-pure (Replied numeric)
                (array (numerics (tabulate count (λ i. words i % 2 ^ 32))))
                (called (fame_get_numerics key n range) w) (words, h, refl))
    read_values-Replied boolean =
        Ends-bulk (Replied boolean)
          (λ k m. call native (fame_get_booleans k m range) >>= λ words.
            pure (array (booleans (tabulate count (λ i. signed_word (2 ^ 31) (words i))))))
          (Ends-call (Replied boolean) (fame_get_booleans key n range)
            (λ words.
              pure (array (booleans (tabulate count (λ i. signed_word (2 ^ 31) (words i))))))
            w
            λ words h.
              Ends-pure (Replied boolean)
                (array (booleans (tabulate count (λ i. signed_word (2 ^ 31) (words i)))))
                (called (fame_get_booleans key n range) w) (words, h, refl))
    read_values-Replied date =
        Ends-bulk (Replied date)
          (λ k m. call native (fame_get_dates k m range) >>= λ words.
            pure (array (dates (tabulate count (λ i. signed_word (2 ^ 63) (words i))))))
          (Ends-call (Replied date) (fame_get_dates key n range)
            (λ words. pure (array (dates (tabulate count (λ i. signed_word (2 ^ 63) (words i)))))) w
            λ words h.
              Ends-pure (Replied date)
                (array (dates (tabulate count (λ i. signed_word (2 ^ 63) (words i)))))
                (called (fame_get_dates key n range) w) (words, h, refl))
    read_values-Replied string = strings-Replied
    read_values-Replied _ = Ends-raise _ other w
