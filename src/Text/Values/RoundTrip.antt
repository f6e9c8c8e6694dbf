-- ===== src/Text/Values/RoundTrip.antt =====
-- What is written under a policy is read back under it.
use famepy.Prelude.{
  ℕ, ◌≡◌, refl, ap, subst, sym, Bytes, Option, none, some, List, Bool-cases, inl, inr,
}
use famepy.Errors.{ok, err, text_encoding}
use famepy.Text.{Text, str, bytes, is_ascii}
use famepy.Text.Names.{no_nul_lem}
use famepy.Text.Values.{
  Policy, ascii_policy, bytes_policy, utf8_policy, encoded, decoded, only_ascii, encode_value,
  decode_value,
}
use famepy.Text.Values.Utf8.{encode_utf8, decode-encode_utf8}

-- the values that a policy gives back in their own form
abbrev pub IsNative : Text → Policy → Type 0
IsNative (str cs) bytes_policy = ⊥
IsNative (str cs) _ = Unit
IsNative (bytes bs) bytes_policy = Unit
IsNative (bytes bs) _ = ⊥

encoded_lem : (o : Option Bytes) (bs : Bytes) → encoded o ≡ ok bs → o ≡ some bs
encoded_lem none bs e = absurd (refused e)
  where
    refused : err text_encoding ≡ ok bs → ⊥
    refused q = cc
encoded_lem (some d) bs e = ap some (sym (no_nul_lem d bs e).0)

only_ascii_lem : (cs bs : List ℕ) → only_ascii cs ≡ some bs → only_ascii bs ≡ some cs
only_ascii_lem cs bs e = elim (Bool-cases (is_ascii cs)) [
  | inl yes' ↦
      (let q : cs ≡ bs = cc (yes', e) in subst (λ x. only_ascii x ≡ some cs) q (rw yes' refl))
  | inr no' ↦ absurd (refused (cc (no', e)))
]
  where
    refused : none ≡ some bs → ⊥
    refused q = cc

-- A string written under the ASCII or the UTF-8 policy, or bytes written under the bytes policy,
-- are read back under the same policy as they were.
pub decode-encode_value :
    (x : Text) (policy : Policy) (bs : Bytes)
    → IsNative x policy
    → encode_value x policy ≡ ok bs
    → decode_value bs policy ≡ ok x
unfolding encode_value decode_value
decode-encode_value (str cs) bytes_policy bs h e = absurd h
decode-encode_value (str cs) ascii_policy bs h e =
    ap decoded (only_ascii_lem cs bs (encoded_lem (only_ascii cs) bs e))
decode-encode_value (str cs) utf8_policy bs h e =
    ap decoded (decode-encode_utf8 cs bs (encoded_lem (encode_utf8 cs) bs e))
decode-encode_value (bytes ds) bytes_policy bs h e = ap (λ x. ok (bytes x)) (no_nul_lem ds bs e).0
decode-encode_value (bytes ds) ascii_policy bs h e = absurd h
decode-encode_value (bytes ds) utf8_policy bs h e = absurd h
