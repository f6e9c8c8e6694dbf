-- ===== src/Native.antt =====
-- The boundary of src/famepy/_native.py: the calls that the package makes on the CHLI library, what
-- a call gives back, and the records that cross the boundary. The library itself is not part of
-- the repository: a `Native` is any answer to any call after any history of calls.
use famepy.Prelude.{ℕ, Bytes, ℤ, Option, List}
use famepy.Errors.{Error}

-- `Sentinels`: a float is carried as its bit pattern.
pub record Sentinels : Type 0 where
  pub index_nc : ℤ
  pub index_na : ℤ
  pub index_nd : ℤ
  pub precision_nc : ℕ
  pub precision_na : ℕ
  pub precision_nd : ℕ
  pub numeric_nc : ℕ
  pub numeric_na : ℕ
  pub numeric_nd : ℕ
  pub boolean_nc : ℤ
  pub boolean_na : ℤ
  pub boolean_nd : ℤ
  pub string_nc : Bytes
  pub string_na : Bytes
  pub string_nd : Bytes

-- The out parameters of `fame_quick_info`: class, type, frequency and range.
pub record Info : Type 0 where
  pub class_code : ℤ
  pub type_code : ℤ
  pub frequency : ℤ
  pub first_index : ℤ
  pub last_index : ℤ

-- The out parameters of `fame_get_next_wildcard`: the name buffer, the codes and the length.
pub record Listed : Type 0 where
  pub name : Bytes
  pub info : Info
  pub returned_length : ℤ

-- The range argument of a bulk call, `none` for a scalar.
pub record Range : Type 0 where
  pub frequency : ℤ
  pub first : ℤ
  pub last : ℤ

-- The native calls, by their CHLI names; `read_globals` is the read of the sentinel globals.
pub data Call : Type 0 where
  cfmini cfmfin cfmver read_globals cfmopwk cfmlerr : Call
  cfmferr : ℤ → Call
  cfmopdb : Bytes → ℤ → Call
  cfmcldb cfmpodb : ℤ → Call
  fame_quick_info : ℤ → Bytes → Call
  cfmnwob : ℤ → Bytes → ℤ → ℤ → ℤ → ℤ → ℤ → Call
  cfmdlob : ℤ → Bytes → Call
  cfmsopt : Bytes → Bytes → Call
  fame_init_wildcard : ℤ → Bytes → Call
  fame_get_next_wildcard : ℤ → ℤ → Call
  fame_free_wildcard : ℤ → Call
  cfmfame : Bytes → Call
  fame_get_precisions fame_get_numerics : ℤ → Bytes → Option Range → Call
  fame_get_booleans fame_get_dates : ℤ → Bytes → Option Range → Call
  fame_len_strings : ℤ → Bytes → Option Range → Call
  fame_get_strings : ℤ → Bytes → Option Range → List ℤ → Call
  fame_write_precisions fame_write_numerics : ℤ → Bytes → Option Range → List ℕ → Call
  fame_write_booleans : ℤ → Bytes → Option Range → List ℤ → Call
  fame_write_dates : ℤ → Bytes → Option Range → ℤ → List ℤ → Call
  fame_write_strings : ℤ → Bytes → Option Range → List Bytes → Call
  cfmnlen : ℤ → Bytes → ℤ → Call
  cfmgtnl : ℤ → Bytes → ℤ → ℤ → Call
  cfmwtnl : ℤ → Bytes → ℤ → Bytes → Call

-- What the out parameters of a call hold when it has returned. A buffer holds a machine word, or a
-- character, at each position; a float is carried as its bit pattern.
abbrev pub Reply : Call → Type 0
Reply cfmver = ℕ
Reply read_globals = Sentinels
Reply cfmopwk = ℤ
Reply cfmlerr = ℤ
Reply (cfmferr _) = Bytes
Reply (cfmopdb _ _) = ℤ
Reply (fame_quick_info _ _) = Info
Reply (fame_init_wildcard _ _) = ℤ
Reply (fame_get_next_wildcard _ _) = Listed
Reply (fame_get_precisions _ _ _) = ℕ → ℕ
Reply (fame_get_numerics _ _ _) = ℕ → ℕ
Reply (fame_get_booleans _ _ _) = ℕ → ℕ
Reply (fame_get_dates _ _ _) = ℕ → ℕ
Reply (fame_len_strings _ _ _) = ℕ → ℕ
Reply (fame_get_strings _ _ _ _) = ℕ → (ℕ → ℕ) × ℕ
Reply (cfmnlen _ _ _) = ℤ
Reply (cfmgtnl _ _ _ _) = (ℕ → ℕ) × ℤ
Reply _ = Unit

-- A call returns its status and its out parameters, or is cut short by an exception.
pub data Outcome (A : Type 0) : Type 0 where
  returned : ℤ → A → Outcome A
  raised : Error → Outcome A

-- `respond history call`: the library may answer by all that was asked of it before. `cdll n` is
-- the attempt number `n` to load the library.
pub record Native : Type 0 where
  pub respond : List Call → (c : Call) → Outcome (Reply c)
  pub cdll : ℕ → Outcome (Unit {0})
