-- ===== src/Tests/Samples.antt =====
-- A library that answers every call with success, and worlds to start from.
use famepy.Prelude.{pos, [], ◌∷◌, true, false, none, some}
use famepy.Native.{
  Native, Sentinels, Info, Call, Reply, returned, cfmini, cfmfin, cfmver, read_globals, cfmopwk,
  cfmlerr, cfmferr, cfmopdb, cfmcldb, cfmpodb, fame_quick_info, cfmnwob, cfmdlob, cfmsopt,
  fame_init_wildcard, fame_get_next_wildcard, fame_free_wildcard, cfmfame, fame_get_precisions,
  fame_get_numerics, fame_get_booleans, fame_get_dates, fame_len_strings, fame_get_strings,
  fame_write_precisions, fame_write_numerics, fame_write_booleans, fame_write_dates,
  fame_write_strings, cfmnlen, cfmgtnl, cfmwtnl,
}
use famepy.World.{World, State, put_session, AccessMode}
use famepy.Api.{boot}

abbrev pub some_sentinels : Sentinels
some_sentinels = record {
  index_nc = pos 1;
  index_na = pos 2;
  index_nd = pos 3;
  precision_nc = 1;
  precision_na = 2;
  precision_nd = 3;
  numeric_nc = 1;
  numeric_na = 2;
  numeric_nd = 3;
  boolean_nc = pos 125;
  boolean_na = pos 126;
  boolean_nd = pos 127;
  string_nc = 1 ∷ [];
  string_na = 2 ∷ [];
  string_nd = 3 ∷ [];
}

abbrev pub scalar_info : Info
scalar_info = record {
  class_code = pos 2;
  type_code = pos 5;
  frequency = pos 0;
  first_index = pos 0;
  last_index = pos 0;
}

abbrev pub reply_of : (c : Call) → Reply c
reply_of cfmini = tt
reply_of cfmfin = tt
reply_of cfmver = 1190
reply_of read_globals = some_sentinels
reply_of cfmopwk = pos 7
reply_of cfmlerr = pos 0
reply_of (cfmferr _) = []
reply_of (cfmopdb _ _) = pos 3
reply_of (cfmcldb _) = tt
reply_of (cfmpodb _) = tt
reply_of (fame_quick_info _ _) = scalar_info
reply_of (cfmnwob _ _ _ _ _ _ _) = tt
reply_of (cfmdlob _ _) = tt
reply_of (cfmsopt _ _) = tt
reply_of (fame_init_wildcard _ _) = pos 9
reply_of (fame_get_next_wildcard _ _) = record {
  name = b'A' ∷ [];
  info = scalar_info;
  returned_length = pos 1;
}
reply_of (fame_free_wildcard _) = tt
reply_of (cfmfame _) = tt
reply_of (fame_get_precisions _ _ _) = λ i. i
reply_of (fame_get_numerics _ _ _) = λ i. i
reply_of (fame_get_booleans _ _ _) = λ i. i
reply_of (fame_get_dates _ _ _) = λ i. i
reply_of (fame_len_strings _ _ _) = λ i. 1
reply_of (fame_get_strings _ _ _ _) = λ i. (λ j. b'A', 1)
reply_of (fame_write_precisions _ _ _ _) = tt
reply_of (fame_write_numerics _ _ _ _) = tt
reply_of (fame_write_booleans _ _ _ _) = tt
reply_of (fame_write_dates _ _ _ _ _) = tt
reply_of (fame_write_strings _ _ _ _) = tt
reply_of (cfmnlen _ _ _) = pos 2
reply_of (cfmgtnl _ _ _ _) = (λ j. b'A', pos 2)
reply_of (cfmwtnl _ _ _ _) = tt

-- every call succeeds, and the library loads
abbrev pub willing : Native
willing = record {
  respond = λ calls c. returned (pos 0) (reply_of c);
  cdll = λ n. returned (pos 0) tt;
}

-- every native call returns the status 20
abbrev pub failing : Native
failing = record {
  respond = λ calls c. returned (pos 20) (reply_of c);
  cdll = λ n. returned (pos 0) tt;
}

-- process 1 with session 0 live
abbrev pub live : World
live =
    let w = boot 1 none in
    record (put_session 0
      (record (w.sessions 0) { native = true; state = State.initialized; generation = 1 }) w) {
        loaded_native = true;
        owner = some 0;
        next_session = 1;
      }

-- `live` with the handle 0 open under the key 3
abbrev pub with_handle : World
with_handle =
    record (put_session 0 (record (live.sessions 0) { databases = (pos 3, 0) ∷ [] }) live) {
      handles = λ _. record {
        session = 0;
        key = pos 3;
        mode = AccessMode.readonly;
        is_work = false;
        generation = 1;
        is_open = true;
      };
      next_handle = 1;
    }
