-- ===== src/Audit/Sink.antt =====
-- `_object_key`, `_process_entry` and `_consume_loop` of apps/audit/sink.py. The state is the
-- history of what was done, the latest first; how MinIO and Redis answer may depend on it.
use dcops.Base.{
  ℕ, String, Bool, true, false, Option, none, some, List, [], ◌∷◌, str_eq, str_append,
  if◌then◌else◌,
}
use dcops.Base.Result.{Result, ok, err, runtime_error}
use dcops.Value.{lookup}

-- What was done: an object was put for an entry, and whether that succeeded; an entry was
-- acknowledged.
pub data Effect : Type 0 where
  put : String → String → ℕ → Bool → Effect
  ack : ℕ → Effect

abbrev pub History : Type 0
History = List Effect

-- SHA-256 in hexadecimal, the date as `%Y/%m/%d`, whether MinIO stores the object, and whether
-- Redis takes the acknowledgement or the client raises.
pub record Env : Type 0 where
  pub sha256 : String → String
  pub today : History → String
  pub put_bytes : History → Bool
  pub xack : History → Bool

-- A stream entry: its identifier, and its fields with decoded texts.
abbrev pub Entry : Type 0
Entry = ℕ × List (String × String)

-- `fields.get("data", "")`
abbrev pub payload_of : Entry → String
payload_of (msg_id, fields) = elim (lookup "data" fields) [ none ↦ "" | some text ↦ text ]

module _ (env : Env) where
  -- `_object_key`, at the time of the call.
  unfoldable pub object_key : String → History → String
  object_key body h =
      str_append "audit/"
        (str_append (env.today h) (str_append "/" (str_append (env.sha256 body) ".json")))

  -- `xack`
  unfoldable pub acknowledge : ℕ → History → Result Bool × History
  acknowledge msg_id h = if env.xack h then (ok true, ack msg_id ∷ h) else (err runtime_error, h)

  -- `_process_entry`
  unfoldable pub process_entry : Entry → History → Result Bool × History
  unfolding acknowledge object_key
  process_entry entry h =
      let body = payload_of entry in
      let stored = env.put_bytes h in
      let h' : History = put (object_key body h) body entry.0 stored ∷ h in
      if str_eq body ""
      then acknowledge entry.0 h
      else if stored
      then acknowledge entry.0 h'
      else (ok false, h')

  -- The loops of `_consume_loop` over what one read returned; an exception leaves them.
  unfoldable pub process_all : List Entry → History → Result (Unit {0}) × History
  process_all [] h = (ok tt, h)
  process_all (entry ∷ entries) h =
      let (r, h') = process_entry entry h in
      let rest = process_all entries h' in elim r [ ok done ↦ rest | err e ↦ (err e, h') ]

  -- `_consume_loop` over its reads: `none` is a read that raised. Only an exception ends it early.
  unfoldable pub consume_loop : List (Option (List Entry)) → History → Result (Unit {0}) × History
  consume_loop [] h = (ok tt, h)
  consume_loop (none ∷ reads) h = consume_loop reads h
  consume_loop (some entries ∷ reads) h =
      let (r, h') = process_all entries h in
      let rest = consume_loop reads h' in elim r [ ok done ↦ rest | err e ↦ (err e, h') ]
