-- ===== src/BaseLogger/Serialize/Redaction.antt =====
-- Redaction and sizes in what `serialize` of src/base-logger.ts returns.
use Prim.Native.String.{String}
use next_loggers_ts.Prelude.{
  ℕ, suc, max, ◌∷◌, ◌≤◌, ◌≡◌, true, false, not, ◌&&◌, List, Option, implies, arith,
}
use next_loggers_ts.BaseLogger.Serialize.{
  Limits, Value, object, Cell, has_seen, serialize, Serialized, str, Runtime, should_redact,
  serialize_log_value,
}
use next_loggers_ts.BaseLogger.Serialize.Cells.{is_redacted, outcome_hidden, serialize_cell_hidden}
use next_loggers_ts.BaseLogger.Serialize.Nodes.{Rule, AllOutcome, is_own, serialize-All}

module _ {N : Type 0} (rt : Runtime N) (limits : Limits) (redact : Option (List String)) where
  -- A field whose key is to be redacted holds the marker, unless it is one of those that the
  -- serializer adds itself.
  abbrev pub redaction : Rule N
  redaction = record {
    Length = λ n. Unit {0};
    Field =
        λ k v. implies (should_redact rt limits redact k && not (is_own k)) (is_redacted v) ≡ true;
  }

  -- No list is longer than the limit and its marker, or a pair.
  abbrev pub sizes : Rule N
  sizes = record { Length = λ n. n ≤ max 2 (suc limits.max_array_length); Field = λ k v. Unit {0} }

  deep_redaction :
      (heap : ℕ → Cell N) (v : Value N)
      → AllOutcome redaction (serialize_log_value rt limits redact heap v)
  unfolding serialize_log_value
  deep_redaction heap v =
      serialize-All rt limits redact redaction (λ n h. tt) tt hidden shown own heap limits.max_depth
        _ v
    where
      hidden : (k : String) → redaction.Field k (str "[REDACTED]")
      hidden k = ground arith

      shown :
          (k : String) (w : Serialized N)
          → should_redact rt limits redact k ≡ false
          → redaction.Field k w
      shown k w h = ground (arith, h)

      own : (k : String) (w : Serialized N) → is_own k ≡ true → redaction.Field k w
      own k w h = ground (arith, h)

  serialize_hidden :
      (heap : ℕ → Cell N) (left : ℕ) (seen : List ℕ) (a : ℕ)
      → has_seen a seen ≡ false
      → outcome_hidden rt limits redact
          (heap a)
          (serialize rt limits redact heap (suc left) seen (object a))
        ≡ true
  unfolding serialize
  serialize_hidden heap left seen a new = rw new (
      serialize_cell_hidden rt limits redact (serialize rt limits redact heap left (a ∷ seen))
        (heap a))

  -- Wherever serialization comes upon an object that it is not already in, at any depth that is
  -- left and whatever the heap holds: a key of a plain object that matches a pattern has the marker
  -- behind it, but for the two notes `__truncatedKeys` and `__type`; so has one of an error, but
  -- for name, message, stack and cause; and each kept entry of a map whose key's text matches is a
  -- pair with the marker for its value. And in all of a result, at every depth, no field with a
  -- matching key holds anything but the marker, those six keys aside.
  pub serialize_log_value-redaction :
      (heap : ℕ → Cell N) (v : Value N) (left : ℕ) (seen : List ℕ) (a : ℕ)
      → has_seen a seen ≡ false
      → (outcome_hidden rt limits redact
            (heap a)
            (serialize rt limits redact heap (suc left) seen (object a))
          ≡ true)
        × AllOutcome redaction (serialize_log_value rt limits redact heap v)
  serialize_log_value-redaction heap v left seen a new =
      (serialize_hidden heap left seen a new, deep_redaction heap v)

  -- Every list in the result has at most `maxArrayLength` entries and one that counts the rest, or
  -- is the pair of a map's key and value.
  pub serialize_log_value-sizes :
      (heap : ℕ → Cell N) (v : Value N)
      → AllOutcome sizes (serialize_log_value rt limits redact heap v)
  unfolding serialize_log_value
  serialize_log_value-sizes heap v =
      serialize-All rt limits redact sizes (λ n h. omega (arith, h)) (omega arith) (λ k. tt)
        (λ k w h. tt) (λ k w h. tt) heap limits.max_depth _ v
