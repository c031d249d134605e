-- ===== src/BaseLogger/Event/Once.antt =====
-- `toJSON` of src/base-logger.ts makes the record of an event once.
use Prim.Native.String.{String}
use text.Mathlib.Text.{◌==◌ as str_eq}
use next_loggers_ts.Prelude.{
  ◌≡◌, refl, ◌∙◌, List, [], ◌∷◌, some, arith, if_both, Option-cases, inl, inr,
}
use next_loggers_ts.BaseLogger.Event.{
  LogEvent, LogRecord, Ambient, to_json, add_fields, add_logged_in_user_info, add_user_info,
  add_context, add_meta, add_routine_id, with_otel, reset_otel, add_trace, add_tags,
}
use next_loggers_ts.BaseLogger.Event.Records.{
  Call, fields_added, logged_in_user_added, user_added, context_added, meta_added, routine_id_added,
  trace_added, tags_added, otel_chosen, otel_reset, apply, build,
}

module _ {V : Type 0} where
  to_json-made :
      (a : Ambient V) (now : String) (e : LogEvent V) {r : LogRecord V}
      → e.made ≡ some r
      → (to_json a now e).1 ≡ r
  unfolding to_json
  to_json-made a now e h = ground arith

  made-to_json :
      (a : Ambient V) (now : String) (e : LogEvent V)
      → (to_json a now e).0.made ≡ some (to_json a now e).1
  unfolding to_json
  made-to_json a now e = elim (Option-cases e.made) [
    | inl unmade ↦ ground (arith, unmade)
    | inr (r, h) ↦ ground (arith, h)
  ]

  module _ (trim : String → String) where
    made-add_tags : (ts : List String) (e : LogEvent V) → (add_tags trim ts e).made ≡ e.made
    unfolding add_tags
    made-add_tags [] e = refl
    made-add_tags (t ∷ ts) e =
        made-add_tags ts _
        ∙ if_both (λ (u : LogEvent V). u.made ≡ e.made) (str_eq (trim t) "") refl refl

    made-apply : (c : Call V) (e : LogEvent V) → (apply trim c e).made ≡ e.made
    unfolding add_fields add_logged_in_user_info add_user_info add_context add_meta add_routine_id
        with_otel reset_otel add_trace
    made-apply (fields_added fs) e = refl
    made-apply (logged_in_user_added fs) e = refl
    made-apply (user_added fs) e = refl
    made-apply (context_added v) e = refl
    made-apply (meta_added v) e = refl
    made-apply (routine_id_added id) e = refl
    made-apply (trace_added id first) e =
        if_both (λ (u : LogEvent V). u.made ≡ e.made) (str_eq (trim id) "") refl refl
    made-apply (tags_added ts) e = made-add_tags ts e
    made-apply (otel_chosen b) e = refl
    made-apply otel_reset e = refl

    made-build : (cs : List (Call V)) (e : LogEvent V) → (build trim cs e).made ≡ e.made
    unfolding build
    made-build [] e = refl
    made-build (c ∷ cs) e = made-build cs (apply trim c e) ∙ made-apply c e

    -- The record of an event is made by the first `toJSON` and is not made again: whatever is
    -- added to the event afterwards, whatever the logger's state and the time have become, the
    -- next `toJSON` gives the same record.
    to_json-build :
        (a b : Ambient V) (now later : String) (cs : List (Call V)) (e : LogEvent V)
        → (to_json b later (build trim cs (to_json a now e).0)).1 ≡ (to_json a now e).1
    to_json-build a b now later cs e =
        to_json-made b later (build trim cs (to_json a now e).0)
          (made-build cs (to_json a now e).0 ∙ made-to_json a now e)
