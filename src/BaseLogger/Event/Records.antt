-- ===== src/BaseLogger/Event/Records.antt =====
-- The records of events of src/base-logger.ts.
use Prim.Native.String.{String}
use text.Mathlib.Text.{◌==◌ as str_eq}
use text.Mathlib.TextEquality.{eq_iff}
use next_loggers_ts.Prelude.{
  ◌≡◌, refl, ◌∙◌, ap, List, [], ◌∷◌, Bool, true, ◌||◌, Option, none, some, arith, if_both, if_cases,
}
use next_loggers_ts.Cli.Text.{lookup, member}
use next_loggers_ts.BaseLogger.Objects.{
  spread, orelse, last_of, lookup-spread, add, add_all, is_distinct, member-add, add-distinct,
  add_all-distinct, member-add_all,
}
use next_loggers_ts.BaseLogger.Event.{
  Level, LogEvent, Ambient, Fields, new_event, first_text, nonempty, context_of, merged_fields,
  make_record, add_fields, add_logged_in_user_info, add_user_info, add_context, add_meta,
  add_routine_id, with_otel, reset_otel, add_trace, add_tags,
}

-- The calls that build an event.
pub data Call (V : Type 0) : Type 0 where
  fields_added logged_in_user_added user_added : Fields V → Call V
  context_added meta_added : V → Call V
  routine_id_added : String → Call V
  trace_added : String → Bool → Call V
  tags_added : List String → Call V
  otel_chosen : Bool → Call V
  otel_reset : Call V

module _ {V : Type 0} (trim : String → String) where
  abbrev pub apply : Call V → LogEvent V → LogEvent V
  apply (fields_added fs) e = add_fields fs e
  apply (logged_in_user_added fs) e = add_logged_in_user_info fs e
  apply (user_added fs) e = add_user_info fs e
  apply (context_added v) e = add_context v e
  apply (meta_added v) e = add_meta v e
  apply (routine_id_added id) e = add_routine_id id e
  apply (trace_added id first) e = add_trace trim id first e
  apply (tags_added ts) e = add_tags trim ts e
  apply (otel_chosen b) e = with_otel b e
  apply otel_reset e = reset_otel e

  unfoldable pub build : List (Call V) → LogEvent V → LogEvent V
  build [] e = e
  build (c ∷ cs) e = build cs (apply c e)

  -- The sets have no value twice, no trace is empty, and the first trace is one of the traces.
  pub record IsOrdered (e : LogEvent V) : Type 0 where
    pub traces_distinct : is_distinct e.trace_ids ≡ true
    pub tags_distinct : is_distinct e.tags ≡ true
    pub trace_known : (str_eq e.trace_id "" || member e.trace_id e.trace_ids) ≡ true

  add_trace-IsOrdered :
      (id : String) (first : Bool) (e : LogEvent V)
      → IsOrdered e
      → IsOrdered (add_trace trim id first e)
  unfolding add_trace
  add_trace-IsOrdered id first e v =
      let value = trim id in
      if_both IsOrdered (str_eq value "") v (record {
        traces_distinct = add-distinct value e.trace_ids v.traces_distinct;
        tags_distinct = v.tags_distinct;
        trace_known =
            if_both (λ t. (str_eq t "" || member t (add value e.trace_ids)) ≡ true)
              (str_eq e.trace_id "" || first)
              (ground (arith, member-add value value e.trace_ids, eq_iff value value))
              (ground (arith, member-add e.trace_id value e.trace_ids));
      })

  add_tags-IsOrdered :
      (ts : List String) (e : LogEvent V) → IsOrdered e → IsOrdered (add_tags trim ts e)
  unfolding add_tags
  add_tags-IsOrdered [] e v = v
  add_tags-IsOrdered (t ∷ ts) e v = add_tags-IsOrdered ts _ (
      if_both IsOrdered (str_eq (trim t) "") v (record {
        traces_distinct = v.traces_distinct;
        tags_distinct = add-distinct (trim t) e.tags v.tags_distinct;
        trace_known = v.trace_known;
      }))

  apply-IsOrdered : (c : Call V) (e : LogEvent V) → IsOrdered e → IsOrdered (apply c e)
  unfolding add_fields add_logged_in_user_info add_user_info add_context add_meta add_routine_id
      with_otel reset_otel
  apply-IsOrdered (trace_added id first) e v = add_trace-IsOrdered id first e v
  apply-IsOrdered (tags_added ts) e v = add_tags-IsOrdered ts e v
  apply-IsOrdered _ e v = ground arith

  build-IsOrdered : (cs : List (Call V)) (e : LogEvent V) → IsOrdered e → IsOrdered (build cs e)
  unfolding build
  build-IsOrdered [] e v = v
  build-IsOrdered (c ∷ cs) e v = build-IsOrdered cs (apply c e) (apply-IsOrdered c e v)

  new_event-IsOrdered : (l : Level) (vs : List V) → IsOrdered (new_event l vs)
  new_event-IsOrdered l vs = ground arith

or_else-none : {V : Type 0} (o : Option V) → orelse o none ≡ o
or_else-none none = refl
or_else-none (some v) = refl

trace_among :
    (t c : String) (ids more : List String)
    → (str_eq t "" || member t ids) ≡ true
    → (str_eq (first_text t c) ""
        || member (first_text t c) (add_all more (add_all (nonempty c) (add_all ids []))))
      ≡ true
trace_among t c ids more h =
    let own = add_all ids [] in
    let ambient = add_all (nonempty c) own in
    if_cases (λ x. (str_eq x "" || member x (add_all more ambient)) ≡ true) (str_eq t "")
      (λ empty.
        ground
          (arith, member-add_all c more ambient, member-add_all c (nonempty c) own, eq_iff c c))
      (λ given. ground (
        arith,
        given,
        h,
        member-add_all t more ambient,
        member-add_all t (nonempty c) own,
        member-add_all t ids [],
      ))

-- The record of an event that was built by any calls: its trace is one of its traces, no trace and
-- no tag stands twice, and its tags are just those of the event and of the ambient context.
pub make_record-build :
    {V : Type 0} (trim : String → String) (a : Ambient V) (now : String) (level : Level)
    (vs : List V) (calls : List (Call V))
    → let e = build trim calls (new_event level vs) in
      let r = make_record a now e in
      ((str_eq r.trace_id "" || member r.trace_id r.trace_ids) ≡ true)
      × (is_distinct r.trace_ids ≡ true)
      × (is_distinct r.tags ≡ true)
      × ((t : String)
          → member t r.tags ≡ (member t e.tags || member t (context_of a.log_context).tags))
unfolding make_record
make_record-build trim a now level vs calls =
    let e = build trim calls (new_event level vs) in
    let c = context_of a.log_context in
    let v = build-IsOrdered trim calls (new_event level vs) (new_event-IsOrdered trim level vs) in
    (
      trace_among e.trace_id c.trace_id e.trace_ids c.trace_ids v.trace_known,
      add_all-distinct c.trace_ids _
          (add_all-distinct (nonempty c.trace_id) _ (add_all-distinct e.trace_ids [] refl)),
      add_all-distinct c.tags _ (add_all-distinct e.tags [] refl),
      λ t. ground (arith, member-add_all t c.tags (add_all e.tags []), member-add_all t e.tags []),
    )

-- The value of a field in a record is the runtime's, else the event's, else the ambient context's,
-- else the logger's.
lookup-merged_fields :
    {V : Type 0} (a : Ambient V) (e : LogEvent V) (k : String)
    → lookup k (merged_fields a e)
      ≡ orelse (last_of k a.runtime_fields) (
          orelse
            (last_of k e.fields)
            (orelse (last_of k (context_of a.log_context).fields) (last_of k a.logger_fields)))
lookup-merged_fields a e k =
    let c = context_of a.log_context in
    let logger = spread [] a.logger_fields in
    let ambient = spread logger c.fields in
    lookup-spread k (spread ambient e.fields) a.runtime_fields
    ∙ ap (orelse (last_of k a.runtime_fields)) (
        lookup-spread k ambient e.fields
        ∙ ap (orelse (last_of k e.fields)) (
            lookup-spread k logger c.fields
            ∙ ap (orelse (last_of k c.fields))
                (lookup-spread k [] a.logger_fields ∙ or_else-none (last_of k a.logger_fields))))
