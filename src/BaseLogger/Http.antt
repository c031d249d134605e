-- ===== src/BaseLogger/Http.antt =====
-- `HttpTransport` of src/base-logger.ts: a record is posted to the endpoint, and to the fallback
-- if that fails. Whether a post succeeds, fails with an error, and what a beacon answers are the
-- environment's.
use Prim.Native.String.{String}
use text.Mathlib.Text.{◌==◌ as str_eq}
use next_loggers_ts.Prelude.{
  ◌≡◌, refl, List, [], ◌∷◌, Bool, true, false, not, ◌||◌, Option, none, some, is_some, ap, map,
  if_both, if◌then◌else◌,
}

pub record Options : Type 0 where
  pub endpoint : String
  pub fallback_endpoint : Option String

pub data Post (E : Type 0) : Type 0 where
  accepted : Post E
  failed : E → Post E

pub data Beacon : Type 0 where
  taken not_taken threw : Beacon

-- The endpoints that were posted to, and the error that the write rejects with.
pub record Written (E : Type 0) : Type 0 where
  pub posted : List String
  pub error : Option E

abbrev with_fallback : String → Option String → List String
with_fallback endpoint none = endpoint ∷ []
with_fallback endpoint (some url) = if str_eq url "" then endpoint ∷ [] else endpoint ∷ url ∷ []

abbrev pub endpoints : Options → List String
endpoints o = with_fallback o.endpoint o.fallback_endpoint

abbrev is_taken : Beacon → Bool
is_taken taken = true
is_taken not_taken = false
is_taken threw = false

abbrev pub is_accepted : {E : Type 0} → Post E → Bool
is_accepted accepted = true
is_accepted (failed e) = false

module _ {E : Type 0} where
  abbrev unless_accepted : String → Post E → (Option E → Written E) → Written E
  unless_accepted url accepted rest = record { posted = url ∷ []; error = none }
  unless_accepted url (failed e) rest =
      let w = rest (some e) in record { posted = url ∷ w.posted; error = w.error }

  unfoldable pub try_each : (String → Post E) → List String → Option E → Written E
  try_each post [] last_error = record { posted = []; error = last_error }
  try_each post (url ∷ urls) last_error = unless_accepted url (post url) (try_each post urls)

  unfoldable pub write : Options → (String → Post E) → Written E
  write o post = try_each post (endpoints o) none

  -- The endpoints up to the first that accepts, and the error of the last if none does.
  abbrev pub up_to_accepted : (String → Post E) → List String → List String
  up_to_accepted post [] = []
  up_to_accepted post (url ∷ urls) =
      let rest = up_to_accepted post urls in if is_accepted (post url) then url ∷ [] else url ∷ rest

  abbrev pub any_accepts : (String → Post E) → List String → Bool
  any_accepts post [] = false
  any_accepts post (url ∷ urls) = is_accepted (post url) || any_accepts post urls

  posted-unless_accepted :
      (url : String) (p : Post E) (rest : Option E → Written E) (spec : List String)
      → ((e : Option E) → (rest e).posted ≡ spec)
      → (unless_accepted url p rest).posted ≡ (if is_accepted p then url ∷ [] else url ∷ spec)
  posted-unless_accepted url accepted rest spec h = refl
  posted-unless_accepted url (failed x) rest spec h = ap (λ l. url ∷ l) (h (some x))

  posted-try_each :
      (post : String → Post E) (urls : List String) (e : Option E)
      → (try_each post urls e).posted ≡ up_to_accepted post urls
  unfolding try_each
  posted-try_each post [] e = refl
  posted-try_each post (url ∷ urls) e =
      posted-unless_accepted url (post url) (try_each post urls) _ (posted-try_each post urls)

  error-unless_accepted :
      (url : String) (p : Post E) (rest : Option E → Written E) (spec : Bool)
      → ((x : E) → is_some (rest (some x)).error ≡ not spec)
      → is_some (unless_accepted url p rest).error ≡ not (is_accepted p || spec)
  error-unless_accepted url accepted rest spec h = refl
  error-unless_accepted url (failed x) rest spec h = h x

  error-try_each :
      (post : String → Post E) (urls : List String) (x : E)
      → is_some (try_each post urls (some x)).error ≡ not (any_accepts post urls)
  unfolding try_each
  error-try_each post [] x = refl
  error-try_each post (url ∷ urls) x =
      error-unless_accepted url (post url) (try_each post urls) _ (error-try_each post urls)

  error-endpoints :
      (post : String → Post E) (url : String) (urls : List String)
      → is_some (try_each post (url ∷ urls) none).error ≡ not (any_accepts post (url ∷ urls))
  unfolding try_each
  error-endpoints post url urls =
      error-unless_accepted url (post url) (try_each post urls) _ (error-try_each post urls)

  error-write :
      (o : Options) (f : Option String) (post : String → Post E)
      → is_some (try_each post (with_fallback o.endpoint f) none).error
        ≡ not (any_accepts post (with_fallback o.endpoint f))
  error-write o none post = error-endpoints post o.endpoint []
  error-write o (some url) post =
      if_both (λ us. is_some (try_each post us none).error ≡ not (any_accepts post us))
        (str_eq url "") (error-endpoints post o.endpoint [])
        (error-endpoints post o.endpoint (url ∷ []))

  -- A write posts to the endpoints in turn up to the first that accepts the record, and to no
  -- other; it fails just when none accepts it.
  write-up_to_accepted :
      (o : Options) (post : String → Post E)
      → ((write o post).posted ≡ up_to_accepted post (endpoints o))
        × (is_some (write o post).error ≡ not (any_accepts post (endpoints o)))
  unfolding write
  write-up_to_accepted o post =
      (posted-try_each post (endpoints o) none, error-write o o.fallback_endpoint post)

-- `flushOnExit`: each record goes to the endpoints in turn until a beacon takes it.
unfoldable pub beacon_each : (String → Beacon) → List String → List String
beacon_each beacon [] = []
beacon_each beacon (url ∷ urls) =
    let rest = beacon_each beacon urls in if is_taken (beacon url) then url ∷ [] else url ∷ rest

unfoldable pub flush_on_exit :
    {R : Type 0} → Options → Bool → (R → String → Beacon) → List R → List (R × List String)
flush_on_exit o has_beacon beacon records =
    if has_beacon then map (λ r. (r, beacon_each (beacon r) (endpoints o))) records else []
