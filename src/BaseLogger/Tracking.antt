-- ===== src/BaseLogger/Tracking.antt =====
-- `createErrorTrackingTransport` of src/base-logger.ts: severe records are posted, and a record
-- whose hash was posted already is left out. The hash of a record is an argument.
pub mod Hashes
use Prim.Native.String.{String}
use text.Mathlib.Text.{◌==◌ as str_eq}
use next_loggers_ts.Prelude.{
  ℕ, ◌+◌, List, [], ◌∷◌, ◌++◌, Bool, true, false, not, ◌&&◌, Option, none, some, length, drop, leb,
  if◌then◌else◌,
}
use next_loggers_ts.Cli.Text.{member}
use next_loggers_ts.BaseLogger.Objects.{add}
use next_loggers_ts.BaseLogger.Event.{Level, trace, debug, info, warn, error, fatal}

-- `LEVEL_INDEX`.
abbrev pub level_index : Level → ℕ
level_index trace = 0
level_index debug = 1
level_index info = 2
level_index warn = 3
level_index error = 4
level_index fatal = 5

-- `BaseLogger.isEnabled`.
abbrev pub is_enabled : Level → Level → Bool
is_enabled max_level level = leb (level_index max_level) (level_index level)

pub record Options : Type 0 where
  pub min_level : Level
  pub dedupe : Bool

pub record Record : Type 0 where
  pub level : Level
  pub hash : String

-- The hashes in order of insertion, and the records handed to the inner transport.
pub record Tracker : Type 0 where
  pub hashes : List String
  pub sent : List Record

abbrev pub fresh : Tracker
fresh = record { hashes = []; sent = [] }

abbrev pub matches : Options → Record → Bool
matches o r = leb (level_index o.min_level) (level_index r.level)

abbrev pub send : Record → Tracker → Tracker
send r s = record s { sent = s.sent ++ r ∷ [] }

-- The oldest half gives way when the set is full.
unfoldable pub make_room : List String → List String
make_room hashes = if leb 5000 (length hashes) then drop 2500 hashes else hashes

-- A write up to the post; its end is `post_failed` or nothing.
unfoldable pub write : Options → Record → Tracker → Tracker
write o r s =
    if not (matches o r)
    then s
    else if not o.dedupe
    then send r s
    else if member r.hash s.hashes
    then s
    else send r (record s { hashes = add r.hash (make_room s.hashes) })

unfoldable pub remove : String → List String → List String
remove h [] = []
remove h (g ∷ gs) = let rest = remove h gs in if str_eq g h then rest else g ∷ rest

-- A failed post releases its hash.
unfoldable pub post_failed : Record → Tracker → Tracker
post_failed r s = record s { hashes = remove r.hash s.hashes }

pub data Event : Type 0 where
  wrote failed : Record → Event

unfoldable pub step : Options → Event → Tracker → Tracker
step o (wrote r) s = write o r s
step o (failed r) s = if o.dedupe then post_failed r s else s

unfoldable pub run : Options → List Event → Tracker → Tracker
run o [] s = s
run o (e ∷ es) s = run o es (step o e s)
