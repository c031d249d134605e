-- ===== src/SupabaseIngest/Invariant/Requests.antt =====
-- The requests of the transport of src/supabase-ingest.ts over every schedule: their sizes.
use next_loggers_ts.Prelude.{ℕ, ◌+◌, ◌≤◌, ◌&&◌, leb, List, [], ◌∷◌, Bool, length, if◌then◌else◌}
use next_loggers_ts.SupabaseIngest.{Options, Queued}

-- The bytes of the records of a batch, with a comma between two of them.
abbrev pub joined_bytes : List Queued → ℕ
joined_bytes [] = 0
joined_bytes (x ∷ []) = x.bytes
joined_bytes (x ∷ y ∷ ys) = x.bytes + 1 + joined_bytes (y ∷ ys)

-- A request on exit with more than one record keeps the limit of an exit, any other the usual one.
abbrev pub IsRequest : Options → Bool → List Queued → Type 0
IsRequest o exit batch =
    (1 ≤ length batch)
    × (length batch ≤ o.batch_size)
    × (512 + joined_bytes batch
        ≤ (if exit && leb 2 (length batch) then o.max_exit_batch_bytes else o.max_batch_bytes))

abbrev pub AllRequests : Options → List (Bool × List Queued) → Type 0
AllRequests o [] = 0 ≤ 0
AllRequests o ((exit, batch) ∷ posts) = IsRequest o exit batch × AllRequests o posts
