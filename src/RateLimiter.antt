-- ===== src/RateLimiter.antt =====
-- aeordb-lib/src/auth/rate_limiter.rs: the sliding window of requests per key. An instant is its
-- number of nanoseconds; the map holds its entries in the order in which it iterates.
pub mod Timestamps
pub mod Bound
mod Examples
use aeordb.Prelude.{
  ℕ, zero, suc, ◌-◌, ◌*◌, ◌/◌, ◌^◌, max, Bool, true, false, not, Option, none, some, List, [], ◌∷◌,
  ◌++◌, length, keep, take, ltb, leb, if◌then◌else◌,
}
use aeordb.Bytes.{Bytes, bytes_eq}
use aeordb.Strings.{StringMap, get}
use aeordb.RateLimiter.Timestamps.{Windows, set, remove, windows_of}

pub record RateLimiter : Type 0 where
  pub windows : Windows
  pub max_requests : ℕ
  pub window_seconds : ℕ

-- Allowed, refused for some seconds, or the panic of `expect("timestamps not empty")`.
pub data Outcome : Type 0 where
  allowed : Outcome
  retry_after_seconds : ℕ → Outcome
  panicked : Outcome

abbrev pub nanoseconds : ℕ
nanoseconds = 10 ^ 9

unfoldable pub new : ℕ → ℕ → RateLimiter
new max_requests window_seconds = record {
  windows = [];
  max_requests = max_requests;
  window_seconds = window_seconds;
}

abbrev pub last : List ℕ → Option ℕ
last [] = none
last (t ∷ []) = some t
last (t ∷ u ∷ ts) = last (u ∷ ts)

-- `None` comes before every instant.
abbrev pub older : Option ℕ → Option ℕ → Bool
older none b = true
older (some t) none = false
older (some t) (some u) = leb t u

-- `sort_by_key`, stable.
unfoldable pub insert_by_last : Bytes × List ℕ → Windows → Windows
insert_by_last entry [] = entry ∷ []
insert_by_last entry (e ∷ entries) =
    let later = e ∷ insert_by_last entry entries in
    if older (last (entry.1)) (last (e.1)) then entry ∷ e ∷ entries else later

unfoldable pub sort_by_last : Windows → Windows
sort_by_last [] = []
sort_by_last (e ∷ entries) = insert_by_last e (sort_by_last entries)

unfoldable pub remove_all : Windows → Windows → Windows
remove_all [] windows = windows
remove_all ((key, ts) ∷ entries) windows = remove_all entries (remove key windows)

-- The eviction of the oldest keys from a map that grew too large.
unfoldable pub evict : Windows → Windows
evict windows =
    if ltb 100000 (length windows)
    then remove_all (take 10000 (sort_by_last windows)) windows
    else windows

-- `now.duration_since(timestamp) < window_duration`; the difference stops at 0.
unfoldable pub is_recent : RateLimiter → ℕ → ℕ → Bool
is_recent limiter now timestamp = ltb (now - timestamp) (limiter.window_seconds * nanoseconds)

-- The refusal of a request whose window is full.
unfoldable refusal : RateLimiter → ℕ → List ℕ → Outcome
refusal limiter now [] = panicked
refusal limiter now (oldest ∷ ts) =
    retry_after_seconds (max (limiter.window_seconds - (now - oldest) / nanoseconds) 1)

-- The outcome, and the limiter afterwards.
unfoldable pub check_rate_limit : RateLimiter → Bytes → ℕ → Outcome × RateLimiter
unfolding refusal
check_rate_limit limiter key now =
    let windows = evict limiter.windows in
    let timestamps = keep (is_recent limiter now) (windows_of key windows) in
    if leb limiter.max_requests (length timestamps)
    then (refusal limiter now timestamps, record limiter { windows = set key timestamps windows })
    else (allowed, record limiter { windows = set key (timestamps ++ (now ∷ [])) windows })

unfoldable pub reset : RateLimiter → Bytes → RateLimiter
reset limiter key = record limiter { windows = remove key limiter.windows }

unfoldable pub reset_all : RateLimiter → RateLimiter
reset_all limiter = record limiter { windows = [] }
