-- ===== src/RateLimiter/Bound.antt =====
-- Runs of requests to the limiter of aeordb-lib/src/auth/rate_limiter.rs, and the log of those
-- it allowed.
use aeordb.Prelude.{
  ℕ, ◌≤◌, ◌<◌, ◌≡◌, refl, ap, sym, subst, ◌∙◌, Bool, Bool-cases, inl, inr, List, [], ◌∷◌, ◌++◌,
  length, keep, keep-append, length-append, leb, if◌then◌else◌, arith,
}
use aeordb.Bytes.{Bytes, bytes_eq, bytes_eq_iff, bytes_eq_refl}
use aeordb.Strings.{get}
use aeordb.RateLimiter.Timestamps.{Windows, set, windows_of, get-set}
use aeordb.RateLimiter.{
  RateLimiter, Outcome, allowed, new, evict, is_recent, refusal, check_rate_limit,
}

-- What a request adds to the log of the allowed requests of a key.
abbrev pub logged : Bytes → Bytes → Outcome → ℕ → List ℕ → List ℕ
logged key key' allowed now log = if bytes_eq key' key then log ++ (now ∷ []) else log
logged key key' other now log = log

-- The states that requests lead to, with the time of the last one and the times of the requests that
-- were allowed for one key; time does not run backwards, and nothing is evicted.
pub data Runs (max_requests window_seconds : ℕ) (key : Bytes)
    : RateLimiter → ℕ → List ℕ → Type 0 where
  start : (now : ℕ) → Runs max_requests window_seconds key (new max_requests window_seconds) now []
  request :
      {limiter : RateLimiter} {now : ℕ} {log : List ℕ}
      → Runs max_requests window_seconds key limiter now log
      → (key' : Bytes) (now' : ℕ) → now ≤ now'
      → length limiter.windows ≤ 100000
      → Runs max_requests window_seconds key
          (check_rate_limit limiter key' now').1
          now'
          (logged key key' (check_rate_limit limiter key' now').0 now' log)

-- What is kept for a key are the allowed requests that are recent.
pub record IsLogged (m w : ℕ) (key : Bytes) (limiter : RateLimiter) (now : ℕ) (log : List ℕ)
    : Type 0 where
  pub limit : limiter.max_requests ≡ m
  pub window : limiter.window_seconds ≡ w
  pub same :
      keep (is_recent limiter now) (windows_of key limiter.windows)
      ≡ keep (is_recent limiter now) log
  pub few : length (keep (is_recent limiter now) log) ≤ m

keep-later :
    (limiter : RateLimiter) (now now' : ℕ) (ts : List ℕ)
    → now ≤ now'
    → keep (is_recent limiter now') (keep (is_recent limiter now) ts)
      ≡ keep (is_recent limiter now') ts
unfolding keep is_recent
keep-later limiter now now' [] h = refl
keep-later limiter now now' (t ∷ ts) h = ground (arith, keep-later limiter now now' ts)

length-keep : (test : ℕ → Bool) (ts : List ℕ) → length (keep test ts) ≤ length ts
unfolding keep
length-keep test [] = omega arith
length-keep test (t ∷ ts) = ground (arith, length-keep test ts)

evict_small : (windows : Windows) → length windows ≤ 100000 → evict windows ≡ windows
unfolding evict
evict_small windows h = ground arith

refusal-logged :
    (key key' : Bytes) (limiter : RateLimiter) (now now' : ℕ) (ts log : List ℕ)
    → logged key key' (refusal limiter now ts) now' log ≡ log
unfolding refusal
refusal-logged key key' limiter now now' [] log = refl
refusal-logged key key' limiter now now' (t ∷ ts) log = refl

windows_of-set :
    (key key' : Bytes) (ts : List ℕ) (windows : Windows)
    → windows_of key (set key' ts windows)
      ≡ (if bytes_eq key' key then ts else windows_of key windows)
windows_of-set key key' ts windows = ground (arith, get-set key' key ts windows)

-- At a later time the kept requests still agree with the log, and are not more.
keep-log :
    (m w : ℕ) (key : Bytes) (limiter : RateLimiter) (now now' : ℕ) (log : List ℕ)
    → IsLogged m w key limiter now log
    → now ≤ now'
    → (keep (is_recent limiter now') (windows_of key limiter.windows)
        ≡ keep (is_recent limiter now') log)
      × (length (keep (is_recent limiter now') log) ≤ m)
keep-log m w key limiter now now' log i h =
    let recent = is_recent limiter now in
    let later = is_recent limiter now' in
    let kept = windows_of key limiter.windows in
    let shrunk = keep-later limiter now now' log h in
    (
      sym (keep-later limiter now now' kept h) ∙ (ap (keep later) i.same ∙ shrunk),
      subst (λ l. length l ≤ m) shrunk (omega (arith, length-keep later (keep recent log), i.few)),
    )

refused-IsLogged :
    (m w : ℕ) (key key' : Bytes) (limiter : RateLimiter) (now now' : ℕ) (log : List ℕ)
    → IsLogged m w key limiter now log
    → now ≤ now'
    → IsLogged m w key
        (record limiter {
          windows =
              set key'
                (keep (is_recent limiter now') (windows_of key' limiter.windows))
                limiter.windows;
        })
        now'
        log
unfolding is_recent
refused-IsLogged m w key key' limiter now now' log i h =
    let (same', few') = keep-log m w key limiter now now' log i h in
    let kept = keep (is_recent limiter now') (windows_of key' limiter.windows) in
    record {
      limit = i.limit;
      window = i.window;
      few = few';
      same = elim (Bool-cases (bytes_eq key' key)) [
        | inl eq ↦
            rw (windows_of-set key key' kept limiter.windows, eq, (bytes_eq_iff key' key).0 eq)
              (keep-later limiter now' now' (windows_of key limiter.windows) (omega arith) ∙ same')
        | inr other ↦ rw (windows_of-set key key' kept limiter.windows, other) same'
      ];
    }

own_request-IsLogged :
    (m w : ℕ) (key : Bytes) (limiter : RateLimiter) (now now' : ℕ) (log : List ℕ)
    → IsLogged m w key limiter now log
    → now ≤ now'
    → length (keep (is_recent limiter now') (windows_of key limiter.windows)) < limiter.max_requests
    → IsLogged m w key
        (record limiter {
          windows =
              set key
                (keep (is_recent limiter now') (windows_of key limiter.windows) ++ (now' ∷ []))
                limiter.windows;
        })
        now'
        (log ++ (now' ∷ []))
unfolding is_recent
own_request-IsLogged m w key limiter now now' log i h room =
    let (same', few') = keep-log m w key limiter now now' log i h in
    let recent = is_recent limiter now' in
    let old = keep recent (windows_of key limiter.windows) in
    let one : List ℕ = now' ∷ [] in
    record {
      limit = i.limit;
      window = i.window;
      few = omega (
        arith,
        ap length (keep-append recent log one),
        length-append (keep recent log) (keep recent one),
        length-keep recent one,
        ap length same',
        i.limit,
      );
      same =
          rw (windows_of-set key key (old ++ one) limiter.windows, bytes_eq_refl key)
            (keep-append recent old one
              ∙ (ap (λ l. l ++ keep recent one)
                    (keep-later limiter now' now' (windows_of key limiter.windows) (omega arith)
                      ∙ same')
                  ∙ sym (keep-append recent log one)));
    }

allowed-IsLogged :
    (m w : ℕ) (key key' : Bytes) (limiter : RateLimiter) (now now' : ℕ) (log : List ℕ)
    → IsLogged m w key limiter now log
    → now ≤ now'
    → length (keep (is_recent limiter now') (windows_of key' limiter.windows))
      < limiter.max_requests
    → IsLogged m w key
        (record limiter {
          windows =
              set key'
                (keep (is_recent limiter now') (windows_of key' limiter.windows) ++ (now' ∷ []))
                limiter.windows;
        })
        now'
        (logged key key' allowed now' log)
unfolding is_recent
allowed-IsLogged m w key key' limiter now now' log i h room =
    let (same', few') = keep-log m w key limiter now now' log i h in
    let recent = is_recent limiter now' in
    let kept = keep recent (windows_of key' limiter.windows) ++ (now' ∷ []) in
    elim (Bool-cases (bytes_eq key' key)) [
      | inl eq ↦
          let path = (bytes_eq_iff key' key).0 eq in
          rw (eq, path)
            (own_request-IsLogged m w key limiter now now' log i h (
              subst
                (λ k. length (keep recent (windows_of k limiter.windows)) < limiter.max_requests)
                path room))
      | inr other ↦ rw other (record {
        limit = i.limit;
        window = i.window;
        few = few';
        same = rw (windows_of-set key key' kept limiter.windows, other) same';
      })
    ]

request-IsLogged :
    (m w : ℕ) (key key' : Bytes) (limiter : RateLimiter) (now now' : ℕ) (log : List ℕ)
    → IsLogged m w key limiter now log
    → now ≤ now'
    → length limiter.windows ≤ 100000
    → IsLogged m w key
        (check_rate_limit limiter key' now').1
        now'
        (logged key key' (check_rate_limit limiter key' now').0 now' log)
unfolding check_rate_limit
request-IsLogged m w key key' limiter now now' log i h small =
    let kept = keep (is_recent limiter now') (windows_of key' limiter.windows) in
    elim (Bool-cases (leb limiter.max_requests (length kept))) [
      | inl full ↦
          rw
            (
              evict_small limiter.windows small,
              full,
              refusal-logged key key' limiter now' now' kept log,
            )
            (refused-IsLogged m w key key' limiter now now' log i h)
      | inr room ↦
          rw (evict_small limiter.windows small, room)
            (allowed-IsLogged m w key key' limiter now now' log i h (ground arith))
    ]

Runs-IsLogged :
    {m w : ℕ} {key : Bytes} {limiter : RateLimiter} {now : ℕ} {log : List ℕ}
    → Runs m w key limiter now log
    → IsLogged m w key limiter now log
unfolding new keep get
Runs-IsLogged (start now) = record { limit = refl; window = refl; same = refl; few = omega arith }
Runs-IsLogged (request r key' now' h small) =
    request-IsLogged _ _ _ key' _ _ now' _ (Runs-IsLogged r) h small

-- In every run, with requests of any keys whose times do not run backwards and without an eviction,
-- at most `max_requests` requests of a key are allowed within the window that ends at any later
-- time.
pub check_rate_limit-bounded :
    (m w : ℕ) (key : Bytes) (limiter : RateLimiter) (now now' : ℕ) (log : List ℕ)
    → Runs m w key limiter now log
    → now ≤ now'
    → length (keep (is_recent limiter now') log) ≤ m
check_rate_limit-bounded m w key limiter now now' log r h =
    (keep-log m w key limiter now now' log (Runs-IsLogged r) h).1
