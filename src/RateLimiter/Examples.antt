-- ===== src/RateLimiter/Examples.antt =====
-- A limit of one request in a minute, and two requests a nanosecond apart.
use aeordb.Prelude.{◌≤◌, [], ◌∷◌, length, keep, arith}
use aeordb.Bytes.{Bytes}
use aeordb.Strings.{get}
use aeordb.RateLimiter.Timestamps.{set}
use aeordb.RateLimiter.{RateLimiter, new, evict, is_recent, check_rate_limit}
use aeordb.RateLimiter.Bound.{Runs, start, request, logged, check_rate_limit-bounded}

abbrev client : Bytes
client = 0x63 ∷ []

abbrev after_one : RateLimiter
after_one = (check_rate_limit (new 1 60) client 5).1

abbrev after_two : RateLimiter
after_two = (check_rate_limit after_one client 6).1

two_requests : Runs 1 60 client after_two 6 (
    logged client client
      (check_rate_limit after_one client 6).0
      6
      (logged client client (check_rate_limit (new 1 60) client 5).0 5 []))
unfolding check_rate_limit new evict is_recent keep get set
two_requests =
    request (request (start 0) client 5 (omega arith) (omega arith)) client 6 (omega arith)
      (omega arith)

check_rate_limit-bounded_example :
    length (
      keep (is_recent after_two 7) (
        logged client client
          (check_rate_limit after_one client 6).0
          6
          (logged client client (check_rate_limit (new 1 60) client 5).0 5 [])))
    ≤ 1
check_rate_limit-bounded_example =
    check_rate_limit-bounded 1 60 client after_two 6 7 _ two_requests (omega arith)
