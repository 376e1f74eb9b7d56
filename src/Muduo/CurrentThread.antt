-- ===== src/Muduo/CurrentThread.antt =====
-- mymuduo-main/src/CurrentThread.cpp and include/mymuduo/CurrentThread.h: the cached number of a
-- thread. `gettid` is what the kernel says, which is not 0.
use mprpc_main.Common.{ℕ, ◌==◌, ◌≡◌, ◌≢◌, if◌then◌else◌, arith}

-- `cacheTid`, on `t_cachedTid` of the thread.
pub cache_tid : ℕ → ℕ → ℕ
cache_tid gettid cached = gettid

-- `tid`: what it returns is what is cached then.
pub tid : ℕ → ℕ → ℕ
unfolding cache_tid
tid gettid cached = if cached == 0 then cache_tid gettid cached else cached

-- From the first call on, `tid` gives what the kernel said at the first call.
pub tid_again : (first later : ℕ) → first ≢ 0 → tid later (tid first 0) ≡ first
unfolding tid cache_tid
tid_again first later h = ground (arith, h)
