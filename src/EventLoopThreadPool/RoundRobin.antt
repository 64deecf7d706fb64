-- ===== src/EventLoopThreadPool/RoundRobin.antt =====
-- The loops that net/EventLoopThreadPool.cc gives out.
use libanet.Common.{ℕ, zero, suc, ◌≡◌, refl, Option, some, true, []}
use libanet.Common.Options.{◌>>=◌}
use libanet.EventLoopThreadPool.{
  EventLoopThreadPool, create, set_thread_num, start, get_next_loop, get_loop_for_hash,
}

-- A pool that is made, told how many threads to have, and started.
abbrev pub started_pool : ℕ → ℕ → (ℕ → ℕ) → Option EventLoopThreadPool
started_pool base_loop num_threads start_loop =
    start (set_thread_num (create base_loop) num_threads) start_loop

-- The loop of the call after `n` calls of get_next_loop.
pub loop_after : ℕ → EventLoopThreadPool → Option ℕ
loop_after zero p = get_next_loop p >>= λ r. some r.1
loop_after (suc n) p = get_next_loop p >>= λ r. loop_after n r.0

base_after :
    (n base_loop : ℕ)
    → loop_after n
        (record { base_loop = base_loop; started = true; num_thread = 0; next = 0; loops = [] })
      ≡ some base_loop
unfolding loop_after get_next_loop
base_after zero base_loop = refl
base_after (suc n) base_loop = base_after n base_loop

-- However many threads a pool is told to have, it starts, and then every call of get_next_loop, and
-- that of get_loop_for_hash for every hash code, gives the base loop: no thread shares its work.
pub started_pool-base_loop :
    (n hash_code base_loop num_threads : ℕ) (start_loop : ℕ → ℕ)
    → ((started_pool base_loop num_threads start_loop >>= loop_after n) ≡ some base_loop)
      × ((started_pool base_loop num_threads start_loop >>= λ p. get_loop_for_hash p hash_code)
          ≡ some base_loop)
unfolding start set_thread_num create get_loop_for_hash
started_pool-base_loop n hash_code base_loop num_threads start_loop = (base_after n base_loop, refl)
