-- ===== src/EventLoopThreadPool/Tests.antt =====
-- A pool of a base loop, and the theorem at a concrete input.
use libanet.Common.{◌+◌, ◌≡◌, refl, true, some, []}
use libanet.Common.Options.{◌>>=◌}
use libanet.EventLoopThreadPool.{create, set_thread_num, start, get_loop_for_hash}
use libanet.EventLoopThreadPool.RoundRobin.{started_pool, loop_after, started_pool-base_loop}

-- Four threads are asked for and none is started.
no_threads :
    start (set_thread_num (create 10) 4) (λ i. 100 + i)
    ≡ some record { base_loop = 10; started = true; num_thread = 0; next = 0; loops = [] }
unfolding start set_thread_num create
no_threads = refl

started_pool-base_loop_example :
    ((started_pool 10 4 (λ i. 100 + i) >>= loop_after 5) ≡ some 10)
    × ((started_pool 10 4 (λ i. 100 + i) >>= λ p. get_loop_for_hash p 77) ≡ some 10)
started_pool-base_loop_example = started_pool-base_loop 5 77 10 4 (λ i. 100 + i)
