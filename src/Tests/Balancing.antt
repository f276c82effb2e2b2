-- ===== src/Tests/Balancing.antt =====
-- A cluster of three backends in front of the tree of the token shaper.
use x.Base.{◌≡◌, refl, true, false, List, [], ◌∷◌}
use x.Shaper.{node, nil}
use x.Shaper.Queue.{enqueue, update_queue_timer, drop_timed_out, distance}
use x.Balancer.{
  success, Member, HttpCluster, enqueue_request, on_queue_timeouts, on_queue_timeout, schedule,
  round_robin, schedule_loop, try_process, set_member,
}
use x.Balancer.Answers.{best_answer, better}
use x.Balancer.Best.{round_robin-best_answer}
use x.Balancer.Tokens.{Schedules, schedule-Schedules}
use x.Tests.Tokens.{main_bucket, above_main, crowded-IsValid, waits}

-- The first is offline, the second is full, and the third has no limit.
abbrev offline : Member
offline = record { enabled = true; is_online = false; capacity = 4; load = 0 }

abbrev full : Member
full = record { enabled = true; is_online = true; capacity = 2; load = 2 }

abbrev free : Member
free = record { enabled = true; is_online = true; capacity = 0; load = 5 }

abbrev backends : List Member
backends = offline ∷ full ∷ free ∷ []

abbrev cluster : HttpCluster
cluster = record {
  enabled = true;
  enqueue_on_unavailable = true;
  queue_limit = 1000;
  members = backends;
  next = 0;
  queued = 2;
  dropped = 0;
  waiting = waits;
  posted = [];
}

round_robin-best_answer_example : (round_robin backends 1).status ≡ best_answer backends
round_robin-best_answer_example = round_robin-best_answer backends 1

answer_of_backends : best_answer backends ≡ success
unfolding best_answer better try_process
answer_of_backends = refl

-- The request that comes at 70 has a token and the third backend.
schedule-Schedules_example :
    Schedules 9 70 70 cluster
      (node main_bucket nil)
      (above_main ∷ [])
      (schedule 9 70 70 cluster (node main_bucket nil) (above_main ∷ []))
schedule-Schedules_example =
    schedule-Schedules 9 70 70 cluster (node main_bucket nil) (above_main ∷ []) crowded-IsValid

-- A backend without a limit gets each of two requests, and the one behind it none.
same_backend :
    (round_robin
      (record free { load = 6 } ∷ free ∷ [])
      (round_robin (free ∷ free ∷ []) 0).next).members
    ≡ record free { load = 7 } ∷ free ∷ []
unfolding round_robin schedule_loop try_process set_member
same_backend = refl

-- Where the timeout is zero, a request that has to wait is given up at once, with the others.
impatient :
    (enqueue_request 9 70 70 (record cluster { waiting = record waits { queue_timeout = 0 } })).0
    ≡ record cluster {
      queued = 0;
      waiting = record waits { queue = []; queued = 0; dropped = 3; queue_timeout = 0 };
      posted = 7 ∷ 8 ∷ 9 ∷ [];
    }
unfolding enqueue_request on_queue_timeouts on_queue_timeout enqueue update_queue_timer
    drop_timed_out distance
impatient = refl
