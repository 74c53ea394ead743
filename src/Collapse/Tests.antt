-- ===== src/Collapse/Tests.antt =====
-- The theorems of request collapsing at concrete requests.
use purge_api_gateway.Base.{
  [], List, true, ℕ, zero, ◌+◌, ◌≤◌, ◌<◌, ◌≡◌, Any, inl, refl, none, some, lit, lookup, insert,
  str_eq, arith,
}
use purge_api_gateway.Collapse.{
  Flight, Collapser, lead, put_flight, arrive, is_stale, resume, settle,
}
use purge_api_gateway.Collapse.Log.{Log, empty_log, add_entry}
use purge_api_gateway.Collapse.Run.{Waiter, Run, start, arriving, settling, empty_collapser, queue}
use purge_api_gateway.Collapse.Sharing.{resume-Shares, pending-Unique}

abbrev unused : Flight ℕ
unused = record { key = []; outcome = none; settled_at = none }

abbrev led : Collapser ℕ
led = (arrive 50 100 (lit "a") (empty_collapser unused)).1

-- A second request of the key arrives.
abbrev followed : Collapser ℕ
followed = (arrive 50 120 (lit "a") led).1

abbrev led_queue : List Waiter
led_queue = queue (arrive 50 100 (lit "a") (empty_collapser unused)).0 100 (lit "a") []

abbrev followed_queue : List Waiter
followed_queue = queue (arrive 50 120 (lit "a") led).0 120 (lit "a") led_queue

abbrev follower : Waiter
follower = record { key = lit "a"; flight = 0; arrived = 120 }

-- The leader's promise is settled with 7.
abbrev done : Collapser ℕ
done = settle 130 0 (some 7) followed

followed-Run : Run unused 50 true 120 empty_log followed_queue followed
followed-Run = arriving (arriving start 100 (lit "a") (omega arith)) 120 (lit "a") (omega arith)

one_flight : 0 < followed.next
unfolding arrive lookup lead insert is_stale put_flight str_eq
one_flight = omega arith

under_way : (followed.flight 0).settled_at ≡ none
unfolding arrive lookup lead insert is_stale put_flight str_eq
under_way = refl

abbrev done_log : Log ℕ
done_log = add_entry 0 130 (some 7) empty_log

done-Run : Run unused 50 true 130 done_log followed_queue done
done-Run = settling followed-Run 130 0 7 (omega arith) one_flight refl

it_waits : Any (λ v. v ≡ follower) followed_queue
unfolding arrive lookup lead insert is_stale put_flight str_eq
it_waits = inl refl

it_gets : (resume (lit "a") 0 done).0 ≡ some 7
unfolding resume settle put_flight
it_gets = refl

resume-Shares_example :
    (s : ℕ) × (done_log 0 ≡ some (s, some 7)) × ((done.flight 0).key ≡ lit "a") × (120 ≤ s + 50)
resume-Shares_example = resume-Shares unused 50 done-Run follower 7 it_waits it_gets

pending-Unique_example : zero ≡ zero
pending-Unique_example =
    pending-Unique unused 50 followed-Run 0 0 one_flight one_flight under_way under_way refl
