-- ===== src/Tests/Addressed.antt =====
-- The containers whose callers name the server, at concrete inputs: two servers, plain lists for the
-- lock-free queues, a network that runs what the servers have bound.
use hcl.Base.{
  false, ◌+◌, refl, count, ◌≤◌, ℕ, ◌≡◌, ◌<◌, ◌++◌, List, [], ◌∷◌, some, true, length, get_elem?,
  arith, u16,
}
use hcl.Container.{Container, Network, direct_network}
use hcl.Container.Addressed.{requests_at, answers_at, Aimed, run}
use hcl.LockfreeQueue.{list_queue}
use hcl.Tests.Containers.{near, far}
use hcl.Queue.Order as QueueOrder
use hcl.Queue.Wait as QueueWait
use hcl.Vector.Reads as VectorReads
use hcl.GlobalSequence.Order as SequenceOrder
use hcl.ConcurrentQueue.Order as ConcurrentOrder

abbrev net : {S : Type 0} → Network S
net {S} = direct_network S

abbrev deques : List (List ℕ)
deques = (1 ∷ 2 ∷ []) ∷ [] ∷ []

abbrev queue_calls : List (Container × ℕ × QueueOrder.QueueCall ℕ)
queue_calls =
    (near, 1, QueueOrder.QueueCall.push_call 7)
    ∷ (far, 0, QueueOrder.QueueCall.pop_call)
    ∷ (far, 1, QueueOrder.QueueCall.pop_call)
    ∷ (near, 1, QueueOrder.QueueCall.size_call)
    ∷ []

queue_calls-Aimed : Aimed 2 queue_calls
unfolding Aimed
queue_calls-Aimed = (omega arith, (omega arith, (omega arith, (omega arith, tt))))

run-fifo_example :
    (rs : List (QueueOrder.QueueAnswer ℕ)) × (servers' : List (List ℕ)) × (run
        (QueueOrder.send net 0)
        deques
        queue_calls
      ≡ some (rs, servers'))
    × (q' : List ℕ) × (get_elem? servers' 0 ≡ some q')
    × ((1 ∷ 2 ∷ []) ++ QueueOrder.pushed (requests_at 0 queue_calls)
        ≡ QueueOrder.popped (answers_at 0 queue_calls rs) ++ q')
run-fifo_example =
    QueueOrder.run-fifo net 0 deques queue_calls 0 (1 ∷ 2 ∷ []) queue_calls-Aimed refl

-- a push that another process takes before the next look, and one that is there at a look
abbrev missed : List (QueueWait.WaitEvent ℕ)
missed =
    QueueWait.WaitEvent.look
    ∷ QueueWait.WaitEvent.pushes 3
    ∷ QueueWait.WaitEvent.pops
    ∷ QueueWait.WaitEvent.look
    ∷ []

abbrev pushed_twice : List (QueueWait.WaitEvent ℕ)
pushed_twice =
    QueueWait.WaitEvent.pops ∷ QueueWait.WaitEvent.pushes 3 ∷ QueueWait.WaitEvent.pushes 4 ∷ []

missed-not_met : QueueWait.meets 0 missed ≡ false
unfolding QueueWait.meets
missed-not_met = refl

pushed_twice-more : QueueWait.pop_count pushed_twice < 0 + QueueWait.push_count pushed_twice
unfolding QueueWait.pop_count QueueWait.push_count
pushed_twice-more = omega arith

wait-meets_example :
    QueueWait.Waits 0 missed [] (QueueWait.meets 0 missed)
    × QueueWait.Waits 0 (pushed_twice ++ (QueueWait.WaitEvent.look ∷ missed)) [] true
wait-meets_example = QueueWait.wait-meets 0 missed pushed_twice missed [] pushed_twice-more

abbrev vector_calls : List (Container × ℕ × VectorReads.VectorCall ℕ)
vector_calls =
    (near, 0, VectorReads.VectorCall.get_call 2)
    ∷ (near, 0, VectorReads.VectorCall.push_call 7)
    ∷ (far, 0, VectorReads.VectorCall.get_call 2)
    ∷ []

vector_calls-Aimed : Aimed 2 vector_calls
unfolding Aimed
vector_calls-Aimed = (omega arith, (omega arith, (omega arith, tt)))

run-answers_from_example :
    (rs : List (VectorReads.VectorAnswer ℕ)) × (servers' : List (List ℕ)) × (run
        (VectorReads.send net 0)
        deques
        vector_calls
      ≡ some (rs, servers'))
    × (xs' : List ℕ) × (get_elem? servers' 0 ≡ some xs')
    × (xs' ≡ (1 ∷ 2 ∷ []) ++ VectorReads.pushed (requests_at 0 vector_calls))
    × (answers_at 0 vector_calls rs ≡ VectorReads.answers_from 0 2 xs' (requests_at 0 vector_calls))
run-answers_from_example =
    VectorReads.run-answers_from net 0 deques vector_calls 0 (1 ∷ 2 ∷ []) vector_calls-Aimed refl

abbrev sequence_calls : List (Container × SequenceOrder.SequenceCall)
sequence_calls =
    (near, SequenceOrder.SequenceCall.next_call)
    ∷ (near, SequenceOrder.SequenceCall.next_server_call 1)
    ∷ (far, SequenceOrder.SequenceCall.next_server_call 1)
    ∷ (far, SequenceOrder.SequenceCall.next_call)
    ∷ []

abbrev asked_calls : List (Container × ℕ × Unit {0})
asked_calls = SequenceOrder.addressed sequence_calls

sequence_calls-Aimed : Aimed 2 asked_calls
unfolding Aimed SequenceOrder.addressed SequenceOrder.asked
sequence_calls-Aimed = (omega arith, (omega arith, (omega arith, (omega arith, tt))))

sequence_calls-few : length (requests_at 1 asked_calls) < 18446744073709551616
unfolding requests_at SequenceOrder.addressed SequenceOrder.asked
sequence_calls-few = omega arith

abbrev counters : List ℕ
counters = 5 ∷ 18446744073709551615 ∷ []

run-following_example :
    (rs : List ℕ) × (servers' : List ℕ) × (SequenceOrder.send_all net counters sequence_calls
      ≡ some (rs, servers'))
    × (answers_at 1 asked_calls rs
        ≡ SequenceOrder.following 18446744073709551615 (length (requests_at 1 asked_calls)))
    × ((n : ℕ) → count n (answers_at 1 asked_calls rs) ≤ 1)
run-following_example =
    SequenceOrder.run-following net counters sequence_calls 1 18446744073709551615
      sequence_calls-Aimed refl sequence_calls-few

abbrev concurrent_calls : List (Container × ℕ × ConcurrentOrder.ConcurrentCall ℕ)
concurrent_calls =
    (near, 65537, ConcurrentOrder.ConcurrentCall.push_call 7)
    ∷ (far, 1, ConcurrentOrder.ConcurrentCall.pop_call)
    ∷ (far, 0, ConcurrentOrder.ConcurrentCall.pop_call)
    ∷ []

concurrent_calls-Aimed : Aimed 2 (ConcurrentOrder.aim concurrent_calls)
unfolding Aimed ConcurrentOrder.aim u16
concurrent_calls-Aimed = (omega arith, (omega arith, (omega arith, tt)))

run-first_out_example :
    (rs : List (ConcurrentOrder.ConcurrentAnswer ℕ)) × (servers' : List (List ℕ)) × (run
        (ConcurrentOrder.send (list_queue ℕ) net 0)
        deques
        concurrent_calls
      ≡ some (rs, servers'))
    × (q' : List ℕ) × (get_elem? servers' 0 ≡ some q')
    × ((1 ∷ 2 ∷ []) ++ ConcurrentOrder.pushed (requests_at 0 (ConcurrentOrder.aim concurrent_calls))
        ≡ ConcurrentOrder.popped (answers_at 0 (ConcurrentOrder.aim concurrent_calls) rs) ++ q')
run-first_out_example =
    ConcurrentOrder.run-first_out (list_queue ℕ) net 0 deques concurrent_calls 0 (1 ∷ 2 ∷ [])
      concurrent_calls-Aimed refl
