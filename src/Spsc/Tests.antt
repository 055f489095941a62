-- ===== src/Spsc/Tests.antt =====
-- Runs of the queue, and its theorems at concrete queues and interleavings.
use hft_learning.Prelude.{
  AllBelow, AllDistinct, ℕ, ◌<◌, ◌≡◌, refl, true, false, List, [], ◌∷◌, ◌++◌, arith, length, ◌-◌,
  ◌+◌, ◌==◌, if◌then◌else◌,
}
use hft_learning.Prelude.Cycle.{IsCapacity, next_index}
use hft_learning.Spsc.{SpscQueue, push, pop}
use hft_learning.Spsc.Fifo
use hft_learning.Spsc.Fifo.{Call, put, get}
use hft_learning.Spsc.Refine.{IsValid, contents, run, run_refines}
use hft_learning.Spsc.Threads.{
  Producer, Consumer, System, Reach, start, here, next, push_begin, push_pass, push_fill,
  push_publish, pop_begin, pop_pass,
}
use hft_learning.Spsc.Safety.Order.{accessed, sent-received, no_race}

three-IsCapacity : IsCapacity 3
three-IsCapacity = omega arith

-- a queue of one item in its last slot
abbrev one_item : SpscQueue ℕ
one_item = record { write_index = 0; read_index = 2; items = λ i. i + 6 }

abbrev calls : List (Call ℕ)
calls = put 1 ∷ put 2 ∷ get 0 ∷ get 0 ∷ get 5 ∷ []

one_item-IsValid : IsValid 3 one_item
one_item-IsValid = omega arith

run-one_item :
    run 3 one_item calls ≡ (true, 1) ∷ (false, 2) ∷ (true, 8) ∷ (true, 1) ∷ (false, 5) ∷ []
unfolding run push pop next_index
run-one_item = refl

run_refines_example : run 3 one_item calls ≡ Fifo.run (3 - 1) (contents 3 one_item) calls
run_refines_example = run_refines three-IsCapacity calls one_item one_item-IsValid

abbrev blank : ℕ → ℕ
blank i = 0

-- One item is sent; then the producer is about to write the next while the consumer is about to
-- read the first.
abbrev busy : System ℕ
busy = record {
  ring = record {
    write_index = next_index 3 0;
    read_index = 0;
    items = λ j. if j == 0 then 7 else 0;
  };
  producer = Producer.passed 9 (next_index 3 0) (next_index 3 (next_index 3 0));
  consumer = Consumer.passed 0;
  sent = 7 ∷ [];
  received = [];
}

busy-Reach : Reach 3 (start 3 blank) busy
unfolding next_index
busy-Reach =
    next
      (next
        (next
          (next
            (next
              (next
                (next (next here (push_begin 7 refl refl))
                  (push_pass refl (λ e. absurd (omega arith)) refl))
                (push_fill refl refl))
              (push_publish refl refl))
            (push_begin 9 refl refl))
          (pop_begin refl refl))
        (push_pass refl (λ e. absurd (omega arith)) refl))
      (pop_pass refl (λ e. absurd (omega arith)) refl)

sent-received_example :
    (busy.sent ≡ busy.received ++ contents 3 busy.ring) × (length (contents 3 busy.ring) < 3)
sent-received_example = sent-received three-IsCapacity blank busy-Reach

no_race_example : AllBelow 3 (accessed busy) × AllDistinct (accessed busy)
no_race_example = no_race three-IsCapacity blank busy-Reach
