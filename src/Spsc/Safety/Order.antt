-- ===== src/Spsc/Safety/Order.antt =====
-- Every access keeps the invariant, so the consumer receives what was sent, in order, and the two
-- threads never use one slot at once.
use mathlib.Core.List.{append_assoc}
use mathlib.Core.Path.{subst}
use hft_learning.Prelude.Cycle.{
  IsCapacity, next_index-lt, distance-lt, room_of_ne, distance_pos, ne_of_distance_pos, next_index,
}
use hft_learning.Prelude.{
  List, [], ◌∷◌, AllBelow, AllDistinct, ℕ, ◌<◌, ◌≡◌, refl, sym, ap, ◌∙◌, ◌++◌, length,
}
use hft_learning.Prelude.Arrays.{update_self}
use hft_learning.Spsc.Threads.{
  Producer, Consumer, System, Step, Reach, start, here, next, push_begin, push_full, push_pass,
  push_fill, push_publish, pop_begin, pop_empty, pop_pass, pop_take, pop_release,
}
use hft_learning.Spsc.{SpscQueue}
use hft_learning.Spsc.Refine.{IsValid, contents}
use hft_learning.Spsc.Ring.{window, length-window}
use hft_learning.Spsc.Safety.{
  Inv, ProducerAt, ProducerHolds, ConsumerAt, ConsumerHolds, ConsumerAt-publish,
  ConsumerHolds-publish, ConsumerHolds-fill, ProducerAt-release, ProducerHolds-release,
  contents-fill, contents-publish, contents-release,
}

-- The slot that the producer is about to write, if any, and the one that the consumer is about to
-- read.
abbrev pub write_slots {ℓ} : {A : Type ℓ} → Producer A → List ℕ
write_slots Producer.idle = []
write_slots (Producer.loaded x w n) = []
write_slots (Producer.passed x w n) = w ∷ []
write_slots (Producer.filled x n) = []

abbrev pub read_slots {ℓ} : {A : Type ℓ} → Consumer A → List ℕ
read_slots Consumer.idle = []
read_slots (Consumer.loaded r) = []
read_slots (Consumer.passed r) = r ∷ []
read_slots (Consumer.taken x r) = []

abbrev pub accessed {ℓ} : {A : Type ℓ} → System A → List ℕ
accessed s = write_slots s.producer ++ read_slots s.consumer

module _ {ℓ} {A : Type ℓ} {capacity : ℕ} (sized : IsCapacity capacity) where
  -- An access of the producer.
  Step-Inv : {s t : System A} → Step capacity s t → Inv capacity s → Inv capacity t
  Step-Inv {s} (push_begin x hp e) v = rw e (record {
    valid = v.valid;
    producer_at = (refl, refl);
    producer_holds = tt;
    consumer_at = v.consumer_at;
    consumer_holds = v.consumer_holds;
    history = v.history;
  })
  Step-Inv {s} (push_full hp full e) v = rw e (record {
    valid = v.valid;
    producer_at = tt;
    producer_holds = tt;
    consumer_at = v.consumer_at;
    consumer_holds = v.consumer_holds;
    history = v.history;
  })
  Step-Inv {s} (push_pass hp free e) v =
      let at_load = subst (ProducerAt capacity s.ring) hp v.producer_at in
      rw e (record {
        valid = v.valid;
        producer_at = (
          at_load.0,
          at_load.1,
          room_of_ne sized s.ring.read_index s.ring.write_index v.valid.read_in v.valid.write_in
              (λ full. free (at_load.1 ∙ full)),
        );
        producer_holds = tt;
        consumer_at = v.consumer_at;
        consumer_holds = v.consumer_holds;
        history = v.history;
      })
  Step-Inv {s} (push_fill {x} {w} {n} hp e) v =
      let at_pass = subst (ProducerAt capacity s.ring) hp v.producer_at in
      rw (e, at_pass.0)
        (record {
          valid = record { write_in = v.valid.write_in; read_in = v.valid.read_in };
          producer_at = (at_pass.1, at_pass.2);
          producer_holds = update_self s.ring.items s.ring.write_index x;
          consumer_at = v.consumer_at;
          consumer_holds =
              ConsumerHolds-fill sized s.ring s.consumer x v.valid v.consumer_at v.consumer_holds;
          history =
              v.history ∙ ap (λ xs. s.received ++ xs) (sym (contents-fill sized s.ring x v.valid));
        })
  Step-Inv {s} (push_publish {x} {n} hp e) v =
      let at_store = subst (ProducerAt capacity s.ring) hp v.producer_at in
      let filled = subst (ProducerHolds capacity s.ring) hp v.producer_holds in
      rw (e, at_store.0)
        (record {
          valid = record {
            write_in = next_index-lt capacity s.ring.write_index sized v.valid.write_in;
            read_in = v.valid.read_in;
          };
          producer_at = tt;
          producer_holds = tt;
          consumer_at = ConsumerAt-publish sized s.ring s.consumer v.valid at_store.1 v.consumer_at;
          consumer_holds =
              ConsumerHolds-publish sized s.ring s.consumer (next_index capacity s.ring.write_index)
                v.consumer_holds;
          history =
              rw
                (v.history, contents-publish sized s.ring v.valid at_store.1, filled, append_assoc);
        })
  Step-Inv {s} (pop_begin hc e) v = rw e (record {
    valid = v.valid;
    producer_at = v.producer_at;
    producer_holds = v.producer_holds;
    consumer_at = refl;
    consumer_holds = tt;
    history = v.history;
  })
  Step-Inv {s} (pop_empty hc empty e) v = rw e (record {
    valid = v.valid;
    producer_at = v.producer_at;
    producer_holds = v.producer_holds;
    consumer_at = tt;
    consumer_holds = tt;
    history = v.history;
  })
  Step-Inv {s} (pop_pass hc more e) v =
      let at_load = subst (ConsumerAt capacity s.ring) hc v.consumer_at in
      rw e (record {
        valid = v.valid;
        producer_at = v.producer_at;
        producer_holds = v.producer_holds;
        consumer_at = (
          at_load,
          distance_pos sized s.ring.read_index s.ring.write_index v.valid.read_in v.valid.write_in
              (λ same. more (at_load ∙ same)),
        );
        consumer_holds = tt;
        history = v.history;
      })
  Step-Inv {s} (pop_take hc e) v =
      let at_pass = subst (ConsumerAt capacity s.ring) hc v.consumer_at in
      rw e (record {
        valid = v.valid;
        producer_at = v.producer_at;
        producer_holds = v.producer_holds;
        consumer_at = at_pass;
        consumer_holds = ap s.ring.items (sym at_pass.0);
        history = v.history;
      })
  Step-Inv {s} (pop_release {x} {r} hc e) v =
      let at_store = subst (ConsumerAt capacity s.ring) hc v.consumer_at in
      let taken_item = subst (ConsumerHolds capacity s.ring) hc v.consumer_holds in
      rw (e, at_store.0)
        (record {
          valid = record {
            write_in = v.valid.write_in;
            read_in = next_index-lt capacity s.ring.read_index sized v.valid.read_in;
          };
          producer_at = ProducerAt-release sized s.ring s.producer v.valid at_store.1 v.producer_at;
          producer_holds =
              ProducerHolds-release sized s.ring s.producer (next_index capacity s.ring.read_index)
                v.producer_holds;
          consumer_at = tt;
          consumer_holds = tt;
          history =
              v.history
              ∙ rw (contents-release sized s.ring v.valid at_store.1, taken_item, append_assoc);
        })

  start-Inv : (items : ℕ → A) → Inv capacity (start capacity items)
  unfolding window
  start-Inv items = record {
    valid = record { write_in = sized.some_slot; read_in = sized.some_slot };
    producer_at = tt;
    producer_holds = tt;
    consumer_at = tt;
    consumer_holds = tt;
    history = refl;
  }

  read_alone :
      (ring : SpscQueue A)
      → IsValid capacity ring
      → (c : Consumer A) → ConsumerAt capacity ring c
      → AllBelow capacity (read_slots c) × AllDistinct (read_slots c)
  read_alone ring v Consumer.idle at = (tt, tt)
  read_alone ring v (Consumer.loaded r) at = (tt, tt)
  read_alone ring v (Consumer.passed r) at = ((rw (at.0) v.read_in, tt), (tt, tt))
  read_alone ring v (Consumer.taken x r) at = (tt, tt)

  slots_apart :
      (ring : SpscQueue A)
      → IsValid capacity ring
      → (p : Producer A) (c : Consumer A) → ProducerAt capacity ring p
      → ConsumerAt capacity ring c
      → AllBelow capacity (write_slots p ++ read_slots c)
        × AllDistinct (write_slots p ++ read_slots c)
  slots_apart ring v Producer.idle c p_at c_at = read_alone ring v c c_at
  slots_apart ring v (Producer.loaded x w n) c p_at c_at = read_alone ring v c c_at
  slots_apart ring v (Producer.filled x n) c p_at c_at = read_alone ring v c c_at
  slots_apart ring v (Producer.passed x w n) Consumer.idle p_at c_at =
      ((rw (p_at.0) v.write_in, tt), (tt, tt))
  slots_apart ring v (Producer.passed x w n) (Consumer.loaded r) p_at c_at =
      ((rw (p_at.0) v.write_in, tt), (tt, tt))
  slots_apart ring v (Producer.passed x w n) (Consumer.taken y r) p_at c_at =
      ((rw (p_at.0) v.write_in, tt), (tt, tt))
  slots_apart ring v (Producer.passed x w n) (Consumer.passed r) p_at c_at =
      let apart =
        ne_of_distance_pos sized ring.read_index ring.write_index v.read_in v.write_in c_at.1 in
      (
        (rw (p_at.0) v.write_in, (rw (c_at.0) v.read_in, tt)),
        (((λ same. apart (sym c_at.0 ∙ sym same ∙ p_at.0)), tt), (tt, tt)),
      )

  pub Reach-Inv :
      (items : ℕ → A) {s : System A} → Reach capacity (start capacity items) s → Inv capacity s
  Reach-Inv items here = start-Inv items
  Reach-Inv items (next r st) = Step-Inv st (Reach-Inv items r)

  -- At every point of every interleaving, what the producer has sent is what the consumer has
  -- received followed by the items still in the queue, oldest first, fewer than `capacity` of them:
  -- nothing is lost, repeated or reordered.
  pub sent-received :
      (items : ℕ → A) {s : System A}
      → Reach capacity (start capacity items) s
      → (s.sent ≡ s.received ++ contents capacity s.ring)
        × (length (contents capacity s.ring) < capacity)
  sent-received items {s} reach =
      let v = Reach-Inv items reach in
      let few =
        distance-lt sized s.ring.read_index s.ring.write_index v.valid.read_in v.valid.write_in in
      (v.history, rw length-window few)

  -- Whatever the two threads are about to access, alone or at once, the slots lie inside the array,
  -- and where both are about to access one, the two slots differ.
  pub no_race :
      (items : ℕ → A) {s : System A}
      → Reach capacity (start capacity items) s
      → AllBelow capacity (accessed s) × AllDistinct (accessed s)
  no_race items {s} reach =
      let v = Reach-Inv items reach in
      slots_apart s.ring v.valid s.producer s.consumer v.producer_at v.consumer_at
