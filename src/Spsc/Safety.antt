-- ===== src/Spsc/Safety.antt =====
-- What holds between the two threads of a queue, whatever the order of their accesses.
pub mod Order
use hft_learning.Prelude.Cycle.{
  IsCapacity, distance, ahead, next_index-cases, next_index-lt, distance-next_write,
  distance-next_read, ahead-distance, distance-lt, room_of_ne, distance_pos, ne_of_distance_pos,
  next_index,
}
use hft_learning.Prelude.{ℕ, ◌+◌, ◌<◌, ◌≡◌, ◌∙◌, [], ◌∷◌, ◌++◌, arith}
use hft_learning.Prelude.Arrays.{update, update_ne}
use hft_learning.Spsc.{SpscQueue}
use hft_learning.Spsc.Threads.{Producer, Consumer, System}
use hft_learning.Spsc.Refine.{IsValid, contents}
use hft_learning.Spsc.Ring.{window, window-update, window-snoc}

module _ {ℓ} {A : Type ℓ} (capacity : ℕ) (ring : SpscQueue A) where
  -- items in flight
  abbrev pub held : ℕ
  held = distance capacity ring.read_index ring.write_index

  -- What the locals of the producer say about the shared indices.
  abbrev pub ProducerAt : Producer A → Type 0
  ProducerAt Producer.idle = Unit
  ProducerAt (Producer.loaded x w n) =
      (w ≡ ring.write_index) × (n ≡ next_index capacity ring.write_index)
  ProducerAt (Producer.passed x w n) =
      (w ≡ ring.write_index) × (n ≡ next_index capacity ring.write_index) × (held + 1 < capacity)
  ProducerAt (Producer.filled x n) =
      (n ≡ next_index capacity ring.write_index) × (held + 1 < capacity)

  abbrev pub ProducerHolds : Producer A → Type ℓ
  ProducerHolds (Producer.filled x n) = ring.items ring.write_index ≡ x
  ProducerHolds _ = Unit

  -- What the locals of the consumer say.
  abbrev pub ConsumerAt : Consumer A → Type 0
  ConsumerAt Consumer.idle = Unit
  ConsumerAt (Consumer.loaded r) = r ≡ ring.read_index
  ConsumerAt (Consumer.passed r) = (r ≡ ring.read_index) × (0 < held)
  ConsumerAt (Consumer.taken x r) = (r ≡ ring.read_index) × (0 < held)

  abbrev pub ConsumerHolds : Consumer A → Type ℓ
  ConsumerHolds (Consumer.taken x r) = ring.items ring.read_index ≡ x
  ConsumerHolds _ = Unit

module _ {ℓ} {A : Type ℓ} (capacity : ℕ) where
  pub record Inv (s : System A) : Type ℓ where
    pub valid : IsValid capacity s.ring
    pub producer_at : ProducerAt capacity s.ring s.producer
    pub producer_holds : ProducerHolds capacity s.ring s.producer
    pub consumer_at : ConsumerAt capacity s.ring s.consumer
    pub consumer_holds : ConsumerHolds capacity s.ring s.consumer
    pub history : s.sent ≡ s.received ++ contents capacity s.ring

module _ {ℓ} {A : Type ℓ} {capacity : ℕ} (sized : IsCapacity capacity) where
  -- Publishing moves the write index: what the consumer knows stays true.
  ConsumerAt-publish :
      (ring : SpscQueue A) (c : Consumer A)
      → IsValid capacity ring
      → held capacity ring + 1 < capacity
      → ConsumerAt capacity ring c
      → ConsumerAt capacity (record ring { write_index = next_index capacity ring.write_index }) c
  ConsumerAt-publish ring Consumer.idle v room k = tt
  ConsumerAt-publish ring (Consumer.loaded r) v room k = k
  ConsumerAt-publish ring (Consumer.passed r) v room k = (
    k.0,
    omega (
      arith,
      distance-next_write sized ring.read_index ring.write_index v.read_in v.write_in room,
    ),
  )
  ConsumerAt-publish ring (Consumer.taken x r) v room k = (
    k.0,
    omega (
      arith,
      distance-next_write sized ring.read_index ring.write_index v.read_in v.write_in room,
    ),
  )

  ConsumerHolds-publish :
      (ring : SpscQueue A) (c : Consumer A) (w : ℕ)
      → ConsumerHolds capacity ring c
      → ConsumerHolds capacity (record ring { write_index = w }) c
  ConsumerHolds-publish ring (Consumer.taken x r) w k = k
  ConsumerHolds-publish ring _ w k = tt

  -- Filling the slot at the write index does not touch the slot that the consumer has read.
  ConsumerHolds-fill :
      (ring : SpscQueue A) (c : Consumer A) (x : A)
      → IsValid capacity ring
      → ConsumerAt capacity ring c
      → ConsumerHolds capacity ring c
      → ConsumerHolds capacity (record ring { items = update ring.items ring.write_index x }) c
  ConsumerHolds-fill ring (Consumer.taken y r) x v k h =
      update_ne ring.items ring.write_index x ring.read_index
        (ne_of_distance_pos sized ring.read_index ring.write_index v.read_in v.write_in k.1)
      ∙ h
  ConsumerHolds-fill ring _ x v k h = tt

  -- Releasing moves the read index: what the producer knows stays true.
  ProducerAt-release :
      (ring : SpscQueue A) (p : Producer A)
      → IsValid capacity ring
      → 0 < held capacity ring
      → ProducerAt capacity ring p
      → ProducerAt capacity (record ring { read_index = next_index capacity ring.read_index }) p
  ProducerAt-release ring Producer.idle v more k = tt
  ProducerAt-release ring (Producer.loaded x w n) v more k = k
  ProducerAt-release ring (Producer.passed x w n) v more k = (
    k.0,
    k.1,
    omega (
      arith,
      distance-next_read sized ring.read_index ring.write_index v.read_in v.write_in more,
    ),
  )
  ProducerAt-release ring (Producer.filled x n) v more k = (
    k.0,
    omega (
      arith,
      distance-next_read sized ring.read_index ring.write_index v.read_in v.write_in more,
    ),
  )

  ProducerHolds-release :
      (ring : SpscQueue A) (p : Producer A) (r : ℕ)
      → ProducerHolds capacity ring p
      → ProducerHolds capacity (record ring { read_index = r }) p
  ProducerHolds-release ring (Producer.filled x n) r k = k
  ProducerHolds-release ring _ r k = tt

  contents-fill :
      (ring : SpscQueue A) (x : A)
      → IsValid capacity ring
      → contents capacity (record ring { items = update ring.items ring.write_index x })
        ≡ contents capacity ring
  contents-fill ring x v =
      window-update capacity ring.items (held capacity ring) ring.read_index ring.write_index x
        sized v.read_in (distance-lt sized ring.read_index ring.write_index v.read_in v.write_in)
        (ahead-distance sized ring.read_index ring.write_index v.read_in v.write_in)

  contents-publish :
      (ring : SpscQueue A)
      → IsValid capacity ring
      → held capacity ring + 1 < capacity
      → contents capacity (record ring { write_index = next_index capacity ring.write_index })
        ≡ contents capacity ring ++ ring.items ring.write_index ∷ []
  contents-publish ring v room =
      rw (distance-next_write sized ring.read_index ring.write_index v.read_in v.write_in room) (
        window-snoc capacity ring.items (held capacity ring) ring.read_index ring.write_index sized
          v.read_in (distance-lt sized ring.read_index ring.write_index v.read_in v.write_in)
          (ahead-distance sized ring.read_index ring.write_index v.read_in v.write_in))

  contents-release :
      (ring : SpscQueue A)
      → IsValid capacity ring
      → 0 < held capacity ring
      → contents capacity ring
        ≡ ring.items ring.read_index
          ∷ contents capacity (record ring { read_index = next_index capacity ring.read_index })
  unfolding window
  contents-release ring v more =
      rw (distance-next_read sized ring.read_index ring.write_index v.read_in v.write_in more)
