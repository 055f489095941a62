-- ===== src/Logger/Registered.antt =====
-- `registerThread` gives each thread a queue of its own, which it keeps.
use mathlib.Core.List.{map-append}
use hft_learning.Prelude.{
  AllBelow, IsFresh, AllDistinct, ℕ, ◌+◌, ◌≡◌, ◌≢◌, inl, inr, refl, sym, ap, ◌∙◌, none, some, List,
  [], ◌∷◌, ◌++◌, map, arith, Option-cases,
}
use hft_learning.Prelude.Arrays.{update_self, update_ne}
use hft_learning.Spsc.{SpscQueue}
use hft_learning.Spsc.Ring.{window}
use hft_learning.Spsc.{spsc_queue}
use hft_learning.Logger.Types.{LogMessage, ThreadQueue, AsyncLogger}
use hft_learning.Logger.Threads.{LocalThread, find_queue, create_queue, register_thread}
use hft_learning.Logger.Drained.{messages}
use hft_learning.Logger.Drained.Queues.{queued, IsQueue, AllQueues, AllQueues-others, queued_others}
use hft_learning.Logger.Delivered.{addresses}

abbrev pub ids : {S : Type 0} → AsyncLogger S → List ℕ
ids logger = map (λ (tq : ThreadQueue). tq.thread_id) logger.thread_queues

-- The registered queues are valid and at different addresses, below those that come next, and no
-- thread has two.
pub record IsRegistry {S : Type 0} (logger : AsyncLogger S) : Type 0 where
  pub distinct : AllDistinct (addresses logger)
  pub known : AllBelow logger.allocated (addresses logger)
  pub distinct_ids : AllDistinct (ids logger)
  pub queues : AllQueues logger.heap (addresses logger)

AllBelow-IsFresh : (n : ℕ) (ps : List ℕ) → AllBelow n ps → IsFresh n ps
AllBelow-IsFresh n [] h = tt
AllBelow-IsFresh n (p ∷ ps) (lt, h) = ((λ e. omega (arith, e, lt)), AllBelow-IsFresh n ps h)

AllBelow-snoc : (n : ℕ) (ps : List ℕ) → AllBelow n ps → AllBelow (n + 1) (ps ++ n ∷ [])
AllBelow-snoc n [] h = (omega arith, tt)
AllBelow-snoc n (p ∷ ps) (lt, h) = (omega (arith, lt), AllBelow-snoc n ps h)

IsFresh-snoc : (p n : ℕ) (ps : List ℕ) → p ≢ n → IsFresh p ps → IsFresh p (ps ++ n ∷ [])
IsFresh-snoc p n [] ne h = (ne, tt)
IsFresh-snoc p n (q ∷ qs) ne (ne', h) = (ne', IsFresh-snoc p n qs ne h)

AllDistinct-snoc :
    (n : ℕ) (ps : List ℕ) → IsFresh n ps → AllDistinct ps → AllDistinct (ps ++ n ∷ [])
AllDistinct-snoc n [] fresh d = (tt, tt)
AllDistinct-snoc n (p ∷ ps) (ne, fresh) (fresh', d) =
    (IsFresh-snoc p n ps (λ e. ne (sym e)) fresh', AllDistinct-snoc n ps fresh d)

AllQueues-snoc :
    (heap : ℕ → SpscQueue LogMessage) (n : ℕ) (ps : List ℕ)
    → AllQueues heap ps
    → IsQueue (heap n)
    → AllQueues heap (ps ++ n ∷ [])
AllQueues-snoc heap n [] qs q = (q, tt)
AllQueues-snoc heap n (p ∷ ps) (v, qs) q = (v, AllQueues-snoc heap n ps qs q)

queued-snoc :
    (heap : ℕ → SpscQueue LogMessage) (n : ℕ) (ps : List ℕ)
    → messages (heap n) ≡ []
    → queued heap (ps ++ n ∷ []) ≡ queued heap ps
queued-snoc heap n [] e = rw e refl
queued-snoc heap n (p ∷ ps) e = ap (λ ms. messages (heap p) ++ ms) (queued-snoc heap n ps e)

spsc_queue-IsQueue : (items : ℕ → LogMessage) → IsQueue (spsc_queue items)
unfolding window
spsc_queue-IsQueue items = record {
  valid = record { write_in = omega arith; read_in = omega arith };
  short = tt;
}

find_none :
    (tqs : List ThreadQueue) (id : ℕ)
    → find_queue tqs id ≡ none
    → IsFresh id (map (λ (tq : ThreadQueue). tq.thread_id) tqs)
unfolding find_queue
find_none [] id h = tt
find_none (tq ∷ tqs) id h = grind (arith, find_none tqs id)

find_new :
    (tqs : List ThreadQueue) (new : ThreadQueue)
    → find_queue tqs new.thread_id ≡ none
    → find_queue (tqs ++ new ∷ []) new.thread_id ≡ some new.queue
unfolding find_queue
find_new [] new h = ground arith
find_new (tq ∷ tqs) new h = ground (arith, find_new tqs new)

find_other :
    (tqs : List ThreadQueue) (new : ThreadQueue) (id : ℕ)
    → id ≢ new.thread_id
    → find_queue (tqs ++ new ∷ []) id ≡ find_queue tqs id
unfolding find_queue
find_other [] new id ne = ground arith
find_other (tq ∷ tqs) new id ne = ground (arith, find_other tqs new id ne)

-- What a call of `registerThread` by the thread `id` makes of the logger.
pub record Registers {S : Type 0} (logger : AsyncLogger S) (id : ℕ)
    (reply : AsyncLogger S × LocalThread) : Type 0 where
  pub registry : IsRegistry (reply.0)
  pub named : reply.1.local_thread_id ≡ id
  pub queue : ℕ
  pub local : reply.1.local_queue ≡ some queue
  pub found : find_queue reply.0.thread_queues id ≡ some queue
  pub others :
      (id' : ℕ)
      → id' ≢ id
      → find_queue reply.0.thread_queues id' ≡ find_queue logger.thread_queues id'
  pub nothing_lost :
      queued reply.0.heap (addresses (reply.0)) ≡ queued logger.heap (addresses logger)

module _ {S : Type 0} (logger : AsyncLogger S) (items : ℕ → LogMessage) (id : ℕ)
    (r : IsRegistry logger) where
  unique : IsFresh logger.allocated (addresses logger)
  unique = AllBelow-IsFresh logger.allocated (addresses logger) r.known

  kept : (q : ℕ) → q ≢ logger.allocated → (create_queue logger items id).heap q ≡ logger.heap q
  kept q ne = update_ne logger.heap logger.allocated (spsc_queue items) q ne

  grown : addresses (create_queue logger items id) ≡ addresses logger ++ logger.allocated ∷ []
  grown = map-append (λ (tq : ThreadQueue). tq.queue) logger.thread_queues _

  create_queue-IsRegistry :
      find_queue logger.thread_queues id ≡ none → IsRegistry (create_queue logger items id)
  create_queue-IsRegistry absent = record {
    distinct = rw grown (AllDistinct-snoc logger.allocated (addresses logger) unique r.distinct);
    known = rw grown (AllBelow-snoc logger.allocated (addresses logger) r.known);
    distinct_ids = rw (map-append (λ (tq : ThreadQueue). tq.thread_id) logger.thread_queues) (
        AllDistinct-snoc id (ids logger) (find_none logger.thread_queues id absent) r.distinct_ids);
    queues = rw grown (
        AllQueues-snoc _ logger.allocated (addresses logger)
          (AllQueues-others kept (addresses logger) unique r.queues)
          (rw (update_self logger.heap logger.allocated (spsc_queue items))
            (spsc_queue-IsQueue items)));
  }

  create_queue-queued :
      queued (create_queue logger items id).heap (addresses (create_queue logger items id))
      ≡ queued logger.heap (addresses logger)
  unfolding window
  create_queue-queued = rw grown (
      queued-snoc (create_queue logger items id).heap logger.allocated (addresses logger)
        (ap messages (update_self logger.heap logger.allocated (spsc_queue items)))
      ∙ queued_others kept (addresses logger) unique)

  -- Whether a thread is known or not, `registerThread` leaves it with a queue that is found under its
  -- id, every other thread with the queue that it had, and no message lost; queues stay valid and at
  -- different addresses, and no thread has two.
  pub register_thread-Registers : Registers logger id (register_thread logger items id)
  unfolding register_thread
  register_thread-Registers = elim (Option-cases (find_queue logger.thread_queues id)) [
    | inl absent ↦
        rw (register_thread, absent)
          (record {
            registry = create_queue-IsRegistry absent;
            named = refl;
            queue = logger.allocated;
            local = refl;
            found = find_new logger.thread_queues _ absent;
            others = λ id' ne. find_other logger.thread_queues _ id' ne;
            nothing_lost = create_queue-queued;
          })
    | inr (p, present) ↦
        rw (register_thread, present)
          (record {
            registry = r;
            named = refl;
            queue = p;
            local = refl;
            found = present;
            others = λ id' ne. refl;
            nothing_lost = refl;
          })
  ]
