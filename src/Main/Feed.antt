-- ===== src/Main/Feed.antt =====
-- The order book under a message of market data.
use mathlib.Core.Option.{some-injective}
use hft_learning.Prelude.{
  ◌++◌, ap, Option-cases, ℕ, ◌+◌, ◌^◌, ◌<◌, ◌≤◌, ◌≡◌, inl, inr, refl, Option, some, List, [], ◌∷◌,
  arith, ◌==◌, Bool-cases,
}
use hft_learning.Prelude.Loops.{◌>>=◌}
use hft_learning.Book.Types.{LimitOrderBook}
use hft_learning.Book.Store.{Queues}
use hft_learning.Book.Whole.{IsBook}
use hft_learning.Book.Ops.{Reply}
use hft_learning.Book.Add.{room}
use hft_learning.Book.Total.{Keeps, add-Keeps, cancel-Keeps, modify-Keeps}
use hft_learning.Itch.{InternalMessage}
use hft_learning.Main.{update_book}

-- The messages one after the other.
unfoldable pub update_all : LimitOrderBook → List InternalMessage → Option LimitOrderBook
update_all lob [] = some lob
update_all lob (msg ∷ msgs) = update_book lob msg >>= λ lob'. update_all lob' msgs

-- The run returns, and leaves a well-formed book whose index has lost `cost` vacant slots at most.
pub record Leaves (run : Option LimitOrderBook) (book : LimitOrderBook) (cost : ℕ) : Type 0 where
  pub after : LimitOrderBook
  pub levels : Queues
  pub free_orders : List ℕ
  pub returns : run ≡ some after
  pub is_book : IsBook after levels free_orders
  pub space : room book ≤ room after + cost

-- The quantities of the messages fit 64 bits.
abbrev pub AllFit : List InternalMessage → Type 0
AllFit [] = Unit
AllFit (msg ∷ msgs) = (msg.quantity < 2 ^ 64) × AllFit msgs

Leaves-Keeps :
    {run : Option Reply} {book : LimitOrderBook} {cost : ℕ}
    → cost ≤ 1
    → Keeps run book cost
    → Leaves (run >>= λ reply. some (reply.1)) book 1
Leaves-Keeps small k = record {
  after = k.after;
  levels = k.levels;
  free_orders = k.free_orders;
  returns = rw k.returns refl;
  is_book = k.is_book;
  space = omega (arith, k.space, small);
}

module _ {book : LimitOrderBook} {q : Queues} {free : List ℕ} (b : IsBook book q free) where
  unchanged : Leaves (some book) book 1
  unchanged = record {
    after = book;
    levels = q;
    free_orders = free;
    returns = refl;
    is_book = b;
    space = omega arith;
  }

  pub update_book-Leaves :
      (msg : InternalMessage)
      → 0 < room book
      → msg.quantity < 2 ^ 64
      → Leaves (update_book book msg) book 1
  unfolding update_book
  update_book-Leaves msg more small = elim (Bool-cases (msg.type == 65)) [
    | inl adds ↦
        rw adds (
          Leaves-Keeps (omega arith)
            (add-Keeps b more msg.id msg.side msg.price msg.quantity small))
    | inr other ↦ elim (Bool-cases (msg.type == 68)) [
      | inl deletes ↦ rw (other, deletes) (Leaves-Keeps (omega arith) (cancel-Keeps b more msg.id))
      | inr not_delete ↦ elim (Bool-cases (msg.type == 88)) [
        | inl changes ↦
            rw (other, not_delete, changes)
              (Leaves-Keeps (omega arith) (modify-Keeps b more msg.id msg.quantity small))
        | inr ignored ↦ rw (other, not_delete, ignored) unchanged
      ]
    ]
  ]

-- The messages of two lists, one list after the other.
pub update_all-append :
    (msgs msgs' : List InternalMessage) (book : LimitOrderBook) {after : LimitOrderBook}
    → update_all book msgs ≡ some after
    → update_all book (msgs ++ msgs') ≡ update_all after msgs'
unfolding update_all
update_all-append [] msgs' book {after} e =
    ap (λ lob. update_all lob msgs') (some-injective book after e)
update_all-append (msg ∷ msgs) msgs' book e = elim (Option-cases (update_book book msg)) [
  | inl never ↦ cc (rw never at e)
  | inr (lob, run) ↦ rw run (update_all-append msgs msgs' lob (rw run at e))
]

pub AllFit-append_right :
    (msgs msgs' : List InternalMessage) → AllFit (msgs ++ msgs') → AllFit msgs'
AllFit-append_right [] msgs' fit = fit
AllFit-append_right (msg ∷ msgs) msgs' (_, fit) = AllFit-append_right msgs msgs' fit
