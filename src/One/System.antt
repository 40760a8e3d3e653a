-- ===== src/One/System.antt =====
-- src/flavor/one.rs: any number of senders and receivers at work at the same time.
use crossfire_rs.Prelude.{
  ℕ, ◌+◌, ◌<◌, ◌≡◌, ◌^◌, Bool, true, false, Option, none, some, List, [], ◌∷◌, ◌++◌, length,
}
use crossfire_rs.One.{
  One, Slot, Round, retry, refused, claimed, new, push_round, read_round, write, read, slot_at,
  set_slot,
}

-- A sender that has claimed a tail, and a receiver that has claimed a value, before they are through
-- with the slot; `number` says which push or pop it is, from the beginning on.
pub record Sending (A : Type 0) : Type 0 where
  pub item : A
  pub tail : ℕ
  pub number : ℕ

pub record Receiving : Type 0 where
  pub new_head : ℕ
  pub number : ℕ

-- The threads that are at work on a slot, in the order of their claims.
pub record Lane (A : Type 0) : Type 0 where
  pub writers : List (Sending A)
  pub readers : List Receiving

-- Beside the program's state, a history: the values of the pushes, in the order of their claims; the
-- number of pops; and what each pop that is through has got.
pub record System (A : Type 0) : Type 0 where
  pub queue : One A
  pub lane_0 : Lane A
  pub lane_1 : Lane A
  pub pushed : List A
  pub popped : ℕ
  pub got : List (ℕ × Option A)

module _ {A : Type 0} where
  abbrev pub no_threads : Lane A
  no_threads = record { writers = []; readers = [] }

  abbrev pub start : System A
  start = record {
    queue = new;
    lane_0 = no_threads;
    lane_1 = no_threads;
    pushed = [];
    popped = 0;
    got = [];
  }

  abbrev pub lane_at : Bool → System A → Lane A
  lane_at false s = s.lane_0
  lane_at true s = s.lane_1

  abbrev pub set_lane : Bool → Lane A → System A → System A
  set_lane false l s = record s { lane_0 = l }
  set_lane true l s = record s { lane_1 = l }

  -- The number of threads between their claim and the end of their call.
  abbrev pub at_work : System A → ℕ
  at_work s =
      length s.lane_0.writers
      + length s.lane_0.readers
      + length s.lane_1.writers
      + length s.lane_1.readers

  abbrev pub add_writer : ℕ → A → System A → Lane A → Lane A
  add_writer tail v s l = record l {
    writers = l.writers ++ (record { item = v; tail = tail; number = length s.pushed } ∷ []);
  }

  abbrev pub add_reader : ℕ → System A → Lane A → Lane A
  add_reader new_head s l = record l {
    readers = l.readers ++ (record { new_head = new_head; number = s.popped } ∷ []);
  }

  unfoldable pub after_push : Round × One A → A → System A → System A
  after_push (claimed b tail, q) v s = record (set_lane b (add_writer tail v s (lane_at b s)) s) {
    queue = q;
    pushed = s.pushed ++ (v ∷ []);
  }
  after_push (refused, q) v s = record s { queue = q }
  after_push (retry pos, q) v s = record s { queue = q }

  unfoldable pub after_pop : Round × One A → System A → System A
  after_pop (claimed b new_head, q) s =
      record (set_lane b (add_reader new_head s (lane_at b s)) s) {
        queue = q;
        popped = s.popped + 1;
      }
  after_pop (refused, q) s = record s { queue = q }
  after_pop (retry pos, q) s = record s { queue = q }

  -- The load of the stamp that lets a thread through, its access of the value and its store of the
  -- next stamp are one step: until the store no other thread gets through.
  --
  -- A sender looks at the stamp, and writes if it is its turn; a receiver likewise.
  abbrev pub written : Bool → List (Sending A) → System A → Option (Slot A) → System A
  written b others s none = s
  written b others s (some k) = record (set_lane b (record (lane_at b s) { writers = others }) s) {
    queue = set_slot b k s.queue;
  }

  abbrev pub after_write : Bool → Sending A → List (Sending A) → System A → System A
  after_write b w others s = written b others s (write w.tail w.item (slot_at b s.queue))

  abbrev pub was_read :
      Bool → Receiving → List Receiving → System A → Option (Option A × Slot A) → System A
  was_read b r others s none = s
  was_read b r others s (some (o, k)) =
      record (set_lane b (record (lane_at b s) { readers = others }) s) {
        queue = set_slot b k s.queue;
        got = (r.number, o) ∷ s.got;
      }

  abbrev pub after_read : Bool → Receiving → List Receiving → System A → System A
  after_read b r others s = was_read b r others s (read r.new_head (slot_at b s.queue))

  -- Fewer than 2¹⁵ threads are at work at a time.
  pub data Step (s : System A) : System A → Type 0 where
    pushes :
        (spurious : Bool) (loaded : ℕ) (v : A)
        → at_work s < 2 ^ 15
        → Step s (after_push (push_round spurious loaded s.queue) v s)
    pops :
        (spurious : Bool) (loaded : ℕ)
        → at_work s < 2 ^ 15
        → Step s (after_pop (read_round spurious loaded s.queue) s)
    writes :
        (b : Bool) (before after : List (Sending A)) (w : Sending A)
        → (lane_at b s).writers ≡ before ++ (w ∷ after)
        → Step s (after_write b w (before ++ after) s)
    reads :
        (b : Bool) (before after : List Receiving) (r : Receiving)
        → (lane_at b s).readers ≡ before ++ (r ∷ after)
        → Step s (after_read b r (before ++ after) s)

  pub data Reach : System A → Type 0 where
    begin : Reach start
    next : {s t : System A} → Reach s → Step s t → Reach t
