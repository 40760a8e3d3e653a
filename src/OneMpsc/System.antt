-- ===== src/OneMpsc/System.antt =====
-- src/flavor/one_mpsc.rs: any number of senders, and the receiver, at work at the same time.
use crossfire_rs.Prelude.{ℕ, ◌+◌, ◌≡◌, Bool, true, false, Option, none, some, List, [], ◌∷◌, ◌++◌}
use crossfire_rs.One.{One, Round, retry, refused, claimed, slot_at, set_slot}
use crossfire_rs.OneMpsc.{new, push_round, start_read, free, write, read}

-- A sender that has claimed a tail and has not written yet.
pub record Sending (A : Type 0) : Type 0 where
  pub item : A
  pub tail : ℕ

-- The receiver: between calls; before it frees the word; before it reads the slot.
pub data Receiver : Type 0 where
  idle : Receiver
  freeing : Bool → ℕ → Receiver
  reading : Bool → ℕ → Receiver

-- Beside the program's state, a history: the values of the pushes, in the order of their claims; the
-- number of pops that freed the word; and what each pop that is through has got.
pub record System (A : Type 0) : Type 0 where
  pub queue : One A
  pub writers_0 : List (Sending A)
  pub writers_1 : List (Sending A)
  pub receiver : Receiver
  pub pushed : List A
  pub popped : ℕ
  pub reads : ℕ
  pub got : List (ℕ × Option A)

module _ {A : Type 0} where
  abbrev pub start : System A
  start = record {
    queue = new;
    writers_0 = [];
    writers_1 = [];
    receiver = idle;
    pushed = [];
    popped = 0;
    reads = 0;
    got = [];
  }

  abbrev pub writers_at : Bool → System A → List (Sending A)
  writers_at false s = s.writers_0
  writers_at true s = s.writers_1

  abbrev pub set_writers : Bool → List (Sending A) → System A → System A
  set_writers false ws s = record s { writers_0 = ws }
  set_writers true ws s = record s { writers_1 = ws }

  abbrev pub after_push : Round × One A → A → System A → System A
  after_push (claimed b tail, q) v s =
      record (set_writers b (record { item = v; tail = tail } ∷ writers_at b s) s) {
        queue = q;
        pushed = s.pushed ++ (v ∷ []);
      }
  after_push (refused, q) v s = record s { queue = q }
  after_push (retry pos, q) v s = record s { queue = q }

  abbrev pub after_write : Bool → Sending A → List (Sending A) → System A → System A
  after_write b w others s = record (set_writers b others s) {
    queue = set_slot b (write w.tail w.item (slot_at b s.queue)) s.queue;
  }

  abbrev pub after_start : Option (Bool × ℕ) → System A → System A
  after_start none s = s
  after_start (some (b, h)) s = record s { receiver = freeing b h }

  abbrev pub after_read : Option (Option A) → System A → System A
  after_read none s = s
  after_read (some o) s = record s {
    receiver = idle;
    reads = s.reads + 1;
    got = (s.reads, o) ∷ s.got;
  }

  abbrev pub receiver_by : Receiver → System A → System A
  receiver_by idle s = after_start (start_read s.queue) s
  receiver_by (freeing b h) s = record s {
    queue = free h s.queue;
    receiver = reading b h;
    popped = s.popped + 1;
  }
  receiver_by (reading b h) s = after_read (read h (slot_at b s.queue)) s

  abbrev pub receiver_step : System A → System A
  receiver_step s = receiver_by s.receiver s

  pub data Step (s : System A) : System A → Type 0 where
    pushes :
        (spurious : Bool) (loaded : ℕ) (v : A)
        → Step s (after_push (push_round spurious loaded s.queue) v s)
    writes :
        (b : Bool) (before behind : List (Sending A)) (w : Sending A)
        → writers_at b s ≡ before ++ (w ∷ behind)
        → Step s (after_write b w (before ++ behind) s)
    receives : Step s (receiver_step s)

  pub data Reach : System A → Type 0 where
    begin : Reach start
    next : {s t : System A} → Reach s → Step s t → Reach t
