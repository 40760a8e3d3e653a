-- ===== src/Flavor/Array.antt =====
-- src/flavor/array.rs: the array queue as the bounded queue of a channel.
--
-- A queue of the flavor is an array queue that no call is at work on, with the list it holds; the
-- flag of a call is a spurious failure of its exchange.
use native.Mathlib.Decide.{ℕ_discrete}
use crossfire_rs.Prelude.{
  ℕ, ◌-◌, ◌^◌, ◌≤◌, ◌<◌, ◌≡◌, refl, Bool, true, false, Option, none, some, List, [], ◌∷◌, ◌++◌,
  if◌then◌else◌, ◌==◌, leb, length, arith,
}
use crossfire_rs.Flavor.{Flavor, is_some, prepend, append_if, done}
use crossfire_rs.ArrayQueue.{ArrayQueue, new, push_with_ptr, try_push_oneshot, pop}
use crossfire_rs.ArrayQueue.Rep.{Rep}
use crossfire_rs.ArrayQueue.Push.{
  after_push, after_push-Rep, push_room, push_full, try_push_oneshot_lem,
}
use crossfire_rs.ArrayQueue.Pop.{after_pop, after_pop-Rep, pop-some, pop-none}
use crossfire_rs.ArrayQueue.Fresh.{fresh, new-Rep}

-- `Array::new`: a bound of 0 is taken as 1; `none` is the failed assertion.
unfoldable pub new_with_bound : {A : Type 0} → ℕ → Option (ArrayQueue A)
unfolding new
new_with_bound bound =
    if leb bound (2 ^ 32 - 1) then new (if bound == 0 then 1 else bound) else none

pub record Held (A : Type 0) (cap : ℕ) : Type 0 where
  pub queue : ArrayQueue A
  pub held : List A
  pub rep : Rep cap queue held

module _ {A : Type 0} {cap : ℕ} where
  abbrev pushed :
      (q : ArrayQueue A) (xs : List A) → Rep cap q xs → (v : A) → length xs < cap → Held A cap
  pushed q xs r v lt = record {
    queue = after_push q v;
    held = xs ++ (v ∷ []);
    rep = after_push-Rep r v lt;
  }

  -- The answer of the code, by whether the queue is full.
  abbrev send_by : (h : Held A cap) → Dec (length h.held ≡ cap) → A → Bool × Held A cap
  send_by h (yes _) v = (false, h)
  send_by h (no ne) v = (true, pushed h.queue h.held h.rep v (omega (arith, h.rep.fits)))

  abbrev oneshot_by :
      (h : Held A cap) → Dec (length h.held ≡ cap) → Bool → A → Option Bool × Held A cap
  oneshot_by h (yes _) spurious v = (some false, h)
  oneshot_by h (no ne) true v = (none, h)
  oneshot_by h (no ne) false v =
      (some true, pushed h.queue h.held h.rep v (omega (arith, h.rep.fits)))

  abbrev take_from : (q : ArrayQueue A) (xs : List A) → Rep cap q xs → Option A × Held A cap
  take_from q [] r = (none, record { queue = q; held = []; rep = r })
  take_from q (x ∷ xs) r =
      (some x, record { queue = after_pop q; held = xs; rep = after_pop-Rep r })

  pub send_by-held :
      (h : Held A cap) (d : Dec (length h.held ≡ cap)) (v : A)
      → (send_by h d v).1.held ≡ append_if (send_by h d v).0 v h.held
  send_by-held h (yes _) v = refl
  send_by-held h (no _) v = refl

  send_by-runs :
      (h : Held A cap) (d : Dec (length h.held ≡ cap)) (flags : List Bool) (v : A)
      → push_with_ptr (flags ++ (false ∷ [])) h.queue v
        ≡ some ((send_by h d v).0, (send_by h d v).1.queue)
  send_by-runs h (yes e) flags v = push_full h.rep flags v e
  send_by-runs h (no ne) flags v = push_room h.rep flags v (omega (arith, h.rep.fits))

  pub oneshot_by-held :
      (h : Held A cap) (d : Dec (length h.held ≡ cap)) (spurious : Bool) (v : A)
      → (oneshot_by h d spurious v).1.held ≡ append_if (done (oneshot_by h d spurious v).0) v h.held
  oneshot_by-held h (yes _) spurious v = refl
  oneshot_by-held h (no _) true v = refl
  oneshot_by-held h (no _) false v = refl

  pub oneshot_by-full :
      (h : Held A cap) (d : Dec (length h.held ≡ cap)) (spurious : Bool) (v : A)
      → (oneshot_by h d spurious v).0 ≡ some false
      → length h.held ≡ cap
  oneshot_by-full h (yes e) spurious v answer = e
  oneshot_by-full h (no ne) true v answer = absurd (ground (arith, answer))
  oneshot_by-full h (no ne) false v answer = absurd (ground (arith, answer))

  oneshot_by-runs :
      (h : Held A cap) (d : Dec (length h.held ≡ cap)) (spurious : Bool) (v : A)
      → try_push_oneshot spurious h.queue v
        ≡ ((oneshot_by h d spurious v).0, (oneshot_by h d spurious v).1.queue)
  oneshot_by-runs h (yes e) spurious v = ground (arith, try_push_oneshot_lem h.rep spurious v)
  oneshot_by-runs h (no ne) true v = ground (arith, try_push_oneshot_lem h.rep true v)
  oneshot_by-runs h (no ne) false v = ground (arith, try_push_oneshot_lem h.rep false v)

  pub take_from-held :
      (q : ArrayQueue A) (xs : List A) (r : Rep cap q xs)
      → prepend (take_from q xs r).0 (take_from q xs r).1.held ≡ xs
  take_from-held q [] r = refl
  take_from-held q (x ∷ xs) r = refl

  pub take_from-empty :
      (q : ArrayQueue A) (xs : List A) (r : Rep cap q xs)
      → is_some (take_from q xs r).0 ≡ false
      → length xs ≡ 0
  take_from-empty q [] r e = refl
  take_from-empty q (x ∷ xs) r e = absurd (ground (arith, e))

  take_from-runs :
      (q : ArrayQueue A) (xs : List A) (r : Rep cap q xs) (flags : List Bool)
      → pop (flags ++ (false ∷ [])) q ≡ some ((take_from q xs r).0, (take_from q xs r).1.queue)
  take_from-runs q [] r flags = pop-none r flags
  take_from-runs q (x ∷ xs) r flags = pop-some r flags

-- `FlavorImpl` for `Array`: a spurious failure only makes a difference to `try_send_oneshot`.
abbrev pub array_flavor : (A : Type 0) (cap : ℕ) → 0 < cap → Flavor A
array_flavor A cap pos = record {
  Queue = Held A cap;
  values = λ h. h.held;
  capacity = cap;
  try_send = λ flag v h. send_by h (ℕ_discrete (length h.held) cap) v;
  try_send_oneshot = λ flag v h. oneshot_by h (ℕ_discrete (length h.held) cap) flag v;
  try_recv = λ flag h. take_from h.queue h.held h.rep;
  try_recv_final = λ flag h. take_from h.queue h.held h.rep;
  capacity_pos = pos;
  values_le = λ h. h.rep.fits;
  try_send_values = λ flag v h. send_by-held h (ℕ_discrete (length h.held) cap) v;
  oneshot_values = λ flag v h. oneshot_by-held h (ℕ_discrete (length h.held) cap) flag v;
  oneshot_full = λ flag v h. oneshot_by-full h (ℕ_discrete (length h.held) cap) flag v;
  try_recv_values = λ flag h. take_from-held h.queue h.held h.rep;
  try_recv_empty = λ h. take_from-empty h.queue h.held h.rep;
  final_values = λ flag h. take_from-held h.queue h.held h.rep;
  final_empty = λ flag h. take_from-empty h.queue h.held h.rep;
}

-- The capacity for a bound.
abbrev pub cap_of : ℕ → ℕ
cap_of bound = if bound == 0 then 1 else bound

pub cap_bounds : (bound : ℕ) → bound ≤ 2 ^ 32 - 1 → (0 < cap_of bound) × (cap_of bound < 2 ^ 63)
cap_bounds bound fits = ground arith

module _ (A : Type 0) (bound : ℕ) (fits : bound ≤ 2 ^ 32 - 1) where
  -- The flavor of that bound, and its first queue.
  abbrev pub flavor_of : Flavor A
  flavor_of = array_flavor A (cap_of bound) (cap_bounds bound fits).0

  abbrev pub first : Held A (cap_of bound)
  first = record {
    queue = fresh A (cap_of bound);
    held = [];
    rep = (new-Rep A (cap_of bound) (cap_bounds bound fits).0 (cap_bounds bound fits).1).1;
  }

  made : new_with_bound bound ≡ some first.queue
  unfolding new_with_bound
  made =
      ground
        (arith, (new-Rep A (cap_of bound) (cap_bounds bound fits).0 (cap_bounds bound fits).1).0)

  -- For every bound up to 2³² - 1, `Array::new` makes a queue of at least one place, and on every
  -- array queue that holds a list, `push_with_ptr`, `try_push_oneshot` and `pop` end and answer
  -- and change the queue as the operations of a flavor do that fulfils the laws a channel asks
  -- for.
  pub array_implements_flavor :
      (flags : List Bool) (flag : Bool) (v : A) (h : Held A (cap_of bound))
      → (new_with_bound bound ≡ some first.queue)
        × (push_with_ptr (flags ++ (false ∷ [])) h.queue v
            ≡ some ((flavor_of.try_send flag v h).0, (flavor_of.try_send flag v h).1.queue))
        × (try_push_oneshot flag h.queue v ≡ (
          (flavor_of.try_send_oneshot flag v h).0,
          (flavor_of.try_send_oneshot flag v h).1.queue,
        ))
        × (pop (flags ++ (false ∷ [])) h.queue
            ≡ some ((flavor_of.try_recv flag h).0, (flavor_of.try_recv flag h).1.queue))
        × (pop (flags ++ (false ∷ [])) h.queue
            ≡ some ((flavor_of.try_recv_final flag h).0, (flavor_of.try_recv_final flag h).1.queue))
  array_implements_flavor flags flag v h = (
    made,
    send_by-runs h (ℕ_discrete (length h.held) (cap_of bound)) flags v,
    oneshot_by-runs h (ℕ_discrete (length h.held) (cap_of bound)) flag v,
    take_from-runs h.queue h.held h.rep flags,
    take_from-runs h.queue h.held h.rep flags,
  )
