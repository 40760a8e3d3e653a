-- ===== src/Registry.antt =====
-- src/waker_registry.rs: RegistryMulti, the queue of the waiters of one side of a channel.
--
-- A waker is named by a number: the queue holds weak references, and `upgrade` looks the name up in
-- `wakers`, which has `none` for a waker that its owner has dropped. A `SelectWaker` is held by an
-- `Arc`, and always there. The operations are one after another, although `fire` lets go of the lock between two pops;
-- `flags` says of each waker how its exchanges fail spuriously, and `none` is a loop that the flags,
-- or the fuel of `fire_loop`, did not let end.
pub mod Flag
pub mod Fire
pub mod Clear
pub mod Close
pub mod Early
pub mod Async
pub mod Popped
pub mod Ends
pub mod Busy
use crossfire_rs.Prelude.{
  ℕ, zero, suc, ◌+◌, ◌-◌, ◌/◌, ◌%◌, Bool, true, false, not, ◌&&◌, Option, none, some, List, [], ◌∷◌,
  if◌then◌else◌, ◌==◌, ltb, leb, add32, sub32, length, ◌++◌,
}
use crossfire_rs.Waker.{
  WakerInner, WakerState, to_u8, woken, closed, init, WakeResult, next, is_done, wake, close_wake,
  set_seq, ThinWaker, new_waker, reset_init, abandon, Changed, ok, err,
}

pub record SelectWaker : Type 0 where
  pub cell : Option ℕ
  pub hint : ℕ
  pub opened_channels : ℕ

pub record SelectWakerWrapper : Type 0 where
  pub select : ℕ
  pub channel : ℕ

pub record World : Type 0 where
  pub wakers : ℕ → Option WakerInner
  pub selects : ℕ → SelectWaker

pub record Registry : Type 0 where
  pub state : ℕ
  pub queue : List ℕ
  pub selectors : List SelectWakerWrapper
  pub seq : ℕ

abbrev pub put : ℕ → WakerInner → World → World
put i x w = record w { wakers = λ j. if j == i then some x else w.wakers j }

abbrev put_select : ℕ → SelectWaker → World → World
put_select k v w = record w { selects = λ j. if j == k then v else w.selects j }

abbrev pub is_nil : {A : Type 0} → List A → Bool
is_nil [] = true
is_nil (_ ∷ _) = false

abbrev multi_empty : ℕ
multi_empty = 0

abbrev multi_has_select : ℕ
multi_has_select = 1

abbrev multi_has_waker : ℕ
multi_has_waker = 2

abbrev pub check_select : Registry → ℕ
check_select r = if is_nil r.selectors then 0 else multi_has_select

abbrev pub check_waker : Registry → ℕ
check_waker r = if is_nil r.queue then 0 else multi_has_waker

-- `flag & MULTI_HAS_SELECT > 0` and `flag & MULTI_HAS_WAKER > 0`.
abbrev pub has_select : ℕ → Bool
has_select flag = ltb 0 (flag % 2)

abbrev pub has_waker : ℕ → Bool
has_waker flag = ltb 0 (flag / 2 % 2)

abbrev pub new : Registry
new = record { state = 0; queue = []; selectors = []; seq = 0 }

-- The waker `i` is queued, with the next sequence number.
unfoldable pub reg_waker : ℕ → WakerInner → World → Registry → World × Registry
unfolding set_seq
reg_waker i x w r = (
  put i (set_seq x (add32 r.seq 1)) w,
  record r {
    seq = add32 r.seq 1;
    state = if is_nil r.queue then check_select r + multi_has_waker else r.state;
    queue = r.queue ++ (i ∷ []);
  },
)

-- `_reg_waker_blocking`: `held` is the waker of the caller, and `fresh` the name of one that is
-- made if there is none. The answer is the waker that the caller then holds.
unfoldable pub reg_waker_blocking :
    ℕ → ThinWaker → Option (ℕ × WakerInner) → World → Registry → ℕ × (World × Registry)
unfolding reg_waker reset_init new_waker
reg_waker_blocking fresh thread held w r = elim held [
  | some (i, x) ↦ (i, reg_waker i (reset_init x) w r)
  | none ↦ (fresh, reg_waker fresh (new_waker thread) w r)
]

-- `SelectWakerWrapper::wake`
unfoldable pub select_wake : (ℕ → List Bool) → SelectWakerWrapper → World → Option World
select_wake flags sel w =
    let s = w.selects sel.select in
    elim s.cell [
      | none ↦ some w
      | some i ↦ elim (w.wakers i) [
        | none ↦ some (put_select sel.select (record s { cell = none }) w)
        | some x ↦ elim (wake (flags i) x) [
          | none ↦ none
          | some (_, x') ↦
              some
                (put i x' (put_select sel.select (record s { cell = none; hint = sel.channel }) w))
        ]
      ]
    ]

unfoldable pub wake_selectors : (ℕ → List Bool) → List SelectWakerWrapper → World → Option World
unfolding select_wake
wake_selectors flags [] w = some w
wake_selectors flags (sel ∷ sels) w = elim (select_wake flags sel w) [
  | none ↦ none
  | some w' ↦ wake_selectors flags sels w'
]

-- The loop over `pop_front` and `upgrade`: the first waker that is still there, and the queue behind.
unfoldable pub pop_live : World → List ℕ → Option (ℕ × WakerInner) × List ℕ
pop_live w [] = (none, [])
pop_live w (i ∷ q) = elim (w.wakers i) [ some x ↦ (some (i, x), q) | none ↦ pop_live w q ]

-- What the pops leave: the state is stored if they emptied the queue.
abbrev pub popped : List ℕ → Registry → Registry
popped q r = record r {
  queue = q;
  state = if is_nil r.queue then r.state else if is_nil q then check_select r else r.state;
}

unfoldable pub pop_again : World → Registry → Option (ℕ × WakerInner) × Registry
unfolding pop_live
pop_again w r = elim (r.state == multi_empty) [
  | true ↦ (none, r)
  | false ↦ (let (o, q) = pop_live w r.queue in (o, popped q r))
]

-- The part of `pop_first` behind the selectors: the waker found, and the last sequence number if
-- the queue has more.
unfoldable pub pop_queue : World → Registry → Option (ℕ × WakerInner × Option ℕ) × World × Registry
unfolding pop_live
pop_queue w r = elim (has_waker r.state) [
  | true ↦
      (let (o, q) = pop_live w r.queue in
        elim o [
          | none ↦ (none, w, popped q r)
          | some (i, x) ↦
              (some (i, x, elim (is_nil q) [ true ↦ none | false ↦ some r.seq ]), w, popped q r)
        ])
  | false ↦ (none, w, r)
]

unfoldable pub pop_first :
    (ℕ → List Bool)
    → World
    → Registry
    → Option (Option (ℕ × WakerInner × Option ℕ) × World × Registry)
unfolding wake_selectors pop_queue
pop_first flags w r = elim (r.state == multi_empty) [
  | true ↦ some (none, w, r)
  | false ↦ elim (if has_select r.state then wake_selectors flags r.selectors w else some w) [
    | none ↦ none
    | some w' ↦ some (pop_queue w' r)
  ]
]

-- What `fire` does with the answer of `wake`: it is done, or goes on, as `again` says, with the
-- sequence number of the waker.
unfoldable pub after_wake :
    ℕ
    → World
    → Registry
    → (ℕ → World → Option (WakeResult × World × Registry))
    → Option (WakeResult × WakerInner)
    → Option (WakeResult × World × Registry)
unfolding is_done
after_wake i w r again none = none
after_wake i w r again (some (res, x)) = elim (is_done res) [
  | true ↦ some (res, put i x w, r)
  | false ↦ again x.seq (put i x w)
]

-- The loop of `fire` over `pop_again`; each round takes a waker from the queue.
unfoldable pub fire_loop :
    ℕ → (ℕ → List Bool) → ℕ → World → Registry → Option (WakeResult × World × Registry)
unfolding pop_again after_wake
fire_loop zero flags last_seq w r = none
fire_loop (suc fuel) flags last_seq w r =
    let (o, r') = pop_again w r in
    elim o [
      | none ↦ some (next, w, r')
      | some (i, x) ↦
          after_wake i w r'
            (λ seq w'. elim (leb last_seq seq) [
              | true ↦ some (next, w', r')
              | false ↦ fire_loop fuel flags last_seq w' r'
            ])
            (wake (flags i) x)
    ]

unfoldable pub fire : (ℕ → List Bool) → World → Registry → Option (WakeResult × World × Registry)
unfolding pop_first after_wake fire_loop
fire flags w r = elim (pop_first flags w r) [
  | none ↦ none
  | some (none, w', r') ↦ some (next, w', r')
  | some (some (i, x, o_seq), w', r') ↦
      after_wake i w' r'
        (λ _ w''. elim o_seq [
          | none ↦ some (next, w'', r')
          | some seq ↦ fire_loop (suc (length r'.queue)) flags (sub32 seq 1) w'' r'
        ])
        (wake (flags i) x)
]

-- What `_clear_wakers` decides about the waker at the front: drop it and go on, drop it and stop,
-- or put it back and stop.
pub data Cleared : Type 0 where
  go_on drop_stop keep_stop : Cleared

unfoldable pub process : Bool → ℕ → Option WakerInner → Cleared
process oneshot old_seq none = go_on
process oneshot old_seq (some x) =
    if x.seq == old_seq
    then drop_stop
    else if ltb old_seq x.seq
    then keep_stop
    else if ltb x.state (to_u8 WakerState.woken)
    then keep_stop
    else if oneshot
    then drop_stop
    else go_on

unfoldable pub clear_loop : Bool → ℕ → World → List ℕ → List ℕ
unfolding process
clear_loop oneshot old_seq w [] = []
clear_loop oneshot old_seq w (i ∷ q) = elim (process oneshot old_seq (w.wakers i)) [
  | go_on ↦ clear_loop oneshot old_seq w q
  | drop_stop ↦ q
  | keep_stop ↦ i ∷ q
]

-- `_clear_wakers`, for the waker `old`; a queue that is left empty has its state stored.
unfoldable pub clear_wakers : Bool → WakerInner → World → Registry → Registry
unfolding clear_loop
clear_wakers oneshot old w r =
    if has_waker r.state then popped (clear_loop oneshot old.seq w r.queue) r else r

unfoldable pub close_queue : (ℕ → List Bool) → List ℕ → World → Option World
close_queue flags [] w = some w
close_queue flags (i ∷ q) w = elim (w.wakers i) [
  | none ↦ close_queue flags q w
  | some x ↦ elim (close_wake (flags i) x) [
    | none ↦ none
    | some (_, x') ↦ close_queue flags q (put i x' w)
  ]
]

unfoldable pub close : (ℕ → List Bool) → World → Registry → Option (World × Registry)
unfolding wake_selectors close_queue
close flags w r = elim (wake_selectors flags r.selectors w) [
  | none ↦ none
  | some w' ↦ elim (close_queue flags r.queue w') [
    | none ↦ none
    | some w'' ↦ some (w'', record r { queue = []; state = 0 })
  ]
]

unfoldable pub abandon_waker :
    (ℕ → List Bool) → ℕ → WakerInner → World → Registry → Option (Changed × World × Registry)
unfolding clear_wakers
abandon_waker flags i x w r = elim (abandon (flags i) x) [
  | none ↦ none
  | some (ok s, x') ↦ some (ok s, put i x' w, clear_wakers false x' (put i x' w) r)
  | some (err s, x') ↦ some (err s, put i x' w, r)
]

-- `cancel_waker`, for the waker `x` that the caller gives up.
unfoldable pub cancel_waker : WakerInner → World → Registry → Registry
unfolding clear_wakers
cancel_waker x w r = if leb (to_u8 WakerState.woken) x.state then r else clear_wakers true x w r

-- `cancel_reuse_waker`: the state answered, and whether the caller keeps the waker.
unfoldable pub cancel_reuse_waker : WakerState → WakerInner → World → Registry → ℕ × Bool × Registry
unfolding clear_wakers
cancel_reuse_waker state x w r =
    if leb (to_u8 WakerState.woken) x.state
    then (if ltb x.state (to_u8 state) then to_u8 state else x.state, true, r)
    else (to_u8 state, false, clear_wakers true x w r)

unfoldable pub reg_select_waker : ℕ → ℕ → Registry → Registry
reg_select_waker channel_id k r = record r {
  state = if is_nil r.selectors then check_waker r + multi_has_select else r.state;
  selectors = r.selectors ++ (record { select = k; channel = channel_id } ∷ []);
}

-- `find` and `remove` of the first entry of the selector `k`.
abbrev remove_select : ℕ → List SelectWakerWrapper → List SelectWakerWrapper
remove_select k [] = []
remove_select k (sel ∷ sels) = elim (sel.select == k) [
  | true ↦ sels
  | false ↦ sel ∷ remove_select k sels
]

unfoldable pub cancel_select_waker : ℕ → Registry → Registry
cancel_select_waker k r =
    let sels = remove_select k r.selectors in
    record r { selectors = sels; state = if is_nil sels then check_waker r else r.state }
