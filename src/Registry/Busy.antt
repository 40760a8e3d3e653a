-- ===== src/Registry/Busy.antt =====
-- src/waker_registry.rs: a fire of a multi registry whose waiters register again meanwhile.
--
-- `fire` lets go of the lock between two pops. Here any waiters register again after each waker that
-- it wakes: `between` lists them, by the fuel that is left.
pub mod Stop
pub mod Fire
use crossfire_rs.Prelude.{
  ℕ, zero, suc, Bool, true, false, Option, none, some, List, [], ◌∷◌, leb, length, sub32,
}
use crossfire_rs.Waker.{WakeResult, next, wake, reset_init}
use crossfire_rs.Registry.{World, Registry, reg_waker, pop_again, pop_first, after_wake}

-- The waiters of these names that are still there register again, in this order.
unfoldable pub register_all : List ℕ → World → Registry → World × Registry
unfolding reg_waker
register_all [] w r = (w, r)
register_all (i ∷ names) w r = elim (w.wakers i) [
  | none ↦ register_all names w r
  | some x ↦ let (w', r') = reg_waker i (reset_init x) w r in register_all names w' r'
]

unfoldable pub fire_loop_busy :
    ℕ
    → (ℕ → List Bool)
    → (ℕ → List ℕ)
    → ℕ
    → World × Registry
    → Option (WakeResult × World × Registry)
unfolding pop_again after_wake register_all
fire_loop_busy zero flags between last_seq s = none
fire_loop_busy (suc fuel) flags between last_seq s =
    let (w, r) = s in
    let (o, r') = pop_again w r in
    elim o [
      | none ↦ some (next, w, r')
      | some (i, x) ↦
          after_wake i w r'
            (λ seq w'. elim (leb last_seq seq) [
              | true ↦ some (next, w', r')
              | false ↦
                  fire_loop_busy fuel flags between last_seq (register_all (between fuel) w' r')
            ])
            (wake (flags i) x)
    ]

unfoldable pub fire_busy :
    (ℕ → List Bool) → (ℕ → List ℕ) → World → Registry → Option (WakeResult × World × Registry)
unfolding pop_first after_wake register_all fire_loop_busy
fire_busy flags between w r = elim (pop_first flags w r) [
  | none ↦ none
  | some (none, w', r') ↦ some (next, w', r')
  | some (some (i, x, o_seq), w', r') ↦
      after_wake i w' r'
        (λ _ w''. elim o_seq [
          | none ↦ some (next, w'', r')
          | some seq ↦
              (let fuel = suc (length r'.queue) in
                fire_loop_busy fuel flags between (sub32 seq 1)
                  (register_all (between fuel) w'' r'))
        ])
        (wake (flags i) x)
]
