-- ===== src/Registry/Early.antt =====
-- src/waker_registry.rs: where the search of a fire ends.
use crossfire_rs.Prelude.{
  ℕ, suc, ◌≡◌, ◌≢◌, ◌≤◌, ◌∙◌, Bool, true, some, List, ◌∷◌, length, sub32, arith,
}
use crossfire_rs.Waker.{WakerInner, next, wake_by_ref}
use crossfire_rs.Waker.Laws.{settle, set_state, wake_total}
use crossfire_rs.Registry.{Registry, World, put, popped, fire_loop, fire, is_nil}

module _ (flags : ℕ → List Bool) (w : World) (r : Registry) (flag : r.state ≡ 2) where
  loop_stops :
      (fuel last b : ℕ) (y : WakerInner) (w' : World) (q : List ℕ)
      → w'.wakers b ≡ some y
      → y.state ≡ 0
      → last ≤ y.seq
      → fire_loop (suc fuel) (λ k. settle (flags k)) last w' (record r { queue = b ∷ q })
        ≡ some (next, put b (wake_by_ref (set_state 3 y)) w', popped q (record r { queue = b ∷ q }))
  unfolding fire_loop wake_by_ref
  loop_stops fuel last b y w' q e s late = ground (arith, wake_total (flags b) y)

  fire_goes :
      (a b : ℕ) (x : WakerInner) (q : List ℕ)
      → is_nil r.selectors ≡ true
      → w.wakers a ≡ some x
      → x.state ≡ 0
      → fire (λ k. settle (flags k)) w (record r { queue = a ∷ b ∷ q })
        ≡ fire_loop
            (suc (suc (length q)))
            (λ k. settle (flags k))
            (sub32 r.seq 1)
            (put a (wake_by_ref (set_state 3 x)) w)
            (record r { queue = b ∷ q })
  unfolding fire
  fire_goes a b x q ns e s = ground (arith, wake_total (flags a) x)

  -- A fire on a multi registry without selectors, with no other call meanwhile, that finds two
  -- waiters in `Init` at the front, the second with a sequence number of at least that of the
  -- registry less one, wakes both, answers `Next`, and leaves whoever stands behind in the queue,
  -- woken or not.
  pub fire_stops :
      (a b : ℕ) (x y : WakerInner) (q : List ℕ)
      → is_nil r.selectors ≡ true
      → w.wakers a ≡ some x
      → w.wakers b ≡ some y
      → a ≢ b
      → x.state ≡ 0
      → y.state ≡ 0
      → sub32 r.seq 1 ≤ y.seq
      → fire (λ k. settle (flags k)) w (record r { queue = a ∷ b ∷ q })
        ≡ some (
          next,
          put b (wake_by_ref (set_state 3 y)) (put a (wake_by_ref (set_state 3 x)) w),
          popped q (record r { queue = b ∷ q }),
        )
  fire_stops a b x y q ns ea eb ne sa sb late =
      fire_goes a b x q ns ea sa
      ∙ loop_stops (suc (length q)) (sub32 r.seq 1) b y (put a (wake_by_ref (set_state 3 x)) w) q
          (ground (arith, eb, ne)) sb late
