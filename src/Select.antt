-- ===== src/Select.antt =====
-- src/select/select.rs, and the select half of src/shared.rs: the first channel that is ready.
--
-- A flavor is known by its `try_select`, which claims an item and answers where it is. A channel is
-- told by its address, a number.
pub mod Chosen
pub mod Order
use crossfire_rs.Prelude.{
  ℕ, zero, suc, ◌+◌, ◌*◌, ◌/◌, ◌%◌, ◌^◌, bit_xor, Bool, true, false, ◌&&◌, Option, none, some, List,
  [], ◌∷◌, ◌++◌, if◌then◌else◌, leb, ◌==◌, length, map, set,
}
use crossfire_rs.ArrayQueue.Rep.{nth}

pub data SelectMode : Type 0 where
  rr : SelectMode
  rand : SelectMode
  bias : SelectMode

-- `Token::default`, or the place of an item that is claimed.
pub data Token (T : Type 0) : Type 0 where
  null : Token T
  at : T → Token T

pub record ChannelShared (Q : Type 0) : Type 0 where
  pub inner : Q
  pub tx_count : ℕ

pub record RecvHandle (Q : Type 0) : Type 0 where
  pub shared : ChannelShared Q
  pub registered : Bool
  pub channel : ℕ

pub record Select (Q : Type 0) : Type 0 where
  pub handlers : List (RecvHandle Q)
  pub mode : SelectMode
  pub next_index : ℕ
  pub rng : ℕ

pub record SelectResult (T : Type 0) : Type 0 where
  pub channel : ℕ
  pub token : Token T

-- `Select::new_with`, with what the hasher gives.
abbrev pub new_with : {Q : Type 0} → SelectMode → ℕ → Select Q
new_with rand hash = record { handlers = []; mode = rand; next_index = 0; rng = hash }
new_with m hash = record { handlers = []; mode = m; next_index = 0; rng = 0 }

abbrev pub add : {Q : Type 0} → ChannelShared Q → ℕ → Select Q → Select Q
add shared channel s = record s {
  handlers = s.handlers ++ (record { shared = shared; registered = false; channel = channel } ∷ []);
}

-- `x ^= x << 13`, `x ^= x >> 7` and `x ^= x << 17` on 64 bits.
abbrev pub xorshift : ℕ → ℕ
xorshift x =
    let a = bit_xor x (x * 2 ^ 13 % 2 ^ 64) in
    let b = bit_xor a (a / 2 ^ 7) in bit_xor b (b * 2 ^ 17 % 2 ^ 64)

-- `_try_select_begin`, where there is a channel.
abbrev pub begin_by : {Q : Type 0} → SelectMode → Select Q → ℕ × Select Q
begin_by bias s = (0, s)
begin_by rr s = (if leb (length s.handlers) s.next_index then 0 else s.next_index, s)
begin_by rand s = let x = xorshift s.rng in (x % length s.handlers, record s { rng = x })

unfoldable pub try_select_begin : {Q : Type 0} → Select Q → ℕ × Select Q
try_select_begin s = begin_by s.mode s

-- `RecvHandle` without its registration, of which the registries of the channel are told.
abbrev pub unregister : {Q : Type 0} → RecvHandle Q → RecvHandle Q
unregister h = record h { registered = false }

abbrev pub remove_channel : {Q : Type 0} → ℕ → List (RecvHandle Q) → List (RecvHandle Q)
remove_channel channel [] = []
remove_channel channel (h ∷ hs) =
    let rest = remove_channel channel hs in if h.channel == channel then hs else h ∷ rest

abbrev pub has_channel : {Q : Type 0} → ℕ → List (RecvHandle Q) → Bool
has_channel channel [] = false
has_channel channel (h ∷ hs) =
    let rest = has_channel channel hs in if h.channel == channel then true else rest

unfoldable pub remove : {Q : Type 0} → ℕ → Select Q → Select Q
remove channel s =
    if has_channel channel s.handlers
    then (let hs = remove_channel channel s.handlers in
        record s {
          handlers = map unregister hs;
          next_index =
              if leb (length hs) s.next_index && leb 1 (length hs) then 0 else s.next_index;
        })
    else s

module _ {Q T : Type 0} (flavor_try_select : Bool → Q → Option T × Q) where
  -- `ChannelShared::try_select`, with what the flavor answered, and whether the channel is closed.
  abbrev pub token_of : Bool → Option T → Option (Token T)
  token_of closed (some t) = some (at t)
  token_of closed none = if closed then some null else none

  abbrev pub shared_try_select : Bool → ChannelShared Q → Option (Token T) × ChannelShared Q
  shared_try_select final c =
      let (o, q) = flavor_try_select final c.inner in
      (token_of (final && c.tx_count == 0) o, record c { inner = q })

  abbrev pub put_handle : ℕ → RecvHandle Q → Select Q → Select Q
  put_handle i h s = record s { handlers = set s.handlers i h }

  abbrev pub next_by : SelectMode → ℕ → ℕ → ℕ
  next_by rr i next = i + 1
  next_by _ i next = next

  abbrev pub look_result :
      ℕ
      → RecvHandle Q
      → Option (Token T) × ChannelShared Q
      → Select Q
      → Option (SelectResult T) × Select Q
  look_result i h (none, c) s = (none, put_handle i (record h { shared = c }) s)
  look_result i h (some t, c) s = (
    some (record { channel = h.channel; token = t }),
    record (put_handle i (record h { shared = c }) s) {
      next_index = next_by s.mode i s.next_index;
    },
  )

  abbrev pub look_at :
      Bool → ℕ → Option (RecvHandle Q) → Select Q → Option (SelectResult T) × Select Q
  look_at final i none s = (none, s)
  look_at final i (some h) s = look_result i h (shared_try_select final h.shared) s

  -- The loop of `_try_select`.
  unfoldable pub try_select_loop : Bool → ℕ → ℕ → Select Q → Option (SelectResult T) × Select Q
  try_select_loop final zero idx s = (none, s)
  try_select_loop final (suc n) idx s =
      let i = if leb (length s.handlers) idx then 0 else idx in
      let (o, s') = look_at final i (nth s.handlers i) s in
      elim o [ some r ↦ (some r, s') | none ↦ try_select_loop final n (i + 1) s' ]

  abbrev pub try_select_all : Bool → ℕ → Select Q → Option (SelectResult T) × Select Q
  try_select_all final idx s = try_select_loop final (length s.handlers) idx s

  pub data TrySelect : Type 0 where
    selected : SelectResult T → TrySelect
    empty : TrySelect
    disconnected : TrySelect

  abbrev pub answer : Option (SelectResult T) × Select Q → TrySelect × Select Q
  answer (none, s) = (empty, s)
  answer (some r, s) = (selected r, s)

  unfoldable pub try_select : Select Q → TrySelect × Select Q
  unfolding try_select_begin
  try_select s =
      if leb 1 (length s.handlers)
      then (let (idx, s') = try_select_begin s in answer (try_select_all true idx s'))
      else (disconnected, s)
