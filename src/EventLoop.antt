-- ===== src/EventLoop.antt =====
-- mac/chatkit/cim/base/event_loop.cpp: the one loop of libuv, and the timers whose memory it hands
-- out.
pub mod Timers
use coffee_chat_desktop.Prelude.{
  ℕ, ◌+◌, Bool, true, false, not, ◌&&◌, ◌||◌, List, [], ◌∷◌, Option, none, some, if◌then◌else◌,
  ◌==◌, Outcome, ok, abort, ◌>>=◌, ◌>>◌, assert,
}

unfoldable pub contains : ℕ → List ℕ → Bool
contains t [] = false
contains t (x ∷ xs) = x == t || contains t xs

unfoldable pub erase : ℕ → List ℕ → List ℕ
erase t [] = []
erase t (x ∷ xs) = let rest = erase t xs in if x == t then rest else x ∷ rest

-- `loop_is_run_` and `g_default_timer_`; of the heap, the timers that are allocated; of libuv, the
-- handles that it was given, and whether it was told to stop. `malloc` gives out new addresses, and
-- no memory of these handles is ever returned by `uv_close`, which the code does not call on them.
pub record Loop : Type 0 where
  pub is_run : Bool
  pub default_timer : Option ℕ
  pub live : List ℕ
  pub handles : List ℕ
  pub next_address : ℕ
  pub stop_flag : Bool

-- `malloc`, `uv_timer_init` and `uv_timer_start`
unfoldable pub new_timer : Loop → ℕ × Loop
new_timer l = (
  l.next_address,
  record l {
    live = l.next_address ∷ l.live;
    handles = l.next_address ∷ l.handles;
    next_address = l.next_address + 1;
  },
)

-- `uv_timer_stop` and `free`, which must not be given memory that is free already.
unfoldable pub free_timer : ℕ → Loop → Outcome Loop
unfolding erase contains
free_timer t l = do assert (contains t l.live); ok (record l { live = erase t l.live })

-- `run()` up to the call of `uv_run`, and behind it.
unfoldable pub run_begin : Loop → Loop
unfolding new_timer
run_begin l =
    let (t, l') = new_timer (record l { is_run = true }) in record l' { default_timer = some t }

unfoldable pub run_end : Loop → Loop
run_end l = record l { is_run = false; stop_flag = false }

-- `stop()`. The pointer to the timer that it frees stays set.
unfoldable pub stop_default : Option ℕ → Loop → Outcome Loop
unfolding free_timer
stop_default none l = ok (record l { stop_flag = true })
stop_default (some t) l = do l' ← free_timer t l; ok (record l' { stop_flag = true })

unfoldable pub stop : Loop → Outcome Loop
unfolding stop_default
stop l = stop_default l.default_timer l

-- `registerTimer(cb, repeat, timeout)`
unfoldable pub register_timer : Loop → ℕ × Loop
unfolding new_timer
register_timer l = new_timer l

-- `removeTimer(timer)`
unfoldable pub remove_timer : Option ℕ → Loop → Outcome Loop
unfolding free_timer
remove_timer none l = ok l
remove_timer (some t) l = free_timer t l

abbrev pub new_loop : Loop
new_loop = record {
  is_run = false;
  default_timer = none;
  live = [];
  handles = [];
  next_address = 1;
  stop_flag = false;
}
