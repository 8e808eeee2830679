-- ===== src/EventLoop/Timers.antt =====
-- Who may use the timers of mac/chatkit/cim/base/event_loop.cpp, and when.
use coffee_chat_desktop.Prelude.{
  ℕ, ◌<◌, ◌≡◌, ◌≢◌, refl, sym, ◌∙◌, subst, Bool, true, false, not, ◌&&◌, List, [], ◌∷◌, Option,
  none, some, ok, abort, arith, ==_iff, ◌==◌, Returns, Safely, Safely-ok, Bool-cases, Option-cases,
  inl, inr,
}
use mathlib.Core.Bool.{true≢false}
use coffee_chat_desktop.EventLoop.{
  contains, erase, Loop, new_timer, free_timer, run_begin, run_end, stop, stop_default,
  register_timer, remove_timer, new_loop,
}

contains-erase : (t j : ℕ) (xs : List ℕ) → contains j (erase t xs) ≡ (contains j xs && not (j == t))
unfolding contains erase
contains-erase t j [] = refl
contains-erase t j (x ∷ xs) = ground (arith, contains-erase t j xs)

-- What is allocated is known to libuv, addresses are new, and the default timer is allocated.
pub record IsSound (l : Loop) : Type 0 where
  pub known : (t : ℕ) → contains t l.live ≡ true → contains t l.handles ≡ true
  pub fresh : (t : ℕ) → contains t l.handles ≡ true → t < l.next_address
  pub default_live : (t : ℕ) → l.default_timer ≡ some t → contains t l.live ≡ true

-- What the program does before it stops the loop; a timer that it removes is not the loop's own.
pub data Step (l l' : Loop) : Type 0 where
  begins : l' ≡ run_begin l → Step l l'
  ends : l' ≡ run_end l → Step l l'
  registers : l' ≡ (register_timer l).1 → Step l l'
  removes : (t : ℕ) → l.default_timer ≢ some t → remove_timer (some t) l ≡ ok l' → Step l l'

pub data Reach : Loop → Type 0 where
  here : Reach new_loop
  next : {l l' : Loop} → Reach l → Step l l' → Reach l'

new_timer-IsSound : (l : Loop) → IsSound l → IsSound (new_timer l).1
unfolding new_timer contains
new_timer-IsSound l s = record {
  known = λ t h. ground (arith, s.known t);
  fresh = λ t h. ground (arith, s.fresh t);
  default_live = λ t h. ground (arith, s.default_live t h);
}

run_begin-IsSound : (l : Loop) → IsSound l → IsSound (run_begin l)
unfolding run_begin new_timer contains
run_begin-IsSound l s = record {
  known = λ t h. ground (arith, s.known t);
  fresh = λ t h. ground (arith, s.fresh t);
  default_live = λ t h. ground (arith, h);
}

free_timer_done :
    (t : ℕ) (l l' : Loop)
    → free_timer t l ≡ ok l'
    → (contains t l.live ≡ true) × (l' ≡ record l { live = erase t l.live })
unfolding free_timer
free_timer_done t l l' e = elim (Bool-cases (contains t l.live)) [
  | inl held ↦ (held, ground (arith, held, e))
  | inr gone ↦ absurd (ground (arith, gone, e))
]

free_timer-IsSound :
    (t : ℕ) (l : Loop) → l.default_timer ≢ some t → IsSound l → Safely (free_timer t l) IsSound
unfolding free_timer
free_timer-IsSound t l other s = elim (Bool-cases (contains t l.live)) [
  | inl held ↦ rw held (record {
    known = λ j h. ground (arith, contains-erase t j l.live, s.known j);
    fresh = s.fresh;
    default_live = λ j h. ground (arith, contains-erase t j l.live, s.default_live j h, other, h);
  })
  | inr gone ↦ rw gone tt
]

Step-IsSound : (l l' : Loop) → Step l l' → IsSound l → IsSound l'
unfolding run_end register_timer remove_timer
Step-IsSound l l' (begins e) s = subst IsSound (sym e) (run_begin-IsSound l s)
Step-IsSound l l' (ends e) s =
    subst IsSound (sym e)
      (record { known = s.known; fresh = s.fresh; default_live = s.default_live })
Step-IsSound l l' (registers e) s = subst IsSound (sym e) (new_timer-IsSound l s)
Step-IsSound l l' (removes t other e) s = Safely-ok IsSound l' (free_timer-IsSound t l other s) e

pub Reach-IsSound : {l : Loop} → Reach l → IsSound l
unfolding contains
Reach-IsSound here = record {
  known = λ t h. absurd (true≢false (sym h));
  fresh = λ t h. absurd (true≢false (sym h));
  default_live = λ t h. absurd (cc h);
}
Reach-IsSound (next {l} {l'} r st) = Step-IsSound l l' st (Reach-IsSound r)

abbrev pub is_default : ℕ → Option ℕ → Bool
is_default t none = false
is_default t (some d) = t == d

-- Whatever the program did with timers of its own, also when the loop never ran: `stop` returns,
-- tells libuv to stop, and frees the loop's own timer and no other memory.
pub stop_lem :
    (l : Loop)
    → Reach l
    → Returns (stop l) (λ l'.
      (l'.stop_flag ≡ true)
      × ((t : ℕ) → contains t l'.live ≡ (contains t l.live && not (is_default t l.default_timer))))
unfolding stop stop_default free_timer
stop_lem l r = elim (Option-cases l.default_timer) [
  | inl e ↦ rw e (refl, λ t. ground arith)
  | inr (d, e) ↦ rw (e, (Reach-IsSound r).default_live d e) (refl, λ t. contains-erase d t l.live)
]

-- When `stop` has freed the loop's own timer, a second call of it frees the same memory again.
pub stop_twice : (l l' : Loop) (t : ℕ) → l.default_timer ≡ some t → stop l ≡ ok l' → stop l' ≡ abort
unfolding stop stop_default free_timer
stop_twice l l' t own e = elim (Bool-cases (contains t l.live)) [
  | inl held ↦
      let same : l' ≡ record l { live = erase t l.live; stop_flag = true } =
        ground (arith, own, held, e) in
      rw (same, own, contains-erase t t l.live) (ground (arith, ==_iff t t))
  | inr gone ↦ absurd (ground (arith, own, gone, e))
]

-- A timer that `removeTimer` frees is still a handle of libuv's loop, since it is never given to
-- `uv_close`; so is the loop's own timer behind `stop`.
pub remove_timer_dangling :
    (l l' : Loop) (t : ℕ)
    → Reach l
    → remove_timer (some t) l ≡ ok l'
    → (contains t l'.live ≡ false) × (contains t l'.handles ≡ true)
unfolding remove_timer
remove_timer_dangling l l' t r e =
    let (held, same) = free_timer_done t l l' e in
    rw same (contains-erase t t l.live ∙ ground (arith, ==_iff t t), (Reach-IsSound r).known t held)
