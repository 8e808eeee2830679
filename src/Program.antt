-- ===== src/Program.antt =====
-- mac/hellochat/main.cpp: the program from its start to its end, around the dialogs and the event
-- loop of Qt, in which the kit lives.
pub mod Life
pub mod Start
use coffee_chat_desktop.Prelude.{
  ℕ, ◌<◌, ◌≡◌, Bool, true, false, List, Option, none, some, Outcome, ok, abort, ◌>>=◌,
  if◌then◌else◌,
}
use coffee_chat_desktop.Prelude.Int.{ℤ, pos}
use coffee_chat_desktop.EventLoop
use coffee_chat_desktop.EventLoop.{Loop}
use coffee_chat_desktop.EventLoop.Timers
use coffee_chat_desktop.Client.{Client, Event, Protobuf}
use coffee_chat_desktop.Files.Directories.{FileSystem}
use coffee_chat_desktop.Config.{Database, ServerInfoConfig}
use coffee_chat_desktop.Config.Connection.{Opening}
use coffee_chat_desktop.System.Steps
use coffee_chat_desktop.Kit.{
  Kit, Started, new_kit, set_server_info, thread_runs, init_chat_kit, cleanup,
}

module _ (fs : FileSystem) (db : Database) (os : Opening fs db) (pb : Protobuf) where
  -- The first call of `main`, which does not look at its value; but where `initChatKit()` ran off
  -- its end, the call itself is undefined behaviour, which is a stop.
  unfoldable pub forget_value : Started fs db os → Option (Outcome (fs.World × Kit db))
  forget_value none = none
  forget_value (some abort) = some abort
  forget_value (some (ok (none, w, k))) = some abort
  forget_value (some (ok (some value, w, k))) = some (ok (w, k))

  unfoldable pub main_begin : fs.World → Option (Outcome (fs.World × Kit db))
  unfolding forget_value
  main_begin w = forget_value (init_chat_kit fs db os (new_kit db) w)

  -- The two branches behind the login dialog: whether it was accepted, and what `a.exec()` returns.
  unfoldable pub main_end : Bool → ℤ → ℕ → ℤ → Kit db → Outcome (ℤ × Kit db × List Event)
  main_end accepted ret now answer k = do
    (k', events) ← cleanup db pb now answer k
    ok (if accepted then ret else pos 0, k', events)

-- What may happen between the two: a thread enters or leaves the loop, timers come and go, the
-- client is called or libuv brings an event, and the settings dialog stores what it was given.
pub data Step (db : Database) (pb : Protobuf) (k k' : Kit db) : Type 0 where
  enters : 0 < k.threads → k' ≡ thread_runs db k → Step db pb k k'
  loops : (l : Loop) → Timers.Step k.loop l → k' ≡ record k { loop = l } → Step db pb k k'
  client_moves :
      (c c' : Client)
      → k.client ≡ some c
      → Steps.Step pb c c'
      → k' ≡ record k { client = some c' }
      → Step db pb k k'
  settings : (info : ServerInfoConfig) → k' ≡ set_server_info db info k → Step db pb k k'

-- The kits of a run of the program, from its first call on.
pub data Lives (fs : FileSystem) (db : Database) (os : Opening fs db) (pb : Protobuf)
    : Kit db → Type 0 where
  begins :
      {k : Kit db} (w w' : fs.World)
      → main_begin fs db os pb w ≡ some (ok (w', k))
      → Lives fs db os pb k
  goes_on : {k k' : Kit db} → Lives fs db os pb k → Step db pb k k' → Lives fs db os pb k'
