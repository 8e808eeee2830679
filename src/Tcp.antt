-- ===== src/Tcp.antt =====
-- mac/chatkit/cim/base/tcp_client.h and tcp_client.cpp: one TCP connection over libuv.
-- What libuv and the socket calls answer is an argument of each operation; the calls that change
-- something outside are effects, in order.
pub mod Registry
pub mod Lifecycle
pub mod Stale
pub mod Address
use coffee_chat_desktop.Prelude.{
  ℕ, ◌+◌, ◌%◌, ◌^◌, Bool, true, false, not, List, [], ◌∷◌, ◌++◌, Option, none, some, if◌then◌else◌,
  ◌==◌, Outcome, ok, abort, ◌>>=◌, ◌>>◌, assert,
}
use coffee_chat_desktop.Prelude.Int.{ℤ, pos, negsuc, minus_one, ◌==ℤ◌, is_negative, is_positive}

pub data ConnectionStatus : Type 0 where
  default connecting disconnected connect_ok : ConnectionStatus

abbrev pub is_connect_ok : ConnectionStatus → Bool
is_connect_ok connect_ok = true
is_connect_ok _ = false

-- An object of the class. The callbacks are only ever tested and called: a flag says whether one is
-- set. `server_port` is an `int16_t` by its bit pattern.
pub record TcpClient : Type 0 where
  pub tcp_handle : Option ℕ
  pub sock_fd : ℤ
  pub connect_status : ConnectionStatus
  pub connection_cb : Bool
  pub message_cb : Bool
  pub server_ip : List ℕ
  pub server_port : ℕ

-- The constructor: `sock_fd_` starts as 0, and not as `kInvalidSocket`.
abbrev pub new_client : TcpClient
new_client = record {
  tcp_handle = none;
  sock_fd = pos 0;
  connect_status = default;
  connection_cb = false;
  message_cb = false;
  server_ip = [];
  server_port = 0;
}

-- The objects by their addresses, `g_conn_map`, and `EventLoop::loop_is_run_`.
pub record Net : Type 0 where
  pub clients : ℕ → TcpClient
  pub conn_map : List (ℤ × ℕ)
  pub loop_is_run : Bool

pub data Effect : Type 0 where
  uv_close uv_read_start : ℕ → Effect
  connection_callback : ℕ → ConnectionStatus → Effect
  message_callback : ℕ → List ℕ → Effect
  freed : Effect

-- `g_conn_map.find`, `g_conn_map[fd] = client` and `g_conn_map.erase`.
unfoldable pub find_conn : ℤ → List (ℤ × ℕ) → Option ℕ
find_conn fd [] = none
find_conn fd ((k, i) ∷ m) = if k ==ℤ fd then some i else find_conn fd m

unfoldable pub erase_conn : ℤ → List (ℤ × ℕ) → List (ℤ × ℕ)
erase_conn fd [] = []
erase_conn fd ((k, i) ∷ m) = let rest = erase_conn fd m in if k ==ℤ fd then rest else (k, i) ∷ rest

unfoldable pub put_conn : ℤ → ℕ → List (ℤ × ℕ) → List (ℤ × ℕ)
unfolding erase_conn
put_conn fd i m = (fd, i) ∷ erase_conn fd m

unfoldable pub set_client : ℕ → TcpClient → Net → Net
set_client this c net = record net { clients = λ i. if i == this then c else net.clients i }

unfoldable pub close_effects : Option ℕ → List Effect
close_effects none = []
close_effects (some h) = uv_close h ∷ []

-- `close()`
unfoldable pub close : ℕ → Net → Net × List Effect
unfolding set_client erase_conn close_effects
close this net =
    let c = net.clients this in
    let closed =
      set_client this (record c { tcp_handle = none; connect_status = disconnected }) net in
    (
      record closed {
        conn_map =
            if c.sock_fd ==ℤ minus_one then net.conn_map else erase_conn c.sock_fd net.conn_map;
      },
      close_effects c.tcp_handle,
    )

-- What the calls of `connect()` answer: the new handle, the three return codes, and the descriptor
-- that `uv_fileno` stores.
pub record ConnectAnswers : Type 0 where
  pub handle : ℕ
  pub tcp_init : ℤ
  pub ip4_addr : ℤ
  pub tcp_connect : ℤ
  pub fileno : ℤ

-- The part of `connect()` behind the address test.
unfoldable pub start_connect : ℕ → ConnectAnswers → Net → Bool × Net × List Effect
unfolding set_client put_conn close
start_connect this a net =
    let c = net.clients this in
    let waiting = set_client this (record c { connect_status = connecting }) net in
    if a.tcp_connect ==ℤ pos 0
    then (let registered =
          set_client this (record c { connect_status = connecting; sock_fd = a.fileno }) net in
        (true, record registered { conn_map = put_conn a.fileno this net.conn_map }, []))
    else (let (closed, effects) = close this waiting in (false, closed, effects))

-- The object when `connect()` has closed the old line and made the new handle.
unfoldable pub prepare : ℕ → List ℕ → ℕ → ℕ → Net → Net
prepare this ip port handle net =
    let closed = (close this net).0 in
    set_client this
      (record (closed.clients this) {
        server_ip = ip;
        server_port = port % 2 ^ 16;
        tcp_handle = some handle;
      })
      closed

-- `connect(serverIp, port)`
unfoldable pub connect : ℕ → List ℕ → ℕ → ConnectAnswers → Net → Outcome (Bool × Net × List Effect)
connect this ip port a net = do
  let effects = (close this net).1
  let ready = prepare this ip port a.handle net
  assert net.loop_is_run
  if a.tcp_init ==ℤ minus_one
      then ok (false, ready, effects)
      else (if a.ip4_addr ==ℤ minus_one
          then ok (false, ready, effects)
          else (let (done, net', more) = start_connect this a ready in
              ok (done, net', effects ++ more)))

-- `send(buff, len)` answers what the system call answers.
unfoldable pub send : ℕ → ℤ → Net → Outcome ℤ
send this answer net = do assert (is_connect_ok (net.clients this).connect_status); ok answer

unfoldable pub set_connection_callback : ℕ → Net → Net
unfolding set_client
set_connection_callback this net =
    set_client this (record (net.clients this) { connection_cb = true }) net

unfoldable pub set_message_callback : ℕ → Net → Net
unfolding set_client
set_message_callback this net =
    set_client this (record (net.clients this) { message_cb = true }) net

-- `setConnectionStatus(status)`
unfoldable pub set_connection_status : ℕ → ConnectionStatus → Net → Net × List Effect
unfolding set_client
set_connection_status this status net = (
  set_client this (record (net.clients this) { connect_status = status }) net,
  if (net.clients this).connection_cb then connection_callback this status ∷ [] else [],
)

-- A handle as a callback gets it: what `uv_fileno` answers for it, and the descriptor that it
-- stores.
pub record StreamHandle : Type 0 where
  pub handle : ℕ
  pub fileno_ret : ℤ
  pub fd : ℤ

-- `findTcpClient(handle)`
unfoldable pub find_tcp_client : StreamHandle → Net → Outcome (Option ℕ)
unfolding find_conn
find_tcp_client h net = do assert (h.fileno_ret ==ℤ pos 0); ok (find_conn h.fd net.conn_map)

-- `close()` and `setConnectionStatus(kDisConnected)`, as the two event handlers do on a lost line.
unfoldable pub lose : Option ℕ → Net → Net × List Effect
lose none net = (net, [])
lose (some i) net =
    let (closed, effects) = close i net in
    let (told, more) = set_connection_status i disconnected closed in (told, effects ++ more)

-- The success branch of `onConnect`; its assert fails on a handle that is not in the map.
unfoldable pub connected : StreamHandle → Option ℕ → Net → Outcome (Net × List Effect)
connected h none net = abort
connected h (some i) net =
    let (told, effects) = set_connection_status i connect_ok net in
    ok (told, effects ++ uv_read_start h.handle ∷ [])

-- `onConnect(req, status)`
unfoldable pub on_connect : StreamHandle → ℤ → Net → Outcome (Net × List Effect)
on_connect h status net = do
  found ← find_tcp_client h net
  if status ==ℤ pos 0 then connected h found net else ok (lose found net)

unfoldable pub received : Option ℕ → List ℕ → Net → List Effect
received none bytes net = []
received (some i) bytes net =
    if (net.clients i).message_cb then message_callback i bytes ∷ [] else []

-- `onRead(client, nread, buf)`, with the `nread` bytes of `buf`.
unfoldable pub on_read : StreamHandle → ℤ → List ℕ → Net → Outcome (Net × List Effect)
on_read h nread bytes net =
    if is_positive nread
    then (do found ← find_tcp_client h net; ok (net, received found bytes net))
    else (if is_negative nread
        then (do
          found ← find_tcp_client h net
          let (lost, effects) = lose found net
          ok (lost, effects ++ freed ∷ []))
        else ok (net, freed ∷ []))

-- `ping(serverIp, port)`, by what `socket` and `::connect` answer.
unfoldable pub ping : ℤ → ℤ → Bool
ping fd ret = if fd ==ℤ minus_one then false else not (ret ==ℤ minus_one)
