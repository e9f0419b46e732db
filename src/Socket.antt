-- ===== src/Socket.antt =====
-- sylar/socket.h and sylar/socket.cpp: the state of a Socket.
--
-- Addresses are a type `A` of which only the family is used. What the system and the hooks answer is an
-- argument of each operation: a descriptor is `none` for -1, and a call that returns 0 is `true`. The
-- descriptors that an operation opens and closes are its effects, in order. The options that `initSock`
-- sets, whose results are not looked at, are left out, and so is what is logged.
pub mod Own
pub mod Connect
pub mod Timeout
mod Runs
use sylar_demo.Common.{
  ℕ, ◌*◌, ◌/◌, ◌%◌, ◌^◌, Bool, true, false, not, ◌&&◌, List, [], ◌∷◌, ◌++◌, Option, none, some,
  ◌==◌, if◌then◌else◌,
}
use sylar_demo.FdManager.{FdCtx, so_rcvtimeo, get_timeout}
use sylar_demo.Hook.Fcntl.{sol_socket, so_sndtimeo, set_option}

pub record Socket (A : Type 0) : Type 0 where
  pub sock : Option ℕ
  pub family : ℕ
  pub type : ℕ
  pub protocol : ℕ
  pub is_connected : Bool
  pub local_address : Option A
  pub remote_address : Option A

pub data Effect : Type 0 where
  opens : ℕ → Effect
  closes : ℕ → Effect

abbrev pub is_some {ℓ} : {B : Type ℓ} → Option B → Bool
is_some none = false
is_some (some b) = true

-- The descriptor that is made, or given back, if there is one.
abbrev pub opening : Option ℕ → List Effect
opening none = []
opening (some fd) = opens fd ∷ []

abbrev pub closing : Option ℕ → List Effect
closing none = []
closing (some fd) = closes fd ∷ []

module _ {A : Type 0} where
  -- The constructor, and the `Create` functions for a stream.
  pub new_socket : ℕ → ℕ → ℕ → Socket A
  new_socket family type protocol = record {
    sock = none;
    family = family;
    type = type;
    protocol = protocol;
    is_connected = false;
    local_address = none;
    remote_address = none;
  }

  pub is_valid : Socket A → Bool
  is_valid s = is_some s.sock

  -- `newSock`, where `socket` returns `fd`.
  pub new_sock : Option ℕ → Socket A → List Effect × Socket A
  new_sock fd s = (opening fd, record s { sock = fd })

  -- `CreateUDP`, `CreateUDPSocket` and `CreateUDPSocket6`: SOCK_DGRAM is 2.
  pub create_udp : ℕ → Option ℕ → List Effect × Socket A
  unfolding new_socket new_sock
  create_udp family fd =
      let (effects, s) = new_sock fd (new_socket family 2 0) in
      (effects, record s { is_connected = true })

  -- `getRemoteAddress` and `getLocalAddress`, by what getpeername and getsockname answer: what is
  -- returned, where `none` is an UnknownAddress, and the socket.
  pub get_remote_address : Option A → Socket A → Option A × Socket A
  get_remote_address peer s =
      if is_some s.remote_address
      then (s.remote_address, s)
      else (peer, record s { remote_address = peer })

  pub get_local_address : Option A → Socket A → Option A × Socket A
  get_local_address name s =
      if is_some s.local_address
      then (s.local_address, s)
      else (name, record s { local_address = name })

  -- `close`, with the result that it returns.
  pub close : Socket A → List Effect × Bool × Socket A
  close s =
      if not s.is_connected && not (is_some s.sock)
      then ([], true, s)
      else (closing s.sock, false, record s { is_connected = false; sock = none })

  -- `init`, of a descriptor that is known as an open socket or not.
  pub init : ℕ → Bool → Option A → Option A → Socket A → Bool × Socket A
  unfolding get_local_address get_remote_address
  init sock known name peer s =
      let v = record s { sock = some sock; is_connected = true } in
      if known then (true, (get_remote_address peer (get_local_address name v).1).1) else (false, s)

  -- `accept`, where the system returns `newsock`: the socket of the client, if one is returned.
  abbrev pub accepted :
      Option ℕ → Bool → Option A → Option A → Socket A → List Effect × Option (Socket A)
  unfolding init
  accepted none known name peer client = ([], none)
  accepted (some fd) known name peer client =
      let (done, s) = init fd known name peer client in
      (opens fd ∷ [], if done then some s else none)

  pub accept : Option ℕ → Bool → Option A → Option A → Socket A → List Effect × Option (Socket A)
  unfolding accepted new_socket
  accept newsock known name peer s =
      accepted newsock known name peer (new_socket s.family s.type s.protocol)

  -- The start of `bind` and `connect`: a descriptor is made where there is none.
  abbrev pub ensured : Option ℕ → Socket A → List Effect × Socket A
  unfolding new_sock is_valid
  ensured fd s = if is_valid s then ([], s) else new_sock fd s

  -- `bind` to an address of the family `f`; `taken` is whether it is a UnixAddress to which another
  -- socket can connect.
  pub bind : ℕ → Option ℕ → Bool → Bool → Option A → Socket A → List Effect × Bool × Socket A
  unfolding ensured get_local_address
  bind f fd taken bound name s =
      let (effects, v) = ensured fd s in
      if not (is_valid v)
      then (effects, false, v)
      else if not (f == v.family)
      then (effects, false, v)
      else if taken
      then (effects, false, v)
      else if bound
      then (effects, true, (get_local_address name v).1)
      else (effects, false, v)

  -- `connect` to an address of the family `f`, and `reconnect`. With a timeout or without, the call
  -- that is made returns 0 or not.
  pub connect :
      A → ℕ → Option ℕ → Bool → Option A → Option A → Socket A → List Effect × Bool × Socket A
  unfolding ensured get_local_address get_remote_address close
  connect addr f fd done name peer s =
      let (effects, v) = ensured fd (record s { remote_address = some addr }) in
      let (closed, result, shut) = close v in
      let w = record v { is_connected = true } in
      if not (is_valid v)
      then (effects, false, v)
      else if not (f == v.family)
      then (effects, false, v)
      else if done
      then (effects, true, (get_local_address name (get_remote_address peer w).1).1)
      else (effects ++ closed, false, shut)

  abbrev pub reconnect_to :
      Option A
      → (A → ℕ)
      → Option ℕ
      → Bool
      → Option A
      → Option A
      → Socket A
      → List Effect × Bool × Socket A
  unfolding connect
  reconnect_to none family_of fd done name peer s = ([], false, s)
  reconnect_to (some addr) family_of fd done name peer s =
      connect addr (family_of addr) fd done name peer (record s { local_address = none })

  pub reconnect :
      (A → ℕ) → Option ℕ → Bool → Option A → Option A → Socket A → List Effect × Bool × Socket A
  unfolding reconnect_to
  reconnect family_of fd done name peer s =
      reconnect_to s.remote_address family_of fd done name peer s

  -- `listen`
  pub listen : Bool → Socket A → Bool
  unfolding is_valid
  listen done s = if is_valid s then done else false

  -- The calls that send and receive, by what the system returns: -1 is `none`.
  pub transfer : Option ℕ → Socket A → Option ℕ
  transfer answer s = if s.is_connected then answer else none

-- `setSendTimeout` and `setRecvTimeout` on what is remembered of the descriptor, and what
-- `getSendTimeout` and `getRecvTimeout` return, -1 as `none`. Milliseconds of less than 2^31 seconds.
pub set_send_timeout : Bool → ℕ → Option FdCtx → Option FdCtx
set_send_timeout enabled v ctx =
    set_option enabled sol_socket so_sndtimeo (v / 1000 % 2 ^ 32) (v % 1000 * 1000) ctx

pub set_recv_timeout : Bool → ℕ → Option FdCtx → Option FdCtx
set_recv_timeout enabled v ctx =
    set_option enabled sol_socket so_rcvtimeo (v / 1000 % 2 ^ 32) (v % 1000 * 1000) ctx

abbrev pub timeout_of : ℕ → Option FdCtx → Option ℕ
timeout_of type none = none
timeout_of type (some c) = some (get_timeout type c)

pub get_send_timeout : Option FdCtx → Option ℕ
get_send_timeout ctx = timeout_of so_sndtimeo ctx

pub get_recv_timeout : Option FdCtx → Option ℕ
get_recv_timeout ctx = timeout_of so_rcvtimeo ctx
