-- ===== src/FdManager.antt =====
-- sylar/fd_manager.h and sylar/fd_manager.cpp: what is remembered of each file descriptor, for the
-- functions of sylar/hook.cpp.
--
-- An `int` is its 32-bit pattern. A `FdCtx` is an object at an address, `heap` the objects, and a null
-- pointer is `none`. What the system says of a descriptor is an argument: `stat` is what fstat finds
-- (`none` where it returns -1, else S_ISSOCK), `flags` what F_GETFL returns.
pub mod Table
pub mod Context
mod Runs
use sylar_demo.Common.{
  ℕ, zero, suc, ◌+◌, ◌-◌, ◌*◌, ◌/◌, ◌%◌, ◌^◌, Bool, true, false, not, ◌||◌, List, [], ◌∷◌, Option,
  none, some, length, get_elem?, set, u32, int_leb, int_index, ltb, ◌==◌, if◌then◌else◌, bit_and,
  bit_or, Step, done, fault,
}

pub record FdCtx : Type 0 where
  pub is_init : Bool
  pub is_socket : Bool
  pub sys_nonblock : Bool
  pub user_nonblock : Bool
  pub is_closed : Bool
  pub fd : ℕ
  pub recv_timeout : ℕ
  pub send_timeout : ℕ

-- O_NONBLOCK and SO_RCVTIMEO of the system's headers.
abbrev pub o_nonblock : ℕ
o_nonblock = 2048

abbrev pub so_rcvtimeo : ℕ
so_rcvtimeo = 20

-- `FdCtx::init`: the flags that it sets with F_SETFL, if it does, what it returns, and the object.
pub init_socket : Bool → ℕ → FdCtx → Option ℕ × Bool × FdCtx
init_socket false flags c =
    (none, c.is_init, record c { sys_nonblock = false; user_nonblock = false; is_closed = false })
init_socket true flags c = (
  if bit_and flags o_nonblock == 0 then some (bit_or flags o_nonblock) else none,
  c.is_init,
  record c { sys_nonblock = true; user_nonblock = false; is_closed = false },
)

pub init_stat : Option Bool → ℕ → FdCtx → Option ℕ × Bool × FdCtx
unfolding init_socket
init_stat none flags c = init_socket false flags (record c { is_init = false; is_socket = false })
init_stat (some socket) flags c =
    init_socket socket flags (record c { is_init = true; is_socket = socket })

pub init : Option Bool → ℕ → FdCtx → Option ℕ × Bool × FdCtx
unfolding init_stat
init stat flags c =
    if c.is_init
    then (none, true, c)
    else init_stat stat flags (record c { recv_timeout = 2 ^ 64 - 1; send_timeout = 2 ^ 64 - 1 })

-- The constructor: the members, and `init()`.
pub new_ctx : ℕ → Option Bool → ℕ → Option ℕ × Bool × FdCtx
new_ctx fd stat flags = init stat flags (record {
  is_init = false;
  is_socket = false;
  sys_nonblock = false;
  user_nonblock = false;
  is_closed = false;
  fd = fd;
  recv_timeout = 2 ^ 64 - 1;
  send_timeout = 2 ^ 64 - 1;
})

unfoldable pub set_timeout : ℕ → ℕ → FdCtx → FdCtx
set_timeout type v c =
    if type == so_rcvtimeo then record c { recv_timeout = v } else record c { send_timeout = v }

unfoldable pub get_timeout : ℕ → FdCtx → ℕ
get_timeout type c = if type == so_rcvtimeo then c.recv_timeout else c.send_timeout

pub record FdManager : Type 0 where
  pub heap : ℕ → FdCtx
  pub datas : List (Option ℕ)

-- The vector's `resize`, with null pointers behind.
pub resize : ℕ → List (Option ℕ) → List (Option ℕ)
resize zero l = []
resize (suc n) [] = none ∷ resize n []
resize (suc n) (x ∷ xs) = x ∷ resize n xs

pub new_manager : (ℕ → FdCtx) → FdManager
new_manager heap = record { heap = heap; datas = resize 64 [] }

-- `(int)m_datas.size() <= fd`, and `fd` as an index, where a negative one wraps.
abbrev pub size_le : List (Option ℕ) → ℕ → Bool
size_le datas fd = int_leb (u32 (length datas)) fd

abbrev pub index : ℕ → ℕ
index fd = int_index fd

-- The end of `get`, from the write lock on; `x` is the address of the new object.
pub create : ℕ → FdCtx → ℕ → FdManager → Step FdManager (Option ℕ)
create x ctx fd s =
    if ltb (index fd) (length s.datas)
    then done (some x) (record s {
      heap = λ a. if a == x then ctx else s.heap a;
      datas = set s.datas (index fd) (some x);
    })
    else fault

-- `if(m_datas[fd] || !auto_create)`, with what the vector has there.
pub get_slot : Option (Option ℕ) → ℕ → FdCtx → ℕ → Bool → FdManager → Step FdManager (Option ℕ)
unfolding create
get_slot none x ctx fd auto_create s = fault
get_slot (some (some old)) x ctx fd auto_create s = done (some old) s
get_slot (some none) x ctx fd auto_create s = if auto_create then create x ctx fd s else done none s

-- `FdManager::get`, as one step.
pub get : ℕ → FdCtx → ℕ → Bool → FdManager → Step FdManager (Option ℕ)
unfolding get_slot
get x ctx fd auto_create s =
    if size_le s.datas fd
    then (if auto_create
        then create x ctx fd (record s { datas = resize (fd * 3 / 2) s.datas })
        else done none s)
    else get_slot (get_elem? s.datas (index fd)) x ctx fd auto_create s

pub del : ℕ → FdManager → Step FdManager (Unit {0})
del fd s =
    if size_le s.datas fd
    then done tt s
    else if ltb (index fd) (length s.datas)
    then done tt (record s { datas = set s.datas (index fd) none })
    else fault
