-- ===== src/ByteArray.antt =====
-- sylar/bytearray.h and sylar/bytearray.cpp: the chain of nodes, its growth, and the functions that
-- move bytes. `sylar_demo.Codec` models the integers and strings that are written with these.
--
-- A node is the list of its bytes, its `size` the length of that list. `m_root` and the `next`
-- pointers are the list of nodes, and the pointer `m_cur` is an index into it: an index past the
-- end is NULL. Reading through NULL, or outside a node, is a fault.
pub mod Chain
pub mod Valid
pub mod Grow
pub mod Write
pub mod Walk
pub mod Read
pub mod ReadAt
pub mod Position
pub mod Vectors
pub mod Buffers
mod Runs
use sylar_demo.Common.{
  ℕ, zero, suc, ◌+◌, ◌-◌, ◌*◌, ◌/◌, ◌%◌, Bool, true, false, List, [], ◌∷◌, ◌++◌, Option, none, some,
  length, take, drop, add64, sub64, ltb, leb, ◌==◌, if◌then◌else◌, Step, done, thrown, fault,
}
use sylar_demo.Endian.{Endian, little, big}

abbrev pub Node : Type 0
Node = List ℕ

-- `fresh` stands for the allocator: the bytes that `new char[s]` leaves uninitialised. It is an
-- arbitrary function of the byte's offset in the chain, and no operation changes it.
pub record ByteArray : Type 0 where
  pub base_size : ℕ
  pub position : ℕ
  pub capacity : ℕ
  pub size : ℕ
  pub endian : Endian
  pub nodes : List Node
  pub cur : ℕ
  pub fresh : ℕ → ℕ

-- `new Node(s)`, with the bytes found from offset `start` on.
pub new_node : (ℕ → ℕ) → ℕ → ℕ → Node
new_node fresh start zero = []
new_node fresh start (suc s) = fresh start ∷ new_node fresh (start + 1) s

pub init : ℕ → (ℕ → ℕ) → ByteArray
init base_size fresh = record {
  base_size = base_size;
  position = 0;
  capacity = base_size;
  size = 0;
  endian = big;
  nodes = new_node fresh 0 base_size ∷ [];
  cur = 0;
  fresh = fresh;
}

pub is_little_endian : ByteArray → Bool
is_little_endian b = elim b.endian [ little ↦ true | big ↦ false ]

pub set_is_little_endian : Bool → ByteArray → ByteArray
set_is_little_endian val b = record b { endian = if val then little else big }

pub get_read_size : ByteArray → ℕ
get_read_size b = sub64 b.size b.position

pub get_capacity : ByteArray → ℕ
get_capacity b = sub64 b.capacity b.position

-- The loop of `addCapacity` that links `count` new nodes behind the last one.
pub append_nodes : ℕ → ByteArray → ByteArray
append_nodes zero b = b
append_nodes (suc count) b = append_nodes count (record b {
  nodes = b.nodes ++ (new_node b.fresh b.capacity b.base_size ∷ []);
  capacity = add64 b.capacity b.base_size;
})

-- The second half of `addCapacity`, where `missing` bytes are wanted beyond `old_cap`. The first new
-- node gets the index that is the length of the old chain.
pub grow_by : ℕ → ℕ → ByteArray → ByteArray
grow_by old_cap missing b =
    let count = missing / b.base_size + (if missing % b.base_size == 0 then 0 else 1) in
    let grown = append_nodes count b in
    if old_cap == 0 then record grown { cur = length b.nodes } else grown

pub add_capacity : ℕ → ByteArray → ByteArray
add_capacity size b =
    if size == 0
    then b
    else if leb size (get_capacity b)
    then b
    else grow_by (get_capacity b) (size - get_capacity b) b

-- `memcpy` into and out of a node.
pub store : Node → ℕ → List ℕ → Option Node
store node npos bytes =
    if leb (npos + length bytes) (length node)
    then some (take npos node ++ (bytes ++ drop (npos + length bytes) node))
    else none

pub load : Node → ℕ → ℕ → Option (List ℕ)
load node npos n = if leb (npos + n) (length node) then some (take n (drop npos node)) else none

infixl 5 ◌>>=◌
abbrev ◌>>=◌ : {A B : Type 0} → Option A → (A → Option B) → Option B
none >>= f = none
some a >>= f = f a

-- `m_cur->size` after `m_cur = m_cur->next`. At NULL the walk faults on the list itself.
abbrev pub next_size : List Node → ℕ
next_size [] = 0
next_size (node ∷ rest) = length node

-- The loop of `write` over the chain from `m_cur` on: `bytes` are the `size` bytes at `buf + bpos`.
-- It returns the chain, the number of nodes that `m_cur` has passed, and `m_position`.
pub write_loop : List Node → ℕ → ℕ → ℕ → List ℕ → Option (List Node × ℕ × ℕ)
write_loop [] npos ncap position bytes = none
write_loop (node ∷ rest) npos ncap position bytes =
    if leb (length bytes) ncap
    then (do
      node' ← store node npos bytes
      some (
        node' ∷ rest,
        if length node == npos + length bytes then 1 else 0,
        add64 position (length bytes),
      ))
    else (do
      node' ← store node npos (take ncap bytes)
      (rest', passed, position') ←
          write_loop rest 0 (next_size rest) (add64 position ncap) (drop ncap bytes)
      some (node' ∷ rest', passed + 1, position'))

-- What `write` does with the outcome of its loop.
pub end_write : ByteArray → Option (List Node × ℕ × ℕ) → Step ByteArray (Unit {0})
end_write b none = fault
end_write b (some (chain', passed, position)) = done tt (record b {
  nodes = take b.cur b.nodes ++ chain';
  cur = b.cur + passed;
  position = position;
  size = if ltb b.size position then position else b.size;
})

-- What `write` does once there is room. `m_cur->size` is read before the loop.
pub write_here : List ℕ → ByteArray → Step ByteArray (Unit {0})
unfolding end_write
write_here bytes b =
    let npos = b.position % b.base_size in
    let chain = drop b.cur b.nodes in
    end_write b (write_loop chain npos (sub64 (next_size chain) npos) b.position bytes)

-- `write(buf, size)`, the bytes of the buffer as a list of length `size`.
pub write : List ℕ → ByteArray → Step ByteArray (Unit {0})
unfolding write_here
write bytes b =
    if length bytes == 0 then done tt b else write_here bytes (add_capacity (length bytes) b)

-- The loop of both `read`s: the bytes, the number of nodes passed, and the position.
pub read_loop : List Node → ℕ → ℕ → ℕ → ℕ → Option (List ℕ × ℕ × ℕ)
read_loop [] npos ncap position size = if size == 0 then some ([], 0, position) else none
read_loop (node ∷ rest) npos ncap position size =
    if size == 0
    then some ([], 0, position)
    else if leb size ncap
    then (do
      bytes ← load node npos size
      some (bytes, if length node == npos + size then 1 else 0, add64 position size))
    else (do
      front ← load node npos ncap
      (back, passed, position') ←
          read_loop rest 0 (next_size rest) (add64 position ncap) (size - ncap)
      some (front ++ back, passed + 1, position'))

-- `m_cur->size - npos`, before the loop: NULL is a fault even if nothing is asked for.
pub read_chain : List Node → ℕ → ℕ → ℕ → Option (List ℕ × ℕ × ℕ)
unfolding read_loop
read_chain [] npos position size = none
read_chain (node ∷ rest) npos position size =
    read_loop (node ∷ rest) npos (sub64 (length node) npos) position size

-- `read(buf, size)`: the bytes that it puts into `buf`.
pub end_read : ByteArray → Option (List ℕ × ℕ × ℕ) → Step ByteArray (List ℕ)
end_read b none = fault
end_read b (some (bytes, passed, position)) =
    done bytes (record b { cur = b.cur + passed; position = position })

pub read : ℕ → ByteArray → Step ByteArray (List ℕ)
unfolding end_read
read size b =
    if ltb (get_read_size b) size
    then thrown b
    else end_read b (read_chain (drop b.cur b.nodes) (b.position % b.base_size) b.position size)

-- `read(buf, size, position) const`: it walks from the root and leaves the object as it is.
pub end_read_at : ByteArray → Option (List ℕ × ℕ × ℕ) → Step ByteArray (List ℕ)
end_read_at b none = fault
end_read_at b (some (bytes, passed, position)) = done bytes b

pub read_at : ℕ → ℕ → ByteArray → Step ByteArray (List ℕ)
unfolding end_read_at
read_at size position b =
    let npos = position % b.base_size in
    let count = position / b.base_size in
    if ltb (sub64 b.size position) size
    then thrown b
    else end_read_at b (read_chain (drop count b.nodes) npos position size)

-- The loop of `setPosition` that finds the node of offset `v`; it reads `m_cur->size` each round.
pub seek : List Node → ℕ → Option ℕ
seek [] v = none
seek (node ∷ rest) v =
    let further = seek rest (v - length node) in
    if leb (length node) v then (do passed ← further; some (passed + 1)) else some 0

pub end_seek : ℕ → ByteArray → Option ℕ → Step ByteArray (Unit {0})
end_seek v b none = fault
end_seek v b (some cur) =
    done tt (record b { position = v; size = if ltb b.size v then v else b.size; cur = cur })

pub set_position : ℕ → ByteArray → Step ByteArray (Unit {0})
unfolding end_seek
set_position v b = if ltb b.capacity v then thrown b else end_seek v b (seek b.nodes v)

-- `clear`: every node but the root is freed.
pub clear : ByteArray → ByteArray
clear b = record b {
  position = 0;
  size = 0;
  capacity = b.base_size;
  nodes = take 1 b.nodes;
  cur = 0;
}

-- `toString`: `m_position` is not moved.
pub to_string : ByteArray → Step ByteArray (List ℕ)
to_string b = if get_read_size b == 0 then done [] b else read_at (get_read_size b) b.position b

-- An `iovec`: the node and the offset in it that `iov_base` points to, and `iov_len`.
pub record IoVec : Type 0 where
  pub node : ℕ
  pub offset : ℕ
  pub len : ℕ

-- The loop of the three functions below, from node `index` on.
pub buffers_loop : List Node → ℕ → ℕ → ℕ → ℕ → Option (List IoVec)
buffers_loop [] index npos ncap len = if len == 0 then some [] else none
buffers_loop (node ∷ rest) index npos ncap len =
    if len == 0
    then some []
    else if leb len ncap
    then some (record { node = index; offset = npos; len = len } ∷ [])
    else (do
      others ← buffers_loop rest (index + 1) 0 (next_size rest) (len - ncap)
      some (record { node = index; offset = npos; len = ncap } ∷ others))

pub buffers_from : List Node → ℕ → ℕ → ℕ → Option (List IoVec)
buffers_from [] index npos len = none
buffers_from (node ∷ rest) index npos len =
    buffers_loop (node ∷ rest) index npos (sub64 (length node) npos) len

pub end_buffers : ℕ → ByteArray → Option (List IoVec) → Step ByteArray (ℕ × List IoVec)
end_buffers len b none = fault
end_buffers len b (some vectors) = done (len, vectors) b

-- Each returns the number of bytes and the vectors that it pushes.
pub get_read_buffers : ℕ → ByteArray → Step ByteArray (ℕ × List IoVec)
unfolding end_buffers
get_read_buffers asked b =
    let len = if ltb (get_read_size b) asked then get_read_size b else asked in
    if len == 0
    then done (0, []) b
    else end_buffers len b (buffers_from (drop b.cur b.nodes) b.cur (b.position % b.base_size) len)

pub get_read_buffers_at : ℕ → ℕ → ByteArray → Step ByteArray (ℕ × List IoVec)
unfolding end_buffers
get_read_buffers_at asked position b =
    let len = if ltb (sub64 b.size position) asked then sub64 b.size position else asked in
    let count = position / b.base_size in
    if ltb b.size position
    then thrown b
    else if asked == 0
    then done (0, []) b
    else end_buffers len b (buffers_from (drop count b.nodes) count (position % b.base_size) len)

-- The vectors that `getWriteBuffers` pushes once there is room.
pub write_buffers_here : ℕ → ByteArray → Step ByteArray (ℕ × List IoVec)
unfolding end_buffers
write_buffers_here len b =
    end_buffers len b (buffers_from (drop b.cur b.nodes) b.cur (b.position % b.base_size) len)

pub get_write_buffers : ℕ → ByteArray → Step ByteArray (ℕ × List IoVec)
get_write_buffers len b =
    if len == 0 then done (0, []) b else write_buffers_here len (add_capacity len b)
